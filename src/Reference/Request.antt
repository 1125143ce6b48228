-- ===== src/Reference/Request.antt =====
-- parse_request and phr_parse_request of reference/picohttpparser.c.
pub mod Bounds
pub mod Extend
pub mod Resume
pub mod Keeps
use picohttpparser_rs.Base.{
  ℕ, ◌+◌, [], ◌∷◌, List, ◌||◌, none, some, Res, ok, err, partial, malformed, fault, ◌==◌,
  if◌then◌else◌, pos, negsuc,
}
use picohttpparser_rs.Reference.Chars.{Bytes, Cursor, cursor, expect_char}
use picohttpparser_rs.Reference.Headers.{advance, gate, parse_headers}
use picohttpparser_rs.Reference.Output.{
  Header, HeaderTable, RequestOut, M, ◌>>=◌, ◌>>◌, lift, modify,
}
use picohttpparser_rs.Reference.Scan.{advance_token, parse_http_version, parse_token}

-- The tests of `do { ++buf; CHECK_EOF(); } while (*buf == ' ');`, behind the first `++buf`.
pub space_loop : ℕ → Bytes → Res Cursor
space_loop n [] = err partial
space_loop n (c ∷ s) = if c == b' ' then space_loop (n + 1) s else ok (cursor n (c ∷ s))

unfoldable pub skip_spaces : Cursor → Res Cursor
unfolding space_loop
skip_spaces buf = space_loop (advance buf).at (advance buf).rest

-- The empty line before the request line.
unfoldable pub skip_empty_line : ℕ → Bytes → Res Cursor
skip_empty_line n [] = err partial
skip_empty_line n (c ∷ s) =
    if c == b'\r'
    then expect_char b'\n' (n + 1) s
    else if c == b'\n'
    then ok (cursor (n + 1) s)
    else ok (cursor n (c ∷ s))

-- The end of the request line.
unfoldable pub line_end : ℕ → Bytes → Res Cursor
line_end n [] = err fault
line_end n (c ∷ s) =
    if c == b'\r'
    then expect_char b'\n' (n + 1) s
    else if c == b'\n'
    then ok (cursor (n + 1) s)
    else err malformed

-- An action on the header table, which is a part of the outputs.
abbrev on_table : {A : Type 0} → M HeaderTable A → M RequestOut A
on_table m o = let (r, t) = m o.table in (r, record o { table = t })

unfoldable pub parse_request : ℕ → ℕ → Bytes → M RequestOut Cursor
unfolding skip_spaces skip_empty_line line_end
parse_request max_headers n s = do
  b0 ← lift (skip_empty_line n s)
  (method, b1) ← lift (parse_token b' ' b0.at b0.rest)
  modify (λ o. record o { method = some method })
  b2 ← lift (skip_spaces b1)
  (path, b3) ← lift (advance_token b2.at b2.rest)
  modify (λ o. record o { path = some path })
  b4 ← lift (skip_spaces b3)
  lift (if method.len == 0 || path.len == 0 then err malformed else ok tt)
  (version, b5) ← lift (parse_http_version b4.at b4.rest)
  modify (λ o. record o { minor_version = pos version })
  b6 ← lift (line_end b5.at b5.rest)
  on_table (parse_headers max_headers b6.at b6.rest)

-- What the outputs hold before anything is parsed.
abbrev pub cleared_request : List Header → RequestOut
cleared_request headers = record {
  method = none;
  path = none;
  minor_version = negsuc 0;
  table = record { slots = headers; num_headers = 0 };
}

unfoldable pub phr_parse_request : Bytes → List Header → ℕ → ℕ → Res Cursor × RequestOut
unfolding parse_request
phr_parse_request s headers max_headers last_len =
    (do lift (gate s last_len); parse_request max_headers 0 s) (cleared_request headers)
