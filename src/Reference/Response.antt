-- ===== src/Reference/Response.antt =====
-- parse_response and phr_parse_response of reference/picohttpparser.c.
pub mod Bounds
pub mod Extend
pub mod Resume
use picohttpparser_rs.Base.{
  ℕ, ◌+◌, ◌-◌, ◌%◌, ◌^◌, [], ◌∷◌, List, none, some, Res, ok, err, partial, malformed, fault, ltb,
  ◌==◌, if◌then◌else◌, length, pos, negsuc,
}
use picohttpparser_rs.Reference.Chars.{Bytes, Cursor, Slice, slice}
use picohttpparser_rs.Reference.Headers.{gate, parse_headers}
use picohttpparser_rs.Reference.Output.{
  Header, HeaderTable, ResponseOut, M, ◌>>=◌, ◌>>◌, lift, modify,
}
use picohttpparser_rs.Reference.Request.{skip_spaces}
use picohttpparser_rs.Reference.Scan.{get_token_to_eol, parse_http_version, parse_int}

-- `if (*buf != ' ')`, at the byte behind the version.
unfoldable pub version_space : Cursor → Res Cursor
version_space buf = elim buf.rest [
  | [] ↦ err fault
  | c ∷ _ ↦ if c == b' ' then ok buf else err malformed
]

-- PARSE_INT_3(valp_), which stores the value after every digit.
unfoldable pub parse_int_3 : ℕ → Bytes → M ResponseOut Cursor
parse_int_3 n s = do
  (d1, b1) ← lift (parse_int 100 n s)
  modify (λ o. record o { status = pos d1 })
  (d2, b2) ← lift (parse_int 10 b1.at b1.rest)
  modify (λ o. record o { status = pos (d1 + d2) })
  (d3, b3) ← lift (parse_int 1 b2.at b2.rest)
  modify (λ o. record o { status = pos (d1 + d2 + d3) })
  lift (ok b3)

unfoldable pub parse_status : ℕ → Bytes → M ResponseOut Cursor
unfolding parse_int_3
parse_status n s = if ltb (length s) 4 then lift (err partial) else parse_int_3 n s

-- `do { ++*msg; --*msg_len; } while (**msg == ' ');`, with the wrap of a 64-bit size_t. The bytes
-- are those from `*msg` on; the first round is made at a space, as the code enters it there.
pub strip_loop : ℕ → ℕ → Bytes → Res Slice
strip_loop start len [] = err fault
strip_loop start len (c ∷ s) =
    if c == b' '
    then strip_loop (start + 1) ((len + 2 ^ 64 - 1) % 2 ^ 64) s
    else ok (slice start len)

-- The message without the space before it; `s` are the bytes from `msg.start` on.
unfoldable pub strip_message : Bytes → Slice → Res Slice
unfolding strip_loop
strip_message s msg = if msg.len == 0 then ok msg else elim s [
  | [] ↦ err fault
  | c ∷ t ↦ if c == b' ' then strip_loop msg.start msg.len (c ∷ t) else err malformed
]

-- An action on the header table, which is a part of the outputs.
abbrev on_table : {A : Type 0} → M HeaderTable A → M ResponseOut A
on_table m o = let (r, t) = m o.table in (r, record o { table = t })

unfoldable pub parse_response : ℕ → ℕ → Bytes → M ResponseOut Cursor
unfolding version_space parse_status strip_message
parse_response max_headers n s = do
  (version, b1) ← lift (parse_http_version n s)
  modify (λ o. record o { minor_version = pos version })
  b2 ← lift (version_space b1)
  b3 ← lift (skip_spaces b2)
  b4 ← parse_status b3.at b3.rest
  (msg, b5) ← lift (get_token_to_eol b4.at b4.rest)
  modify (λ o. record o { msg = some msg })
  text ← lift (strip_message b4.rest msg)
  modify (λ o. record o { msg = some text })
  on_table (parse_headers max_headers b5.at b5.rest)

-- What the outputs hold before anything is parsed.
abbrev pub cleared_response : List Header → ResponseOut
cleared_response headers = record {
  minor_version = negsuc 0;
  status = pos 0;
  msg = none;
  table = record { slots = headers; num_headers = 0 };
}

unfoldable pub phr_parse_response : Bytes → List Header → ℕ → ℕ → Res Cursor × ResponseOut
unfolding parse_response
phr_parse_response s headers max_headers last_len =
    (do lift (gate s last_len); parse_response max_headers 0 s) (cleared_response headers)
