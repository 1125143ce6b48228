-- ===== src/Reference/Headers.antt =====
-- parse_headers and phr_parse_headers of reference/picohttpparser.c.
pub mod Table
pub mod Slot
pub mod Steps
pub mod Value
pub mod Line
pub mod Bounds
pub mod Extend
pub mod Ate
pub mod Keeps
use picohttpparser_rs.Base.{
  ℕ, zero, suc, ◌+◌, [], ◌∷◌, List, not, ◌&&◌, none, some, Res, ok, err, partial, malformed, stuck,
  ◌==◌, if◌then◌else◌, length, drop, get_or,
}
use picohttpparser_rs.Reference.Chars.{Bytes, Cursor, cursor, slice, is_blank, expect_char}
use picohttpparser_rs.Reference.Output.{
  Header, HeaderTable, M, ◌>>=◌, ◌>>◌, lift, modify, gets, store,
}
use picohttpparser_rs.Reference.Scan.{get_token_to_eol, is_complete, parse_token}

-- The loop behind the colon.
pub blank_loop : ℕ → Bytes → Res Cursor
blank_loop n [] = err partial
blank_loop n (c ∷ s) = if is_blank c then blank_loop (n + 1) s else ok (cursor n (c ∷ s))

-- `++buf`
abbrev pub advance : Cursor → Cursor
advance buf = cursor (buf.at + 1) (drop 1 buf.rest)

-- The loop that removes trailing blanks: what is left of `value_len`, for a value at the front of
-- these bytes.
pub trim_loop : Bytes → ℕ → ℕ
trim_loop s zero = 0
trim_loop s (suc k) =
    let shorter = trim_loop s k in if is_blank (get_or s k 0) then shorter else suc k

-- A header's name, and what stands between it and the value.
unfoldable pub header_name : ℕ → ℕ → Bytes → M HeaderTable Cursor
unfolding blank_loop
header_name i n s = do
  (name, buf) ← lift (parse_token b':' n s)
  store i (λ h. record h { name = some name })
  lift (if name.len == 0 then err malformed else ok tt)
  lift (blank_loop (advance buf).at (advance buf).rest)

-- A line that goes on with the header before: its name is NULL.
unfoldable pub header_continuation : ℕ → ℕ → Bytes → M HeaderTable Cursor
header_continuation i n s = do store i (λ h. record h { name = none }); lift (ok (cursor n s))

-- A header's value, and `++*num_headers`.
unfoldable pub header_value : ℕ → ℕ → Bytes → M HeaderTable Cursor
unfolding trim_loop
header_value i n s = do
  (value, buf) ← lift (get_token_to_eol n s)
  store i (λ h. record h { value = some (slice value.start (trim_loop s value.len)) })
  modify (λ t. record t { num_headers = t.num_headers + 1 })
  lift (ok buf)

-- One round of the loop of parse_headers, at a byte `c` that ends no header block.
unfoldable pub header_line : ℕ → ℕ → ℕ → Bytes → M HeaderTable Cursor
unfolding header_name header_continuation header_value
header_line max_headers n c s = do
  i ← gets (λ t. t.num_headers)
  lift (if i == max_headers then err malformed else ok tt)
  buf ←
      if not (not (i == 0) && is_blank c)
      then header_name i n (c ∷ s)
      else header_continuation i n (c ∷ s)
  header_value i buf.at buf.rest

-- The loop of parse_headers, on fuel.
pub header_loop : ℕ → ℕ → ℕ → Bytes → M HeaderTable Cursor
header_loop zero max_headers n s = lift (err stuck)
header_loop (suc fuel) max_headers n [] = lift (err partial)
header_loop (suc fuel) max_headers n (c ∷ s) =
    if c == b'\r'
    then lift (expect_char b'\n' (n + 1) s)
    else if c == b'\n'
    then lift (ok (cursor (n + 1) s))
    else (do buf ← header_line max_headers n c s; header_loop fuel max_headers buf.at buf.rest)

-- A round takes a byte at least, so the fuel is enough.
unfoldable pub parse_headers : ℕ → ℕ → Bytes → M HeaderTable Cursor
unfolding header_loop header_line
parse_headers max_headers n s = header_loop (length s + 1) max_headers n s

-- `if (last_len != 0 && is_complete(...) == NULL)`
unfoldable pub gate : Bytes → ℕ → Res (Unit {0})
gate s last_len =
    if last_len == 0 then ok tt else elim (is_complete s last_len) [ ok _ ↦ ok tt | err e ↦ err e ]

-- The number of bytes read, with the slots and `*num_headers` as the call leaves them.
unfoldable pub phr_parse_headers : Bytes → List Header → ℕ → ℕ → Res Cursor × HeaderTable
unfolding parse_headers gate
phr_parse_headers s headers max_headers last_len =
    (do lift (gate s last_len); parse_headers max_headers 0 s)
      (record { slots = headers; num_headers = 0 })
