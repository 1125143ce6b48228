-- ===== src/Reference/Scan.antt =====
-- The scanners of reference/picohttpparser.c: ADVANCE_TOKEN, get_token_to_eol, is_complete,
-- PARSE_INT, parse_token and parse_http_version. A loop over the bytes is a recursion on them;
-- `findchar_fast` finds nothing in this build, and returns `buf` as it is.
pub mod Bounds
pub mod Hot
pub mod Extend
pub mod Breaks
pub mod Complete
pub mod Ate
use picohttpparser_rs.Base.{
  ℕ, zero, suc, ◌+◌, ◌-◌, ◌*◌, [], ◌∷◌, Bool, true, false, not, ◌&&◌, ◌||◌, Res, ok, err, partial,
  malformed, fault, stuck, ◌>>=◌, ltb, ◌==◌, if◌then◌else◌, length, drop,
}
use picohttpparser_rs.Reference.Chars.{
  Bytes, Cursor, cursor, Slice, slice, is_printable_ascii, is_ctl, is_digit, is_token_char,
  check_eof, expect_char, expect_char_no_check,
}

-- `findchar_fast` without SSE4.2: `*found` is 0 and the pointer does not move.
abbrev findchar_fast : ℕ → Bytes → Bool × Cursor
findchar_fast n s = (false, cursor n s)

-- The `while (1)` of ADVANCE_TOKEN.
pub advance_loop : ℕ → Bytes → Res Cursor
advance_loop n [] = err fault
advance_loop n (c ∷ s) =
    if c == b' '
    then ok (cursor n (c ∷ s))
    else if not (is_printable_ascii c) && (ltb c 32 || c == 127)
    then err malformed
    else check_eof s (advance_loop (n + 1) s)

-- ADVANCE_TOKEN(tok, toklen)
unfoldable pub advance_token : ℕ → Bytes → Res (Slice × Cursor)
unfolding advance_loop
advance_token n s = do
  let (found, buf) = findchar_fast n s
  end ← if found then advance_loop buf.at buf.rest else check_eof s (advance_loop n s)
  ok (slice n (end.at - n), end)

-- So many DOIT()s in a row; `false` is the jump to NonPrintable.
pub doit : ℕ → ℕ → Bytes → Res (Bool × Cursor)
doit zero n s = ok (true, cursor n s)
doit (suc k) n [] = err fault
doit (suc k) n (c ∷ s) =
    if is_printable_ascii c then doit k (n + 1) s else ok (false, cursor n (c ∷ s))

-- NonPrintable: jump to FOUND_CTL at a control character, and go on behind any other byte.
unfoldable pub non_printable : Bytes → Cursor → Res (Bool × Cursor) → Res (Bool × Cursor)
non_printable [] buf next = err fault
non_printable (c ∷ s) buf next = if is_ctl c then ok (true, buf) else next

-- What follows eight DOIT()s: `continue`, or NonPrintable. `again` is the test of the loop.
unfoldable pub after_doit :
    (ℕ → Bytes → Res (Bool × Cursor)) → Res (Bool × Cursor) → Res (Bool × Cursor)
unfolding non_printable
after_doit again (ok (true, buf)) = again buf.at buf.rest
after_doit again (ok (false, buf)) =
    non_printable buf.rest buf (again (buf.at + 1) (drop 1 buf.rest))
after_doit again (err e) = err e

-- `while (likely(buf_end - buf >= 8))`, on fuel; `true` is the jump to FOUND_CTL.
pub hot_loop : ℕ → ℕ → Bytes → Res (Bool × Cursor)
unfolding after_doit
hot_loop zero n s = err stuck
hot_loop (suc fuel) n s = elim (ltb (length s) 8) [
  | true ↦ ok (false, cursor n s)
  | false ↦ after_doit (hot_loop fuel) (doit 8 n s)
]

-- `for (;; ++buf)`, up to the jump to FOUND_CTL.
pub eol_loop : ℕ → Bytes → Res Cursor
eol_loop n [] = err partial
eol_loop n (c ∷ s) =
    if not (is_printable_ascii c) && is_ctl c then ok (cursor n (c ∷ s)) else eol_loop (n + 1) s

-- FOUND_CTL: the line must end here.
unfoldable pub found_ctl : ℕ → ℕ → Bytes → Res (Slice × Cursor)
unfolding expect_char
found_ctl start n [] = err fault
found_ctl start n (c ∷ s) =
    if c == b'\r'
    then (do buf ← expect_char b'\n' (n + 1) s; ok (slice start (buf.at - 2 - start), buf))
    else if c == b'\n'
    then ok (slice start (n - start), cursor (n + 1) s)
    else err malformed

-- A round of the hot loop moves on by a byte at least, so the fuel is enough.
unfoldable pub get_token_to_eol : ℕ → Bytes → Res (Slice × Cursor)
unfolding hot_loop after_doit doit eol_loop found_ctl
get_token_to_eol n s = do
  (found, buf) ← hot_loop (length s + 1) n s
  ctl ← if found then ok buf else eol_loop buf.at buf.rest
  found_ctl n ctl.at ctl.rest

-- `if (ret_cnt == 2) return buf;`, and the next round otherwise.
abbrev pub unless_two : ℕ → Cursor → Res Cursor → Res Cursor
unless_two ret_cnt buf next = if ret_cnt == 2 then ok buf else next

-- The `while (1)` of is_complete, with its `ret_cnt`.
pub complete_loop : ℕ → ℕ → Bytes → Res Cursor
complete_loop ret_cnt n [] = err partial
complete_loop ret_cnt n (c ∷ []) =
    if c == b'\r'
    then err partial
    else unless_two (if c == b'\n' then ret_cnt + 1 else 0) (cursor (n + 1) []) (err partial)
complete_loop ret_cnt n (c ∷ d ∷ s) =
    let after_crlf = complete_loop (ret_cnt + 1) (n + 2) s in
    let seen = if c == b'\n' then ret_cnt + 1 else 0 in
    let after_byte = complete_loop seen (n + 1) (d ∷ s) in
    if c == b'\r'
    then (if d == b'\n'
        then unless_two (ret_cnt + 1) (cursor (n + 2) s) after_crlf
        else err malformed)
    else unless_two seen (cursor (n + 1) (d ∷ s)) after_byte

-- `buf + last_len - 3` may lie behind `buf_end`; CHECK_EOF does not see that, and `*buf` is read.
unfoldable pub is_complete : Bytes → ℕ → Res Cursor
unfolding complete_loop
is_complete s last_len =
    let skip = last_len - 3 in
    if ltb (length s) skip then err fault else complete_loop 0 skip (drop skip s)

-- PARSE_INT(valp_, mul_): the value that it stores.
unfoldable pub parse_int : ℕ → ℕ → Bytes → Res (ℕ × Cursor)
parse_int mul n [] = err fault
parse_int mul n (c ∷ s) =
    if is_digit c then ok (mul * (c - b'0'), cursor (n + 1) s) else err malformed

-- The `while (1)` of parse_token.
pub token_loop : ℕ → ℕ → Bytes → Res Cursor
token_loop next_char n [] = err fault
token_loop next_char n (c ∷ s) =
    if c == next_char
    then ok (cursor n (c ∷ s))
    else if not (is_token_char c)
    then err malformed
    else check_eof s (token_loop next_char (n + 1) s)

unfoldable pub parse_token : ℕ → ℕ → Bytes → Res (Slice × Cursor)
unfolding token_loop
parse_token next_char n s = do
  let (found, buf) = findchar_fast n s
  end ←
      if found then token_loop next_char buf.at buf.rest else check_eof s (token_loop next_char n s)
  ok (slice n (end.at - n), end)

unfoldable pub parse_http_version : ℕ → Bytes → Res (ℕ × Cursor)
unfolding expect_char_no_check parse_int
parse_http_version n s = if ltb (length s) 9 then err partial else (do
  b1 ← expect_char_no_check b'H' n s
  b2 ← expect_char_no_check b'T' b1.at b1.rest
  b3 ← expect_char_no_check b'T' b2.at b2.rest
  b4 ← expect_char_no_check b'P' b3.at b3.rest
  b5 ← expect_char_no_check b'/' b4.at b4.rest
  b6 ← expect_char_no_check b'1' b5.at b5.rest
  b7 ← expect_char_no_check b'.' b6.at b6.rest
  parse_int 1 b7.at b7.rest)
