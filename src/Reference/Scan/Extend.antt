-- ===== src/Reference/Scan/Extend.antt =====
-- What the scanners of reference/picohttpparser.c decide, they decide alike when more bytes follow.
use picohttpparser_rs.Base.{
  ℕ, ◌+◌, ◌≡◌, [], ◌∷◌, ◌++◌, Res, ok, err, partial, malformed, fault, stuck, arith, ◌-◌, ◌==◌, ltb,
  if◌then◌else◌, drop, length, Bool-cases, inl, inr, false,
}
use picohttpparser_rs.Base.Lists.{length-append, drop-append}
use picohttpparser_rs.Reference.Chars.{Bytes, Cursor, cursor, expect_char}
use picohttpparser_rs.Reference.Scan.Hot.{get_token_to_eol-eol_loop}
use picohttpparser_rs.Reference.Scan.{
  advance_loop, advance_token, eol_loop, found_ctl, get_token_to_eol, token_loop, parse_token,
  parse_http_version, complete_loop, is_complete,
}

-- The second result is the first with `more` behind the cursor, or the same refusal; nothing is
-- said where the first asks for more bytes.
abbrev pub Extends : Bytes → Res Cursor → Res Cursor → Type 0
Extends more (ok b) r = r ≡ ok (cursor b.at (b.rest ++ more))
Extends more (err malformed) r = r ≡ err malformed
Extends more (err partial) r = Unit
Extends more (err fault) r = Unit
Extends more (err stuck) r = Unit

abbrev pub ExtendsWith : {A : Type 0} → Bytes → Res (A × Cursor) → Res (A × Cursor) → Type 0
ExtendsWith more (ok (a, b)) r = r ≡ ok (a, cursor b.at (b.rest ++ more))
ExtendsWith more (err malformed) r = r ≡ err malformed
ExtendsWith more (err partial) r = Unit
ExtendsWith more (err fault) r = Unit
ExtendsWith more (err stuck) r = Unit

module _ (more : Bytes) where
  pub expect_char-Extends :
      (ch n : ℕ) (s : Bytes) → Extends more (expect_char ch n s) (expect_char ch n (s ++ more))
  unfolding expect_char
  expect_char-Extends ch n [] = tt
  expect_char-Extends ch n (c ∷ s) = ground arith

  token_loop-Extends :
      (ch n : ℕ) (s : Bytes) → Extends more (token_loop ch n s) (token_loop ch n (s ++ more))
  unfolding token_loop
  token_loop-Extends ch n [] = tt
  token_loop-Extends ch n (c ∷ []) = ground arith
  token_loop-Extends ch n (c ∷ d ∷ s) = ground (arith, token_loop-Extends ch (n + 1) (d ∷ s))

  pub parse_token-Extends :
      (ch n : ℕ) (s : Bytes) → ExtendsWith more (parse_token ch n s) (parse_token ch n (s ++ more))
  unfolding parse_token
  parse_token-Extends ch n [] = tt
  parse_token-Extends ch n (c ∷ s) = ground (arith, token_loop-Extends ch n (c ∷ s))

  advance_loop-Extends :
      (n : ℕ) (s : Bytes) → Extends more (advance_loop n s) (advance_loop n (s ++ more))
  unfolding advance_loop
  advance_loop-Extends n [] = tt
  advance_loop-Extends n (c ∷ []) = ground arith
  advance_loop-Extends n (c ∷ d ∷ s) = ground (arith, advance_loop-Extends (n + 1) (d ∷ s))

  pub advance_token-Extends :
      (n : ℕ) (s : Bytes) → ExtendsWith more (advance_token n s) (advance_token n (s ++ more))
  unfolding advance_token
  advance_token-Extends n [] = tt
  advance_token-Extends n (c ∷ s) = ground (arith, advance_loop-Extends n (c ∷ s))

  eol_loop-Extends : (n : ℕ) (s : Bytes) → Extends more (eol_loop n s) (eol_loop n (s ++ more))
  unfolding eol_loop
  eol_loop-Extends n [] = tt
  eol_loop-Extends n (c ∷ s) = ground (arith, eol_loop-Extends (n + 1) s)

  found_ctl-Extends :
      (start n : ℕ) (s : Bytes)
      → ExtendsWith more (found_ctl start n s) (found_ctl start n (s ++ more))
  unfolding found_ctl
  found_ctl-Extends start n [] = tt
  found_ctl-Extends start n (c ∷ s) = ground (arith, expect_char-Extends b'\n' (n + 1) s)

  pub get_token_to_eol-Extends :
      (n : ℕ) (s : Bytes) → ExtendsWith more (get_token_to_eol n s) (get_token_to_eol n (s ++ more))
  get_token_to_eol-Extends n s =
      rw (get_token_to_eol-eol_loop n s, get_token_to_eol-eol_loop n (s ++ more), ExtendsWith)
        (grind (arith, eol_loop-Extends n s, found_ctl-Extends))

  pub parse_http_version-Extends :
      (n : ℕ) (s : Bytes)
      → ExtendsWith more (parse_http_version n s) (parse_http_version n (s ++ more))
  unfolding parse_http_version
  parse_http_version-Extends n (a ∷ b ∷ c ∷ d ∷ e ∷ f ∷ g ∷ h ∷ i ∷ s) = ground arith
  parse_http_version-Extends n _ = ground arith

  complete_loop-Extends :
      (k n : ℕ) (s : Bytes) → Extends more (complete_loop k n s) (complete_loop k n (s ++ more))
  unfolding complete_loop
  complete_loop-Extends k n [] = tt
  complete_loop-Extends k n (c ∷ []) = ground arith
  complete_loop-Extends k n (c ∷ d ∷ s) = ground (
    arith,
    complete_loop-Extends (k + 1) (n + 2) s,
    complete_loop-Extends (if c == b'\n' then k + 1 else 0) (n + 1) (d ∷ s),
  )

  pub is_complete-Extends :
      (s : Bytes) (last_len : ℕ)
      → Extends more (is_complete s last_len) (is_complete (s ++ more) last_len)
  unfolding is_complete
  is_complete-Extends s last_len = elim (Bool-cases (ltb (length s) (last_len - 3))) [
    | inl short ↦ rw short tt
    | inr long ↦
        rw (long, longer long, drop-append (last_len - 3) s more (ground arith))
          (complete_loop-Extends 0 (last_len - 3) (drop (last_len - 3) s))
  ]
    where
      longer :
          ltb (length s) (last_len - 3) ≡ false → ltb (length (s ++ more)) (last_len - 3) ≡ false
      longer h = ground (arith, length-append s more)
