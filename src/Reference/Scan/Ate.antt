-- ===== src/Reference/Scan/Ate.antt =====
-- The bytes that the scanners of reference/picohttpparser.c step over.
use mathlib.Core.Path.{subst}
use picohttpparser_rs.Base.{
  ℕ, ◌+◌, ◌≡◌, refl, sym, [], ◌∷◌, true, false, not, ◌&&◌, ◌||◌, Res, ok, err, arith, length, ltb,
  ◌==◌, Bool-cases, inl, inr, ==_iff,
}
use picohttpparser_rs.Reference.Ate.{
  Ate, stay, byte, LineEnd, at_lf, at_crlf, AteLine, When, passes, fails, When-bind, When-check_eof,
  When-mono, Ate-trans,
}
use picohttpparser_rs.Reference.Chars.{
  Bytes, Cursor, is_token_char, is_printable_ascii, is_ctl, expect_char, expect_char_no_check,
  is_digit,
}
use picohttpparser_rs.Reference.Scan.Hot.{get_token_to_eol-eol_loop}
use picohttpparser_rs.Reference.Scan.{
  token_loop, parse_token, advance_loop, advance_token, eol_loop, found_ctl, get_token_to_eol,
  parse_int, parse_http_version,
}

-- The byte `ch` comes next.
abbrev pub Starts : ℕ → Bytes → Type 0
Starts ch [] = ⊥
Starts ch (c ∷ s) = (c == ch) ≡ true

-- A cursor behind the bytes stepped over, at the byte `ch`.
abbrev pub StopsOn : ℕ → Bytes → Cursor → Type 0
StopsOn ch s b = Ate s b.rest × Starts ch b.rest

StopsOn-byte :
    (ch c : ℕ) (s : Bytes) (r : Res Cursor)
    → (c == b'\r') ≡ false
    → When (StopsOn ch s) r
    → When (StopsOn ch (c ∷ s)) r
StopsOn-byte ch c s (ok b) n (passes h) = passes (byte n h.0, h.1)
StopsOn-byte ch c s (err e) n h = fails

token_not_cr : (c : ℕ) → not (is_token_char c) ≡ false → (c == b'\r') ≡ false
unfolding is_token_char
token_not_cr c h = elim (Bool-cases (c == b'\r')) [
  | inl cr ↦
      let e : true ≡ false = subst (λ d. not (is_token_char d) ≡ false) ((==_iff c b'\r').0 cr) h in
      absurd (ground arith)
  | inr ncr ↦ ncr
]

token_loop-StopsOn : (ch n : ℕ) (s : Bytes) → When (StopsOn ch s) (token_loop ch n s)
unfolding token_loop
token_loop-StopsOn ch n [] = fails
token_loop-StopsOn ch n (c ∷ s) = elim (Bool-cases (c == ch)) [
  | inl found ↦ rw found (passes (stay, found))
  | inr other ↦ elim (Bool-cases (not (is_token_char c))) [
    | inl bad ↦ rw (other, bad) fails
    | inr good ↦
        rw (other, good)
          (When-check_eof s _ (
            StopsOn-byte ch c s (token_loop ch (n + 1) s) (token_not_cr c good)
              (token_loop-StopsOn ch (n + 1) s)))
  ]
]

pub parse_token-StopsOn : (ch n : ℕ) (s : Bytes) → When (λ x. StopsOn ch s x.1) (parse_token ch n s)
unfolding parse_token
parse_token-StopsOn ch n s =
    When-bind _ (When-check_eof s _ (token_loop-StopsOn ch n s)) λ b h. passes h

target_not_cr :
    (c : ℕ) → (not (is_printable_ascii c) && (ltb c 32 || c == 127)) ≡ false → (c == b'\r') ≡ false
unfolding is_printable_ascii
target_not_cr c h = ground arith

advance_loop-StopsOn : (n : ℕ) (s : Bytes) → When (StopsOn b' ' s) (advance_loop n s)
unfolding advance_loop
advance_loop-StopsOn n [] = fails
advance_loop-StopsOn n (c ∷ s) = elim (Bool-cases (c == b' ')) [
  | inl found ↦ rw found (passes (stay, found))
  | inr other ↦ elim (Bool-cases (not (is_printable_ascii c) && (ltb c 32 || c == 127))) [
    | inl bad ↦ rw (other, bad) fails
    | inr good ↦
        rw (other, good)
          (When-check_eof s _ (
            StopsOn-byte b' ' c s (advance_loop (n + 1) s) (target_not_cr c good)
              (advance_loop-StopsOn (n + 1) s)))
  ]
]

pub advance_token-StopsOn : (n : ℕ) (s : Bytes) → When (λ x. StopsOn b' ' s x.1) (advance_token n s)
unfolding advance_token
advance_token-StopsOn n s =
    When-bind _ (When-check_eof s _ (advance_loop-StopsOn n s)) λ b h. passes h

text_not_cr : (c : ℕ) → (not (is_printable_ascii c) && is_ctl c) ≡ false → (c == b'\r') ≡ false
unfolding is_printable_ascii is_ctl
text_not_cr c h = ground arith

-- The LF of a line end whose CR is read.
pub expect_lf-LineEnd :
    (c n : ℕ) (s : Bytes)
    → (c == b'\r') ≡ true
    → When (λ b. LineEnd (c ∷ s) b.rest) (expect_char b'\n' n s)
unfolding expect_char
expect_lf-LineEnd c n [] cr = fails
expect_lf-LineEnd c n (d ∷ s) cr = elim (Bool-cases (d == b'\n')) [
  | inl lf ↦ rw lf (passes (at_crlf cr lf))
  | inr nlf ↦ rw nlf fails
]

found_ctl-LineEnd : (start n : ℕ) (s : Bytes) → When (λ x. LineEnd s x.1.rest) (found_ctl start n s)
unfolding found_ctl
found_ctl-LineEnd start n [] = fails
found_ctl-LineEnd start n (c ∷ s) = elim (Bool-cases (c == b'\r')) [
  | inl cr ↦ rw cr (When-bind _ (expect_lf-LineEnd c (n + 1) s cr) λ b h. passes h)
  | inr ncr ↦ elim (Bool-cases (c == b'\n')) [
    | inl lf ↦ rw (ncr, lf) (passes (at_lf lf))
    | inr nlf ↦ rw (ncr, nlf) fails
  ]
]

eol_loop-Ate : (n : ℕ) (s : Bytes) → When (λ b. Ate s b.rest) (eol_loop n s)
unfolding eol_loop
eol_loop-Ate n [] = fails
eol_loop-Ate n (c ∷ s) = elim (Bool-cases (not (is_printable_ascii c) && is_ctl c)) [
  | inl ctl ↦ rw ctl (passes stay)
  | inr text ↦ rw text (When-mono (eol_loop-Ate (n + 1) s) λ b h. byte (text_not_cr c text) h)
]

pub get_token_to_eol-AteLine :
    (n : ℕ) (s : Bytes) → When (λ x. AteLine s x.1.rest) (get_token_to_eol n s)
get_token_to_eol-AteLine n s =
    subst (When (λ x. AteLine s x.1.rest)) (sym (get_token_to_eol-eol_loop n s)) (
      When-bind _ (eol_loop-Ate n s) λ ctl h.
        When-mono (found_ctl-LineEnd n ctl.at ctl.rest)
          λ x e. record { from = ctl.rest; before = h; end = e })

expected-Ate :
    (ch n : ℕ) (s : Bytes)
    → (ch == b'\r') ≡ false
    → When (λ b. Ate s b.rest) (expect_char_no_check ch n s)
unfolding expect_char_no_check
expected-Ate ch n [] h = fails
expected-Ate ch n (c ∷ s) h = elim (Bool-cases (c == ch)) [
  | inl e ↦ rw e (passes (byte (ground arith) stay))
  | inr ne ↦ rw ne fails
]

pub parse_int-Ate : (mul n : ℕ) (s : Bytes) → When (λ x. Ate s x.1.rest) (parse_int mul n s)
unfolding parse_int
parse_int-Ate mul n [] = fails
parse_int-Ate mul n (c ∷ s) = elim (Bool-cases (is_digit c)) [
  | inl e ↦ rw e (passes (byte (ground arith) stay))
  | inr ne ↦ rw ne fails
]

pub parse_http_version-Ate :
    (n : ℕ) (s : Bytes) → When (λ x. Ate s x.1.rest) (parse_http_version n s)
unfolding parse_http_version
parse_http_version-Ate n s = elim (Bool-cases (ltb (length s) 9)) [
  | inl short ↦ rw short fails
  | inr enough ↦ rw enough (
      When-bind _ (expected-Ate b'H' n s refl) λ b1 h1.
        When-bind _ (expected-Ate b'T' b1.at b1.rest refl) λ b2 h2.
          When-bind _ (expected-Ate b'T' b2.at b2.rest refl) λ b3 h3.
            When-bind _ (expected-Ate b'P' b3.at b3.rest refl) λ b4 h4.
              When-bind _ (expected-Ate b'/' b4.at b4.rest refl) λ b5 h5.
                When-bind _ (expected-Ate b'1' b5.at b5.rest refl) λ b6 h6.
                  When-bind _ (expected-Ate b'.' b6.at b6.rest refl) λ b7 h7.
                    When-mono (parse_int-Ate 1 b7.at b7.rest) λ x h8. Ate-trans h1 (
                      Ate-trans h2 (
                        Ate-trans h3
                          (Ate-trans h4 (Ate-trans h5 (Ate-trans h6 (Ate-trans h7 h8)))))))
]
