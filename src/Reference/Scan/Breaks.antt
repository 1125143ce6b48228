-- ===== src/Reference/Scan/Breaks.antt =====
-- The byte behind a line that get_token_to_eol returns is CR or LF, and so no space.
use mathlib.Core.Path.{subst}
use picohttpparser_rs.Base.{
  ℕ, zero, suc, ◌+◌, ◌-◌, ◌≤◌, ◌≡◌, sym, [], ◌∷◌, Res, ok, err, ◌>>=◌, arith, ◌==◌, true, false,
  not, ◌&&◌, Bool-cases, inl, inr,
}
use picohttpparser_rs.Reference.Chars.{
  Bytes, Cursor, Slice, slice, is_ctl, is_printable_ascii, expect_char,
}
use picohttpparser_rs.Reference.Scan.Hot.{get_token_to_eol-eol_loop}
use picohttpparser_rs.Reference.Scan.{eol_loop, found_ctl, get_token_to_eol}

-- Byte `k` is there, and it is no space.
abbrev pub BreaksAt : ℕ → Bytes → Type 0
BreaksAt k [] = ⊥
BreaksAt zero (c ∷ s) = (c == b' ') ≡ false
BreaksAt (suc k) (c ∷ s) = BreaksAt k s

abbrev pub LineBreaks : ℕ → ℕ → Bytes → Res (Slice × Cursor) → Type 0
LineBreaks start n s (ok (v, b)) = (k : ℕ) × (start + v.len ≡ n + k) × BreaksAt k s
LineBreaks start n s (err e) = Unit

found_ctl-LineBreaks :
    (start n c : ℕ) (s : Bytes) → start ≤ n → LineBreaks start n (c ∷ s) (found_ctl start n (c ∷ s))
unfolding found_ctl expect_char
found_ctl-LineBreaks start n c s le = elim (Bool-cases (c == b'\r')) [
  | inl cr ↦ rw (cr, LineBreaks) (crlf s cr)
  | inr ncr ↦ elim (Bool-cases (c == b'\n')) [
    | inl lf ↦ rw (ncr, lf, LineBreaks) (0, omega arith, ground arith)
    | inr nlf ↦ rw (ncr, nlf, LineBreaks) tt
  ]
]
  where
    crlf :
        (s : Bytes)
        → (c == b'\r') ≡ true
        → LineBreaks start n
            (c ∷ s)
            (expect_char b'\n' (n + 1) s >>= λ buf. ok (slice start (buf.at - 2 - start), buf))
    crlf [] cr = tt
    crlf (d ∷ s) cr = elim (Bool-cases (d == b'\n')) [
      | inl lf ↦ rw (lf, LineBreaks) (0, omega arith, ground arith)
      | inr nlf ↦ rw (nlf, LineBreaks) tt
    ]

LineBreaks-suc :
    (start n c : ℕ) (s : Bytes) (r : Res (Slice × Cursor))
    → LineBreaks start (n + 1) s r
    → LineBreaks start n (c ∷ s) r
LineBreaks-suc start n c s (ok (v, b)) (k, e, h) = (suc k, omega arith, h)
LineBreaks-suc start n c s (err code) h = tt

eol_loop-LineBreaks :
    (start n : ℕ) (s : Bytes)
    → start ≤ n
    → LineBreaks start n s (eol_loop n s >>= λ (ctl : Cursor). found_ctl start ctl.at ctl.rest)
unfolding eol_loop
eol_loop-LineBreaks start n [] le = tt
eol_loop-LineBreaks start n (c ∷ s) le =
    elim (Bool-cases (not (is_printable_ascii c) && is_ctl c)) [
      | inl ctl ↦ rw (ctl, LineBreaks) (found_ctl-LineBreaks start n c s le)
      | inr text ↦
          rw (text, LineBreaks)
            (LineBreaks-suc start n c s _ (eol_loop-LineBreaks start (n + 1) s (omega arith)))
    ]

pub get_token_to_eol-LineBreaks : (n : ℕ) (s : Bytes) → LineBreaks n n s (get_token_to_eol n s)
get_token_to_eol-LineBreaks n s =
    subst (LineBreaks n n s) (sym (get_token_to_eol-eol_loop n s))
      (eol_loop-LineBreaks n n s (omega arith))
