-- ===== src/Reference/Scan/Hot.antt =====
-- The hot loop of get_token_to_eol (eight bytes at a time) against the plain loop behind it.
use picohttpparser_rs.Base.{
  ℕ, zero, suc, ◌+◌, ◌<◌, ◌≡◌, refl, sym, ◌∙◌, [], ◌∷◌, Bool, true, false, Res, ok, err, ◌>>=◌,
  arith, length, drop, ltb, if◌then◌else◌, Bool-cases, inl, inr,
}
use picohttpparser_rs.Reference.Chars.{Bytes, Cursor, is_printable_ascii}
use picohttpparser_rs.Reference.Scan.Bounds.{Looks, doit-Looks}
use picohttpparser_rs.Reference.Scan.{
  doit, non_printable, after_doit, hot_loop, eol_loop, found_ctl, get_token_to_eol,
}

-- The scan goes on behind the hot loop.
abbrev resume : Res (Bool × Cursor) → Res Cursor
resume (ok (found, b)) = if found then ok b else eol_loop b.at b.rest
resume (err e) = err e

abbrev Unprintable : Bytes → Type 0
Unprintable [] = ⊥
Unprintable (c ∷ s) = is_printable_ascii c ≡ false

-- The rounds of DOIT() skip only bytes that the plain loop skips.
abbrev Skips : ℕ → Bytes → Res (Bool × Cursor) → Type 0
Skips n s (ok (true, b)) = eol_loop n s ≡ eol_loop b.at b.rest
Skips n s (ok (false, b)) = (eol_loop n s ≡ eol_loop b.at b.rest) × Unprintable b.rest
Skips n s (err e) = Unit

doit-Skips : (k n : ℕ) (s : Bytes) → Skips n s (doit k n s)
unfolding doit eol_loop
doit-Skips zero n s = refl
doit-Skips (suc k) n [] = tt
doit-Skips (suc k) n (c ∷ s) = ground (arith, doit-Skips k (n + 1) s)

non_printable-eol_loop :
    (b : Cursor) (next : Res (Bool × Cursor)) (c : ℕ) (t : Bytes)
    → b.rest ≡ c ∷ t
    → is_printable_ascii c ≡ false
    → resume next ≡ eol_loop (b.at + 1) t
    → resume (non_printable (c ∷ t) b next) ≡ eol_loop b.at (c ∷ t)
unfolding non_printable eol_loop
non_printable-eol_loop b next c t e p h = ground arith

after_doit-eol_loop :
    (n k : ℕ) (s : Bytes) (again : ℕ → Bytes → Res (Bool × Cursor))
    → ((m : ℕ) (t : Bytes) → length t < length s → resume (again m t) ≡ eol_loop m t)
    → (r : Res (Bool × Cursor)) → Looks (suc k) n s r
    → Skips n s r
    → resume (after_doit again r) ≡ eol_loop n s
unfolding after_doit
after_doit-eol_loop n k s again ih (ok (true, b)) l e = ground (arith, ih b.at b.rest)
after_doit-eol_loop n k s again ih (ok (false, b)) l (e, u) = not_clean b.rest refl u ∙ sym e
  where
    not_clean :
        (t : Bytes)
        → b.rest ≡ t
        → Unprintable t
        → resume (non_printable t b (again (b.at + 1) (drop 1 t))) ≡ eol_loop b.at t
    not_clean [] q p = absurd p
    not_clean (c ∷ t) q p = non_printable-eol_loop b _ c t q p (ih (b.at + 1) t (ground arith))
after_doit-eol_loop n k s again ih (err e) l h = absurd l

hot_loop-eol_loop :
    (fuel n : ℕ) (s : Bytes) → length s < fuel → resume (hot_loop fuel n s) ≡ eol_loop n s
unfolding hot_loop
hot_loop-eol_loop zero n s h = absurd (omega arith)
hot_loop-eol_loop (suc fuel) n s h = elim (Bool-cases (ltb (length s) 8)) [
  | inl short ↦ rw (short, resume)
  | inr long ↦
      rw (long, resume)
        (after_doit-eol_loop n 7 s (hot_loop fuel)
          (λ m t l. hot_loop-eol_loop fuel m t (omega arith)) (doit 8 n s)
          (doit-Looks 8 n s (ground arith)) (doit-Skips 8 n s))
]

-- get_token_to_eol with its hot loop, which looks at eight bytes a round, returns on all bytes what the
-- plain loop and the code at FOUND_CTL behind it return.
pub get_token_to_eol-eol_loop :
    (n : ℕ) (s : Bytes)
    → get_token_to_eol n s ≡ (eol_loop n s >>= λ (ctl : Cursor). found_ctl n ctl.at ctl.rest)
unfolding get_token_to_eol
get_token_to_eol-eol_loop n s = grind (arith, hot_loop-eol_loop (length s + 1) n s)
