-- ===== src/Fuzz/Work/Trace.antt =====
-- The mutation trace of scripts/fuzz_parse.c: mt_add, with the text that vsnprintf makes of its format
-- as an argument. A trace is its bytes before the NUL.
use picohttpparser_rs.Base.{
  ℕ, zero, suc, ◌+◌, ◌-◌, ◌≤◌, ◌<◌, [], ◌∷◌, ◌++◌, leb, if◌then◌else◌, length, take, arith,
  Bool-cases, inl, inr, ◌≡◌, refl, ap,
}
use picohttpparser_rs.Base.Lists.{length-append, length-take, take-length_append}
use picohttpparser_rs.Reference.Chars.{Bytes}

-- vsnprintf writes what fits before the NUL and returns the length of the whole text.
unfoldable pub mt_add : ℕ → Bytes → Bytes → Bytes
mt_add tracesz trace text =
    if leb tracesz (length trace + 1)
    then trace
    else if leb tracesz (length trace + length text + 1)
    then take (tracesz - 1) (trace ++ text)
    else trace ++ (text ++ (b';' ∷ []))

take-length_self : (xs : Bytes) → take (length xs) xs ≡ xs
take-length_self [] = refl
take-length_self (x ∷ xs) = ap (◌∷◌ x) (take-length_self xs)

take-length_cut :
    (m : ℕ) (xs ys : Bytes) → length xs ≤ m → take (length xs) (take m (xs ++ ys)) ≡ xs
take-length_cut m [] ys le = refl
take-length_cut zero (x ∷ xs) ys le = absurd (omega arith)
take-length_cut (suc m) (x ∷ xs) ys le = ap (◌∷◌ x) (take-length_cut m xs ys (omega arith))

-- mt_add leaves a trace that fits its array with the NUL behind it, whatever the text, if it was given
-- one; and behind the bytes of the old trace, which stay as they are, it only adds.
pub mt_add_bounds :
    (tracesz : ℕ) (trace text : Bytes)
    → length trace < tracesz
    → (length (mt_add tracesz trace text) < tracesz)
      × (take (length trace) (mt_add tracesz trace text) ≡ trace)
unfolding mt_add
mt_add_bounds tracesz trace text h = elim (Bool-cases (leb tracesz (length trace + 1))) [
  | inl full ↦ rw full ((h, take-length_self trace))
  | inr room ↦ elim (Bool-cases (leb tracesz (length trace + length text + 1))) [
    | inl cut ↦
        rw (room, cut)
          ((
            ground (arith, length-take (tracesz - 1) (trace ++ text), length-append trace text),
            take-length_cut (tracesz - 1) trace text (omega (arith, h)),
          ))
    | inr whole ↦
        rw (room, whole)
          ((
            ground
                (arith, length-append trace (text ++ (b';' ∷ [])), length-append text (b';' ∷ [])),
            take-length_append trace (text ++ (b';' ∷ [])),
          ))
  ]
]
