-- ===== src/Fuzz/Pieces/Sorted.antt =====
-- The cut points of scripts/fuzz_chunked.c, sorted, and the pieces of a body between them.
use picohttpparser_rs.Base.{
  ℕ, ◌+◌, ◌-◌, ◌≤◌, ◌≡◌, ap, ◌∙◌, [], ◌∷◌, ◌++◌, List, arith, Bool-cases, inl, inr, ltb, length,
  take, drop, All,
}
use mathlib.Core.List.{append-nil}
use picohttpparser_rs.Base.Lists.{take-append-drop, drop-add}
use picohttpparser_rs.Fuzz.Pieces.{shift_in, sort_loop, in_order, sort_cuts, pieces_from, pieces}
use picohttpparser_rs.Reference.Chars.{Bytes}

abbrev pub concat : List Bytes → Bytes
concat [] = []
concat (p ∷ ps) = p ++ concat ps

-- From `low` up to `high`, and from `high` down.
abbrev Rises : ℕ → ℕ → List ℕ → Type 0
Rises low high [] = low ≤ high
Rises low high (c ∷ cs) = (low ≤ c) × Rises c high cs

abbrev Falls : ℕ → List ℕ → Type 0
Falls high [] = Unit
Falls high (c ∷ cs) = (c ≤ high) × Falls c cs

shift_in-Falls :
    (high key : ℕ) (cs : List ℕ) → key ≤ high → Falls high cs → Falls high (shift_in key cs)
unfolding shift_in
shift_in-Falls high key [] le h = (le, tt)
shift_in-Falls high key (c ∷ cs) le h = elim (Bool-cases (ltb key c)) [
  | inl less ↦ rw less (h.0, shift_in-Falls c key cs (ground arith) h.1)
  | inr not_less ↦ rw not_less (le, (ground arith, h.1))
]

sort_loop-Falls :
    (high : ℕ) (cs keys : List ℕ)
    → All (λ k. k ≤ high) keys
    → Falls high cs
    → Falls high (sort_loop cs keys)
unfolding sort_loop
sort_loop-Falls high cs [] le h = h
sort_loop-Falls high cs (k ∷ keys) le h =
    sort_loop-Falls high (shift_in k cs) keys le.1 (shift_in-Falls high k cs le.0 h)

Rises-lower :
    (low low' high : ℕ) (cs : List ℕ) → low' ≤ low → Rises low high cs → Rises low' high cs
Rises-lower low low' high [] le h = omega (arith, h)
Rises-lower low low' high (c ∷ cs) le h = (omega (arith, h.0), h.1)

in_order-Rises :
    (top high : ℕ) (cs front : List ℕ)
    → Falls top cs
    → Rises top high front
    → Rises 0 high (in_order cs front)
unfolding in_order
in_order-Rises top high [] front f r = Rises-lower top 0 high front (omega arith) r
in_order-Rises top high (c ∷ cs) front f r =
    in_order-Rises c high cs (c ∷ front) f.1 (omega arith, Rises-lower top c high front f.0 r)

concat-pieces_from :
    (prev : ℕ) (cuts : List ℕ) (body : Bytes)
    → Rises prev (length body) cuts
    → concat (pieces_from prev cuts body) ≡ drop prev body
unfolding pieces_from
concat-pieces_from prev [] body h = append-nil _
concat-pieces_from prev (end ∷ cuts) body h =
    let gap : end ≡ prev + (end - prev) = omega (arith, h.0) in
    ap (λ s. take (end - prev) (drop prev body) ++ s)
      (concat-pieces_from end cuts body h.1
        ∙ ap (λ k. drop k body) gap
        ∙ drop-add prev (end - prev) body)
    ∙ take-append-drop (end - prev) (drop prev body)

pub concat-pieces :
    (body : Bytes) (cuts : List ℕ)
    → All (λ k. k ≤ length body) cuts
    → concat (pieces body cuts) ≡ body
unfolding pieces sort_cuts
concat-pieces body cuts le = concat-pieces_from 0 (in_order (sort_loop [] cuts) []) body (
    in_order-Rises (length body) (length body) (sort_loop [] cuts) []
      (sort_loop-Falls (length body) [] cuts le tt) (omega arith))

length-shift_in : (key : ℕ) (cs : List ℕ) → length (shift_in key cs) ≡ length cs + 1
unfolding shift_in
length-shift_in key [] = omega arith
length-shift_in key (c ∷ cs) = elim (Bool-cases (ltb key c)) [
  | inl less ↦ rw less (omega (arith, length-shift_in key cs))
  | inr not_less ↦ rw not_less (omega arith)
]

length-sort_loop : (cs keys : List ℕ) → length (sort_loop cs keys) ≡ length cs + length keys
unfolding sort_loop
length-sort_loop cs [] = omega arith
length-sort_loop cs (k ∷ keys) =
    omega (arith, length-sort_loop (shift_in k cs) keys, length-shift_in k cs)

length-in_order : (cs front : List ℕ) → length (in_order cs front) ≡ length cs + length front
unfolding in_order
length-in_order [] front = omega arith
length-in_order (c ∷ cs) front = omega (arith, length-in_order cs (c ∷ front))

length-pieces_from :
    (prev : ℕ) (cuts : List ℕ) (body : Bytes)
    → length (pieces_from prev cuts body) ≡ length cuts + 1
unfolding pieces_from
length-pieces_from prev [] body = omega arith
length-pieces_from prev (end ∷ cuts) body = omega (arith, length-pieces_from end cuts body)

pub length-pieces : (body : Bytes) (cuts : List ℕ) → length (pieces body cuts) ≡ length cuts + 1
unfolding pieces sort_cuts
length-pieces body cuts = omega (
  arith,
  length-pieces_from 0 (in_order (sort_loop [] cuts) []) body,
  length-in_order (sort_loop [] cuts) [],
  length-sort_loop [] cuts,
)
