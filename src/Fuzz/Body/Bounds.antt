-- ===== src/Fuzz/Body/Bounds.antt =====
-- The arrays and divisions of the steps of build_body of scripts/fuzz_chunked.c.
use native.Mathlib.Nat.{mod-lt}
use picohttpparser_rs.Base.{
  ℕ, ◌+◌, ◌≤◌, ◌<◌, ◌≡◌, refl, ◌∙◌, ap, lt→ltb, ◌&&◌, [], ◌∷◌, ◌++◌, List, Option, some, arith,
  Bool-cases, inl, inr, ltb, leb, ◌==◌, length, take, drop,
}
use picohttpparser_rs.Base.Lists.{length-append, length-take, length-drop, length-set}
use picohttpparser_rs.Reference.Chars.{Bytes}
use picohttpparser_rs.Fuzz.Body.{
  Gen, G, and_then, max_body, rng_next, rng_less, interesting_byte, put_byte, insert, delete, seed,
  byte_from, one_of, either, put_random, delete_random, insert_random, element, bytes_at, cut_to,
  interesting_set,
}

-- A step that returns, with a value and a state of these properties.
pub data Ends {A : Type 0} (P : A → Gen → Type 0) : Option (A × Gen) → Type 0 where
  ends : {a : A} {g : Gen} → P a g → Ends P (some (a, g))

module _ {A B : Type 0} {P : A → Gen → Type 0} {Q : B → Gen → Type 0} where
  pub Ends-then :
      {m : Option (A × Gen)} (f : A → G B)
      → Ends P m
      → ((a : A) (g : Gen) → P a g → Ends Q (f a g))
      → Ends Q (and_then m f)
  Ends-then f (ends {a} {g} h) k = k a g h

pub Ends-mono :
    {A : Type 0} {P Q : A → Gen → Type 0} {m : Option (A × Gen)}
    → Ends P m
    → ((a : A) (g : Gen) → P a g → Q a g)
    → Ends Q m
Ends-mono (ends {a} {g} h) k = ends (k a g h)

abbrev pub Fits : Gen → Type 0
Fits g = length g.body ≤ max_body

pub rng_less-Ends :
    (n : ℕ) (g : Gen) → 0 < n → Ends (λ x g'. (x < n) × (g'.body ≡ g.body)) (rng_less n g)
unfolding rng_less rng_next
rng_less-Ends n g h = elim (Bool-cases (n == 0)) [
  | inl z ↦ absurd (ground arith)
  | inr nz ↦ rw nz (ends (mod-lt _ h, refl))
]

element-Ends :
    (xs : Bytes) (i : ℕ) (g : Gen)
    → i < length xs
    → Ends (λ c g'. g'.body ≡ g.body) (element xs i g)
unfolding element
element-Ends xs i g lt = rw (lt→ltb i (length xs) lt) (ends refl)

pub bytes_at-Ends :
    (xs : Bytes) (off n : ℕ) (g : Gen)
    → off + n ≤ length xs
    → Ends (λ s g'. (length s ≡ n) × (g'.body ≡ g.body)) (bytes_at xs off n g)
unfolding bytes_at
bytes_at-Ends xs off n g le = elim (Bool-cases (leb (off + n) (length xs))) [
  | inl within ↦
      rw within (ends (omega (arith, length-take n (drop off xs), length-drop off xs), refl))
  | inr outside ↦ absurd (ground arith)
]

pub cut_to-Ends :
    (n : ℕ) (g : Gen) → n ≤ length g.body → Ends (λ u g'. length g'.body ≡ n) (cut_to n g)
unfolding cut_to
cut_to-Ends n g le = elim (Bool-cases (leb n (length g.body))) [
  | inl within ↦ rw within (ends (omega (arith, length-take n g.body)))
  | inr outside ↦ absurd (ground arith)
]

-- A byte is drawn, and the body stays as it is.
abbrev pub Draws : G ℕ → Type 0
Draws m = (g : Gen) → Ends (λ c g'. g'.body ≡ g.body) (m g)

pub interesting_byte-Draws : Draws interesting_byte
unfolding interesting_byte
interesting_byte-Draws g =
    Ends-then _ (rng_less-Ends _ g (omega arith))
      λ i g1 h. Ends-mono (element-Ends interesting_set i g1 h.0) λ c g2 h2. h2 ∙ h.1

pub byte_from-Draws : (low width : ℕ) → 0 < width → Draws (byte_from low width)
byte_from-Draws low width pos g = Ends-then _ (rng_less-Ends width g pos) λ i g1 h. ends h.1

pub one_of-Draws : (choices : Bytes) → 0 < length choices → Draws (one_of choices)
one_of-Draws choices pos g =
    Ends-then _ (rng_less-Ends _ g pos)
      λ i g1 h. Ends-mono (element-Ends choices i g1 h.0) λ c g2 h2. h2 ∙ h.1

pub either-Draws : (a b : ℕ) → Draws (either a b)
either-Draws a b g = Ends-then _ (rng_less-Ends 2 g (omega arith)) λ i g1 h. ends h.1

put_byte-Ends :
    (at c : ℕ) (g : Gen) → at < length g.body → Fits g → Ends (λ u g'. Fits g') (put_byte at c g)
unfolding put_byte
put_byte-Ends at c g lt h =
    rw (lt→ltb at (length g.body) lt) (ends (omega (arith, length-set g.body at c)))

pub insert-Ends :
    (at : ℕ) (run : Bytes) (g : Gen)
    → at ≤ length g.body
    → length g.body + length run ≤ max_body
    → Ends (λ u g'. length g'.body ≡ length g.body + length run) (insert at run g)
unfolding insert
insert-Ends at run g le room =
    elim (Bool-cases (leb at (length g.body) && leb (length g.body + length run) max_body)) [
      | inl fits ↦ rw fits (
          ends (
            omega (
              arith,
              length-append (take at g.body) (run ++ drop at g.body),
              length-append run (drop at g.body),
              length-take at g.body,
              length-drop at g.body,
            )))
      | inr not_fits ↦ absurd (ground arith)
    ]

delete-Ends :
    (at : ℕ) (g : Gen) → at < length g.body → Fits g → Ends (λ u g'. Fits g') (delete at g)
unfolding delete
delete-Ends at g lt h = rw (lt→ltb at (length g.body) lt) (
    ends (
      omega (
        arith,
        length-append (take at g.body) (drop (at + 1) g.body),
        length-take at g.body,
        length-drop (at + 1) g.body,
      )))

pub seed-Ends :
    (pool : List Bytes) (s : ℕ) (g : Gen)
    → s < length pool
    → Ends (λ x g'. g'.body ≡ g.body) (seed pool s g)
unfolding seed
seed-Ends pool s g lt = rw (lt→ltb s (length pool) lt) (ends refl)

-- On a body that fits and is not empty.
abbrev pub KeepsFull : G (Unit {0}) → Type 0
KeepsFull m = (g : Gen) → 0 < length g.body → Fits g → Ends (λ u g'. Fits g') (m g)

pub put_random-KeepsFull : (byte : G ℕ) → Draws byte → KeepsFull (put_random byte)
unfolding put_random
put_random-KeepsFull byte draws g pos h =
    Ends-then _ (rng_less-Ends (length g.body) g pos) λ at g1 h1. Ends-then _ (draws g1) λ c g2 h2.
      put_byte-Ends at c g2 (omega (arith, h1.0, ap length h1.1, ap length h2))
        (omega (arith, ap length h1.1, ap length h2))

pub delete_random-KeepsFull : KeepsFull delete_random
unfolding delete_random
delete_random-KeepsFull g pos h = elim (Bool-cases (ltb 1 (length g.body))) [
  | inl several ↦ rw several (
      Ends-then _ (rng_less-Ends (length g.body) g pos) λ at g1 h1.
        delete-Ends at g1 (omega (arith, h1.0, ap length h1.1)) (omega (arith, ap length h1.1)))
  | inr one ↦ rw one (ends h)
]

-- A byte of the grammar, put in.
pub add_byte :
    (at : ℕ) (g : Gen)
    → at ≤ length g.body
    → length g.body < max_body
    → Ends (λ u g'. Fits g') (and_then (interesting_byte g) (λ c. insert at (c ∷ [])))
add_byte at g le room = Ends-then _ (interesting_byte-Draws g) λ c g1 h1.
    Ends-mono
      (insert-Ends at (c ∷ []) g1 (omega (arith, ap length h1)) (omega (arith, ap length h1)))
      λ u g2 h2. omega (arith, h2, ap length h1)

pub insert_random-KeepsFull : KeepsFull insert_random
unfolding insert_random
insert_random-KeepsFull g pos h = elim (Bool-cases (ltb (length g.body) max_body)) [
  | inl room ↦ rw room (
      Ends-then _ (rng_less-Ends (length g.body + 1) g (omega arith)) λ at g1 h1.
        add_byte at g1 (omega (arith, h1.0, ap length h1.1)) (ground (arith, ap length h1.1)))
  | inr full ↦ rw full (ends h)
]
