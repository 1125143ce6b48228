-- ===== src/Fuzz/Work/Rules.antt =====
-- What the steps of scripts/fuzz_parse.c end with, and the rules for their sequences.
use native.Mathlib.Nat.{mod-lt}
use picohttpparser_rs.Base.{
  ℕ, zero, suc, List, get_or, ◌+◌, ◌-◌, ◌≤◌, ◌<◌, ◌≡◌, refl, sym, ◌∙◌, ◌%◌, ap, lt→ltb, ◌&&◌, ◌++◌,
  ◌^◌, arith, false, true, Bool-cases, inl, inr, ltb, leb, ◌==◌, length, take, drop, replicate,
  if◌then◌else◌,
}
use picohttpparser_rs.Base.Lists.{
  length-append, length-take, length-drop, length-set, length-replicate, drop-add, drop-take_append,
  drop-replicate_append, take-drop-take_append,
}
use picohttpparser_rs.Reference.Chars.{Bytes}
use picohttpparser_rs.Fuzz.Work.{
  Work, Out, done, W, and_then, element, bytes_at, written, minus, max_len, xs_next, rnd_below,
  rand_byte, interesting, put_byte, open_at, insert_at, insert_own, moved, take_out, cut_to,
}

-- A step that returns, with a value and a state of these properties.
pub data Ends {A : Type 0} (P : A → Work → Type 0) : Out A → Type 0 where
  ends : {a : A} {w : Work} → P a w → Ends P (done a w)

module _ {A B : Type 0} {P : A → Work → Type 0} {Q : B → Work → Type 0} where
  pub Ends-then :
      {m : Out A} (f : A → W B)
      → Ends P m
      → ((a : A) (w : Work) → P a w → Ends Q (f a w))
      → Ends Q (and_then m f)
  Ends-then f (ends {a} {w} h) k = k a w h

pub Ends-mono :
    {A : Type 0} {P Q : A → Work → Type 0} {m : Out A}
    → Ends P m
    → ((a : A) (w : Work) → P a w → Q a w)
    → Ends Q m
Ends-mono (ends {a} {w} h) k = ends (k a w h)

abbrev pub Fits : Work → Type 0
Fits w = length w.buf ≤ max_len

-- The buffer fits where the step returns.
abbrev pub Keeps : W (Unit {0}) → Type 0
Keeps m = (w : Work) → Fits w → Ends (λ u w'. Fits w') (m w)

pub rnd_below-Ends :
    (n : ℕ) (w : Work) → 0 < n → Ends (λ x w'. (x < n) × (w'.buf ≡ w.buf)) (rnd_below n w)
unfolding rnd_below xs_next
rnd_below-Ends n w h = elim (Bool-cases (n == 0)) [
  | inl z ↦ absurd (ground arith)
  | inr nz ↦ rw nz (ends (mod-lt _ h, refl))
]

pub xs_next-Ends : (w : Work) → Ends (λ x w'. w'.buf ≡ w.buf) (xs_next w)
unfolding xs_next
xs_next-Ends w = ends refl

pub element-Ends :
    {A : Type 0} (d : A) (xs : List A) (i : ℕ) (w : Work)
    → i < length xs
    → Ends (λ x w'. (x ≡ get_or xs i d) × (w'.buf ≡ w.buf)) (element d xs i w)
unfolding element
element-Ends d xs i w lt = rw (lt→ltb i (length xs) lt) (ends (refl, refl))

pub minus_lem : (a b : ℕ) → b ≤ a → a < 2 ^ 64 → minus a b ≡ a - b
minus_lem a b le lt = omega arith

pub bytes_at-Ends :
    (b : Bytes) (start n : ℕ) (w : Work)
    → start + n ≤ length b
    → Ends (λ x w'. (length x ≡ n) × (w'.buf ≡ w.buf)) (bytes_at b start n w)
unfolding bytes_at
bytes_at-Ends b start n w le = elim (Bool-cases (leb (start + n) (length b))) [
  | inl within ↦
      rw within (ends (omega (arith, length-take n (drop start b), length-drop start b), refl))
  | inr outside ↦ absurd (ground arith)
]

pub rand_byte-Ends : (w : Work) → Ends (λ v w'. w'.buf ≡ w.buf) (rand_byte w)
unfolding rand_byte
rand_byte-Ends w = Ends-then _ (xs_next-Ends w) λ coin w1 h1. elim (Bool-cases (coin % 2 == 0)) [
  | inl even ↦ rw even (Ends-then _ (xs_next-Ends w1) λ x w2 h2. ends (h2 ∙ h1))
  | inr odd ↦ rw odd (
      Ends-then _ (rnd_below-Ends (length interesting) w1 (omega arith))
        λ i w2 h2. Ends-mono (element-Ends 0 interesting i w2 h2.0) λ v w3 h3. h3.1 ∙ h2.1 ∙ h1)
]

pub put_byte-Ends :
    (pos v : ℕ) (w : Work) → pos < length w.buf → Fits w → Ends (λ u w'. Fits w') (put_byte pos v w)
unfolding put_byte
put_byte-Ends pos v w lt h =
    rw (lt→ltb pos (length w.buf) lt) (ends (omega (arith, length-set w.buf pos v)))

pub open_at-Ends :
    (pos : ℕ) (run : Bytes) (w : Work)
    → pos ≤ length w.buf
    → length w.buf + length run ≤ max_len
    → Ends (λ u w'. Fits w') (open_at pos run w)
unfolding open_at
open_at-Ends pos run w le room =
    elim (Bool-cases (leb pos (length w.buf) && leb (length w.buf + length run) max_len)) [
      | inl fits ↦ rw fits (
          ends (
            omega (
              arith,
              length-append (take pos w.buf) (run ++ drop pos w.buf),
              length-append run (drop pos w.buf),
              length-take pos w.buf,
              length-drop pos w.buf,
            )))
      | inr not_fits ↦ absurd (ground arith)
    ]

pub insert_at-Keeps : (pos : ℕ) (src : Bytes) → Keeps (insert_at pos src)
unfolding insert_at
insert_at-Keeps pos src w h = elim (Bool-cases (ltb max_len (length w.buf + length src))) [
  | inl full ↦ rw full (ends h)
  | inr room ↦ rw room (
      open_at-Ends (if ltb (length w.buf) pos then length w.buf else pos) src w (ground arith)
        (ground arith))
]

pub take_out-Keeps :
    (start span : ℕ) (w : Work)
    → start + span ≤ length w.buf
    → Fits w
    → Ends (λ u w'. Fits w') (take_out start span w)
unfolding take_out
take_out-Keeps start span w le h = elim (Bool-cases (leb (start + span) (length w.buf))) [
  | inl fits ↦ rw fits (
      ends (
        omega (
          arith,
          length-append (take start w.buf) (drop (start + span) w.buf),
          length-take start w.buf,
          length-drop (start + span) w.buf,
        )))
  | inr not_fits ↦ absurd (ground arith)
]

pub cut_to-Keeps :
    (n : ℕ) (w : Work) → n ≤ length w.buf → Fits w → Ends (λ u w'. Fits w') (cut_to n w)
unfolding cut_to
cut_to-Keeps n w le h = elim (Bool-cases (leb n (length w.buf))) [
  | inl fits ↦ rw fits (ends (omega (arith, length-take n w.buf)))
  | inr not_fits ↦ absurd (ground arith)
]

length-written : (f : ℕ → ℕ) (i n : ℕ) → length (written f i n) ≡ n
unfolding written
length-written f i zero = refl
length-written f i (suc n) = ap suc (length-written f (i + 1) n)

length-moved : (pos n : ℕ) (b : Bytes) → pos ≤ length b → length (moved pos n b) ≡ length b + n
length-moved pos n b le = omega (
  arith,
  length-append (take pos b) (replicate n 0 ++ drop pos b),
  length-append (replicate n 0) (drop pos b),
  length-replicate {A = ℕ} n 0,
  length-take pos b,
  length-drop pos b,
)

pub insert_own-Ends :
    (pos start n : ℕ) (w : Work)
    → pos ≤ length w.buf
    → start + n ≤ length w.buf
    → Fits w
    → Ends (λ u w'. Fits w') (insert_own pos start n w)
unfolding insert_own
insert_own-Ends pos start n w le within h = elim (Bool-cases (ltb max_len (length w.buf + n))) [
  | inl full ↦ rw full (ends h)
  | inr room ↦ elim (Bool-cases (ltb pos (start + n) && ltb start (pos + n))) [
    | inl shared ↦
        rw (room, shared)
          (open_at-Ends pos (written (w.overlapped w.buf pos start) 0 n) w le
            (ground (arith, length-written (w.overlapped w.buf pos start) 0 n)))
    | inr apart ↦
        rw (room, apart)
          (Ends-then _
            (bytes_at-Ends (moved pos n w.buf) start n w
              (omega (arith, length-moved pos n w.buf le)))
            λ src w1 h1.
              open_at-Ends pos src w1 (omega (arith, ap length h1.1))
                (ground (arith, h1.0, ap length h1.1)))
  ]
]

drop-moved :
    (pos start n : ℕ) (b : Bytes)
    → pos ≤ length b
    → pos + n ≤ start
    → drop start (moved pos n b) ≡ drop (start - n) b
drop-moved pos start n b le behind =
    let gap : start ≡ pos + (n + (start - n - pos)) = omega arith in
    let rest : start - n ≡ pos + (start - n - pos) = omega arith in
    ap (λ k. drop k (moved pos n b)) gap
    ∙ drop-add pos (n + (start - n - pos)) (moved pos n b)
    ∙ ap (drop (n + (start - n - pos))) (drop-take_append pos b (replicate n 0 ++ drop pos b) le)
    ∙ drop-add n (start - n - pos) (replicate n 0 ++ drop pos b)
    ∙ ap (drop (start - n - pos)) (drop-replicate_append n 0 (drop pos b))
    ∙ sym (ap (λ k. drop k b) rest ∙ drop-add pos (start - n - pos) b)

take-moved :
    (pos start n : ℕ) (b : Bytes)
    → pos ≤ length b
    → start + n ≤ pos
    → take n (drop start (moved pos n b)) ≡ take n (drop start b)
take-moved pos start n b le before =
    take-drop-take_append start n pos b (replicate n 0 ++ drop pos b) le before

-- Where the source begins behind the gap and lies in the buffer, and the buffer has room, the memmove has
-- moved the source, and what is copied are the `n` bytes that stood `n` places before it.
pub insert_own-behind :
    (pos start n : ℕ) (w : Work)
    → pos ≤ length w.buf
    → length w.buf + n ≤ max_len
    → pos + n ≤ start
    → start + n ≤ length w.buf
    → insert_own pos start n w ≡ open_at pos (take n (drop (start - n) w.buf)) w
unfolding insert_own bytes_at
insert_own-behind pos start n w le room behind within =
    let inside : leb (start + n) (length (moved pos n w.buf)) ≡ true =
      ground (arith, length-moved pos n w.buf le) in
    let no_room : ltb max_len (length w.buf + n) ≡ false = ground arith in
    let apart : (ltb pos (start + n) && ltb start (pos + n)) ≡ false = ground arith in
    rw (no_room, apart, inside, drop-moved pos start n w.buf le behind)

-- Where the source ends before the gap, it is copied.
pub insert_own-before :
    (pos start n : ℕ) (w : Work)
    → pos ≤ length w.buf
    → length w.buf + n ≤ max_len
    → start + n ≤ pos
    → insert_own pos start n w ≡ open_at pos (take n (drop start w.buf)) w
unfolding insert_own bytes_at
insert_own-before pos start n w le room before =
    let no_room : ltb max_len (length w.buf + n) ≡ false = ground arith in
    let apart : (ltb pos (start + n) && ltb start (pos + n)) ≡ false = ground arith in
    let inside : leb (start + n) (length (moved pos n w.buf)) ≡ true =
      ground (arith, length-moved pos n w.buf le) in
    rw (no_room, apart, inside, take-moved pos start n w.buf le before)
