-- ===== src/Fuzz/Mutate/Bounds.antt =====
-- The arrays and divisions of mutate of scripts/fuzz_parse.c.
use picohttpparser_rs.Base.{
  ℕ, zero, suc, ◌+◌, ◌-◌, ◌≤◌, ◌<◌, ◌≡◌, refl, ◌∙◌, ap, [], ◌∷◌, List, arith, Bool-cases, inl, inr,
  ltb, ◌==◌, if◌then◌else◌, length, drop, All, lt→ltb,
}
use picohttpparser_rs.Base.Lists.{All-get_or}
use picohttpparser_rs.Reference.Chars.{Bytes}
use picohttpparser_rs.Fuzz.Work.{Work, give, max_len, minus}
use picohttpparser_rs.Fuzz.Seeds.Load.{FitsSeed}
use picohttpparser_rs.Fuzz.Work.Rules.{
  Ends, ends, Ends-then, Ends-mono, Fits, Keeps, element-Ends, bytes_at-Ends, minus_lem,
  rnd_below-Ends, rand_byte-Ends, put_byte-Ends, open_at-Ends, insert_at-Keeps, take_out-Keeps,
  cut_to-Keeps, insert_own-Ends,
}
use picohttpparser_rs.Fuzz.Mutate.{
  substitute, insert_byte, delete_span, truncate, seed, splice, find_lf, line_start, pick_line,
  duplicate, snips, insert_snippet, cases, mutate, mutate_times,
}

substitute-Keeps : Keeps substitute
unfolding substitute
substitute-Keeps w h = elim (Bool-cases (length w.buf == 0)) [
  | inl empty ↦ rw empty (ends h)
  | inr full ↦ rw full (
      Ends-then _ (rnd_below-Ends (length w.buf) w (ground arith)) λ pos w1 h1.
        Ends-then _ (rand_byte-Ends w1) λ v w2 h2.
          put_byte-Ends pos v w2 (omega (arith, h1.0, ap length h1.1, ap length h2))
            (omega (arith, ap length h1.1, ap length h2)))
]

insert_byte-Keeps : Keeps insert_byte
unfolding insert_byte
insert_byte-Keeps w h = Ends-then _ (rnd_below-Ends (length w.buf + 1) w (omega arith)) λ pos w1 h1.
    Ends-then _ (rand_byte-Ends w1)
      λ v w2 h2. insert_at-Keeps pos (v ∷ []) w2 (omega (arith, ap length h1.1, ap length h2))

delete_span-Keeps : Keeps delete_span
unfolding delete_span
delete_span-Keeps w h = elim (Bool-cases (length w.buf == 0)) [
  | inl empty ↦ rw empty (ends h)
  | inr full ↦ rw full (
      Ends-then _ (rnd_below-Ends (length w.buf) w (ground arith)) λ start w1 h1.
        Ends-then _ (rnd_below-Ends (length w.buf - start) w1 (omega (arith, h1.0))) λ more w2 h2.
          take_out-Keeps start (1 + more) w2
            (omega (arith, h1.0, h2.0, ap length h1.1, ap length h2.1))
            (omega (arith, ap length h1.1, ap length h2.1)))
]

truncate-Keeps : Keeps truncate
unfolding truncate
truncate-Keeps w h = Ends-then _ (rnd_below-Ends (length w.buf + 1) w (omega arith)) λ n w1 h1.
    cut_to-Keeps n w1 (omega (arith, h1.0, ap length h1.1)) (omega (arith, ap length h1.1))

seed-Ends :
    (pool : List Bytes) (s : ℕ) (w : Work)
    → s < length pool
    → All FitsSeed pool
    → Ends (λ x w'. FitsSeed x × (w'.buf ≡ w.buf)) (seed pool s w)
unfolding seed
seed-Ends pool s w lt h =
    rw (lt→ltb s (length pool) lt) (ends (All-get_or FitsSeed pool s [] h (omega arith), refl))

splice-Keeps : (pool : List Bytes) → All FitsSeed pool → Keeps (splice pool)
unfolding splice
splice-Keeps pool seeds w h = elim (Bool-cases (length pool == 0)) [
  | inl none_left ↦ rw none_left (ends h)
  | inr some_left ↦ rw some_left (
      Ends-then _ (rnd_below-Ends (length pool) w (ground arith)) λ s w1 h1.
        Ends-then _ (seed-Ends pool s w1 h1.0 seeds) λ other w2 h2.
          Ends-then _ (rnd_below-Ends (length w.buf + 1) w2 (omega arith)) λ cut w3 h3.
            Ends-then _ (rnd_below-Ends (length other + 1) w3 (omega arith)) λ oq w4 h4.
              let same : length w4.buf ≡ length w.buf = ap length (h4.1 ∙ h3.1 ∙ h2.1 ∙ h1.1) in
              let tail : minus (length other) oq ≡ length other - oq =
                minus_lem (length other) oq (omega (arith, h4.0)) (omega (arith, h2.0)) in
              let avail : minus max_len (length w.buf) ≡ max_len - length w.buf =
                minus_lem max_len (length w.buf) h (omega arith) in
              let n =
                if ltb (minus max_len (length w.buf)) (minus (length other) oq)
                then minus max_len (length w.buf)
                else minus (length other) oq in
              Ends-then _ (bytes_at-Ends other oq n w4 (ground (arith, tail, avail, h4.0)))
                λ run w5 h5.
                  open_at-Ends cut run w5 (omega (arith, h3.0, same, ap length h5.1))
                    (ground (arith, same, tail, avail, h5.0, ap length h5.1)))
]

find_lf-le : (i : ℕ) (b : Bytes) → (i ≤ find_lf i b) × (find_lf i b ≤ i + length b)
unfolding find_lf
find_lf-le i [] = omega arith
find_lf-le i (c ∷ b) = ground (arith, find_lf-le (i + 1) b)

line_start-Ends :
    (j : ℕ) (b : Bytes) (w : Work)
    → j ≤ length b
    → Ends (λ x w'. (x ≤ j) × (w'.buf ≡ w.buf)) (line_start j b w)
unfolding line_start
line_start-Ends zero b w le = ends (omega arith, refl)
line_start-Ends (suc j) b w le = Ends-then _ (element-Ends 0 b j w (omega arith)) λ c w1 h1.
    elim (Bool-cases (c == b'\n')) [
      | inl found ↦ rw found (ends (omega arith, h1.1))
      | inr other ↦ rw other (
          Ends-mono (line_start-Ends j b w1 (omega arith))
            λ x w2 h2. (omega (arith, h2.0), h2.1 ∙ h1.1))
    ]

-- The piece that is duplicated lies in the buffer, and is not empty.
pick_line-Ends :
    (n i : ℕ) (b : Bytes) (w : Work)
    → i < n
    → n ≡ length b
    → Ends (λ x w'. (x.0 + x.1 ≤ n) × (0 < x.1) × (w'.buf ≡ w.buf)) (pick_line n i b w)
unfolding pick_line
pick_line-Ends n i b w lt e = elim (Bool-cases (ltb (find_lf i (drop i b)) n)) [
  | inl found ↦ rw found (
      Ends-then _ (line_start-Ends (find_lf i (drop i b)) b w (ground arith))
        λ start w1 h1. ends (ground (arith, h1.0), ground (arith, h1.0), h1.1))
  | inr no_lf ↦ rw no_lf (
      Ends-then _ (rnd_below-Ends n w (omega arith)) λ start w1 h1.
        let most = if ltb n 32 then n else 32 in
        let maxc = if ltb n (start + most) then n - start else most in
        Ends-then _ (rnd_below-Ends maxc w1 (ground (arith, h1.0)))
          λ more w2 h2. ends (ground (arith, h1.0, h2.0), omega arith, h2.1 ∙ h1.1))
]

duplicate-Keeps : Keeps duplicate
unfolding duplicate
duplicate-Keeps w h = elim (Bool-cases (length w.buf == 0)) [
  | inl empty ↦ rw empty (ends h)
  | inr full ↦ rw full (
      Ends-then _ (rnd_below-Ends (length w.buf) w (ground arith)) λ i w1 h1.
        Ends-then _ (pick_line-Ends (length w.buf) i w1.buf w1 h1.0 (omega (arith, ap length h1.1)))
          λ x w2 h2. Ends-then _ (rnd_below-Ends (length w.buf + 1) w2 (omega arith)) λ pos w3 h3.
            let same : length w3.buf ≡ length w.buf = ap length (h3.1 ∙ h2.2 ∙ h1.1) in
            insert_own-Ends pos x.0 x.1 w3 (omega (arith, h3.0, same)) (omega (arith, h2.0, same))
              (omega (arith, same)))
]

insert_snippet-Keeps : Keeps insert_snippet
unfolding insert_snippet
insert_snippet-Keeps w h = Ends-then _ (rnd_below-Ends (length snips) w (omega arith)) λ si w1 h1.
    Ends-then _ (element-Ends [] snips si w1 h1.0) λ snip w2 h2.
      Ends-then _ (rnd_below-Ends (length w2.buf + 1) w2 (omega arith)) λ pos w3 h3.
        insert_at-Keeps pos snip w3 (omega (arith, ap length h1.1, ap length h2.1, ap length h3.1))

cases-All : (pool : List Bytes) → All FitsSeed pool → All Keeps (cases pool)
cases-All pool seeds = (
  substitute-Keeps,
  (
    insert_byte-Keeps,
    (
      delete_span-Keeps,
      (truncate-Keeps, (splice-Keeps pool seeds, (duplicate-Keeps, (insert_snippet-Keeps, tt)))),
    ),
  ),
)

pub mutate-Fits :
    (pool : List Bytes) (w : Work)
    → All FitsSeed pool
    → Fits w
    → Ends (λ u w'. Fits w') (mutate pool w)
unfolding mutate
mutate-Fits pool w seeds h = Ends-then _ (rnd_below-Ends 7 w (omega arith)) λ op w1 h1.
    All-get_or Keeps (cases pool) op (give tt) (cases-All pool seeds) (λ w' h'. ends h') w1
      (omega (arith, ap length h1.1))

pub mutate_times-Fits :
    (n : ℕ) (pool : List Bytes) (w : Work)
    → All FitsSeed pool
    → Fits w
    → Ends (λ u w'. Fits w') (mutate_times n pool w)
unfolding mutate_times
mutate_times-Fits zero pool w seeds h = ends h
mutate_times-Fits (suc n) pool w seeds h =
    Ends-then _ (mutate-Fits pool w seeds h) λ u w1 h1. mutate_times-Fits n pool w1 seeds h1
