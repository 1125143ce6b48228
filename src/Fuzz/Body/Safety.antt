-- ===== src/Fuzz/Body/Safety.antt =====
-- The arrays and divisions of build_body of scripts/fuzz_chunked.c.
use picohttpparser_rs.Base.{
  ℕ, zero, suc, ◌+◌, ◌-◌, ◌/◌, ◌≤◌, ◌<◌, ◌≡◌, refl, ◌∙◌, ap, ◌&&◌, [], ◌++◌, List, arith,
  Bool-cases, inl, inr, ltb, leb, ◌==◌, if◌then◌else◌, length, All, false,
}
use picohttpparser_rs.Base.Lists.{All-get_or}
use picohttpparser_rs.Reference.Chars.{Bytes}
use picohttpparser_rs.Fuzz.Body.{
  Gen, max_body, window_seed_at, window_seed, window_len, window_off, cases, hex_digits,
  upper_digits, hex_run, insert_hex_run, truncate, splice_tail, mutation, mutate, mutate_times,
  start_body, build_body,
}
use picohttpparser_rs.Fuzz.Body.Bounds.{
  Ends, ends, Ends-then, Ends-mono, Fits, KeepsFull, rng_less-Ends, interesting_byte-Draws,
  byte_from-Draws, one_of-Draws, either-Draws, insert-Ends, add_byte, seed-Ends, bytes_at-Ends,
  cut_to-Ends, put_random-KeepsFull, delete_random-KeepsFull, insert_random-KeepsFull,
}

hex_run-Ends :
    (n : ℕ) (g : Gen) → Ends (λ cs g'. (length cs ≡ n) × (g'.body ≡ g.body)) (hex_run n g)
unfolding hex_run
hex_run-Ends zero g = ends (refl, refl)
hex_run-Ends (suc n) g =
    Ends-then _ (one_of-Draws hex_digits (omega arith) g)
      λ c g1 h1. Ends-then _ (hex_run-Ends n g1) λ cs g2 h2. ends (omega (arith, h2.0), h2.1 ∙ h1)

insert_hex_run-KeepsFull : KeepsFull insert_hex_run
unfolding insert_hex_run
insert_hex_run-KeepsFull g pos h = Ends-then _ (rng_less-Ends 8 g (omega arith)) λ drawn g1 h1.
    Ends-then _ (rng_less-Ends (length g.body + 1) g1 (omega arith)) λ at g2 h2.
      Ends-then _
        (hex_run-Ends
          (if ltb (max_body - length g.body) (1 + drawn)
            then max_body - length g.body
            else 1 + drawn)
          g2)
        λ cs g3 h3.
          Ends-mono
            (insert-Ends at cs g3
              (omega (arith, h2.0, ap length h1.1, ap length h2.1, ap length h3.1))
              (ground (arith, h3.0, ap length h1.1, ap length h2.1, ap length h3.1)))
            λ u g4 h4. ground (arith, h4, h3.0, ap length h1.1, ap length h2.1, ap length h3.1)

truncate-KeepsFull : KeepsFull truncate
unfolding truncate
truncate-KeepsFull g pos h = elim (Bool-cases (ltb 1 (length g.body))) [
  | inl several ↦ rw several (
      Ends-then _ (rng_less-Ends (length g.body) g pos) λ n g1 h1.
        Ends-mono (cut_to-Ends (1 + n) g1 (omega (arith, h1.0, ap length h1.1)))
          λ u g2 h2. omega (arith, h, h1.0, h2))
  | inr one ↦ rw one (ends h)
]

window_off-Ends :
    (budget len : ℕ) (g : Gen)
    → Ends
        (λ off g'. (off + window_len budget len ≤ len) × (g'.body ≡ g.body))
        (window_off budget len g)
unfolding window_off
window_off-Ends budget len g = elim (Bool-cases (ltb budget len)) [
  | inl long ↦ rw long (
      Ends-mono (rng_less-Ends (len - budget + 1) g (omega arith))
        λ off g1 h1. (ground (arith, h1.0), h1.1))
  | inr short ↦ rw short (ends (omega arith, refl))
]

window_len-le : (budget len : ℕ) → window_len budget len ≤ budget
window_len-le budget len = ground arith

-- A window, where the body has room for `budget` bytes.
window_seed_at-Ends :
    (pool : List Bytes) (s budget : ℕ) (g : Gen)
    → s < length pool
    → length g.body + budget ≤ max_body
    → Ends
        (λ n g'. (n ≤ budget) × (length g'.body ≡ length g.body + n))
        (window_seed_at pool s budget g)
unfolding window_seed_at
window_seed_at-Ends pool s budget g lt room = Ends-then _ (seed-Ends pool s g lt) λ xs g1 h1.
    Ends-then _ (window_off-Ends budget (length xs) g1) λ off g2 h2.
      let n = window_len budget (length xs) in
      let before : length g2.body ≡ length g.body = ap length h2.1 ∙ ap length h1 in
      Ends-then _ (bytes_at-Ends xs off n g2 h2.0) λ window g3 h3.
        Ends-then _
          (insert-Ends (length g2.body) window g3 (omega (arith, ap length h3.1))
            (omega (arith, h3.0, ap length h3.1, before, window_len-le budget (length xs))))
          λ u g4 h4.
            ends (window_len-le budget (length xs), omega (arith, h4, h3.0, ap length h3.1, before))

splice_tail-KeepsFull : (pool : List Bytes) → 0 < length pool → KeepsFull (splice_tail pool)
unfolding splice_tail
splice_tail-KeepsFull pool some_seeds g pos h = elim (Bool-cases (ltb (length g.body) max_body)) [
  | inl room ↦ rw room (
      Ends-then _ (rng_less-Ends (length pool) g some_seeds) λ s g1 h1.
        Ends-then _
          (window_seed_at-Ends pool s (max_body - length g.body) g1 h1.0
            (ground (arith, ap length h1.1)))
          λ added g2 h2. Ends-then _ (seed-Ends pool s g2 h1.0) λ xs g3 h3.
            let same : length g3.body ≡ length g2.body = ap length h3 in
            elim (Bool-cases (
              length g2.body == length g.body
              && ltb (length g2.body) max_body
              && ltb 0 (length xs))) [
                | inl forced ↦
                    rw forced
                      (add_byte (length g2.body) g3 (omega (arith, same)) (ground (arith, same)))
                | inr done ↦ rw done (ends (ground (arith, same, h2, ap length h1.1)))
              ])
  | inr full ↦ rw full (ends h)
]

-- Every case of the switch.
cases-All : (pool : List Bytes) → All KeepsFull (cases pool)
cases-All pool = (
  put_random-KeepsFull _ interesting_byte-Draws,
  (
    put_random-KeepsFull _ interesting_byte-Draws,
    (
      put_random-KeepsFull _ (byte_from-Draws 0x20 0x5f (omega arith)),
      (
        put_random-KeepsFull _ (byte_from-Draws 0 0x20 (omega arith)),
        (
          put_random-KeepsFull _ (byte_from-Draws 0x80 0x80 (omega arith)),
          (
            put_random-KeepsFull _ (one_of-Draws (hex_digits ++ upper_digits) (omega arith)),
            (
              put_random-KeepsFull _ (λ g. ends refl),
              (
                put_random-KeepsFull _ (λ g. ends refl),
                (
                  put_random-KeepsFull _ (either-Draws b' ' b'\t'),
                  (
                    put_random-KeepsFull _ (either-Draws 0 0x7f),
                    (
                      delete_random-KeepsFull,
                      (
                        insert_random-KeepsFull,
                        (insert_hex_run-KeepsFull, (truncate-KeepsFull, tt)),
                      ),
                    ),
                  ),
                ),
              ),
            ),
          ),
        ),
      ),
    ),
  ),
)

module _ (pool : List Bytes) (some_seeds : 0 < length pool) where
  mutate-Ends : (g : Gen) → Fits g → Ends (λ u g'. Fits g') (mutate pool g)
  unfolding mutate mutation
  mutate-Ends g h = elim (Bool-cases (length g.body == 0)) [
    | inl empty ↦ rw empty (add_byte 0 g (omega arith) (ground arith))
    | inr full ↦ rw full (
        Ends-then _ (rng_less-Ends 15 g (omega arith)) λ op g1 h1.
          All-get_or KeepsFull (cases pool) op (splice_tail pool) (cases-All pool)
            (splice_tail-KeepsFull pool some_seeds) g1 (ground (arith, ap length h1.1))
            (omega (arith, ap length h1.1)))
  ]

  mutate_times-Ends : (n : ℕ) (g : Gen) → Fits g → Ends (λ u g'. Fits g') (mutate_times n pool g)
  unfolding mutate_times
  mutate_times-Ends zero g h = ends h
  mutate_times-Ends (suc n) g h = Ends-then _ (mutate-Ends g h) λ u g1 h1. mutate_times-Ends n g1 h1

  window_seed-Ends :
      (s : ℕ) (g : Gen) → s < length pool → Ends (λ u g'. Fits g') (window_seed pool s g)
  unfolding window_seed
  window_seed-Ends s g lt = Ends-then _ (seed-Ends pool s g lt) λ xs g1 h1.
      Ends-then _ (window_off-Ends max_body (length xs) g1) λ off g2 h2.
        let n = window_len max_body (length xs) in
        Ends-then _ (bytes_at-Ends xs off n g2 h2.0)
          λ window g3 h3. ends (omega (arith, h3.0, window_len-le max_body (length xs)))

  start_body-Ends : (g : Gen) → Ends (λ u g'. Fits g') (start_body pool g)
  unfolding start_body
  start_body-Ends g = Ends-then _ (rng_less-Ends 10 g (omega arith)) λ coin g1 h1.
      elim (Bool-cases (ltb coin 2 && leb 2 (length pool))) [
        | inl two ↦ rw two (
            Ends-then _ (rng_less-Ends (length pool) g1 some_seeds) λ a g2 h2.
              Ends-then _ (rng_less-Ends (length pool) g2 some_seeds) λ b g3 h3.
                Ends-then _
                  (window_seed_at-Ends pool a (max_body / 2) (record g3 { body = [] }) h2.0
                    (omega arith))
                  λ n g4 h4.
                    Ends-then _
                      (window_seed_at-Ends pool b (max_body - length g4.body) g4 h3.0
                        (omega (arith, h4)))
                      λ k g5 h5. ends (omega (arith, h4, h5)))
        | inr one ↦ rw one (
            Ends-then _ (rng_less-Ends (length pool) g1 some_seeds)
              λ s g2 h2. window_seed-Ends s g2 h2.0)
      ]

  -- build_body with at least one seed, from any state of the random numbers: it returns, which means
  -- that it divides by no 0 and reads and writes inside of its arrays, and the body that it builds has
  -- at most MAX_BODY bytes. Seeds of any length are allowed.
  pub build_body-Ends : (g : Gen) → Ends (λ u g'. length g'.body ≤ max_body) (build_body pool g)
  unfolding build_body
  build_body-Ends g =
      let seeds : (length pool == 0) ≡ false = ground arith in
      rw seeds (
        Ends-then _ (start_body-Ends g) λ u g1 h1.
          Ends-then _ (rng_less-Ends 12 g1 (omega arith))
            λ more g2 h2. mutate_times-Ends (1 + more) g2 (omega (arith, h1, ap length h2.1)))
