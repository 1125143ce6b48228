-- ===== src/Fuzz/Iteration.antt =====
-- main of scripts/fuzz_parse.c after its arguments are read: the loop over the iterations.
pub mod Bounds
pub mod Oracle
use picohttpparser_rs.Base.{
  ℕ, zero, suc, ◌+◌, ◌-◌, [], ◌∷◌, List, Bool, Option, none, some, ltb, leb, ◌==◌, if◌then◌else◌,
  length, get_or,
}
use picohttpparser_rs.Fuzz.Compare.{Library, Counts, run_entry}
use picohttpparser_rs.Fuzz.Mutate.{seed, mutate_times}
use picohttpparser_rs.Fuzz.Seeds.{File, Seeds, no_seeds, load_seeds}
use picohttpparser_rs.Fuzz.Work.{
  Work, Out, W, and_then, ◌>>=◌, ◌>>◌, give, done, undefined, exits, Memcpy, element, max_len,
  xs_seed, rnd_below, len,
}
use picohttpparser_rs.Reference.Chars.{Bytes}
use picohttpparser_rs.Reference.Output.{Header}

-- CAPS
abbrev pub caps : List ℕ
caps = 0 ∷ 1 ∷ 2 ∷ 3 ∷ 5 ∷ 16 ∷ 64 ∷ []

-- MAX_CASES
abbrev pub max_cases : ℕ
max_cases = 5

-- `order`: the pools with a seed.
pub order : List (List Bytes) → List ℕ → List ℕ
order pools [] = []
order pools (k ∷ ks) =
    let rest = order pools ks in if ltb 0 (length (get_or pools k [])) then k ∷ rest else rest

abbrev pub all_pools : List ℕ
all_pools = 0 ∷ 1 ∷ 2 ∷ []

unfoldable pub choose_pool : ℕ → List (List Bytes) → W ℕ
unfolding element
choose_pool entry pools =
    if entry == 3
    then (let o = order pools all_pools in
        if length o == 0 then (λ w. exits) else (do i ← rnd_below (length o); element 0 o i))
    else give entry

-- The memcpy of the base seed.
unfoldable pub load_base : Bytes → W (Unit {0})
load_base bytes w =
    if leb (length bytes) max_len then done tt (record w { buf = bytes }) else undefined

-- What run_entry is called with, but for the buffer.
pub record Call : Type 0 where
  pub entry_here : ℕ
  pub cap : ℕ
  pub last_len : ℕ

-- The loop's body before its call of run_entry.
unfoldable pub make_call : ℕ → List (List Bytes) → W Call
unfolding choose_pool load_base element
make_call entry pools = do
  selpool ← choose_pool entry pools
  let chosen = get_or pools selpool []
  (if length chosen == 0 then (λ w. exits) else (do
    s ← rnd_below (length chosen)
    base ← seed chosen s
    load_base base
    more ← rnd_below 4
    mutate_times (1 + more) chosen
    c ← rnd_below (length caps)
    cap ← element 0 caps c
    n ← len
    last_len ← rnd_below (n + 1)
    give (record { entry_here = selpool; cap = cap; last_len = last_len })))

unfoldable pub iterate : Library → Header → ℕ → List (List Bytes) → Counts → W Counts
unfolding make_call
iterate rust garbage entry pools n = do
  call ← make_call entry pools
  (λ w. elim (run_entry rust garbage call.entry_here call.cap call.last_len w.buf n) [
    | none ↦ undefined
    | some n' ↦ done n' w
  ])

-- The loop with the iterations that are left.
pub fuzz_loop : Library → Header → ℕ → List (List Bytes) → ℕ → Counts → W Counts
unfolding iterate
fuzz_loop rust garbage entry pools zero n = give n
fuzz_loop rust garbage entry pools (suc k) n = do
  n' ← iterate rust garbage entry pools n
  (if leb max_cases n'.mismatch_count then give n' else fuzz_loop rust garbage entry pools k n')

abbrev pub no_counts : Counts
no_counts = record { total_cases = 0; mismatch_count = 0 }

-- From the return of load_seeds on.
unfoldable pub run_loaded : Library → Memcpy → Header → ℕ → ℕ → ℕ → Option Seeds → Out ℕ
unfolding fuzz_loop
run_loaded rust memcpy garbage entry prng_seed iters none = exits
run_loaded rust memcpy garbage entry prng_seed iters (some l) =
    if l.loaded == 0
    then exits
    else and_then
        (fuzz_loop rust garbage entry l.pools iters no_counts
          (record { xs_state = xs_seed prng_seed; buf = []; overlapped = memcpy }))
        (λ n. give (if n.mismatch_count == 0 then 0 else 1))

-- The exit status, from a selector, the seed of the random numbers and the iterations. An exit on the
-- way has the status 2.
unfoldable pub run_main : Library → Memcpy → Header → ℕ → ℕ → ℕ → List File → Out ℕ
unfolding run_loaded
run_main rust memcpy garbage entry prng_seed iters files =
    run_loaded rust memcpy garbage entry prng_seed iters (load_seeds files no_seeds)
