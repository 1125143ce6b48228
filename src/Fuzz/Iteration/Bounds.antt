-- ===== src/Fuzz/Iteration/Bounds.antt =====
-- What the loop's body of scripts/fuzz_parse.c hands to run_entry.
use picohttpparser_rs.Base.{ℕ, ◌≤◌, ◌<◌, ◌≡◌, [], List, ◌==◌, if◌then◌else◌, length, get_or}
use picohttpparser_rs.Fuzz.Iteration.{order, all_pools, Call}
use picohttpparser_rs.Fuzz.Work.Rules.{Ends, ends, Fits}
use picohttpparser_rs.Fuzz.Work.{Work, Out, done, exits, W, and_then}
use picohttpparser_rs.Reference.Chars.{Bytes}

-- A run that returns, or that exits for the reason E.
pub data Runs (E : Type 0) {A : Type 0} (P : A → Work → Type 0) : Out A → Type 0 where
  runs : {a : A} {w : Work} → P a w → Runs E P (done a w)
  quits : E → Runs E P exits

module _ {E : Type 0} where
  pub Runs-then :
      {A B : Type 0} {P : A → Work → Type 0} {Q : B → Work → Type 0} {m : Out A} (f : A → W B)
      → Runs E P m
      → ((a : A) (w : Work) → P a w → Runs E Q (f a w))
      → Runs E Q (and_then m f)
  Runs-then f (runs {a} {w} h) k = k a w h
  Runs-then f (quits e) k = quits e

  pub Runs-map :
      {A : Type 0} {P Q : A → Work → Type 0} {m : Out A}
      → Runs E P m
      → ((a : A) (w : Work) → P a w → Q a w)
      → Runs E Q m
  Runs-map (runs {a} {w} h) k = runs (k a w h)
  Runs-map (quits e) k = quits e

  pub Runs-Ends :
      {A : Type 0} {P Q : A → Work → Type 0} {m : Out A}
      → Ends P m
      → ((a : A) (w : Work) → P a w → Q a w)
      → Runs E Q m
  Runs-Ends (ends {a} {w} h) k = runs (k a w h)

  pub Runs-after :
      {A B : Type 0} {P : A → Work → Type 0} {Q : B → Work → Type 0} {m : Out A} (f : A → W B)
      → Ends P m
      → ((a : A) (w : Work) → P a w → Runs E Q (f a w))
      → Runs E Q (and_then m f)
  Runs-after f (ends {a} {w} h) k = k a w h

pub Runs-because :
    {E E' : Type 0} {A : Type 0} {P : A → Work → Type 0} {m : Out A}
    → Runs E P m
    → (E → E')
    → Runs E' P m
Runs-because (runs h) f = runs h
Runs-because (quits e) f = quits (f e)

-- No pool that the selector allows has a seed.
abbrev pub NoSeeds : ℕ → List (List Bytes) → Type 0
NoSeeds entry pools =
    if entry == 3 then length (order pools all_pools) ≡ 0 else length (get_or pools entry []) ≡ 0

-- A call of run_entry with room in its arrays and a `last_len` inside of the buffer.
abbrev pub IsCall : Call → Work → Type 0
IsCall c w = (c.cap ≤ 64) × (c.last_len ≤ length w.buf) × Fits w

abbrev Filled : List (List Bytes) → ℕ → Type 0
Filled pools k = 0 < length (get_or pools k [])
