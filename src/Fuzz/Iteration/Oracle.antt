-- ===== src/Fuzz/Iteration/Oracle.antt =====
-- main of scripts/fuzz_parse.c with the C parser on both sides.
use picohttpparser_rs.Base.{ℕ, ◌+◌, ◌≡◌, List, some}
use picohttpparser_rs.Fuzz.Compare.{Counts}
use picohttpparser_rs.Fuzz.Iteration.Bounds.{NoSeeds}
use picohttpparser_rs.Fuzz.Seeds.Load.{FailsIn}
use picohttpparser_rs.Fuzz.Seeds.{File, Seeds, no_seeds, load_seeds}
use picohttpparser_rs.Fuzz.Work.{Work}

-- `k` more cases, and no mismatch.
abbrev pub Counted : ℕ → Counts → Counts → Type 0
Counted k n n' = (n'.total_cases ≡ n.total_cases + k) × (n'.mismatch_count ≡ n.mismatch_count)

-- Why the driver exits with the status 2: a seed file cannot be read, or the files are read, and no pool
-- that it may choose has a seed.
pub data NoInput (entry : ℕ) (files : List File) : Type 0 where
  unread : FailsIn files → NoInput entry files
  unseeded :
      {l : Seeds} → load_seeds files no_seeds ≡ some l → NoSeeds entry l.pools → NoInput entry files
