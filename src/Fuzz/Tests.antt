-- ===== src/Fuzz/Tests.antt =====
-- The theorems on the fuzz drivers at an input.
use picohttpparser_rs.Base.{[], ◌∷◌, List, ◌≤◌, arith, length, codes}
use picohttpparser_rs.Fuzz.Body.Bounds.{Ends}
use picohttpparser_rs.Fuzz.Body.Safety.{build_body-Ends}
use picohttpparser_rs.Fuzz.Body.{Gen, max_body, build_body}
use picohttpparser_rs.Reference.Chars.{Bytes}

abbrev two_seeds : List Bytes
two_seeds = codes "5\r\nhello\r\n0\r\n\r\n" ∷ codes "0\r\n" ∷ []

abbrev start : Gen
start = record { rng_state = 42; body = [] }

build_body-Ends_example : Ends (λ u g. length g.body ≤ max_body) (build_body two_seeds start)
build_body-Ends_example = build_body-Ends two_seeds (omega arith) start

abbrev some_body : Gen
some_body = record { rng_state = 42; body = codes "5\r\nhello\r\n" }
