-- ===== src/Fuzz/Pieces/Cover.antt =====
-- What an iteration of scripts/fuzz_chunked.c plans.
use picohttpparser_rs.Base.{◌≤◌, ◌≡◌, List, length}
use picohttpparser_rs.Fuzz.Body.{Gen}
use picohttpparser_rs.Reference.Chars.{Bytes}
use picohttpparser_rs.Reference.Decoder.{Decoder}
use picohttpparser_rs.Fuzz.Pieces.Sorted.{concat}

-- The digits that the decoder has counted fit its 64-bit size; the body stays as it is.
abbrev Starts : Gen → Decoder → Gen → Type 0
Starts g d g' = (d.hex_count ≤ 16) × (g'.body ≡ g.body)

-- What an iteration's calls are: one to MAX_CALLS pieces that make up the body.
pub record Covers (body : Bytes) (x : Decoder × List Bytes) : Type 0 where
  pub whole : concat x.1 ≡ body
  pub some_pieces : 1 ≤ length x.1
  pub few_pieces : length x.1 ≤ 4
  pub few_digits : x.0.hex_count ≤ 16
