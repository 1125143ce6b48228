-- ===== src/Reference/Chunked/Data.antt =====
-- The bytes of a chunk's data, all at once.
use mathlib.Core.List.{append-nil, append_assoc}
use picohttpparser_rs.Base.{
  ℕ, zero, suc, ◌-◌, ◌≤◌, ◌<◌, ◌≡◌, refl, ◌∙◌, ap, [], ◌∷◌, ◌++◌, arith, length, take, drop,
}
use picohttpparser_rs.Reference.Chars.{Bytes}
use picohttpparser_rs.Reference.Chunked.Stream.{run, step, emit, trace, more, run-emit}
use picohttpparser_rs.Reference.Decoder.{Decoder, in_chunk_data, in_chunk_data_expect_cr}

abbrev pub in_data : ℕ → Decoder → Decoder
in_data k d = record d { bytes_left_in_chunk = k; state = in_chunk_data }

abbrev pub past_data : Decoder → Decoder
past_data d = record d { bytes_left_in_chunk = 0; state = in_chunk_data_expect_cr }

module _ (d : Decoder) where
  step-in_data : (k c : ℕ) → 0 < k → step (in_data (suc k) d) c ≡ emit (in_data k d)
  unfolding step
  step-in_data k c h = ground arith

  step-in_data_last : (c : ℕ) → step (in_data 1 d) c ≡ emit (past_data d)
  unfolding step
  step-in_data_last c = refl

  -- More data is expected than there is.
  pub run-in_data :
      (out s : Bytes) (k : ℕ)
      → length s < k
      → run (in_data k d) out s ≡ trace (out ++ s) [] (in_data (k - length s) d) more
  unfolding run
  run-in_data out [] k h =
      rw append-nil
        (let same : k ≡ k - 0 = omega arith in ap (λ j. trace out [] (in_data j d) more) same)
  run-in_data out (c ∷ s) zero h = absurd (omega arith)
  run-in_data out (c ∷ s) (suc k) h =
      run-emit _ _ out c s (step-in_data k c (omega arith))
      ∙ run-in_data (out ++ (c ∷ [])) s k (omega arith)
      ∙ rw append_assoc (
          let same : k - length s ≡ suc k - suc (length s) = omega arith in
          ap (λ j. trace (out ++ (c ∷ s)) [] (in_data j d) more) same)

  run-past_data-suc :
      (out s : Bytes) (k : ℕ)
      → suc k ≤ length s
      → run (in_data (suc k) d) out s ≡ run (past_data d) (out ++ take (suc k) s) (drop (suc k) s)
  run-past_data-suc out [] k h = absurd (omega arith)
  run-past_data-suc out (c ∷ s) zero h = run-emit _ _ out c s (step-in_data_last c)
  run-past_data-suc out (c ∷ s) (suc k) h =
      run-emit _ _ out c s (step-in_data (suc k) c (omega arith))
      ∙ run-past_data-suc (out ++ (c ∷ [])) s k (omega arith)
      ∙ rw append_assoc

  -- The chunk's data ends in these bytes.
  pub run-past_data :
      (out s : Bytes) (k : ℕ)
      → 0 < k
      → k ≤ length s
      → run (in_data k d) out s ≡ run (past_data d) (out ++ take k s) (drop k s)
  run-past_data out s zero pos h = absurd (omega arith)
  run-past_data out s (suc k) pos h = run-past_data-suc out s k h
