-- ===== src/Reference/Headers/Steps.antt =====
-- One round of the loop of parse_headers, by the byte that it begins with.
use picohttpparser_rs.Base.{ℕ, suc, ◌+◌, ◌≡◌, ◌∷◌, ◌==◌, true, false, ok, arith}
use picohttpparser_rs.Reference.Chars.{Bytes, Cursor, cursor, expect_char}
use picohttpparser_rs.Reference.Headers.{header_line, header_loop}
use picohttpparser_rs.Reference.Output.{HeaderTable, and_then}

module _ (fuel max_headers n c : ℕ) (s : Bytes) (t : HeaderTable) where
  pub header_loop-cr :
      (c == b'\r') ≡ true
      → header_loop (suc fuel) max_headers n (c ∷ s) t ≡ (expect_char b'\n' (n + 1) s, t)
  unfolding header_loop
  header_loop-cr cr = rw cr

  pub header_loop-lf :
      (c == b'\n') ≡ true
      → header_loop (suc fuel) max_headers n (c ∷ s) t ≡ (ok (cursor (n + 1) s), t)
  unfolding header_loop
  header_loop-lf lf = ground arith

  pub header_loop-line :
      (c == b'\r') ≡ false
      → (c == b'\n') ≡ false
      → header_loop (suc fuel) max_headers n (c ∷ s) t
        ≡ and_then
            (header_line max_headers n c s t)
            (λ (buf : Cursor). header_loop fuel max_headers buf.at buf.rest)
  unfolding header_loop
  header_loop-line ncr nlf = rw (ncr, nlf)
