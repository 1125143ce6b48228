-- ===== src/Reference/Chunked/Chunks.antt =====
-- Chunks and trailer lines as a sender writes them, read by the stream decoder.
use mathlib.Core.List.{append_assoc, append-nil}
use picohttpparser_rs.Base.{ℕ, ◌<◌, ◌≡◌, refl, ◌∙◌, [], ◌∷◌, ◌++◌, List, arith, length, All}
use picohttpparser_rs.Base.Lists.{take-length_append, drop-length_append, length-append}
use picohttpparser_rs.Reference.Chars.{Bytes}
use picohttpparser_rs.Reference.Chunked.Data.{in_data, past_data, run-past_data}
use picohttpparser_rs.Reference.Chunked.Printed.{
  crlf, IsText, Size, Writes, print_size, at_state, run-print_size,
}
use picohttpparser_rs.Reference.Chunked.Stream.{
  skip, trace, finished, run, step, step_in, run-skip, run-finish,
}
use picohttpparser_rs.Reference.Decoder.{
  in_chunk_size, in_chunk_header_expect_lf, in_chunk_data, in_trailers_line_head,
  in_trailers_line_middle, Decoder,
}

pub record Chunk : Type 0 where
  pub size : Size
  pub body : Bytes

pub record IsChunk (c : Chunk) : Type 0 where
  pub size_is : Writes c.size (length c.body)
  pub has_body : 0 < length c.body

abbrev pub print_chunk : Chunk → Bytes → Bytes
print_chunk c s = print_size c.size (c.body ++ crlf s)

abbrev pub print_chunks : List Chunk → Bytes → Bytes
print_chunks [] s = s
print_chunks (c ∷ cs) s = print_chunk c (print_chunks cs s)

abbrev pub data_of : List Chunk → Bytes
data_of [] = []
data_of (c ∷ cs) = c.body ++ data_of cs

-- A trailer line without its line end: text that is not empty.
abbrev pub IsLine : Bytes → Type 0
IsLine s = (0 < length s) × IsText s

abbrev pub print_lines : List Bytes → Bytes → Bytes
print_lines [] s = crlf s
print_lines (l ∷ ls) s = l ++ crlf (print_lines ls s)

abbrev pub start : Decoder → Decoder
start d = at_state in_chunk_size 0 0 d

module _ (d : Decoder) where
  step-size_lf :
      (n : ℕ)
      → 0 < n
      → step (at_state in_chunk_header_expect_lf n 0 d) b'\n'
        ≡ skip (in_data n (at_state in_chunk_data n 0 d))
  unfolding step step_in
  step-size_lf n h = ground arith

  run-body_end :
      (out s : Bytes) (n : ℕ)
      → run (past_data (at_state in_chunk_data n 0 d)) out (crlf s) ≡ run (start d) out s
  unfolding step step_in
  run-body_end out s n =
      run-skip _ _ out b'\r' (b'\n' ∷ s) refl ∙ run-skip _ (start d) out b'\n' s refl

  run-print_chunk :
      (out s : Bytes) (c : Chunk)
      → IsChunk c
      → run (start d) out (print_chunk c s) ≡ run (start d) (out ++ c.body) s
  run-print_chunk out s c h =
      let n = length c.body in
      run-print_size d out (c.body ++ crlf s) c.size n h.size_is
      ∙ run-skip _ _ out b'\n' (c.body ++ crlf s) (step-size_lf n h.has_body)
      ∙ run-past_data (at_state in_chunk_data n 0 d) out (c.body ++ crlf s) n h.has_body
          (omega (arith, length-append c.body (crlf s)))
      ∙ rw (take-length_append c.body (crlf s), drop-length_append c.body (crlf s))
          (run-body_end (out ++ c.body) s n)

  pub run-print_chunks :
      (out s : Bytes) (cs : List Chunk)
      → All IsChunk cs
      → run (start d) out (print_chunks cs s) ≡ run (start d) (out ++ data_of cs) s
  run-print_chunks out s [] h = rw append-nil
  run-print_chunks out s (c ∷ cs) h =
      run-print_chunk out (print_chunks cs s) c h.0
      ∙ run-print_chunks (out ++ c.body) s cs h.1
      ∙ rw append_assoc

  abbrev pub at_head : Decoder
  at_head = at_state in_trailers_line_head 0 0 d

  abbrev at_middle : Decoder
  at_middle = at_state in_trailers_line_middle 0 0 d

  run-line_middle :
      (out s l : Bytes) → IsText l → run at_middle out (l ++ crlf s) ≡ run at_head out s
  unfolding step step_in
  run-line_middle out s [] h =
      run-skip at_middle at_middle out b'\r' (b'\n' ∷ s) refl
      ∙ run-skip at_middle at_head out b'\n' s refl
  run-line_middle out s (c ∷ l) h =
      run-skip at_middle at_middle out c (l ++ crlf s) (ground (arith, h.0))
      ∙ run-line_middle out s l h.1

  run-line : (out s l : Bytes) → IsLine l → run at_head out (l ++ crlf s) ≡ run at_head out s
  unfolding step step_in
  run-line out s [] h = absurd (omega (arith, h.0))
  run-line out s (c ∷ l) h =
      run-skip at_head at_middle out c (l ++ crlf s) (ground (arith, h.1.0))
      ∙ run-line_middle out s l h.1.1

  pub run-print_lines :
      (out s : Bytes) (ls : List Bytes)
      → All IsLine ls
      → run at_head out (print_lines ls s) ≡ trace out s at_head finished
  unfolding step step_in
  run-print_lines out s [] h =
      run-skip at_head at_head out b'\r' (b'\n' ∷ s) refl
      ∙ run-finish at_head at_head out b'\n' s refl
  run-print_lines out s (l ∷ ls) h =
      run-line out (print_lines ls s) l h.0 ∙ run-print_lines out s ls h.1
