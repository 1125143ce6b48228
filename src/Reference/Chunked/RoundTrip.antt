-- ===== src/Reference/Chunked/RoundTrip.antt =====
-- phr_decode_chunked on messages that a sender of chunks writes.
use mathlib.Core.Path.{subst}
use picohttpparser_rs.Base.{
  ℕ, ◌^◌, ◌<◌, ◌≡◌, refl, sym, ◌∙◌, ap, [], ◌∷◌, List, some, Bool, true, false, arith, length, take,
  drop, All, if◌then◌else◌, ℤ, pos, lt→ltb, ◌-◌,
}
use picohttpparser_rs.Reference.Chars.{Bytes}
use picohttpparser_rs.Reference.Chunked.Printed.{Size, Writes, print_size, at_state, run-print_size}
use picohttpparser_rs.Reference.Chunked.Stream.{
  skip, finish, trace, finished, run, step, step_in, run-skip, run-finish,
}
use picohttpparser_rs.Reference.Chunked.Refines.{Decodes, return_of, phr_decode_chunked-Decodes}
use picohttpparser_rs.Reference.Chunked.{Decoded, phr_decode_chunked, enter, charge}
use picohttpparser_rs.Reference.Decoder.{in_chunk_size, in_chunk_header_expect_lf, Decoder}
use picohttpparser_rs.Reference.Chunked.Chunks.{
  Chunk, IsChunk, print_chunks, data_of, IsLine, print_lines, start, at_head, run-print_chunks,
  run-print_lines,
}

-- Chunks, the last one, of size 0, and trailer lines.
pub record Message : Type 0 where
  pub chunks : List Chunk
  pub last : Size
  pub trailers : List Bytes

pub record IsMessage (m : Message) : Type 0 where
  pub chunks_are : All IsChunk m.chunks
  pub last_is : Writes m.last 0
  pub trailers_are : All IsLine m.trailers

-- The message with `s` behind what the decoder is to read of it: without `consume_trailer` it stops
-- behind the line of the last chunk.
abbrev pub print_message : Bool → Message → Bytes → Bytes
print_message consume m s =
    print_chunks m.chunks (print_size m.last (if consume then print_lines m.trailers s else s))

-- Where the decoder stands behind a message.
abbrev pub final : Bool → Decoder → Decoder
final true d = at_head d
final false d = at_state in_chunk_header_expect_lf 0 0 d

module _ (d : Decoder) where
  step-last :
      (consume : Bool)
      → d.consume_trailer ≡ consume
      → step (at_state in_chunk_header_expect_lf 0 0 d) b'\n'
        ≡ (if consume then skip (at_head d) else finish (final false d))
  unfolding step step_in
  step-last consume e = rw e

  run-print_tail :
      (consume : Bool) (out s : Bytes) (m : Message)
      → IsMessage m
      → d.consume_trailer ≡ consume
      → run
          (at_state in_chunk_header_expect_lf 0 0 d)
          out
          (b'\n' ∷ (if consume then print_lines m.trailers s else s))
        ≡ trace out s (final consume d) finished
  run-print_tail true out s m h e =
      run-skip _ (at_head d) out b'\n' (print_lines m.trailers s) (step-last true e)
      ∙ run-print_lines d out s m.trailers h.trailers_are
  run-print_tail false out s m h e = run-finish _ (final false d) out b'\n' s (step-last false e)

  pub run-print_message :
      (s : Bytes) (m : Message)
      → IsMessage m
      → run (start d) [] (print_message d.consume_trailer m s)
        ≡ trace (data_of m.chunks) s (final d.consume_trailer d) finished
  run-print_message s m h =
      let tail = if d.consume_trailer then print_lines m.trailers s else s in
      run-print_chunks d [] (print_size m.last tail) m.chunks h.chunks_are
      ∙ run-print_size d (data_of m.chunks) tail m.last 0 h.last_is
      ∙ run-print_tail d.consume_trailer (data_of m.chunks) s m h refl

-- A decoder at the beginning of a message.
pub record IsFresh (d : Decoder) : Type 0 where
  pub in_size : d.state ≡ in_chunk_size
  pub no_size : d.bytes_left_in_chunk ≡ 0
  pub no_digits : d.hex_count ≡ 0

-- A call that returns the number of bytes behind the message, with the data at the front of the
-- buffer and those bytes right behind it.
pub record Receives (d : Decoder) (buf data_bytes left_over : Bytes) : Type 0 where
  pub result : Decoded
  pub returns : phr_decode_chunked d buf ≡ some result
  pub ret_is : result.ret ≡ pos (length left_over)
  pub bufsz_is : result.bufsz ≡ length data_bytes
  pub decoded : take result.bufsz result.buf ≡ data_bytes
  pub left_behind : take (length left_over) (drop result.bufsz result.buf) ≡ left_over

charge-finished :
    (wasted left : ℕ) (d : Decoder)
    → left < 2 ^ 63
    → (charge wasted (return_of finished left, d)).0 ≡ pos left
unfolding charge
charge-finished wasted left d lt = rw (lt→ltb left (2 ^ 63) lt)

Receives-of_Decodes :
    (d : Decoder) (buf data_bytes left_over : Bytes) (d' : Decoder)
    → length left_over < 2 ^ 63
    → Decodes d buf (trace data_bytes left_over d' finished)
    → Receives d buf data_bytes left_over
Receives-of_Decodes d buf data_bytes left_over d' lt o = record {
  result = o.result;
  returns = o.returns;
  ret_is =
      ap (λ (x : ℤ × Decoder). x.0) o.charged
      ∙ charge-finished (length buf - length data_bytes) (length left_over) d' lt;
  bufsz_is = o.bufsz_is;
  decoded = o.decoded;
  left_behind = o.left_over;
}

-- A message in chunks, each with 1 to 16 hexadecimal digits for its size, an optional extension and a
-- body that is not empty, then the last chunk and, where the decoder consumes them, trailer lines: a
-- fresh decoder that is given it in one call, with fewer than 2^63 bytes behind it, returns the number
-- of those bytes, and leaves in the buffer the bodies one behind the other and then those bytes.
pub phr_decode_chunked-Receives :
    (d : Decoder) (m : Message) (left_over : Bytes)
    → IsFresh d
    → IsMessage m
    → length left_over < 2 ^ 63
    → Receives d (print_message d.consume_trailer m left_over) (data_of m.chunks) left_over
phr_decode_chunked-Receives d m left_over fresh h lt =
    let buf = print_message d.consume_trailer m left_over in
    let d1 = (enter d buf).decoder in
    let same : start d1 ≡ d1 = ground (arith, fresh) in
    Receives-of_Decodes d buf (data_of m.chunks) left_over (final d.consume_trailer d1) lt (
      subst (Decodes d buf) (ap (λ x. run x [] buf) (sym same) ∙ run-print_message d1 left_over m h)
        (phr_decode_chunked-Decodes d buf (λ e. absurd (cc (fresh.in_size)))))
