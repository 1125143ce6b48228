-- ===== src/Reference/Chunked/Stream.antt =====
-- What phr_decode_chunked promises of a stream, one byte at a time: a byte is framing, data or the
-- last of the message, or it is refused. No buffer, no offsets and no loops inside a state.
use picohttpparser_rs.Base.{ℕ, ◌-◌, ◌≡◌, [], ◌∷◌, ◌++◌, none, some, ◌==◌, if◌then◌else◌}
use picohttpparser_rs.Reference.Chars.{Bytes}
use picohttpparser_rs.Reference.Decoder.{
  State, in_chunk_size, in_chunk_ext, in_chunk_header_expect_lf, in_chunk_data,
  in_chunk_data_expect_cr, in_chunk_data_expect_lf, in_trailers_line_head, in_trailers_line_middle,
  Decoder, decode_hex, ends_size, push_digit, max_digits,
}

pub data Event : Type 0 where
  skip : Decoder → Event
  emit : Decoder → Event
  finish : Decoder → Event
  refuse : Decoder → Event

abbrev goto : State → Decoder → Decoder
goto s d = record d { state = s }

abbrev pub on_ext : Decoder → ℕ → Event
on_ext d c =
    if c == b'\r'
    then skip (goto in_chunk_header_expect_lf d)
    else if c == b'\n'
    then refuse d
    else skip d

abbrev on_size_end : Decoder → ℕ → Event
on_size_end d c =
    if d.hex_count == 0
    then refuse d
    else if ends_size c
    then on_ext (record d { hex_count = 0; state = in_chunk_ext }) c
    else refuse d

abbrev pub on_size : Decoder → ℕ → Event
on_size d c = elim (decode_hex c) [
  | none ↦ on_size_end d c
  | some v ↦ if d.hex_count == max_digits then refuse d else skip (push_digit v d)
]

abbrev on_header_lf : Decoder → ℕ → Event
on_header_lf d c =
    if c == b'\n'
    then (if d.bytes_left_in_chunk == 0
        then (if d.consume_trailer then skip (goto in_trailers_line_head d) else finish d)
        else skip (goto in_chunk_data d))
    else refuse d

-- A byte of data, the last of its chunk or not.
abbrev on_data : Decoder → ℕ → Event
on_data d c = emit (record d {
  bytes_left_in_chunk = d.bytes_left_in_chunk - 1;
  state = if d.bytes_left_in_chunk == 1 then in_chunk_data_expect_cr else in_chunk_data;
})

abbrev on_head : Decoder → ℕ → Event
on_head d c =
    if c == b'\r'
    then skip d
    else if c == b'\n'
    then finish d
    else skip (goto in_trailers_line_middle d)

unfoldable pub step_in : State → Decoder → ℕ → Event
step_in in_chunk_size d c = on_size d c
step_in in_chunk_ext d c = on_ext d c
step_in in_chunk_header_expect_lf d c = on_header_lf d c
step_in in_chunk_data d c = on_data d c
step_in in_chunk_data_expect_cr d c =
    if c == b'\r' then skip (goto in_chunk_data_expect_lf d) else refuse d
step_in in_chunk_data_expect_lf d c = if c == b'\n' then skip (goto in_chunk_size d) else refuse d
step_in in_trailers_line_head d c = on_head d c
step_in in_trailers_line_middle d c =
    if c == b'\n' then skip (goto in_trailers_line_head d) else skip d

unfoldable pub step : Decoder → ℕ → Event
unfolding step_in
step d c = step_in d.state d c

-- More bytes are needed, a byte was refused, or the message is complete.
pub data Verdict : Type 0 where
  more refused finished : Verdict

-- The data seen so far, the bytes not looked at (a refused one is the first of them), and where the
-- decoder stands.
pub record Trace : Type 0 where
  pub out : Bytes
  pub rest : Bytes
  pub decoder : Decoder
  pub verdict : Verdict

abbrev pub trace : Bytes → Bytes → Decoder → Verdict → Trace
trace out rest d v = record { out = out; rest = rest; decoder = d; verdict = v }

unfoldable pub run : Decoder → Bytes → Bytes → Trace
run d out [] = trace out [] d more
run d out (c ∷ s) = elim (step d c) [
  | skip d' ↦ run d' out s
  | emit d' ↦ run d' (out ++ (c ∷ [])) s
  | finish d' ↦ trace out s d' finished
  | refuse d' ↦ trace out (c ∷ s) d' refused
]

module _ (d d' : Decoder) (out : Bytes) (c : ℕ) (s : Bytes) where
  pub run-skip : step d c ≡ skip d' → run d out (c ∷ s) ≡ run d' out s
  unfolding run
  run-skip h = rw (h, run)

  pub run-emit : step d c ≡ emit d' → run d out (c ∷ s) ≡ run d' (out ++ (c ∷ [])) s
  unfolding run
  run-emit h = rw (h, run)

  pub run-finish : step d c ≡ finish d' → run d out (c ∷ s) ≡ trace out s d' finished
  unfolding run
  run-finish h = rw (h, run)

  pub run-refuse : step d c ≡ refuse d' → run d out (c ∷ s) ≡ trace out (c ∷ s) d' refused
  unfolding run
  run-refuse h = rw (h, run)

  -- Two decoders that make the same of the next byte.
  pub run-eq_of_step : step d c ≡ step d' c → run d out (c ∷ s) ≡ run d' out (c ∷ s)
  unfolding run
  run-eq_of_step h = rw (h, run)
