-- ===== src/Reference/Chunked.antt =====
-- phr_decode_chunked and phr_decode_chunked_is_in_data of reference/picohttpparser.c. A
-- `for (;; ++src)` is a recursion on the bytes from `src` to the end, and the `while (1)` around the
-- switch is on fuel.
pub mod Stream
pub mod Shows
pub mod Data
pub mod Cases
pub mod Framing
pub mod Size
pub mod Refines
pub mod Totals
pub mod Valid
pub mod Split
pub mod Pieces
pub mod Printed
pub mod Chunks
pub mod RoundTrip
mod Tests
use picohttpparser_rs.Base.{
  ℕ, zero, suc, ◌+◌, ◌-◌, ◌*◌, ◌/◌, ◌%◌, ◌^◌, Bool, true, false, not, ◌&&◌, Option, none, some, ltb,
  leb, ◌==◌, if◌then◌else◌, length, get_or, ℤ, pos, negsuc,
}
use picohttpparser_rs.Reference.Chars.{Bytes}
use picohttpparser_rs.Reference.Decoder.{
  State, in_chunk_size, in_chunk_ext, in_chunk_header_expect_lf, in_chunk_data,
  in_chunk_data_expect_cr, in_chunk_data_expect_lf, in_trailers_line_head, in_trailers_line_middle,
  Decoder, decode_hex, ends_size, Frame, Flow, again, exit, complete, incomplete, invalid, memmove,
  put, advance, peek, move_data, push_digit, max_digits,
}

-- CHUNKED_IN_CHUNK_DATA_EXPECT_LF
unfoldable pub data_lf : Frame → Flow
unfolding peek
data_lf r = elim (peek r) [
  | none ↦ exit incomplete r
  | some c ↦ if not (c == b'\n') then exit invalid r else again (put in_chunk_size (advance r))
]

-- CHUNKED_IN_CHUNK_DATA_EXPECT_CR
unfoldable pub data_cr : Frame → Flow
unfolding peek
data_cr r = elim (peek r) [
  | none ↦ exit incomplete r
  | some c ↦
      if not (c == b'\r') then exit invalid r else data_lf (put in_chunk_data_expect_lf (advance r))
]

-- CHUNKED_IN_CHUNK_DATA
unfoldable pub chunk_data : Frame → Flow
unfolding move_data
chunk_data r =
    let avail = r.bufsz - r.src in
    let left = r.decoder.bytes_left_in_chunk in
    if ltb avail left
    then exit incomplete (move_data avail r)
    else data_cr (put in_chunk_data_expect_cr (move_data left r))

-- The end of CHUNKED_IN_CHUNK_HEADER_EXPECT_LF.
unfoldable pub header_end : Frame → Flow
header_end r =
    if r.decoder.bytes_left_in_chunk == 0
    then (if r.decoder.consume_trailer then again (put in_trailers_line_head r) else complete r)
    else chunk_data (put in_chunk_data r)

-- CHUNKED_IN_CHUNK_HEADER_EXPECT_LF
unfoldable pub header_lf : Frame → Flow
unfolding peek header_end
header_lf r = elim (peek r) [
  | none ↦ exit incomplete r
  | some c ↦ if not (c == b'\n') then exit invalid r else header_end (advance r)
]

-- The loop of CHUNKED_IN_CHUNK_EXT.
pub ext_loop : ℕ → Frame → Flow
ext_loop zero r = exit incomplete r
ext_loop (suc left) r =
    let c = get_or r.buf r.src 0 in
    let next = ext_loop left (advance r) in
    if c == b'\r'
    then header_lf (put in_chunk_header_expect_lf (advance r))
    else if c == b'\n'
    then exit invalid r
    else next

unfoldable pub chunk_ext : Frame → Flow
unfolding ext_loop
chunk_ext r = ext_loop (r.bufsz - r.src) r

-- At a byte of the chunk size that is no digit.
unfoldable pub size_end : ℕ → Frame → Flow
size_end c r =
    if r.decoder.hex_count == 0
    then exit invalid r
    else if ends_size c
    then chunk_ext (record r { decoder = record r.decoder { hex_count = 0; state = in_chunk_ext } })
    else exit invalid r

-- The loop of CHUNKED_IN_CHUNK_SIZE.
pub size_loop : ℕ → Frame → Flow
unfolding size_end
size_loop zero r = exit incomplete r
size_loop (suc left) r =
    let c = get_or r.buf r.src 0 in
    elim (decode_hex c) [
      | none ↦ size_end c r
      | some v ↦ elim (r.decoder.hex_count == max_digits) [
        | true ↦ exit invalid r
        | false ↦ size_loop left (advance (record r { decoder = push_digit v r.decoder }))
      ]
    ]

unfoldable pub chunk_size : Frame → Flow
unfolding size_loop
chunk_size r = size_loop (r.bufsz - r.src) r

-- The loop of CHUNKED_IN_TRAILERS_LINE_MIDDLE.
pub middle_loop : ℕ → Frame → Flow
middle_loop zero r = exit incomplete r
middle_loop (suc left) r =
    let next = middle_loop left (advance r) in
    if get_or r.buf r.src 0 == b'\n' then again (put in_trailers_line_head (advance r)) else next

unfoldable pub trailers_middle : Frame → Flow
unfolding middle_loop
trailers_middle r = middle_loop (r.bufsz - r.src) r

-- The loop of CHUNKED_IN_TRAILERS_LINE_HEAD, and the test of `buf[src++]` behind it.
pub head_loop : ℕ → Frame → Flow
head_loop zero r = exit incomplete r
head_loop (suc left) r =
    let c = get_or r.buf r.src 0 in
    let next = head_loop left (advance r) in
    if c == b'\r'
    then next
    else if c == b'\n'
    then complete (advance r)
    else trailers_middle (put in_trailers_line_middle (advance r))

unfoldable pub trailers_head : Frame → Flow
unfolding head_loop
trailers_head r = head_loop (r.bufsz - r.src) r

-- The switch.
unfoldable pub switch : State → Frame → Flow
switch in_chunk_size r = chunk_size r
switch in_chunk_ext r = chunk_ext r
switch in_chunk_header_expect_lf r = header_lf r
switch in_chunk_data r = chunk_data r
switch in_chunk_data_expect_cr r = data_cr r
switch in_chunk_data_expect_lf r = data_lf r
switch in_trailers_line_head r = trailers_head r
switch in_trailers_line_middle r = trailers_middle r

-- A size_t as a ssize_t.
abbrev pub to_ssize : ℕ → ℤ
to_ssize n = if ltb n (2 ^ 63) then pos n else negsuc (2 ^ 64 - 1 - n)

-- The `while (1)`, on fuel; `none` means that the fuel ran out. A round that does not leave the
-- loop takes a byte at least.
pub decode_loop : ℕ → Frame → Option (ℤ × Frame)
decode_loop zero r = none
decode_loop (suc fuel) r = elim (switch r.decoder.state r) [
  | again r' ↦ decode_loop fuel r'
  | exit ret r' ↦ some (ret, r')
  | complete r' ↦ some (to_ssize (r'.bufsz - r'.src), r')
]

-- What a call leaves: its result, the decoder, the buffer and `*_bufsz`.
pub record Decoded : Type 0 where
  pub ret : ℤ
  pub decoder : Decoder
  pub buf : Bytes
  pub bufsz : ℕ

abbrev pub is_incomplete : ℤ → Bool
is_incomplete (pos n) = false
is_incomplete (negsuc zero) = false
is_incomplete (negsuc (suc zero)) = true
is_incomplete (negsuc (suc (suc n))) = false

-- The overhead is at least 100 KiB and more than three quarters of what was read.
unfoldable pub is_wasteful : ℕ → ℕ → Bool
is_wasteful overhead read =
    leb (100 * 1024) overhead && ltb ((read + 2 ^ 64 - overhead) % 2 ^ 64) (read / 4)

-- `if (ret == -2)` at the end, with `wasted` for `bufsz - dst`.
unfoldable pub charge : ℕ → ℤ × Decoder → ℤ × Decoder
unfolding is_wasteful
charge wasted (ret, d) =
    let overhead = (d.total_overhead + wasted) % 2 ^ 64 in
    if is_incomplete ret
    then (
      if is_wasteful overhead d.total_read then invalid else ret,
      record d { total_overhead = overhead },
    )
    else (ret, d)

-- The label Exit.
unfoldable pub leave : ℤ × Frame → Decoded
unfolding charge memmove
leave (ret, r) =
    let (code, d) = charge (r.bufsz - r.dst) (ret, r.decoder) in
    record { ret = code; decoder = d; buf = memmove (r.bufsz - r.src) r; bufsz = r.dst }

abbrev pub enter : Decoder → Bytes → Frame
enter d buf = record {
  decoder = record d { total_read = (d.total_read + length buf) % 2 ^ 64 };
  buf = buf;
  bufsz = length buf;
  dst = 0;
  src = 0;
}

unfoldable pub phr_decode_chunked : Decoder → Bytes → Option Decoded
unfolding decode_loop switch leave
phr_decode_chunked d buf = elim (decode_loop (length buf + 1) (enter d buf)) [
  | none ↦ none
  | some end ↦ some (leave end)
]

unfoldable pub phr_decode_chunked_is_in_data : Decoder → Bool
phr_decode_chunked_is_in_data d = elim d.state [ in_chunk_data ↦ true | _ ↦ false ]
