-- ===== src/Reference/Decoder.antt =====
-- The state of phr_decode_chunked of reference/picohttpparser.c: the decoder of
-- reference/picohttpparser.h, decode_hex, and a call's local variables with what moves them. The
-- caller's buffer is a list of `bufsz` bytes that the code rewrites in place; `dst` and `src` are
-- its two offsets.
use picohttpparser_rs.Base.{
  ℕ, ◌+◌, ◌-◌, ◌*◌, ◌%◌, ◌^◌, ◌++◌, Bool, ◌&&◌, ◌||◌, Option, none, some, leb, ◌==◌, if◌then◌else◌,
  get_or, take, drop, ℤ, negsuc,
}
use picohttpparser_rs.Reference.Chars.{Bytes}

-- The states CHUNKED_IN_….
pub data State : Type 0 where
  in_chunk_size in_chunk_ext in_chunk_header_expect_lf in_chunk_data : State
  in_chunk_data_expect_cr in_chunk_data_expect_lf : State
  in_trailers_line_head in_trailers_line_middle : State

-- `struct phr_chunked_decoder`
pub record Decoder : Type 0 where
  pub bytes_left_in_chunk : ℕ
  pub consume_trailer : Bool
  pub hex_count : ℕ
  pub state : State
  pub total_read : ℕ
  pub total_overhead : ℕ

-- `none` is -1.
unfoldable pub decode_hex : ℕ → Option ℕ
decode_hex ch =
    if leb b'0' ch && leb ch b'9'
    then some (ch - b'0')
    else if leb b'A' ch && leb ch b'F'
    then some (ch - b'A' + 10)
    else if leb b'a' ch && leb ch b'f'
    then some (ch - b'a' + 10)
    else none

-- The characters that may follow the digits of a chunk size.
abbrev pub ends_size : ℕ → Bool
ends_size c = c == b' ' || c == b'\t' || c == b';' || c == b'\n' || c == b'\r'

-- The local variables of a call, with the decoder and the buffer that it writes.
pub record Frame : Type 0 where
  pub decoder : Decoder
  pub buf : Bytes
  pub bufsz : ℕ
  pub dst : ℕ
  pub src : ℕ

-- How a case of the switch ends: `break` to the loop around it, `goto Exit` with `ret`, or
-- `goto Complete`.
pub data Flow : Type 0 where
  again : Frame → Flow
  exit : ℤ → Frame → Flow
  complete : Frame → Flow

-- The return values -2 and -1.
abbrev pub incomplete : ℤ
incomplete = negsuc 1

abbrev pub invalid : ℤ
invalid = negsuc 0

-- `memmove(buf + dst, buf + src, n)`, unless the offsets are the same.
unfoldable pub memmove : ℕ → Frame → Bytes
memmove n r =
    if r.dst == r.src
    then r.buf
    else take r.dst r.buf ++ (take n (drop r.src r.buf) ++ drop (r.dst + n) r.buf)

abbrev pub put : State → Frame → Frame
put s r = record r { decoder = record r.decoder { state = s } }

-- `++src`
abbrev pub advance : Frame → Frame
advance r = record r { src = r.src + 1 }

-- `if (src == bufsz) goto Exit;`, and `buf[src]` otherwise.
unfoldable pub peek : Frame → Option ℕ
peek r = if r.src == r.bufsz then none else some (get_or r.buf r.src 0)

-- The data of a chunk moves down to `dst`, as much of it as is there.
unfoldable pub move_data : ℕ → Frame → Frame
unfolding memmove
move_data n r = record r {
  buf = memmove n r;
  src = r.src + n;
  dst = r.dst + n;
  decoder = record r.decoder { bytes_left_in_chunk = r.decoder.bytes_left_in_chunk - n };
}

-- A digit of the chunk size, in a 64-bit size_t. The count of the digits is a char of 8 bits, here by its
-- bits, and wraps.
abbrev pub push_digit : ℕ → Decoder → Decoder
push_digit v d = record d {
  bytes_left_in_chunk = (d.bytes_left_in_chunk * 16 + v) % 2 ^ 64;
  hex_count = (d.hex_count + 1) % 2 ^ 8;
}

-- `sizeof(size_t) * 2`
abbrev pub max_digits : ℕ
max_digits = 16
