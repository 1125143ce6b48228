-- ===== src/Integ/Body.antt =====
-- The loops of scripts/integ_http11.c that decode a chunked body: phr_decode_chunked is given the bytes
-- that came behind the head, and then what each recv stores.
pub mod Ends
pub mod Arrives
pub mod Message
use picohttpparser_rs.Base.{
  ℕ, zero, suc, ◌+◌, [], ◌++◌, Bool, true, false, ◌&&◌, Option, none, some, ltb, leb, ◌==◌,
  if◌then◌else◌, length, take, ℤ, pos, negsuc,
}
use picohttpparser_rs.Integ.Socket.{Socket, Phase, ends, fails, undefined, out_of_fuel}
use picohttpparser_rs.Reference.Chars.{Bytes}
use picohttpparser_rs.Reference.Chunked.{Decoded, phr_decode_chunked, is_incomplete}
use picohttpparser_rs.Reference.Decoder.{Decoder, in_chunk_size}

-- `sizeof(decoded)`
abbrev pub decoded_size : ℕ
decoded_size = 256

-- `sizeof(cbuf)`, in both programs, and `sizeof(rbuf)`.
abbrev pub cbuf_size : ℕ
cbuf_size = 4096

abbrev pub rbuf_size : ℕ
rbuf_size = 16

-- `memset(&dec, 0, sizeof(dec)); dec.consume_trailer = consume;`
abbrev pub zero_decoder : Bool → Decoder
zero_decoder consume = record {
  bytes_left_in_chunk = 0;
  consume_trailer = consume;
  hex_count = 0;
  state = in_chunk_size;
  total_read = 0;
  total_overhead = 0;
}

-- The first `dlen` bytes of `decoded`, and the number of bytes behind the message.
pub record Body : Type 0 where
  pub decoded : Bytes
  pub leftover : ℕ

-- What the result of a call makes of a phase; `again` are the rounds behind it.
abbrev pub judge : {S : Type 0} → ℤ → S → Bytes → Phase S Body → Phase S Body
judge (pos n) s decoded again = ends (record { decoded = decoded; leftover = n }) s
judge (negsuc zero) s decoded again = fails
judge (negsuc (suc zero)) s decoded again = again
judge (negsuc (suc (suc n))) s decoded again = fails

module _ (k : Socket) where
  -- The bytes of a call: those at hand, or what recv stores in an array of `room` bytes. C leaves open what
  -- a recv does that is asked for more.
  unfoldable pub next_bytes : ℕ → ℕ → k.Sock → Bytes → Phase k.Sock Bytes
  next_bytes room size s at_hand =
      if length at_hand == 0
      then if ltb room size
        then undefined
        else (let (bytes, s') = k.recv s size in if length bytes == 0 then fails else ends bytes s')
      else ends at_hand s

  -- What follows phr_decode_chunked.
  unfoldable pub after_decode :
      k.Sock → Bytes → Option Decoded → (Decoder → Bytes → Phase k.Sock Body) → Phase k.Sock Body
  after_decode s decoded none again = undefined
  after_decode s decoded (some r) again =
      if ltb 0 r.bufsz && leb decoded_size (length decoded + r.bufsz)
      then fails
      else (let decoded' = decoded ++ take r.bufsz r.buf in
          judge r.ret s decoded' (again r.decoder decoded'))

  unfoldable pub after_bytes :
      Phase k.Sock Bytes → (Bytes → k.Sock → Phase k.Sock Body) → Phase k.Sock Body
  after_bytes (ends bytes s) next = next bytes s
  after_bytes fails next = fails
  after_bytes undefined next = undefined
  after_bytes out_of_fuel next = out_of_fuel

  -- The `for (;;)`, on fuel, with reads of `size` bytes into an array of `room`.
  pub body_loop : ℕ → ℕ → ℕ → k.Sock → Decoder → Bytes → Bytes → Phase k.Sock Body
  unfolding after_bytes after_decode next_bytes
  body_loop room size zero s dec at_hand decoded = out_of_fuel
  body_loop room size (suc fuel) s dec at_hand decoded =
      after_bytes (next_bytes room size s at_hand) λ bytes s'.
        after_decode s' decoded (phr_decode_chunked dec bytes)
          (λ dec' decoded'. body_loop room size fuel s' dec' [] decoded')

  -- The upload, with the bytes that the head's reads left behind, which are copied to `cbuf`.
  unfoldable pub server_body : ℕ → k.Sock → Bytes → Phase k.Sock Body
  unfolding body_loop
  server_body fuel s carried =
      if ltb cbuf_size (length carried)
      then fails
      else body_loop cbuf_size 24 fuel s (zero_decoder false) carried []

  -- The copy to `cbuf` has no test.
  unfoldable pub client_body : ℕ → k.Sock → Bytes → Phase k.Sock Body
  unfolding body_loop
  client_body fuel s carried =
      if ltb cbuf_size (length carried)
      then undefined
      else body_loop rbuf_size 7 fuel s (zero_decoder true) carried []
