-- ===== src/Integ/Body/Message.antt =====
-- The body loops of scripts/integ_http11.c on a message that a sender writes.
use picohttpparser_rs.Base.{
  ℕ, ◌+◌, ◌<◌, ◌≤◌, ltb, ◌≡◌, refl, ◌∙◌, ap, [], ◌++◌, Bool, true, false, length, arith,
}
use picohttpparser_rs.Integ.Body.{
  decoded_size, cbuf_size, rbuf_size, zero_decoder, Body, body_loop, server_body, client_body,
}
use picohttpparser_rs.Integ.Head.Arrives.{Arrives, arrived}
use picohttpparser_rs.Integ.Socket.{Socket, Phase, ends, fails, undefined, out_of_fuel, Delivers}
use picohttpparser_rs.Reference.Chars.{Bytes}
use picohttpparser_rs.Reference.Chunked.Pieces.{Fed-start, free_overhead}
use picohttpparser_rs.Reference.Chunked.Chunks.{data_of}
use picohttpparser_rs.Reference.Chunked.RoundTrip.{
  Message, IsMessage, print_message, final, run-print_message,
}
use picohttpparser_rs.Reference.Chunked.Stream.{finished, run, trace}
use picohttpparser_rs.Integ.Body.Arrives.{IsBody, body_loop-Arrives}

-- The decoded body is the message's, and the bytes behind the message are left over or still to come.
abbrev pub IsMessageBody : {S : Type 0} → (S → Bytes) → Message → Bytes → Body → S → Type 0
IsMessageBody stream m behind b s =
    (b.decoded ≡ data_of m.chunks) × (b.leftover + length (stream s) ≡ length behind)

module _ (k : Socket) (stream : k.Sock → Bytes) (d : Delivers k stream) where
  message_run :
      (consume : Bool) (m : Message) (behind : Bytes)
      → IsMessage m
      → run (zero_decoder consume) [] (print_message consume m behind)
        ≡ trace (data_of m.chunks) behind (final consume (zero_decoder consume)) finished
  message_run consume m behind h = run-print_message (zero_decoder consume) behind m h

  body_loop-message :
      (consume : Bool) (room size fuel : ℕ) (s : k.Sock) (carried : Bytes) (m : Message)
      (behind : Bytes)
      → IsMessage m
      → carried ++ stream s ≡ print_message consume m behind
      → length (data_of m.chunks) < decoded_size
      → length (carried ++ stream s) < free_overhead
      → length carried + length (stream s) < fuel
      → size ≤ room
      → 0 < size
      → Arrives
          (IsBody k stream d
            (trace (data_of m.chunks) behind (final consume (zero_decoder consume)) finished))
          (body_loop k room size fuel s (zero_decoder consume) carried [])
  body_loop-message consume room size fuel s carried m behind h same small few enough within lt =
      body_loop-Arrives k stream d (zero_decoder consume) room size fuel [] s (zero_decoder consume)
        carried [] _ within lt enough (Fed-start (zero_decoder consume) (omega arith) refl)
        (ap (run (zero_decoder consume) []) same ∙ message_run consume m behind h)
        (record { complete = refl; small = small }) (omega (arith, few))

  module _ (s : k.Sock) (carried : Bytes) (m : Message) (behind : Bytes) (h : IsMessage m)
      (small : length (data_of m.chunks) < decoded_size)
      (few : length (carried ++ stream s) < free_overhead) where
    as_message :
        (consume : Bool) (p : Phase k.Sock Body)
        → Arrives
            (IsBody k stream d
              (trace (data_of m.chunks) behind (final consume (zero_decoder consume)) finished))
            p
        → Arrives (IsMessageBody stream m behind) p
    as_message consume (ends b s') (arrived w) = arrived (w.decoded_is, w.leftover_is)
    as_message consume fails w = elim w [ ]
    as_message consume undefined w = elim w [ ]
    as_message consume out_of_fuel w = elim w [ ]

    -- The server's decoding loop on a connection that delivers, in pieces of any size, what a sender
    -- writes for a message (behind the bytes that came with the head), up to the last chunk's line, with
    -- any bytes behind it and at most the bytes of `cbuf` behind the head: the loop returns the message's
    -- data, and every byte behind the message is either counted as left over or still to come. The data leaves room for the NUL, less than 100 KiB
    -- are sent, so that no overhead is judged, and one round more than there are bytes is enough.
    pub server_body-Arrives :
        (fuel : ℕ)
        → length carried ≤ cbuf_size
        → length carried + length (stream s) < fuel
        → carried ++ stream s ≡ print_message false m behind
        → Arrives (IsMessageBody stream m behind) (server_body k fuel s carried)
    unfolding server_body
    server_body-Arrives fuel fits enough same =
        let copied : ltb cbuf_size (length carried) ≡ false = ground arith in
        rw copied (
          as_message false _ (
            body_loop-message false cbuf_size 24 fuel s carried m behind h same small few enough
              (omega arith) (omega arith)))

    -- The client's decoding loop on a connection that delivers, in pieces of any size, what a sender
    -- writes for a message with its trailers (behind the bytes that came with the head), with any bytes
    -- behind it and at most the bytes of `cbuf` behind the head: the loop returns the message's data, and every byte behind the message is either counted
    -- as left over or still to come. The data leaves room for the NUL, less than 100 KiB are sent, so that
    -- no overhead is judged, and one round more than there are bytes is enough.
    pub client_body-Arrives :
        (fuel : ℕ)
        → length carried ≤ cbuf_size
        → length carried + length (stream s) < fuel
        → carried ++ stream s ≡ print_message true m behind
        → Arrives (IsMessageBody stream m behind) (client_body k fuel s carried)
    unfolding client_body
    client_body-Arrives fuel fits enough same =
        let copied : ltb cbuf_size (length carried) ≡ false = ground arith in
        rw copied (
          as_message true _ (
            body_loop-message true rbuf_size 7 fuel s carried m behind h same small few enough
              (omega arith) (omega arith)))
