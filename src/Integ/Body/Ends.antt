-- ===== src/Integ/Body/Ends.antt =====
-- The body loops of scripts/integ_http11.c from their first round to their last.
use picohttpparser_rs.Base.{
  ℕ, zero, suc, ◌+◌, ◌<◌, ◌≤◌, ◌≡◌, sym, ap, [], ◌++◌, some, true, false, ltb, leb, ◌&&◌, ◌==◌,
  length, take, arith, Bool-cases, inl, inr, ℤ, pos, negsuc,
}
use mathlib.Core.Path.{subst}
use picohttpparser_rs.Base.Lists.{length-append, length-take}
use picohttpparser_rs.Integ.Body.{
  decoded_size, cbuf_size, rbuf_size, zero_decoder, Body, judge, next_bytes, after_decode,
  after_bytes, body_loop, client_body,
}
use picohttpparser_rs.Integ.Head.Ends.{Ends, returned, failed}
use picohttpparser_rs.Integ.Socket.{Socket, Phase, ends, fails, undefined, out_of_fuel, Delivers}
use picohttpparser_rs.Reference.Chars.{Bytes}
use picohttpparser_rs.Reference.Chunked.Valid.{IsValid, phr_decode_chunked-LeavesValid}
use picohttpparser_rs.Reference.Chunked.{Decoded}
use picohttpparser_rs.Reference.Decoder.{Decoder}

-- `decoded` has room for the NUL.
abbrev pub Fits : {S : Type 0} → Body → S → Type 0
Fits b s = length b.decoded < decoded_size

module _ (k : Socket) (stream : k.Sock → Bytes) (d : Delivers k stream) where
  -- The bytes still to be given to the decoder.
  abbrev to_give : k.Sock → Bytes → ℕ
  to_give s at_hand = length at_hand + length (stream s)

  data Gives (s : k.Sock) (at_hand : Bytes) : Phase k.Sock Bytes → Type 0 where
    gives_up : Gives s at_hand fails
    gives :
        {bytes : Bytes} {s' : k.Sock}
        → length (stream s') < to_give s at_hand
        → Gives s at_hand (ends bytes s')

  next_bytes-Gives :
      (room size : ℕ)
      → size ≤ room
      → (s : k.Sock) (at_hand : Bytes) → Gives s at_hand (next_bytes k room size s at_hand)
  unfolding next_bytes
  next_bytes-Gives room size within s at_hand = elim (Bool-cases (length at_hand == 0)) [
    | inr some_left ↦ rw some_left (gives (ground arith))
    | inl empty ↦
        let lt_false : ltb room size ≡ false = ground arith in
        elim (Bool-cases (length (k.recv s size).0 == 0)) [
          | inl closed ↦ rw (empty, lt_false, closed) gives_up
          | inr some_bytes ↦
              rw (empty, lt_false, some_bytes)
                (gives (
                  ground (
                    arith,
                    ap length (d.in_order s size),
                    length-append (k.recv s size).0 (stream (k.recv s size).1),
                  )))
        ]
  ]

  judged :
      (ret : ℤ) (s : k.Sock) (decoded : Bytes) (again : Phase k.Sock Body)
      → length decoded < decoded_size
      → Ends Fits again
      → Ends Fits (judge ret s decoded again)
  judged (pos n) s decoded again fits h = returned fits
  judged (negsuc zero) s decoded again fits h = failed
  judged (negsuc (suc zero)) s decoded again fits h = h
  judged (negsuc (suc (suc n))) s decoded again fits h = failed

  decoded_once :
      (s : k.Sock) (decoded : Bytes) (r : Decoded) (again : Decoder → Bytes → Phase k.Sock Body)
      → length decoded < decoded_size
      → ((decoded' : Bytes) → length decoded' < decoded_size → Ends Fits (again r.decoder decoded'))
      → Ends Fits (after_decode k s decoded (some r) again)
  unfolding after_decode
  decoded_once s decoded r again fits next =
      elim (Bool-cases (ltb 0 r.bufsz && leb decoded_size (length decoded + r.bufsz))) [
        | inl over ↦ rw over failed
        | inr room ↦
            let decoded' = decoded ++ take r.bufsz r.buf in
            let fits' : length decoded' < decoded_size =
              ground
                (arith, length-append decoded (take r.bufsz r.buf), length-take r.bufsz r.buf) in
            rw room (judged r.ret s decoded' (again r.decoder decoded') fits' (next decoded' fits'))
      ]

  given :
      (s : k.Sock) (at_hand : Bytes) (o : Phase k.Sock Bytes)
      (next : Bytes → k.Sock → Phase k.Sock Body)
      → Gives s at_hand o
      → ((bytes : Bytes) (s' : k.Sock)
          → length (stream s') < to_give s at_hand
          → Ends Fits (next bytes s'))
      → Ends Fits (after_bytes k o next)
  unfolding after_bytes
  given s at_hand fails next h f = failed
  given s at_hand undefined next h f = elim h [ ]
  given s at_hand out_of_fuel next h f = elim h [ ]
  given s at_hand (ends bytes s') next (gives less) f = f bytes s' less

  body_loop-Ends :
      (room size fuel : ℕ) (s : k.Sock) (dec : Decoder) (at_hand decoded : Bytes)
      → size ≤ room
      → to_give s at_hand < fuel
      → IsValid dec
      → length decoded < decoded_size
      → Ends Fits (body_loop k room size fuel s dec at_hand decoded)
  unfolding body_loop
  body_loop-Ends room size zero s dec at_hand decoded within lt valid fits = absurd (omega arith)
  body_loop-Ends room size (suc fuel) s dec at_hand decoded within lt valid fits =
      given s at_hand (next_bytes k room size s at_hand) _
        (next_bytes-Gives room size within s at_hand)
        λ bytes s' less.
          let c = phr_decode_chunked-LeavesValid dec bytes valid in
          subst
            (λ o. Ends Fits (
              after_decode k s' decoded o
                (λ dec' decoded'. body_loop k room size fuel s' dec' [] decoded')))
            (sym c.returns)
            (decoded_once s' decoded c.result
              (λ dec' decoded'. body_loop k room size fuel s' dec' [] decoded') fits
              λ decoded' fits'.
                body_loop-Ends room size fuel s' c.result.decoder [] decoded' within
                  (omega (arith, less)) c.valid fits')

  -- The client's decoding loop on a connection that delivers a stream of bytes, with at most the bytes of
  -- `cbuf` left behind the head: within one round more than there are bytes, it fails or returns, and what
  -- it has decoded leaves room for the NUL in `decoded`. Nothing is copied into `cbuf` or read into `rbuf`
  -- that it has no room for, and every call of phr_decode_chunked returns.
  pub client_body-Ends :
      (fuel : ℕ) (s : k.Sock) (carried : Bytes)
      → length carried ≤ cbuf_size
      → length carried + length (stream s) < fuel
      → Ends Fits (client_body k fuel s carried)
  unfolding client_body
  client_body-Ends fuel s carried fits lt =
      let room : ltb cbuf_size (length carried) ≡ false = ground arith in
      rw room (
        body_loop-Ends rbuf_size 7 fuel s (zero_decoder true) carried [] (omega arith) lt
          (omega arith) (omega arith))
