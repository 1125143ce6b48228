-- ===== src/Integ/Body/Arrives.antt =====
-- The body loops of scripts/integ_http11.c on a connection that delivers a whole body.
use mathlib.Core.List.{append_assoc, append-nil}
use mathlib.Core.Path.{subst}
use picohttpparser_rs.Base.{
  ℕ, zero, suc, ◌+◌, ◌<◌, ◌≤◌, ◌^◌, ◌≡◌, refl, sym, ◌∙◌, ap, [], ◌∷◌, ◌++◌, false, some, ltb, leb,
  ◌&&◌, ◌==◌, length, take, arith, Bool-cases, inl, inr, pos, lt→ltb,
}
use picohttpparser_rs.Base.Lists.{length-append}
use picohttpparser_rs.Integ.Body.{
  decoded_size, Body, judge, next_bytes, after_decode, after_bytes, body_loop,
}
use picohttpparser_rs.Integ.Head.Arrives.{Arrives, arrived}
use picohttpparser_rs.Integ.Socket.{Socket, Phase, ends, fails, undefined, out_of_fuel, Delivers}
use picohttpparser_rs.Reference.Chars.{Bytes}
use picohttpparser_rs.Reference.Chunked.Pieces.{Fed, Piece, Fed-Piece, free_overhead, run-rest_le}
use picohttpparser_rs.Reference.Chunked.Refines.{return_of}
use picohttpparser_rs.Reference.Chunked.Stream.{Trace, Verdict, more, refused, finished, run}
use picohttpparser_rs.Reference.Chunked.Totals.{resume, run-append, prepend, run-prepend}
use picohttpparser_rs.Reference.Decoder.{Decoder}

-- A run that ends with the message, and puts out less than `decoded` holds.
pub record Whole (t : Trace) : Type 0 where
  pub complete : t.verdict ≡ finished
  pub small : length t.out < decoded_size

run-behind : (d : Decoder) (out s : Bytes) → run d out s ≡ prepend out (run d [] s)
run-behind d out s =
    subst (λ o. run d o s ≡ prepend out (run d [] s)) (append-nil out) (run-prepend d out [] s)

refused_finished : refused ≡ finished → ⊥
refused_finished e = cc

more_finished : more ≡ finished → ⊥
more_finished e = cc

-- A decoder that waits has not seen the whole message.
not_over :
    (d0 : Decoder) (fed : Bytes) (dec : Decoder) (out rest : Bytes) (t : Trace)
    → Fed d0 fed dec out
    → run d0 [] (fed ++ rest) ≡ t
    → Whole t
    → 0 < length rest
not_over d0 fed dec out [] t h same w = absurd (
    more_finished (
      sym h.waits
      ∙ ap (λ x. (run d0 [] x).verdict) (sym (append-nil fed))
      ∙ ap (λ (x : Trace). x.verdict) same
      ∙ w.complete))
not_over d0 fed dec out (c ∷ rest) t h same w = omega arith

module _ (k : Socket) (stream : k.Sock → Bytes) (d : Delivers k stream) where
  -- Some bytes are given to the decoder, and the others are still to come.
  data Gives (s : k.Sock) (at_hand : Bytes) : Phase k.Sock Bytes → Type 0 where
    gives :
        {bytes : Bytes} {s' : k.Sock}
        → 0 < length bytes
        → at_hand ++ stream s ≡ bytes ++ stream s'
        → Gives s at_hand (ends bytes s')

  next_bytes-Gives :
      (room size : ℕ)
      → size ≤ room
      → (s : k.Sock) (at_hand : Bytes) → 0 < size
      → 0 < length (at_hand ++ stream s)
      → Gives s at_hand (next_bytes k room size s at_hand)
  unfolding next_bytes
  next_bytes-Gives room size within s (c ∷ at_hand) lt some_left =
      let some_bytes : (suc (length at_hand) == 0) ≡ false = ground arith in
      rw some_bytes (gives (omega arith) refl)
  next_bytes-Gives room size within s [] lt some_left =
      let lt_false : ltb room size ≡ false = ground arith in
      let got = d.some_bytes s size lt some_left in
      elim (Bool-cases (length (k.recv s size).0 == 0)) [
        | inl closed ↦ absurd (ground arith)
        | inr some_bytes ↦ rw (lt_false, some_bytes) (gives got (d.in_order s size))
      ]

  given :
      {P : Body → k.Sock → Type 0} (s : k.Sock) (at_hand : Bytes) (o : Phase k.Sock Bytes)
      (next : Bytes → k.Sock → Phase k.Sock Body)
      → Gives s at_hand o
      → ((bytes : Bytes) (s' : k.Sock)
          → 0 < length bytes
          → at_hand ++ stream s ≡ bytes ++ stream s'
          → Arrives P (next bytes s'))
      → Arrives P (after_bytes k o next)
  unfolding after_bytes
  given s at_hand fails next h f = elim h [ ]
  given s at_hand undefined next h f = elim h [ ]
  given s at_hand out_of_fuel next h f = elim h [ ]
  given s at_hand (ends bytes s') next (gives got order) f = f bytes s' got order

  -- The decoded body, and the bytes behind the message, some of which are still to come.
  pub record IsBody (t : Trace) (b : Body) (s : k.Sock) : Type 0 where
    pub decoded_is : b.decoded ≡ t.out
    pub leftover_is : b.leftover + length (stream s) ≡ length t.rest

  module _ (d0 : Decoder) (fed bytes out : Bytes) (s : k.Sock) (dec : Decoder)
      (p : Piece d0 fed out bytes dec) (again : Decoder → Bytes → Phase k.Sock Body) where
    abbrev part : Trace
    part = run d0 [] (fed ++ bytes)

    abbrev whole : Trace
    whole = run d0 [] ((fed ++ bytes) ++ stream s)

    -- How the run goes on behind this piece.
    resumed : (v : Verdict) → part.verdict ≡ v → whole ≡ resume v part (stream s)
    resumed v e =
        run-append d0 [] (fed ++ bytes) (stream s)
        ∙ ap (λ w. resume w (run d0 [] (fed ++ bytes)) (stream s)) e

    ret_of : (v : Verdict) → part.verdict ≡ v → p.result.ret ≡ return_of v (length part.rest)
    ret_of v e = p.ret_is ∙ ap (λ w. return_of w (length (run d0 [] (fed ++ bytes)).rest)) e

    room :
        length part.out < decoded_size
        → after_decode k s out (some p.result) again
          ≡ judge p.result.ret s
              (out ++ take p.result.bufsz p.result.buf)
              (again p.result.decoder (out ++ take p.result.bufsz p.result.buf))
    unfolding after_decode
    room small =
        let fits : (ltb 0 p.result.bufsz && leb decoded_size (length out + p.result.bufsz))
            ≡ false =
          ground (
            arith,
            p.bufsz_is,
            ap length p.seen,
            length-append out (take p.result.bufsz p.result.buf),
          ) in
        rw fits refl

    judged :
        (v : Verdict)
        → part.verdict ≡ v
        → Whole whole
        → length (fed ++ bytes) < 2 ^ 63
        → ((part.verdict ≡ more)
            → Arrives
                (IsBody whole)
                (again p.result.decoder (out ++ take p.result.bufsz p.result.buf)))
        → Arrives (IsBody whole) (after_decode k s out (some p.result) again)
    judged more e w size next =
        let goes_on = resumed more e ∙ run-behind part.decoder part.out (stream s) in
        let small : length part.out < decoded_size = omega (
          arith,
          w.small,
          ap (λ (t : Trace). length t.out) goes_on,
          length-append part.out (run part.decoder [] (stream s)).out,
        ) in
        subst (Arrives (IsBody whole))
          (sym (
            room small
            ∙ ap
                (λ ret.
                  judge ret s (out ++ take p.result.bufsz p.result.buf)
                    (again p.result.decoder (out ++ take p.result.bufsz p.result.buf)))
                (ret_of more e)))
          (next e)
    judged refused e w size next =
        let stopped : whole.verdict ≡ part.verdict =
          ap (λ (t : Trace). t.verdict) (resumed refused e) in
        absurd (refused_finished (sym e ∙ sym stopped ∙ w.complete))
    judged finished e w size next =
        let ends_here = resumed finished e in
        let same_out : whole.out ≡ part.out = ap (λ (t : Trace). t.out) ends_here in
        let small : length part.out < decoded_size = omega (arith, w.small, ap length same_out) in
        let short : length part.rest < 2 ^ 63 =
          omega (arith, run-rest_le d0 [] (fed ++ bytes), size) in
        let size_is : return_of finished (length part.rest) ≡ pos (length part.rest) =
          rw (lt→ltb (length part.rest) (2 ^ 63) short) refl in
        subst (Arrives (IsBody whole))
          (sym (
            room small
            ∙ ap
                (λ ret.
                  judge ret s (out ++ take p.result.bufsz p.result.buf)
                    (again p.result.decoder (out ++ take p.result.bufsz p.result.buf)))
                (ret_of finished e ∙ size_is)))
          (arrived (record {
            decoded_is = sym p.seen ∙ sym same_out;
            leftover_is = omega (
              arith,
              ap (λ (t : Trace). length t.rest) ends_here,
              length-append part.rest (stream s),
            );
          }))

  pub body_loop-Arrives :
      (d0 : Decoder) (room size fuel : ℕ) (fed : Bytes) (s : k.Sock) (dec : Decoder)
      (at_hand decoded : Bytes) (t : Trace)
      → size ≤ room
      → 0 < size
      → length at_hand + length (stream s) < fuel
      → Fed d0 fed dec decoded
      → run d0 [] (fed ++ (at_hand ++ stream s)) ≡ t
      → Whole t
      → length fed + length (at_hand ++ stream s) < free_overhead
      → Arrives (IsBody t) (body_loop k room size fuel s dec at_hand decoded)
  unfolding body_loop
  body_loop-Arrives d0 room size zero fed s dec at_hand decoded t within lt enough h same w few =
      absurd (omega arith)
  body_loop-Arrives d0 room size (suc fuel) fed s dec at_hand decoded t within lt enough h same w
        few =
      given s at_hand (next_bytes k room size s at_hand) _
        (next_bytes-Gives room size within s at_hand lt
          (not_over d0 fed dec decoded (at_hand ++ stream s) t h same w))
        λ bytes s' got order.
          let lengths = ap length order in
          let e1 = length-append at_hand (stream s) in
          let e2 = length-append bytes (stream s') in
          let p = Fed-Piece h bytes (omega (arith, few, lengths, e2)) in
          let same' : run d0 [] ((fed ++ bytes) ++ stream s') ≡ t =
            ap (run d0 []) (append_assoc fed bytes (stream s') ∙ ap (λ x. fed ++ x) (sym order))
            ∙ same in
          subst
            (λ o. Arrives (IsBody t) (
              after_decode k s' decoded o
                (λ dec' decoded'. body_loop k room size fuel s' dec' [] decoded')))
            (sym p.returns)
            (subst
              (λ u. Arrives (IsBody u) (
                after_decode k s' decoded (some p.result)
                  (λ dec' decoded'. body_loop k room size fuel s' dec' [] decoded')))
              same'
              (judged d0 fed bytes decoded s' dec p
                (λ dec' decoded'. body_loop k room size fuel s' dec' [] decoded')
                (run d0 [] (fed ++ bytes)).verdict refl (subst Whole (sym same') w)
                (omega (arith, few, lengths, e2, length-append fed bytes))
                λ waits.
                  body_loop-Arrives d0 room size fuel (fed ++ bytes) s' p.result.decoder [] _
                    (run d0 [] ((fed ++ bytes) ++ stream s')) within lt
                    (omega (arith, enough, lengths, e1, e2)) (p.next waits) refl
                    (subst Whole (sym same') w)
                    (omega (arith, few, lengths, e2, length-append fed bytes))))
