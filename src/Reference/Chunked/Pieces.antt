-- ===== src/Reference/Chunked/Pieces.antt =====
-- The calls of phr_decode_chunked on the pieces of a stream, one after the other, beside a run over the
-- bytes of the stream.
use mathlib.Core.Path.{subst}
use native.Mathlib.Nat.{mod-eq_of_lt}
use picohttpparser_rs.Base.{
  ℕ, ◌+◌, ◌-◌, ◌*◌, ◌%◌, ◌^◌, ◌≤◌, ◌<◌, ◌≡◌, refl, sym, ◌∙◌, ap, [], ◌∷◌, ◌++◌, some, false, arith,
  Bool-cases, inl, inr, leb, length, take, ℤ,
}
use picohttpparser_rs.Base.Lists.{length-append}
use picohttpparser_rs.Reference.Chars.{Bytes}
use picohttpparser_rs.Reference.Chunked.Refines.{return_of, phr_decode_chunked-Decodes}
use picohttpparser_rs.Reference.Chunked.Split.{resume-more, run_other, charge-with_totals}
use picohttpparser_rs.Reference.Chunked.Stream.{
  Trace, more, run, step, Event, skip, emit, finish, refuse,
}
use picohttpparser_rs.Reference.Chunked.Totals.{with_totals, trace_with, run-append, prepend}
use picohttpparser_rs.Reference.Chunked.Valid.{
  IsValid, IsValid-ExpectsData, run-IsValid, charge-IsValid,
}
use picohttpparser_rs.Reference.Chunked.{
  Decoded, phr_decode_chunked, charge, enter, is_incomplete, is_wasteful,
}
use picohttpparser_rs.Reference.Decoder.{Decoder}

-- The overhead from which on it is judged.
abbrev pub free_overhead : ℕ
free_overhead = 102400

module _ (wasted : ℕ) (d : Decoder) (few : d.total_overhead + wasted < free_overhead) where
  charge-fine : (ret : ℤ) → (charge wasted (ret, d)).0 ≡ ret
  unfolding charge is_wasteful
  charge-fine ret =
      let small : (d.total_overhead + wasted) % 2 ^ 64 ≡ d.total_overhead + wasted =
        mod-eq_of_lt (omega arith) in
      let fine : leb (100 * 1024) (d.total_overhead + wasted) ≡ false = ground arith in
      elim (Bool-cases (is_incomplete ret)) [
        | inl waits ↦ rw (waits, small, fine) refl
        | inr done ↦ rw done refl
      ]

  charge-overhead :
      (ret : ℤ) → (charge wasted (ret, d)).1.total_overhead ≤ d.total_overhead + wasted
  unfolding charge
  charge-overhead ret =
      let small : (d.total_overhead + wasted) % 2 ^ 64 ≡ d.total_overhead + wasted =
        mod-eq_of_lt (omega arith) in
      elim (Bool-cases (is_incomplete ret)) [
        | inl waits ↦ rw (waits, small) (omega arith)
        | inr done ↦ rw done (omega arith)
      ]

-- The decoder `d` was handed `fed` since it was `d0`, it waits for more, and it has put out `out`.
pub record Fed (d0 : Decoder) (fed : Bytes) (d : Decoder) (out : Bytes) : Type 0 where
  pub same_decoder : with_totals 0 0 d ≡ with_totals 0 0 (run d0 [] fed).decoder
  pub waits : (run d0 [] fed).verdict ≡ more
  pub seen : (run d0 [] fed).out ≡ out
  pub valid : IsValid d
  pub overhead_le : d.total_overhead ≤ length fed

pub Fed-start : (d : Decoder) → IsValid d → d.total_overhead ≡ 0 → Fed d [] d []
unfolding run
Fed-start d h e = record {
  same_decoder = refl;
  waits = refl;
  seen = refl;
  valid = h;
  overhead_le = omega (arith, e);
}

-- What the call on the next piece leaves.
pub record Piece (d0 : Decoder) (fed out bytes : Bytes) (d : Decoder) : Type 0 where
  pub result : Decoded
  pub returns : phr_decode_chunked d bytes ≡ some result
  pub bufsz_is : length (take result.bufsz result.buf) ≡ result.bufsz
  pub seen : (run d0 [] (fed ++ bytes)).out ≡ out ++ take result.bufsz result.buf
  pub ret_is :
      result.ret
      ≡ return_of (run d0 [] (fed ++ bytes)).verdict (length (run d0 [] (fed ++ bytes)).rest)
  pub next :
      (run d0 [] (fed ++ bytes)).verdict ≡ more
      → Fed d0 (fed ++ bytes) result.decoder (out ++ take result.bufsz result.buf)

module _ {d0 : Decoder} {fed out : Bytes} {d : Decoder} (h : Fed d0 fed d out) (bytes : Bytes) where
  core : Trace
  core = run (run d0 [] fed).decoder [] bytes

  run-pieces : run d0 [] (fed ++ bytes) ≡ prepend out core
  unfolding core
  run-pieces =
      run-append d0 [] fed bytes
      ∙ resume-more (run d0 [] fed) bytes h.waits
      ∙ ap (λ p. prepend p (run (run d0 [] fed).decoder [] bytes)) h.seen

  run-call :
      run (enter d bytes).decoder [] bytes
      ≡ trace_with ((d.total_read + length bytes) % 2 ^ 64) d.total_overhead core
  unfolding core
  run-call = run_other _ _ d (run d0 [] fed).decoder [] bytes h.same_decoder

  -- While less than 100 KiB were handed in, nothing is refused for its overhead.
  pub Fed-Piece : length fed + length bytes < free_overhead → Piece d0 fed out bytes d
  Fed-Piece few =
      let t1 = run (enter d bytes).decoder [] bytes in
      let t = run d0 [] (fed ++ bytes) in
      let o = phr_decode_chunked-Decodes d bytes (IsValid-ExpectsData d h.valid) in
      let wasted = length bytes - length t1.out in
      let overhead : t1.decoder.total_overhead ≡ d.total_overhead =
        ap (λ (x : Trace). x.decoder.total_overhead) run-call in
      let cheap : t1.decoder.total_overhead + wasted < free_overhead =
        omega (arith, overhead, h.overhead_le, few) in
      let charged = charge wasted (return_of t1.verdict (length t1.rest), t1.decoder) in
      let decoder_is : o.result.decoder ≡ charged.1 = ap (λ (x : ℤ × Decoder). x.1) o.charged in
      let out_is : t1.out ≡ core.out = ap (λ (x : Trace). x.out) run-call in
      let verdict_is : t1.verdict ≡ t.verdict =
        ap (λ (x : Trace). x.verdict) run-call ∙ sym (ap (λ (x : Trace). x.verdict) run-pieces) in
      let rest_is : t1.rest ≡ t.rest =
        ap (λ (x : Trace). x.rest) run-call ∙ sym (ap (λ (x : Trace). x.rest) run-pieces) in
      let seen : t.out ≡ out ++ take o.result.bufsz o.result.buf =
        ap (λ (x : Trace). x.out) run-pieces ∙ ap (λ p. out ++ p) (sym (o.decoded ∙ out_is)) in
      record {
        result = o.result;
        returns = o.returns;
        bufsz_is = ap length o.decoded ∙ sym o.bufsz_is;
        seen = seen;
        ret_is =
            ap (λ (x : ℤ × Decoder). x.0) o.charged
            ∙ charge-fine wasted t1.decoder cheap (return_of t1.verdict (length t1.rest))
            ∙ ap (λ v. return_of v (length t1.rest)) verdict_is
            ∙ ap (λ r. return_of t.verdict (length r)) rest_is;
        next = λ waits. record {
          same_decoder =
              ap (with_totals 0 0) decoder_is
              ∙ charge-with_totals wasted t1.decoder _
              ∙ ap (λ (x : Trace). with_totals 0 0 x.decoder) run-call
              ∙ sym (ap (λ (x : Trace). with_totals 0 0 x.decoder) run-pieces);
          waits = waits;
          seen = seen;
          valid = subst IsValid (sym decoder_is) (
              charge-IsValid wasted _ t1.decoder
                (run-IsValid (enter d bytes).decoder [] bytes h.valid));
          overhead_le = omega (
            arith,
            ap (λ (x : Decoder). x.total_overhead) decoder_is,
            charge-overhead wasted t1.decoder cheap (return_of t1.verdict (length t1.rest)),
            overhead,
            h.overhead_le,
            length-append fed bytes,
          );
        };
      }

pub run-rest_le : (d : Decoder) (out s : Bytes) → length (run d out s).rest ≤ length s
unfolding run
run-rest_le d out [] = omega arith
run-rest_le d out (c ∷ s) = after (step d c) refl (λ d' out'. run-rest_le d' out' s)
  where
    after :
        (e : Event)
        → step d c ≡ e
        → ((d' : Decoder) (out' : Bytes) → length (run d' out' s).rest ≤ length s)
        → length (run d out (c ∷ s)).rest ≤ length (c ∷ s)
    after (skip d') e ih = rw (e, run) (omega (arith, ih d' out))
    after (emit d') e ih = rw (e, run) (omega (arith, ih d' (out ++ (c ∷ []))))
    after (finish d') e ih = rw (e, run) (omega arith)
    after (refuse d') e ih = rw (e, run) (omega arith)
