-- ===== src/Reference/Chunked/Split.antt =====
-- phr_decode_chunked on a stream that comes in two pieces.
use mathlib.Core.List.{append-nil}
use mathlib.Core.Option.{some-injective}
use mathlib.Core.Path.{subst}
use picohttpparser_rs.Base.{
  ℕ, zero, suc, ◌+◌, ◌-◌, lt→ltb, ◌^◌, ◌%◌, ◌<◌, ◌≡◌, ◌↔◌, refl, sym, ◌∙◌, ap, [], ◌++◌, some,
  arith, Bool-cases, inl, inr, length, take, drop, ℤ, pos, negsuc,
}
use picohttpparser_rs.Base.Lists.{length-take, length-drop, length-append}
use picohttpparser_rs.Reference.Chars.{Bytes}
use picohttpparser_rs.Reference.Chunked.Refines.{return_of, phr_decode_chunked-Decodes}
use picohttpparser_rs.Reference.Chunked.Stream.{Trace, Verdict, more, refused, finished, run}
use picohttpparser_rs.Reference.Chunked.Totals.{
  with_totals, trace_with, run-with_totals, resume, run-append, prepend, run-prepend,
}
use picohttpparser_rs.Reference.Chunked.Valid.{IsValid, IsValid-ExpectsData, run-IsValid}
use picohttpparser_rs.Reference.Chunked.{
  Decoded, phr_decode_chunked, charge, enter, is_incomplete, is_wasteful,
}
use picohttpparser_rs.Reference.Decoder.{Decoder, incomplete}

module _ (wasted : ℕ) (d : Decoder) where
  -- The overhead is charged to the totals only.
  pub charge-with_totals :
      (ret : ℤ) → with_totals 0 0 (charge wasted (ret, d)).1 ≡ with_totals 0 0 d
  unfolding charge
  charge-with_totals ret = elim (Bool-cases (is_incomplete ret)) [
    | inl waits ↦ rw waits
    | inr done ↦ rw done
  ]

  -- It turns no other result into a size, and no size into another result.
  charge-size : (ret : ℤ) (n : ℕ) → ((charge wasted (ret, d)).0 ≡ pos n) ↔ (ret ≡ pos n)
  unfolding charge
  charge-size (pos m) n = (λ e. e, λ e. e)
  charge-size (negsuc zero) n = (λ e. e, λ e. e)
  charge-size (negsuc (suc zero)) n =
      elim (Bool-cases (is_wasteful ((d.total_overhead + wasted) % 2 ^ 64) d.total_read)) [
        | inl wasteful ↦ rw wasteful (λ e. cc, λ e. cc)
        | inr fine ↦ rw fine (λ e. e, λ e. e)
      ]
  charge-size (negsuc (suc (suc m))) n = (λ e. e, λ e. e)

  charge-waits :
      (v : Verdict) (left : ℕ)
      → left < 2 ^ 63
      → (charge wasted (return_of v left, d)).0 ≡ incomplete
      → v ≡ more
  unfolding charge
  charge-waits more left lt e = refl
  charge-waits refused left lt e = cc
  charge-waits finished left lt e = ground (arith, lt→ltb left (2 ^ 63) lt)

-- What a call's result says of the trace of its bytes.
record Outcome (size : ℕ) (t : Trace) (r : Decoded) : Type 0 where
  decoded : take r.bufsz r.buf ≡ t.out
  left_over : take (length t.rest) (drop r.bufsz r.buf) ≡ t.rest
  size_iff : (n : ℕ) → (r.ret ≡ pos n) ↔ (return_of t.verdict (length t.rest) ≡ pos n)
  waits : r.ret ≡ incomplete → t.verdict ≡ more
  same_decoder : with_totals 0 0 r.decoder ≡ with_totals 0 0 t.decoder
  short : length t.rest < 2 ^ 63

outcome :
    (d : Decoder) (buf : Bytes) (r : Decoded)
    → IsValid d
    → length buf < 2 ^ 63
    → phr_decode_chunked d buf ≡ some r
    → Outcome (length buf) (run (enter d buf).decoder [] buf) r
outcome d buf r h lt e =
    let t = run (enter d buf).decoder [] buf in
    let o = phr_decode_chunked-Decodes d buf (IsValid-ExpectsData d h) in
    let wasted = length buf - length t.out in
    let ret_is : o.result.ret ≡ (charge wasted (return_of t.verdict (length t.rest), t.decoder)).0 =
      ap (λ (x : ℤ × Decoder). x.0) o.charged in
    let decoder_is : o.result.decoder
        ≡ (charge wasted (return_of t.verdict (length t.rest), t.decoder)).1 =
      ap (λ (x : ℤ × Decoder). x.1) o.charged in
    let left_short : length t.rest < 2 ^ 63 = omega (
      arith,
      ap length o.left_over,
      length-take (length t.rest) (drop o.result.bufsz o.result.buf),
      length-drop o.result.bufsz o.result.buf,
      o.same_length,
    ) in
    let same : o.result ≡ r = some-injective _ _ (sym o.returns ∙ e) in
    subst (Outcome (length buf) t) same (record {
      decoded = o.decoded;
      left_over = o.left_over;
      size_iff = λ n.
          subst (λ ret. (ret ≡ pos n) ↔ (return_of t.verdict (length t.rest) ≡ pos n)) (sym ret_is)
            (charge-size wasted t.decoder (return_of t.verdict (length t.rest)) n);
      waits =
          λ w. charge-waits wasted t.decoder t.verdict (length t.rest) left_short (sym ret_is ∙ w);
      same_decoder = ap (with_totals 0 0) decoder_is ∙ charge-with_totals wasted t.decoder _;
      short = left_short;
    })

size_is : (v : Verdict) (left n : ℕ) → left < 2 ^ 63 → return_of v left ≡ pos n → left ≡ n
size_is more left n lt e = absurd (cc e)
size_is refused left n lt e = absurd (cc e)
size_is finished left n lt e = ground (arith, lt→ltb left (2 ^ 63) lt)

-- What two calls in a row return, one call on both pieces returns: the same data, the same decoder
-- but for its totals, and a size in the same cases, with the same bytes behind the message.
pub record SameEnd (first second whole : Decoded) : Type 0 where
  pub decoded :
      take whole.bufsz whole.buf ≡ take first.bufsz first.buf ++ take second.bufsz second.buf
  pub size_iff : (n : ℕ) → (second.ret ≡ pos n) ↔ (whole.ret ≡ pos n)
  pub left_over :
      (n : ℕ)
      → second.ret ≡ pos n
      → take n (drop whole.bufsz whole.buf) ≡ take n (drop second.bufsz second.buf)
  pub same_decoder : with_totals 0 0 whole.decoder ≡ with_totals 0 0 second.decoder

pub resume-more :
    (t : Trace) (s : Bytes)
    → t.verdict ≡ more
    → resume t.verdict t s ≡ prepend t.out (run t.decoder [] s)
resume-more t s e =
    ap (λ v. resume v t s) e
    ∙ subst (λ out. run t.decoder out s ≡ prepend t.out (run t.decoder [] s)) (append-nil t.out)
        (run-prepend t.decoder t.out [] s)

-- A run of a decoder with other totals.
pub run_other :
    (read overhead : ℕ) (d d' : Decoder) (out s : Bytes)
    → with_totals 0 0 d ≡ with_totals 0 0 d'
    → run (with_totals read overhead d) out s ≡ trace_with read overhead (run d' out s)
run_other read overhead d d' out s e =
    ap (λ x. run (with_totals read overhead x) out s) e ∙ run-with_totals read overhead d' out s

module _ (d : Decoder) (a b : Bytes) {first second whole : Decoded} (valid : IsValid d)
    (lt : length a + length b < 2 ^ 63) where
  -- A stream in two pieces, of fewer than 2^63 bytes together, that a valid decoder is handed in two
  -- calls of which the first returns -2, is decoded as one call decodes the two together: the same
  -- data, the same decoder but for its totals, and a size in the same cases, with the same bytes
  -- behind the message.
  pub phr_decode_chunked-SameEnd :
      phr_decode_chunked d a ≡ some first
      → first.ret ≡ incomplete
      → phr_decode_chunked first.decoder b ≡ some second
      → phr_decode_chunked d (a ++ b) ≡ some whole
      → SameEnd first second whole
  phr_decode_chunked-SameEnd e1 waits e2 e =
      let d1 = (enter d a).decoder in
      let t1 = run d1 [] a in
      let core = run t1.decoder [] b in
      let x1 = outcome d a first valid (omega arith) e1 in
      let valid2 = subst IsValid (sym x1.same_decoder) (run-IsValid d1 [] a valid) in
      let x2 =
        subst (λ t. Outcome (length b) t second)
          (run_other _ _ first.decoder t1.decoder [] b x1.same_decoder)
          (outcome first.decoder b second valid2 (omega arith) e2) in
      let x =
        subst (λ t. Outcome (length (a ++ b)) t whole)
          (run_other _ _ d d1 [] (a ++ b) refl
            ∙ ap (trace_with ((d.total_read + length (a ++ b)) % 2 ^ 64) d.total_overhead)
                (run-append d1 [] a b ∙ resume-more t1 b (x1.waits waits)))
          (outcome d (a ++ b) whole valid (omega (arith, length-append a b)) e) in
      record {
        decoded = x.decoded ∙ rw (x1.decoded, x2.decoded);
        size_iff = λ n. (
          λ h. (x.size_iff n).1 ((x2.size_iff n).0 h),
          λ h. (x2.size_iff n).1 ((x.size_iff n).0 h),
        );
        left_over = λ n h.
            let n_is : length core.rest ≡ n =
              size_is core.verdict (length core.rest) n x2.short ((x2.size_iff n).0 h) in
            subst (λ k. take k (drop whole.bufsz whole.buf) ≡ take k (drop second.bufsz second.buf))
              n_is (x.left_over ∙ sym x2.left_over);
        same_decoder = x.same_decoder ∙ sym x2.same_decoder;
      }
