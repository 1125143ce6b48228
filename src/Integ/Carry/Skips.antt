-- ===== src/Integ/Carry/Skips.antt =====
-- The bytes that run_server of scripts/integ_http11.c carries over to the upload.
use native.Mathlib.Nat.{mod-eq_of_lt}
use picohttpparser_rs.Base.{
  ℕ, ◌+◌, ◌-◌, ◌%◌, ◌^◌, ◌≤◌, ◌<◌, ◌≡◌, refl, ◌∙◌, ap, [], ◌∷◌, ◌++◌, List, some, true, false, ltb,
  arith, length, drop, All,
}
use picohttpparser_rs.Integ.Carry.Decimal.{decimal, length_loop-decimal}
use picohttpparser_rs.Integ.Carry.{
  length_loop, named, is_content_length, skip_loop, move_rest, carry,
}
use picohttpparser_rs.Reference.Chars.{Bytes}
use picohttpparser_rs.Reference.Output.{Header}

module _ (buf : Bytes) where
  abbrev pub OtherName : Header → Type 0
  OtherName h = is_content_length buf h ≡ false

  skip_loop-others :
      (v : ℕ) (headers : List Header) → All OtherName headers → skip_loop buf v headers ≡ some v
  unfolding skip_loop
  skip_loop-others v [] a = refl
  skip_loop-others v (h ∷ headers) a = rw a.0 (skip_loop-others v headers a.1)

  -- One header gives the length.
  pub record GivesLength (n : ℕ) (headers : List Header) : Type 0 where
    pub before : List Header
    pub header : Header
    pub after : List Header
    pub in_order : headers ≡ before ++ (header ∷ after)
    pub others_before : All OtherName before
    pub others_after : All OtherName after
    pub named_so : is_content_length buf header ≡ true
    pub value_is : named buf header.value ≡ decimal 20 n

  skip_loop-one :
      (v n : ℕ) (before after : List Header) (h : Header)
      → All OtherName before
      → All OtherName after
      → is_content_length buf h ≡ true
      → length_loop 0 (named buf h.value) ≡ some n
      → skip_loop buf v (before ++ (h ∷ after)) ≡ some n
  unfolding skip_loop
  skip_loop-one v n [] after h b a is value = rw (is, value) (skip_loop-others n after a)
  skip_loop-one v n (g ∷ before) after h b a is value =
      rw b.0 (skip_loop-one v n before after h b.1 a is value)

  -- Where exactly one header of a request is named Content-Length, with a number below 2^64 in decimal as
  -- its value, and the head and that many bytes behind it are in the buffer (of fewer than 2^64 bytes),
  -- what is carried over to the upload is what stands behind those bytes.
  pub carry-GivesLength :
      (headlen n : ℕ) (headers : List Header)
      → GivesLength n headers
      → headlen + n ≤ length buf
      → length buf < 2 ^ 64
      → carry buf headlen headers ≡ some (drop (headlen + n) buf)
  unfolding carry move_rest
  carry-GivesLength headlen n headers g le size =
      let value : length_loop 0 (named buf g.header.value) ≡ some n =
        ap (length_loop 0) g.value_is ∙ length_loop-decimal 20 n (omega arith) (omega arith) in
      let skip : skip_loop buf 0 headers ≡ some n =
        ap (skip_loop buf 0) g.in_order
        ∙ skip_loop-one 0 n g.before g.after g.header g.others_before g.others_after g.named_so
            value in
      let whole : (headlen + n) % 2 ^ 64 ≡ headlen + n = mod-eq_of_lt (omega arith) in
      let fits : ltb (length buf) (headlen + n) ≡ false = ground arith in
      rw (skip, whole, fits) refl

  -- The sum of the head's length and the Content-Length wraps: with a length of 2^64 - k, where k is at
  -- most the head's length, the test for bytes that are not in the buffer lets it through, and the last k
  -- bytes of the head are carried over as a part of the upload.
  pub carry-wraps :
      (headlen k : ℕ) (headers : List Header)
      → GivesLength (2 ^ 64 - k) headers
      → 0 < k
      → k ≤ headlen
      → headlen ≤ length buf
      → length buf < 2 ^ 64
      → carry buf headlen headers ≡ some (drop (headlen - k) buf)
  unfolding carry move_rest
  carry-wraps headlen k headers g some_bytes le fits size =
      let n = 2 ^ 64 - k in
      let value : length_loop 0 (named buf g.header.value) ≡ some n =
        ap (length_loop 0) g.value_is ∙ length_loop-decimal 20 n (omega arith) (omega arith) in
      let skip : skip_loop buf 0 headers ≡ some n =
        ap (skip_loop buf 0) g.in_order
        ∙ skip_loop-one 0 n g.before g.after g.header g.others_before g.others_after g.named_so
            value in
      let wrap : (headlen + n) % 2 ^ 64 ≡ headlen - k = omega arith in
      let inside : ltb (length buf) (headlen - k) ≡ false = ground arith in
      rw (skip, wrap, inside) refl
