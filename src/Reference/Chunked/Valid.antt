-- ===== src/Reference/Chunked/Valid.antt =====
-- What a decoder of phr_decode_chunked of reference/picohttpparser.c holds in each of its states, and
-- what a byte and a call make of it.
use native.Mathlib.Nat.{mod-eq_of_lt, pow-suc, pow-le-pow_right}
use mathlib.Core.Path.{subst, subst₂}
use picohttpparser_rs.Base.{
  ℕ, suc, ◌+◌, ◌-◌, ◌*◌, ◌%◌, ◌^◌, ◌≤◌, ◌<◌, ◌≡◌, refl, sym, ap, [], ◌∷◌, ◌++◌, some, arith,
  Option-cases, Bool-cases, inl, inr, ◌==◌, ℤ, length, Bool, true, false, if◌then◌else◌,
}
use picohttpparser_rs.Reference.Chars.{Bytes}
use picohttpparser_rs.Reference.Chunked.Stream.{
  Event, skip, emit, finish, refuse, run, run-skip, run-emit, run-finish, run-refuse, step, step_in,
  on_size,
}
use picohttpparser_rs.Reference.Chunked.Refines.{ExpectsData, return_of, phr_decode_chunked-Decodes}
use picohttpparser_rs.Reference.Chunked.{Decoded, phr_decode_chunked, charge, enter, is_incomplete}
use picohttpparser_rs.Base.Lists.{length-take}
use picohttpparser_rs.Reference.Decoder.{
  State, in_chunk_size, in_chunk_ext, in_chunk_header_expect_lf, in_chunk_data,
  in_chunk_data_expect_cr, in_chunk_data_expect_lf, in_trailers_line_head, in_trailers_line_middle,
  Decoder, decode_hex, ends_size, max_digits,
}

-- What a decoder holds in a state: `left` bytes of the chunk, `digits` of its size.
abbrev pub Holds : State → ℕ → ℕ → Type 0
Holds in_chunk_size left digits = (digits ≤ max_digits) × (left < 16 ^ digits)
Holds in_chunk_ext left digits = (digits ≡ 0) × (left < 2 ^ 64)
Holds in_chunk_header_expect_lf left digits = (digits ≡ 0) × (left < 2 ^ 64)
Holds in_chunk_data left digits = (digits ≡ 0) × (0 < left) × (left < 2 ^ 64)
Holds in_chunk_data_expect_cr left digits = (digits ≡ 0) × (left ≡ 0)
Holds in_chunk_data_expect_lf left digits = (digits ≡ 0) × (left ≡ 0)
Holds in_trailers_line_head left digits = (digits ≡ 0) × (left ≡ 0)
Holds in_trailers_line_middle left digits = (digits ≡ 0) × (left ≡ 0)

abbrev pub IsValid : Decoder → Type 0
IsValid d = Holds d.state d.bytes_left_in_chunk d.hex_count

pub decode_hex-lt : (c v : ℕ) → decode_hex c ≡ some v → v < 16
unfolding decode_hex
decode_hex-lt c v h = ground arith

power_le : (k : ℕ) → k ≤ 16 → 16 ^ k ≤ 2 ^ 64
power_le k h = pow-le-pow_right (omega arith) h

suc_eq : (k : ℕ) → k + 1 ≡ suc k
suc_eq k = omega arith

-- A digit more, where there is room for it, wraps nothing.
pub push_digit-lt :
    (left digits v : ℕ)
    → left < 16 ^ digits
    → digits < max_digits
    → v < 16
    → ((left * 16 + v) % 2 ^ 64 ≡ left * 16 + v) × (left * 16 + v < 16 ^ (digits + 1))
push_digit-lt left digits v lt room digit =
    let more : left * 16 + v < 16 ^ (digits + 1) =
      omega (arith, pow-suc 16 digits, ap (λ k. 16 ^ k) (suc_eq digits)) in
    (mod-eq_of_lt (omega (arith, more, power_le (digits + 1) (omega arith))), more)

-- The count of the digits does not wrap either.
pub push_digit-count : (digits : ℕ) → digits < max_digits → (digits + 1) % 2 ^ 8 ≡ digits + 1
push_digit-count digits room = mod-eq_of_lt (omega arith)

-- What a byte makes of a valid decoder.
abbrev AllValid : Event → Type 0
AllValid (skip d) = IsValid d
AllValid (emit d) = IsValid d
AllValid (finish d) = IsValid d
AllValid (refuse d) = IsValid d

module _ (d : Decoder) (c : ℕ) where
  on_size-AllValid :
      Holds in_chunk_size d.bytes_left_in_chunk d.hex_count
      → d.state ≡ in_chunk_size
      → IsValid d
      → AllValid (on_size d c)
  on_size-AllValid h e keep = elim (Option-cases (decode_hex c)) [
    | inl end ↦
        rw (end, AllValid) (at_end (d.hex_count == 0) (ends_size c) (c == b'\r') (c == b'\n'))
    | inr (v, digit) ↦ elim (Bool-cases (d.hex_count == max_digits)) [
      | inl full ↦ rw (digit, full, AllValid) keep
      | inr room ↦
          rw (digit, room, AllValid)
            (let p =
                push_digit-lt d.bytes_left_in_chunk d.hex_count v h.1 (ground (arith, h.0))
                  (decode_hex-lt c v digit) in
              let room' : d.hex_count < max_digits = ground (arith, h.0) in
              subst
                (λ s.
                  Holds s ((d.bytes_left_in_chunk * 16 + v) % 2 ^ 64) ((d.hex_count + 1) % 2 ^ 8))
                (sym e)
                (rw (push_digit-count d.hex_count room')
                  ((omega (arith, room'), subst (λ k. k < 16 ^ (d.hex_count + 1)) (sym p.0) p.1))))
    ]
  ]
    where
      fits : d.bytes_left_in_chunk < 2 ^ 64
      fits = omega (arith, h.1, power_le d.hex_count h.0)

      at_end :
          (bare ends cr lf : Bool)
          → AllValid (
              if bare
              then refuse d
              else if ends
              then (if cr
                  then skip (record d { hex_count = 0; state = in_chunk_header_expect_lf })
                  else if lf
                  then refuse (record d { hex_count = 0; state = in_chunk_ext })
                  else skip (record d { hex_count = 0; state = in_chunk_ext }))
              else refuse d)
      at_end true ends cr lf = keep
      at_end false true true lf = (refl, fits)
      at_end false true false true = (refl, fits)
      at_end false true false false = (refl, fits)
      at_end false false cr lf = keep

  step_in-AllValid :
      (s : State)
      → Holds s d.bytes_left_in_chunk d.hex_count
      → d.state ≡ s
      → IsValid d
      → AllValid (step_in s d c)
  unfolding step_in
  step_in-AllValid in_chunk_size h e keep = on_size-AllValid h e keep
  step_in-AllValid in_chunk_ext h e keep = elim (Bool-cases (c == b'\r')) [
    | inl cr ↦ rw cr h
    | inr ncr ↦ elim (Bool-cases (c == b'\n')) [
      | inl lf ↦ rw (ncr, lf) keep
      | inr nlf ↦ rw (ncr, nlf) keep
    ]
  ]
  step_in-AllValid in_chunk_header_expect_lf h e keep = elim (Bool-cases (c == b'\n')) [
    | inr nlf ↦ rw nlf keep
    | inl lf ↦ elim (Bool-cases (d.bytes_left_in_chunk == 0)) [
      | inr some_left ↦ rw (lf, some_left) (h.0, ground arith, h.1)
      | inl none_left ↦ elim (Bool-cases d.consume_trailer) [
        | inl trailer ↦ rw (lf, none_left, trailer) (h.0, ground arith)
        | inr stop ↦ rw (lf, none_left, stop) keep
      ]
    ]
  ]
  step_in-AllValid in_chunk_data h e keep = elim (Bool-cases (d.bytes_left_in_chunk == 1)) [
    | inl one ↦ rw one (h.0, ground arith)
    | inr several ↦ rw several (h.0, ground arith, omega (arith, h))
  ]
  step_in-AllValid in_chunk_data_expect_cr h e keep = elim (Bool-cases (c == b'\r')) [
    | inl cr ↦ rw cr h
    | inr ncr ↦ rw ncr keep
  ]
  step_in-AllValid in_chunk_data_expect_lf h e keep = elim (Bool-cases (c == b'\n')) [
    | inl lf ↦ rw lf (
      omega (arith, h.0),
      subst₂ (λ left digits. left < 16 ^ digits) (sym h.1) (sym h.0) (omega arith),
    )
    | inr nlf ↦ rw nlf keep
  ]
  step_in-AllValid in_trailers_line_head h e keep = elim (Bool-cases (c == b'\r')) [
    | inl cr ↦ rw cr keep
    | inr ncr ↦ elim (Bool-cases (c == b'\n')) [
      | inl lf ↦ rw (ncr, lf) keep
      | inr nlf ↦ rw (ncr, nlf) h
    ]
  ]
  step_in-AllValid in_trailers_line_middle h e keep = elim (Bool-cases (c == b'\n')) [
    | inl lf ↦ rw lf h
    | inr nlf ↦ rw nlf keep
  ]

  step-AllValid : IsValid d → AllValid (step d c)
  unfolding step
  step-AllValid h = step_in-AllValid d.state h refl h

-- A stream leaves a valid decoder valid, whether it ends, is refused or breaks off.
pub run-IsValid : (d : Decoder) (out s : Bytes) → IsValid d → IsValid (run d out s).decoder
unfolding run
run-IsValid d out [] h = h
run-IsValid d out (c ∷ s) h =
    after (step d c) refl (step-AllValid d c h) (λ d' out' h'. run-IsValid d' out' s h')
  where
    after :
        (e : Event)
        → step d c ≡ e
        → AllValid e
        → ((d' : Decoder) (out' : Bytes) → IsValid d' → IsValid (run d' out' s).decoder)
        → IsValid (run d out (c ∷ s)).decoder
    after (skip d') e h ih =
        subst (λ t. IsValid t.decoder) (sym (run-skip d d' out c s e)) (ih d' out h)
    after (emit d') e h ih =
        subst (λ t. IsValid t.decoder) (sym (run-emit d d' out c s e)) (ih d' (out ++ (c ∷ [])) h)
    after (finish d') e h ih = subst (λ t. IsValid t.decoder) (sym (run-finish d d' out c s e)) h
    after (refuse d') e h ih = subst (λ t. IsValid t.decoder) (sym (run-refuse d d' out c s e)) h

pub IsValid-ExpectsData : (d : Decoder) → IsValid d → ExpectsData d
IsValid-ExpectsData d h e = (subst (λ s. Holds s d.bytes_left_in_chunk d.hex_count) e h).1

pub charge-IsValid :
    (wasted : ℕ) (ret : ℤ) (d : Decoder) → IsValid d → IsValid (charge wasted (ret, d)).1
unfolding charge
charge-IsValid wasted ret d h = elim (Bool-cases (is_incomplete ret)) [
  | inl waits ↦ rw waits h
  | inr done ↦ rw done h
]

-- What a call leaves behind: it returns, and the decoder is valid again.
pub record LeavesValid (d : Decoder) (buf : Bytes) : Type 0 where
  pub result : Decoded
  pub returns : phr_decode_chunked d buf ≡ some result
  pub valid : IsValid result.decoder
  pub bufsz_le : result.bufsz ≤ length buf
  pub same_length : length result.buf ≡ length buf

-- A call of phr_decode_chunked on a valid decoder and any bytes returns. It leaves a valid decoder,
-- whose chunk size has not wrapped, a buffer of the same size and no more data than bytes were given.
pub phr_decode_chunked-LeavesValid : (d : Decoder) (buf : Bytes) → IsValid d → LeavesValid d buf
phr_decode_chunked-LeavesValid d buf h =
    let t = run (enter d buf).decoder [] buf in
    let o = phr_decode_chunked-Decodes d buf (IsValid-ExpectsData d h) in
    let wasted = length buf - length t.out in
    let same : o.result.decoder
        ≡ (charge wasted (return_of t.verdict (length t.rest), t.decoder)).1 =
      ap (λ (x : ℤ × Decoder). x.1) o.charged in
    record {
      result = o.result;
      returns = o.returns;
      valid =
          subst IsValid (sym same)
            (charge-IsValid wasted _ t.decoder (run-IsValid (enter d buf).decoder [] buf h));
      bufsz_le = omega (
        arith,
        o.same_length,
        o.bufsz_is,
        ap length o.decoded,
        length-take o.result.bufsz o.result.buf,
      );
      same_length = o.same_length;
    }
