-- ===== src/Reference/Chunked/Printed.antt =====
-- Chunked messages as a sender writes them, and what the stream decoder makes of a chunk.
use mathlib.Core.Option.{some-injective}
use mathlib.Core.Path.{ap₂}
use picohttpparser_rs.Base.{
  ℕ, suc, ◌+◌, ◌*◌, ◌^◌, ◌≤◌, ◌<◌, ◌≡◌, refl, sym, ◌∙◌, ap, [], ◌∷◌, ◌++◌, Option, none, some, true,
  false, arith, Option-cases, inl, inr, ◌==◌, ◌||◌, length, All,
}
use picohttpparser_rs.Reference.Chars.{Bytes}
use picohttpparser_rs.Reference.Chunked.Stream.{
  skip, run, step, step_in, on_size, on_ext, run-skip, run-eq_of_step,
}
use picohttpparser_rs.Reference.Chunked.Valid.{push_digit-lt, push_digit-count, decode_hex-lt}
use picohttpparser_rs.Reference.Decoder.{
  State, in_chunk_size, in_chunk_ext, in_chunk_header_expect_lf, Decoder, decode_hex, ends_size,
  push_digit, max_digits,
}

-- The number that hexadecimal digits write, behind digits that wrote `acc`.
unfoldable pub hex_value : ℕ → Bytes → Option ℕ
hex_value acc [] = some acc
hex_value acc (c ∷ s) = elim (decode_hex c) [ none ↦ none | some v ↦ hex_value (acc * 16 + v) s ]

abbrev pub crlf : Bytes → Bytes
crlf s = b'\r' ∷ b'\n' ∷ s

-- No CR and no LF.
abbrev pub IsText : Bytes → Type 0
IsText s = All (λ c. (c == b'\r' || c == b'\n') ≡ false) s

-- A chunk extension: none, or text that begins with a blank or a semicolon.
abbrev pub IsExt : Bytes → Type 0
IsExt [] = Unit
IsExt (c ∷ s) = (ends_size c ≡ true) × IsText (c ∷ s)

-- A chunk's first line, without its line end.
pub record Size : Type 0 where
  pub digits : Bytes
  pub ext : Bytes

pub record Writes (size : Size) (n : ℕ) : Type 0 where
  pub some_digits : 0 < length size.digits
  pub few_digits : length size.digits ≤ max_digits
  pub value : hex_value 0 size.digits ≡ some n
  pub ext_is : IsExt size.ext

abbrev pub print_size : Size → Bytes → Bytes
print_size size s = size.digits ++ (size.ext ++ crlf s)

abbrev pub at_state : State → ℕ → ℕ → Decoder → Decoder
at_state state left digits d = record d {
  state = state;
  bytes_left_in_chunk = left;
  hex_count = digits;
}

on_size-digit :
    (d : Decoder) (c v : ℕ)
    → decode_hex c ≡ some v
    → d.hex_count < max_digits
    → on_size d c ≡ skip (push_digit v d)
on_size-digit d c v e room = rw (e, on_size) (ground arith)

decode_hex-ends_size : (c : ℕ) → ends_size c ≡ true → decode_hex c ≡ none
unfolding decode_hex
decode_hex-ends_size c e = ground arith

on_size-ends :
    (d : Decoder) (c : ℕ)
    → 0 < d.hex_count
    → ends_size c ≡ true
    → on_size d c ≡ on_ext (record d { hex_count = 0; state = in_chunk_ext }) c
on_size-ends d c pos e =
    let sized : (d.hex_count == 0) ≡ false = ground arith in
    rw (decode_hex-ends_size c e, on_size, sized, e)

hex_value-digit :
    (left c v : ℕ) (ds : Bytes)
    → decode_hex c ≡ some v
    → hex_value left (c ∷ ds) ≡ hex_value (left * 16 + v) ds
unfolding hex_value
hex_value-digit left c v ds e = rw (e, hex_value)

hex_value-other : (left c : ℕ) (ds : Bytes) → decode_hex c ≡ none → hex_value left (c ∷ ds) ≡ none
unfolding hex_value
hex_value-other left c ds e = rw (e, hex_value)

module _ (d : Decoder) where
  step-digit :
      (left digits c v : ℕ)
      → decode_hex c ≡ some v
      → digits < max_digits
      → left < 16 ^ digits
      → step (at_state in_chunk_size left digits d) c
        ≡ skip (at_state in_chunk_size (left * 16 + v) (digits + 1) d)
  unfolding step step_in
  step-digit left digits c v e room lt =
      on_size-digit (at_state in_chunk_size left digits d) c v e room
      ∙ ap₂ (λ l k. skip (at_state in_chunk_size l k d))
          (push_digit-lt left digits v lt room (decode_hex-lt c v e)).0
          (push_digit-count digits room)

  run-digits :
      (out s ds : Bytes) (left digits n : ℕ)
      → digits + length ds ≤ max_digits
      → left < 16 ^ digits
      → hex_value left ds ≡ some n
      → run (at_state in_chunk_size left digits d) out (ds ++ s)
        ≡ run (at_state in_chunk_size n (digits + length ds) d) out s
  unfolding hex_value
  run-digits out s [] left digits n room lt e =
      let same : digits ≡ digits + 0 = omega arith in
      ap₂ (λ l k. run (at_state in_chunk_size l k d) out s) (some-injective _ _ e) same
  run-digits out s (c ∷ ds) left digits n room lt e = elim (Option-cases (decode_hex c)) [
    | inl other ↦ absurd (cc (hex_value-other left c ds other))
    | inr (v, digit) ↦
        let same : (digits + 1) + length ds ≡ digits + suc (length ds) = omega arith in
        run-skip _ _ out c (ds ++ s) (step-digit left digits c v digit (omega arith) lt)
        ∙ run-digits out s ds (left * 16 + v) (digits + 1) n (omega arith)
            (push_digit-lt left digits v lt (omega arith) (decode_hex-lt c v digit)).1
            (sym (hex_value-digit left c v ds digit) ∙ e)
        ∙ ap (λ k. run (at_state in_chunk_size n k d) out s) same
  ]

  -- An extension up to its CR.
  run-ext :
      (out s xs : Bytes) (n : ℕ)
      → IsText xs
      → run (at_state in_chunk_ext n 0 d) out (xs ++ (b'\r' ∷ s))
        ≡ run (at_state in_chunk_header_expect_lf n 0 d) out s
  unfolding step step_in
  run-ext out s [] n h = run-skip _ _ out b'\r' s refl
  run-ext out s (c ∷ xs) n h =
      run-skip _ _ out c (xs ++ (b'\r' ∷ s)) (ground (arith, h.0)) ∙ run-ext out s xs n h.1

  -- The byte behind the digits, read in CHUNKED_IN_CHUNK_SIZE, is read as in CHUNKED_IN_CHUNK_EXT.
  step-size_end :
      (n digits c : ℕ)
      → 0 < digits
      → ends_size c ≡ true
      → step (at_state in_chunk_size n digits d) c ≡ step (at_state in_chunk_ext n 0 d) c
  unfolding step step_in
  step-size_end n digits c pos ends = on_size-ends (at_state in_chunk_size n digits d) c pos ends

  run-size_end :
      (out s xs : Bytes) (n digits : ℕ)
      → 0 < digits
      → IsExt xs
      → run (at_state in_chunk_size n digits d) out (xs ++ (b'\r' ∷ s))
        ≡ run (at_state in_chunk_header_expect_lf n 0 d) out s
  run-size_end out s [] n digits pos h =
      run-eq_of_step _ _ out b'\r' s (step-size_end n digits b'\r' pos refl) ∙ run-ext out s [] n tt
  run-size_end out s (c ∷ xs) n digits pos (ends, text) =
      run-eq_of_step _ _ out c (xs ++ (b'\r' ∷ s)) (step-size_end n digits c pos ends)
      ∙ run-ext out s (c ∷ xs) n text

  -- A chunk's first line without its LF.
  pub run-print_size :
      (out s : Bytes) (size : Size) (n : ℕ)
      → Writes size n
      → run (at_state in_chunk_size 0 0 d) out (print_size size s)
        ≡ run (at_state in_chunk_header_expect_lf n 0 d) out (b'\n' ∷ s)
  run-print_size out s size n w =
      run-digits out (size.ext ++ crlf s) size.digits 0 0 n (omega (arith, w.few_digits))
        (omega arith) w.value
      ∙ run-size_end out (b'\n' ∷ s) size.ext n (0 + length size.digits)
          (omega (arith, w.some_digits)) w.ext_is
