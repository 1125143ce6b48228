-- ===== src/Integ/Carry/Decimal.antt =====
-- A length that is written in decimal, and what run_server of scripts/integ_http11.c reads of it.
use native.Mathlib.Nat.{mod-eq_of_lt}
use picohttpparser_rs.Base.{
  ℕ, zero, suc, ◌+◌, ◌-◌, ◌*◌, ◌/◌, ◌%◌, ◌^◌, ◌<◌, ◌≡◌, refl, ◌∙◌, ap, [], ◌∷◌, ◌++◌, ◌||◌, Option,
  none, some, true, false, ltb, if◌then◌else◌, arith, Bool-cases, inl, inr,
}
use picohttpparser_rs.Integ.Carry.{length_loop}
use picohttpparser_rs.Reference.Chars.{Bytes}

-- A number's digits, the last one by `%` and the others by `/`, on fuel.
unfoldable pub decimal : ℕ → ℕ → Bytes
decimal zero n = []
decimal (suc fuel) n =
    let others = decimal fuel (n / 10) in
    let last = b'0' + n % 10 in if ltb n 10 then last ∷ [] else others ++ (last ∷ [])

length_loop-digit :
    (v d : ℕ) → d < 10 → v * 10 + d < 2 ^ 64 → length_loop v ((b'0' + d) ∷ []) ≡ some (v * 10 + d)
unfolding length_loop
length_loop-digit v d digit small =
    let is_digit : (ltb (b'0' + d) b'0' || ltb b'9' (b'0' + d)) ≡ false = ground arith in
    let value : v * 10 + (b'0' + d - b'0') ≡ v * 10 + d = omega arith in
    rw (is_digit, value, mod-eq_of_lt small) refl

abbrev then_loop : Option ℕ → Bytes → Option ℕ
then_loop none t = none
then_loop (some w) t = length_loop w t

length_loop-append : (v : ℕ) (s t : Bytes) → length_loop v (s ++ t) ≡ then_loop (length_loop v s) t
unfolding length_loop
length_loop-append v [] t = refl
length_loop-append v (c ∷ s) t = elim (Bool-cases (ltb c b'0' || ltb b'9' c)) [
  | inl bad ↦ rw bad refl
  | inr digit ↦ rw digit (length_loop-append ((v * 10 + (c - b'0')) % 2 ^ 64) s t)
]

-- A Content-Length that is written in decimal, of a number below 2^64, is read as that number: the loop
-- over its digits neither fails nor wraps. The fuel is the number of digits at least.
pub length_loop-decimal :
    (fuel n : ℕ) → n < 10 ^ fuel → n < 2 ^ 64 → length_loop 0 (decimal fuel n) ≡ some n
unfolding decimal length_loop
length_loop-decimal zero n lt small = let nothing : 0 ≡ n = omega arith in ap some nothing
length_loop-decimal (suc fuel) n lt small = elim (Bool-cases (ltb n 10)) [
  | inl one ↦
      let whole : n % 10 ≡ n = ground arith in
      let value : 0 * 10 + n ≡ n = omega arith in
      rw (one, whole) (length_loop-digit 0 n (ground arith) (omega arith) ∙ ap some value)
  | inr many ↦
      let others = length_loop-decimal fuel (n / 10) (omega arith) (omega arith) in
      let value : n / 10 * 10 + n % 10 ≡ n = omega arith in
      rw many (
        length_loop-append 0 (decimal fuel (n / 10)) ((b'0' + n % 10) ∷ [])
        ∙ ap (λ o. then_loop o ((b'0' + n % 10) ∷ [])) others
        ∙ length_loop-digit (n / 10) (n % 10) (omega arith) (omega arith)
        ∙ ap some value)
]

-- A Content-Length with a byte in it that is no digit, wherever it stands, makes the phase fail.
pub length_loop-refuses :
    (v c : ℕ) (s t : Bytes)
    → (ltb c b'0' || ltb b'9' c) ≡ true
    → length_loop v (s ++ (c ∷ t)) ≡ none
unfolding length_loop
length_loop-refuses v c [] t bad = rw bad refl
length_loop-refuses v c (e ∷ s) t bad = elim (Bool-cases (ltb e b'0' || ltb b'9' e)) [
  | inl first ↦ rw first refl
  | inr digit ↦ rw digit (length_loop-refuses ((v * 10 + (e - b'0')) % 2 ^ 64) c s t bad)
]
