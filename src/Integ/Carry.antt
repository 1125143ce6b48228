-- ===== src/Integ/Carry.antt =====
-- What run_server of scripts/integ_http11.c keeps of the bytes behind the head: a body of Content-Length
-- bytes is skipped.
pub mod Decimal
pub mod Skips
use picohttpparser_rs.Base.{
  ℕ, zero, suc, ◌+◌, ◌-◌, ◌*◌, ◌%◌, ◌^◌, [], ◌∷◌, List, Bool, true, false, ◌&&◌, ◌||◌, Option, none,
  some, ltb, ◌==◌, if◌then◌else◌, length, take, drop, codes,
}
use picohttpparser_rs.Reference.Chars.{Bytes, Slice}
use picohttpparser_rs.Reference.Output.{Header}

-- The loop over the digits, with `v`; `none` where the phase fails.
pub length_loop : ℕ → Bytes → Option ℕ
length_loop v [] = some v
length_loop v (c ∷ s) =
    let rest = length_loop ((v * 10 + (c - b'0')) % 2 ^ 64) s in
    if ltb c b'0' || ltb b'9' c then none else rest

-- The bytes that a pointer and a length name.
abbrev pub named : Bytes → Option Slice → Bytes
named buf none = []
named buf (some x) = take x.len (drop x.start buf)

-- `memcmp(a, b, n) == 0` for as many bytes on both sides.
pub same_bytes : Bytes → Bytes → Bool
same_bytes [] [] = true
same_bytes [] (d ∷ b) = false
same_bytes (c ∷ a) [] = false
same_bytes (c ∷ a) (d ∷ b) = c == d && same_bytes a b

unfoldable pub is_content_length : Bytes → Header → Bool
unfolding same_bytes
is_content_length buf h = same_bytes (named buf h.name) (codes "Content-Length")

-- The loop over the headers, with `body_skip`: the last such header counts.
pub skip_loop : Bytes → ℕ → List Header → Option ℕ
unfolding is_content_length
skip_loop buf body_skip [] = some body_skip
skip_loop buf body_skip (h ∷ headers) =
    let others = skip_loop buf body_skip headers in
    if is_content_length buf h
    then elim (length_loop 0 (named buf h.value)) [ none ↦ none | some v ↦ skip_loop buf v headers ]
    else others

-- The memmove, or the failure before it. Sums of sizes and pointers wrap.
unfoldable pub move_rest : Bytes → ℕ → Option ℕ → Option Bytes
move_rest buf headlen none = none
move_rest buf headlen (some body_skip) =
    let used = (headlen + body_skip) % 2 ^ 64 in
    if ltb (length buf) used then none else some (drop used buf)

-- What is left of the buffer.
unfoldable pub carry : Bytes → ℕ → List Header → Option Bytes
unfolding skip_loop move_rest
carry buf headlen headers = move_rest buf headlen (skip_loop buf 0 headers)
