-- ===== src/Fuzz/Compare/Same.antt =====
-- run_entry of scripts/fuzz_parse.c with the C parser on both sides.
use picohttpparser_rs.Base.{
  ℕ, zero, suc, ◌+◌, ◌≤◌, ◌<◌, ◌^◌, ◌≡◌, refl, [], ◌∷◌, List, Bool, true, false, none, some, ◌==◌,
  ℤ, length, replicate, arith, Bool-cases, inl, inr, Res, Option,
}
use picohttpparser_rs.Base.Lists.{length-replicate}
use picohttpparser_rs.Fuzz.Compare.Exact.{header_eq_iff, int_eq_iff, slice_eq_iff, count_eq_iff}
use picohttpparser_rs.Fuzz.Compare.{
  slots_loop, slots_equal, rounds, maxh, cmp_request, cmp_response, cmp_headers, c_parse_request,
  c_parse_response, c_parse_headers, Counts, returned, compare_calls, oracle, run_entry,
}
use picohttpparser_rs.Reference.Chars.{Bytes, Cursor}
use picohttpparser_rs.Reference.Ensures.{Ensures, returns, stops_partial, stops_malformed}
use picohttpparser_rs.Reference.Headers.Bounds.{phr_parse_headers-Ensures}
use picohttpparser_rs.Reference.Output.{Header, HeaderTable, RequestOut, ResponseOut, return_value}
use picohttpparser_rs.Reference.Request.Bounds.{phr_parse_request-Ensures}
use picohttpparser_rs.Reference.Response.Bounds.{phr_parse_response-Ensures}

slots_loop_self : (k : ℕ) (hs : List Header) → slots_loop k hs hs ≡ true
unfolding slots_loop
slots_loop_self zero hs = refl
slots_loop_self (suc k) [] = refl
slots_loop_self (suc k) (h ∷ hs) = rw ((header_eq_iff h h).1 refl) (slots_loop_self k hs)

slots_equal_self : (t : HeaderTable) → slots_equal t t ≡ true
unfolding slots_equal
slots_equal_self t = slots_loop_self (rounds t.num_headers t.num_headers) t.slots

cmp_request_self : (x : ℤ × RequestOut) → cmp_request x x ≡ false
unfolding cmp_request
cmp_request_self (c, o) = rw (
  (int_eq_iff c c).1 refl,
  (int_eq_iff o.minor_version o.minor_version).1 refl,
  (count_eq_iff o.table.num_headers o.table.num_headers).1 refl,
  (slice_eq_iff o.method o.method).1 refl,
  (slice_eq_iff o.path o.path).1 refl,
  slots_equal_self o.table,
)

cmp_response_self : (x : ℤ × ResponseOut) → cmp_response x x ≡ false
unfolding cmp_response
cmp_response_self (c, o) = rw (
  (int_eq_iff c c).1 refl,
  (int_eq_iff o.minor_version o.minor_version).1 refl,
  (int_eq_iff o.status o.status).1 refl,
  (slice_eq_iff o.msg o.msg).1 refl,
  (count_eq_iff o.table.num_headers o.table.num_headers).1 refl,
  slots_equal_self o.table,
)

cmp_headers_self : (x : ℤ × HeaderTable) → cmp_headers x x ≡ false
unfolding cmp_headers
cmp_headers_self (c, t) =
    rw (
      (int_eq_iff c c).1 refl,
      (count_eq_iff t.num_headers t.num_headers).1 refl,
      slots_equal_self t,
    )

-- The parser's call has a defined result.
abbrev pub Returns : {A : Type 0} → Option (ℤ × A) → Type 0
Returns {A} r = (x : ℤ × A) × (r ≡ some x)

Returns-Ensures :
    {A : Type 0} {P : Cursor → Type 0} {Q : A → Type 0} {e : Res Cursor × A}
    → Ensures P Q e
    → Returns (returned e)
unfolding return_value
Returns-Ensures (returns h q) = (_, refl)
Returns-Ensures (stops_partial q) = (_, refl)
Returns-Ensures (stops_malformed q) = (_, refl)

module _ (s : Bytes) (h : List Header) (cap last_len : ℕ) where
  pub Returns-request :
      cap ≤ length h → last_len ≤ length s + 3 → Returns (c_parse_request s h cap last_len)
  unfolding c_parse_request
  Returns-request room le = Returns-Ensures (phr_parse_request-Ensures s h cap last_len room le)

  Returns-response :
      length s < 2 ^ 64
      → cap ≤ length h
      → last_len ≤ length s + 3
      → Returns (c_parse_response s h cap last_len)
  unfolding c_parse_response
  Returns-response lt room le =
      Returns-Ensures (phr_parse_response-Ensures s h cap last_len lt room le)

  Returns-headers :
      cap ≤ length h → last_len ≤ length s + 3 → Returns (c_parse_headers s h cap last_len)
  unfolding c_parse_headers
  Returns-headers room le = Returns-Ensures (phr_parse_headers-Ensures s h cap last_len room le)

compare_calls_self :
    {A : Type 0} (cmp : ℤ × A → ℤ × A → Bool) (same : (x : ℤ × A) → cmp x x ≡ false)
    (r : Option (ℤ × A)) (n : Counts)
    → Returns r
    → compare_calls cmp r r n ≡ some (record n { total_cases = n.total_cases + 1 })
unfolding compare_calls
compare_calls_self cmp same (some x) n h = rw (same x)
compare_calls_self cmp same none n (x, e) = cc

-- run_entry with the C parser on both sides, on a buffer of fewer than 2^64 bytes, with at most MAXH
-- headers and a `last_len` that is at most the buffer's length: both calls have a defined result, one
-- case is counted, and no mismatch.
pub run_entry-oracle :
    (garbage : Header) (entry cap last_len : ℕ) (s : Bytes) (n : Counts)
    → cap ≤ maxh
    → last_len ≤ length s
    → length s < 2 ^ 64
    → run_entry oracle garbage entry cap last_len s n
      ≡ some (record n { total_cases = n.total_cases + 1 })
unfolding run_entry
run_entry-oracle garbage entry cap last_len s n room le lt =
    let h = replicate maxh garbage in
    let slots : cap ≤ length h = omega (arith, length-replicate maxh garbage) in
    elim (Bool-cases (entry == 0)) [
      | inl request ↦ rw request (
          compare_calls_self cmp_request cmp_request_self (c_parse_request s h cap last_len) n
            (Returns-request s h cap last_len slots (omega arith)))
      | inr other ↦ elim (Bool-cases (entry == 1)) [
        | inl response ↦
            rw (other, response)
              (compare_calls_self cmp_response cmp_response_self (c_parse_response s h cap last_len)
                n (Returns-response s h cap last_len lt slots (omega arith)))
        | inr headers ↦
            rw (other, headers)
              (compare_calls_self cmp_headers cmp_headers_self (c_parse_headers s h cap last_len) n
                (Returns-headers s h cap last_len slots (omega arith)))
      ]
    ]
