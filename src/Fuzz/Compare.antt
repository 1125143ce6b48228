-- ===== src/Fuzz/Compare.antt =====
-- The comparison of two parsers in scripts/fuzz_parse.c: the C parser, and the Rust library's as a
-- parameter, each with its return value and its outputs.
pub mod Exact
pub mod Same
pub mod Counting
use picohttpparser_rs.Base.{
  ℕ, zero, suc, ◌+◌, [], ◌∷◌, List, Bool, true, false, not, ◌&&◌, ◌||◌, Option, none, some, ltb,
  ◌==◌, if◌then◌else◌, ℤ, pos, negsuc, replicate, Res,
}
use picohttpparser_rs.Reference.Chars.{Bytes, Cursor, Slice}
use picohttpparser_rs.Reference.Headers.{phr_parse_headers}
use picohttpparser_rs.Reference.Output.{Header, HeaderTable, RequestOut, ResponseOut, return_value}
use picohttpparser_rs.Reference.Request.{phr_parse_request}
use picohttpparser_rs.Reference.Response.{phr_parse_response}

-- MAXH
abbrev pub maxh : ℕ
maxh = 128

abbrev pub int_eq : ℤ → ℤ → Bool
int_eq (pos a) (pos b) = a == b
int_eq (pos a) (negsuc b) = false
int_eq (negsuc a) (pos b) = false
int_eq (negsuc a) (negsuc b) = a == b

-- A pointer and a length.
abbrev pub slice_eq : Option Slice → Option Slice → Bool
slice_eq none none = true
slice_eq none (some b) = false
slice_eq (some a) none = false
slice_eq (some a) (some b) = a.start == b.start && a.len == b.len

abbrev pub header_eq : Header → Header → Bool
header_eq a b = slice_eq a.name b.name && slice_eq a.value b.value

-- The loop of slots_equal with the rounds left, on the arrays from `i` on. The arrays have MAXH slots,
-- so the loop does not reach their ends.
pub slots_loop : ℕ → List Header → List Header → Bool
slots_loop zero rh ch = true
slots_loop (suc k) [] ch = true
slots_loop (suc k) (r ∷ rh) [] = true
slots_loop (suc k) (r ∷ rh) (c ∷ ch) =
    let rest = slots_loop k rh ch in if not (header_eq r c) then false else rest

-- `i <= n && i < MAXH`
abbrev pub rounds : ℕ → ℕ → ℕ
rounds rn cn = let n = if ltb cn rn then rn else cn in if ltb (n + 1) maxh then n + 1 else maxh

unfoldable pub slots_equal : HeaderTable → HeaderTable → Bool
unfolding slots_loop
slots_equal r c = slots_loop (rounds r.num_headers c.num_headers) r.slots c.slots

unfoldable pub cmp_request : ℤ × RequestOut → ℤ × RequestOut → Bool
cmp_request (rc, r) (cc, c) =
    not (int_eq rc cc)
    || not (int_eq r.minor_version c.minor_version)
    || not (r.table.num_headers == c.table.num_headers)
    || not (slice_eq r.method c.method)
    || not (slice_eq r.path c.path)
    || not (slots_equal r.table c.table)

unfoldable pub cmp_response : ℤ × ResponseOut → ℤ × ResponseOut → Bool
cmp_response (rc, r) (cc, c) =
    not (int_eq rc cc)
    || not (int_eq r.minor_version c.minor_version)
    || not (int_eq r.status c.status)
    || not (slice_eq r.msg c.msg)
    || not (r.table.num_headers == c.table.num_headers)
    || not (slots_equal r.table c.table)

unfoldable pub cmp_headers : ℤ × HeaderTable → ℤ × HeaderTable → Bool
cmp_headers (rc, r) (cc, c) =
    not (int_eq rc cc) || not (r.num_headers == c.num_headers) || not (slots_equal r c)

-- A parser as the driver calls it: the buffer, the header array, its size, `last_len`; `none` where a
-- call has no defined result.
abbrev pub Parser : Type 0 → Type 0
Parser A = Bytes → List Header → ℕ → ℕ → Option (ℤ × A)

abbrev pub returned : {A : Type 0} → Res Cursor × A → Option (ℤ × A)
returned (r, out) = elim (return_value r) [ none ↦ none | some code ↦ some (code, out) ]

unfoldable pub c_parse_request : Parser RequestOut
c_parse_request s headers cap last_len = returned (phr_parse_request s headers cap last_len)

unfoldable pub c_parse_response : Parser ResponseOut
c_parse_response s headers cap last_len = returned (phr_parse_response s headers cap last_len)

unfoldable pub c_parse_headers : Parser HeaderTable
c_parse_headers s headers cap last_len = returned (phr_parse_headers s headers cap last_len)

pub record Counts : Type 0 where
  pub total_cases : ℕ
  pub mismatch_count : ℕ

-- `total_cases++`, and `mismatch_count++` at a mismatch.
abbrev pub counted : Bool → Counts → Counts
counted mismatch n = record {
  total_cases = n.total_cases + 1;
  mismatch_count = if mismatch then n.mismatch_count + 1 else n.mismatch_count;
}

-- Both calls, and their comparison.
unfoldable pub compare_calls :
    {A : Type 0} → (ℤ × A → ℤ × A → Bool) → Option (ℤ × A) → Option (ℤ × A) → Counts → Option Counts
compare_calls cmp r c n = elim r [
  | none ↦ none
  | some r' ↦ elim c [ none ↦ none | some c' ↦ some (counted (cmp r' c') n) ]
]

-- The Rust library's three functions.
pub record Library : Type 0 where
  pub parse_request : Parser RequestOut
  pub parse_response : Parser ResponseOut
  pub parse_headers : Parser HeaderTable

abbrev pub oracle : Library
unfolding c_parse_request c_parse_response c_parse_headers
oracle = record {
  parse_request = c_parse_request;
  parse_response = c_parse_response;
  parse_headers = c_parse_headers;
}

-- `garbage` is what memset leaves in a slot of either array.
unfoldable pub run_entry : Library → Header → ℕ → ℕ → ℕ → Bytes → Counts → Option Counts
unfolding c_parse_request c_parse_response c_parse_headers compare_calls cmp_request cmp_response
    cmp_headers
run_entry rust garbage entry cap last_len s n =
    let rh = replicate maxh garbage in
    let ch = replicate maxh garbage in
    if entry == 0
    then compare_calls cmp_request (rust.parse_request s rh cap last_len)
        (c_parse_request s ch cap last_len) n
    else if entry == 1
    then compare_calls cmp_response (rust.parse_response s rh cap last_len)
        (c_parse_response s ch cap last_len) n
    else compare_calls cmp_headers (rust.parse_headers s rh cap last_len)
        (c_parse_headers s ch cap last_len) n
