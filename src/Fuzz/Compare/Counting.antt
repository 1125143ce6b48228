-- ===== src/Fuzz/Compare/Counting.antt =====
-- run_entry of scripts/fuzz_parse.c with any library beside the C parser.
use mathlib.Core.Option.{some-injective}
use picohttpparser_rs.Base.{
  ℕ, ◌+◌, ◌≤◌, ◌≡◌, ◌↔◌, refl, sym, ◌∙◌, List, Bool, true, false, some, malformed, partial, fault,
  stuck, ok, err, ℤ, length, replicate, arith, Option, Res, ap,
}
use picohttpparser_rs.Base.Lists.{length-replicate}
use picohttpparser_rs.Fuzz.Compare.Exact.{SameRequest, cmp_request-SameRequest}
use picohttpparser_rs.Fuzz.Compare.Same.{Returns-request}
use picohttpparser_rs.Fuzz.Compare.{
  maxh, cmp_request, c_parse_request, Counts, returned, counted, compare_calls, Library, run_entry,
}
use picohttpparser_rs.Reference.Chars.{Bytes, Cursor}
use picohttpparser_rs.Reference.Output.{Header, RequestOut, return_value}
use picohttpparser_rs.Reference.Request.Keeps.{request_slots, slots-phr_parse_request}
use picohttpparser_rs.Reference.Request.{phr_parse_request}

outputs-returned : {A : Type 0} (e : Res Cursor × A) (y : ℤ × A) → returned e ≡ some y → e.1 ≡ y.1
unfolding return_value
outputs-returned (ok b, o) y h = ap (λ z. z.1) (some-injective _ _ h)
outputs-returned (err malformed, o) y h = ap (λ z. z.1) (some-injective _ _ h)
outputs-returned (err partial, o) y h = ap (λ z. z.1) (some-injective _ _ h)
outputs-returned (err fault, o) y h = cc
outputs-returned (err stuck, o) y h = cc

c_slots :
    (s : Bytes) (h : List Header) (cap last_len : ℕ) (y : ℤ × RequestOut)
    → c_parse_request s h cap last_len ≡ some y
    → length y.1.table.slots ≡ length h
unfolding c_parse_request
c_slots s h cap last_len y e =
    ap request_slots (sym (outputs-returned (phr_parse_request s h cap last_len) y e))
    ∙ slots-phr_parse_request s h cap last_len

-- One case more is counted, and a mismatch just where Same does not hold.
pub record Judged (Same : Type 0) (n : Counts) (o : Option Counts) : Type 0 where
  pub result : Counts
  pub returns : o ≡ some result
  pub one_case : result.total_cases ≡ n.total_cases + 1
  pub mismatch : (result.mismatch_count ≡ n.mismatch_count) ↔ Same

judged :
    {A : Type 0} (cmp : ℤ × A → ℤ × A → Bool) {Same : Type 0} {x y : ℤ × A}
    → (cmp x y ≡ false) ↔ Same
    → (n : Counts) {r c : Option (ℤ × A)} → r ≡ some x
    → c ≡ some y
    → Judged Same n (compare_calls cmp r c n)
unfolding compare_calls
judged cmp {x} {y} same n e1 e2 =
    rw (e1, e2)
      (record {
        result = counted (cmp x y) n;
        returns = refl;
        one_case = refl;
        mismatch = (λ h. same.0 (counts (cmp x y) h), λ h. rw (same.1 h) refl);
      })
  where
    counts : (b : Bool) → (counted b n).mismatch_count ≡ n.mismatch_count → b ≡ false
    counts true h = absurd (omega (arith, h))
    counts false h = refl

-- run_entry on a request, with any library beside the C parser, on a buffer of any bytes, with at most MAXH
-- headers and a `last_len` of at most the buffer's length, where the library's call returns and leaves
-- MAXH slots: the C parser returns too, one case is counted, and a mismatch is counted exactly where the
-- two return values, the outputs or the compared slots differ.
pub run_entry-request :
    (rust : Library) (garbage : Header) (cap last_len : ℕ) (s : Bytes) (n : Counts)
    (x : ℤ × RequestOut)
    → cap ≤ maxh
    → last_len ≤ length s
    → rust.parse_request s (replicate maxh garbage) cap last_len ≡ some x
    → length x.1.table.slots ≡ maxh
    → (y : ℤ × RequestOut) × (c_parse_request s (replicate maxh garbage) cap last_len ≡ some y)
      × Judged (SameRequest x y) n (run_entry rust garbage 0 cap last_len s n)
unfolding run_entry
run_entry-request rust garbage cap last_len s n x room le e slots =
    let h = replicate maxh garbage in
    let size : length h ≡ maxh = length-replicate maxh garbage in
    let c = Returns-request s h cap last_len (omega (arith, size)) (omega arith) in
    (
      c.0,
      c.1,
      judged cmp_request
          (cmp_request-SameRequest x c.0 slots (c_slots s h cap last_len c.0 c.1 ∙ size)) n e c.1,
    )
