-- ===== src/Fuzz/Compare/Exact.antt =====
-- What the comparisons of scripts/fuzz_parse.c tell apart.
use picohttpparser_rs.Base.{
  ℕ, zero, suc, ◌≤◌, ◌≡◌, ◌↔◌, refl, ap, [], ◌∷◌, List, Bool, true, false, not, ◌&&◌, ◌||◌, Option,
  none, some, ◌==◌, if◌then◌else◌, ℤ, pos, negsuc, take, length, get_or, arith, ◌<◌,
}
use picohttpparser_rs.Fuzz.Compare.{
  int_eq, slice_eq, header_eq, slots_loop, rounds, maxh, slots_equal, cmp_request, cmp_response,
  cmp_headers,
}
use picohttpparser_rs.Reference.Chars.{Slice}
use picohttpparser_rs.Reference.Output.{Header, HeaderTable, RequestOut, ResponseOut}

pub int_eq_iff : (a b : ℤ) → (int_eq a b ≡ true) ↔ (a ≡ b)
int_eq_iff (pos a) (pos b) = (λ e. ground arith, λ e. ground arith)
int_eq_iff (pos a) (negsuc b) = (λ e. ground arith, λ e. ground arith)
int_eq_iff (negsuc a) (pos b) = (λ e. ground arith, λ e. ground arith)
int_eq_iff (negsuc a) (negsuc b) = (λ e. ground arith, λ e. ground arith)

pub slice_eq_iff : (a b : Option Slice) → (slice_eq a b ≡ true) ↔ (a ≡ b)
slice_eq_iff none none = (λ e. refl, λ e. refl)
slice_eq_iff none (some b) = (λ e. cc, λ e. cc)
slice_eq_iff (some a) none = (λ e. cc, λ e. cc)
slice_eq_iff (some a) (some b) = (λ e. ground arith, λ e. ground arith)

and_iff :
    {p q : Bool} {P Q : Type 0} → (p ≡ true) ↔ P → (q ≡ true) ↔ Q → ((p && q) ≡ true) ↔ (P × Q)
and_iff {p = true} {q = true} f g = (λ e. (f.0 refl, g.0 refl), λ h. refl)
and_iff {p = true} {q = false} f g = (λ e. cc, λ h. g.1 h.1)
and_iff {p = false} f g = (λ e. cc, λ h. f.1 h.0)

-- A test for a difference, and tests in a row.
differs_iff : {p : Bool} {P : Type 0} → (p ≡ true) ↔ P → (not p ≡ false) ↔ P
differs_iff {p = true} f = (λ e. f.0 refl, λ h. refl)
differs_iff {p = false} f = (λ e. cc, λ h. absurd (cc (f.1 h)))

or_iff :
    {p q : Bool} {P Q : Type 0} → (p ≡ false) ↔ P → (q ≡ false) ↔ Q → ((p || q) ≡ false) ↔ (P × Q)
or_iff {p = true} f g = (λ e. cc, λ h. absurd (cc (f.1 h.0)))
or_iff {p = false} f g = (λ e. (f.0 refl, g.0 e), λ h. g.1 h.1)

iff_trans : {P Q R : Type 0} → P ↔ Q → Q ↔ R → P ↔ R
iff_trans f g = (λ h. g.0 (f.0 h), λ h. f.1 (g.1 h))

pub header_eq_iff : (a b : Header) → (header_eq a b ≡ true) ↔ (a ≡ b)
header_eq_iff a b =
    iff_trans (and_iff (slice_eq_iff a.name b.name) (slice_eq_iff a.value b.value))
      (λ h. cc (h.0, h.1), λ e. (ap (λ (x : Header). x.name) e, ap (λ (x : Header). x.value) e))

cons_iff : {A : Type 0} {x y : A} {xs ys : List A} → ((x ≡ y) × (xs ≡ ys)) ↔ (x ∷ xs ≡ y ∷ ys)
cons_iff = (λ h. cc (h.0, h.1), λ e. (cc, cc))

slots_loop_iff :
    (k : ℕ) (rh ch : List Header)
    → k ≤ length rh
    → length rh ≡ length ch
    → (slots_loop k rh ch ≡ true) ↔ (take k rh ≡ take k ch)
unfolding slots_loop
slots_loop_iff zero rh ch le same = (λ e. refl, λ e. refl)
slots_loop_iff (suc k) [] ch le same = absurd (omega arith)
slots_loop_iff (suc k) (r ∷ rh) [] le same = absurd (omega arith)
slots_loop_iff (suc k) (r ∷ rh) (c ∷ ch) le same =
    iff_trans (first_differs (header_eq r c) (slots_loop k rh ch)) (
      iff_trans (and_iff (header_eq_iff r c) (slots_loop_iff k rh ch (omega arith) (omega arith)))
        cons_iff)
  where
    first_differs : (p q : Bool) → ((if not p then false else q) ≡ true) ↔ ((p && q) ≡ true)
    first_differs true q = (λ e. e, λ e. e)
    first_differs false q = (λ e. e, λ e. e)

abbrev pub no_header : Header
no_header = record { name = none; value = none }

-- Two tables of MAXH slots that agree in the count, in each slot of a header, and in the slot behind the
-- last header where the array has one.
pub record SameTable (r c : HeaderTable) : Type 0 where
  pub num_headers : r.num_headers ≡ c.num_headers
  pub slots :
      (i : ℕ)
      → i ≤ r.num_headers
      → i < maxh
      → get_or r.slots i no_header ≡ get_or c.slots i no_header

same_upto :
    {A : Type 0} (d : A) (k : ℕ) (xs ys : List A)
    → take k xs ≡ take k ys
    → k ≤ length xs
    → length xs ≡ length ys
    → (i : ℕ) → i < k
    → get_or xs i d ≡ get_or ys i d
same_upto d zero xs ys e le same i lt = absurd (omega arith)
same_upto d (suc k) [] ys e le same i lt = absurd (omega arith)
same_upto d (suc k) (x ∷ xs) [] e le same i lt = absurd (omega arith)
same_upto d (suc k) (x ∷ xs) (y ∷ ys) e le same zero lt = cc
same_upto d (suc k) (x ∷ xs) (y ∷ ys) e le same (suc i) lt =
    let rest : take k xs ≡ take k ys = cc in
    same_upto d k xs ys rest (omega arith) (omega arith) i (omega arith)

take_same :
    {A : Type 0} (d : A) (k : ℕ) (xs ys : List A)
    → ((i : ℕ) → i < k → get_or xs i d ≡ get_or ys i d)
    → k ≤ length xs
    → length xs ≡ length ys
    → take k xs ≡ take k ys
take_same d zero xs ys h le same = refl
take_same d (suc k) [] ys h le same = absurd (omega arith)
take_same d (suc k) (x ∷ xs) [] h le same = absurd (omega arith)
take_same d (suc k) (x ∷ xs) (y ∷ ys) h le same =
    let first : x ≡ y = h zero (omega arith) in
    let rest : take k xs ≡ take k ys =
      take_same d k xs ys (λ i lt. h (suc i) (omega arith)) (omega arith) (omega arith) in
    cc (first, rest)

module _ (r c : HeaderTable) (r_slots : length r.slots ≡ maxh)
    (c_slots : length c.slots ≡ maxh) where
  slots_equal_iff : (slots_equal r c ≡ true) ↔ (
      take (rounds r.num_headers c.num_headers) r.slots
      ≡ take (rounds r.num_headers c.num_headers) c.slots)
  unfolding slots_equal
  slots_equal_iff =
      slots_loop_iff (rounds r.num_headers c.num_headers) r.slots c.slots (ground arith)
        (omega arith)

  table_same :
      r.num_headers ≡ c.num_headers
      → take (rounds r.num_headers c.num_headers) r.slots
        ≡ take (rounds r.num_headers c.num_headers) c.slots
      → SameTable r c
  table_same count same = record {
    num_headers = count;
    slots = λ i le lt.
        same_upto no_header (rounds r.num_headers c.num_headers) r.slots c.slots same (ground arith)
          (omega arith) i (ground arith);
  }

  slots_same :
      SameTable r c
      → take (rounds r.num_headers c.num_headers) r.slots
        ≡ take (rounds r.num_headers c.num_headers) c.slots
  slots_same t =
      take_same no_header (rounds r.num_headers c.num_headers) r.slots c.slots
        (λ i lt. t.slots i (ground (arith, t.num_headers)) (ground (arith, t.num_headers)))
        (ground arith) (omega arith)

pub count_eq_iff : (a b : ℕ) → ((a == b) ≡ true) ↔ (a ≡ b)
count_eq_iff a b = (λ e. ground arith, λ e. ground arith)

pub record SameRequest (x y : ℤ × RequestOut) : Type 0 where
  pub code : x.0 ≡ y.0
  pub minor_version : x.1.minor_version ≡ y.1.minor_version
  pub method : x.1.method ≡ y.1.method
  pub path : x.1.path ≡ y.1.path
  pub table : SameTable x.1.table y.1.table

-- cmp_request, on tables of MAXH slots, reports no mismatch exactly when the two return values, the
-- outputs, the counts, each slot of a header and the slot behind the last header, where the array has
-- one, are the same.
pub cmp_request-SameRequest :
    (x y : ℤ × RequestOut)
    → length x.1.table.slots ≡ maxh
    → length y.1.table.slots ≡ maxh
    → (cmp_request x y ≡ false) ↔ SameRequest x y
unfolding cmp_request
cmp_request-SameRequest x y xs ys =
    iff_trans
      (or_iff
        (or_iff
          (or_iff
            (or_iff
              (or_iff (differs_iff (int_eq_iff x.0 y.0))
                (differs_iff (int_eq_iff x.1.minor_version y.1.minor_version)))
              (differs_iff (count_eq_iff x.1.table.num_headers y.1.table.num_headers)))
            (differs_iff (slice_eq_iff x.1.method y.1.method)))
          (differs_iff (slice_eq_iff x.1.path y.1.path)))
        (differs_iff (slots_equal_iff x.1.table y.1.table xs ys)))
      (
        λ h. record {
          code = h.0.0.0.0.0;
          minor_version = h.0.0.0.0.1;
          method = h.0.0.1;
          path = h.0.1;
          table = table_same x.1.table y.1.table xs ys h.0.0.0.1 h.1;
        },
        λ h. (
          ((((h.code, h.minor_version), h.table.num_headers), h.method), h.path),
          slots_same x.1.table y.1.table xs ys h.table,
        ),
      )

pub record SameResponse (x y : ℤ × ResponseOut) : Type 0 where
  pub code : x.0 ≡ y.0
  pub minor_version : x.1.minor_version ≡ y.1.minor_version
  pub status : x.1.status ≡ y.1.status
  pub msg : x.1.msg ≡ y.1.msg
  pub table : SameTable x.1.table y.1.table

-- cmp_response, on tables of MAXH slots, reports no mismatch exactly when the two return values, the
-- outputs, the counts, each slot of a header and the slot behind the last header, where the array has
-- one, are the same.
pub cmp_response-SameResponse :
    (x y : ℤ × ResponseOut)
    → length x.1.table.slots ≡ maxh
    → length y.1.table.slots ≡ maxh
    → (cmp_response x y ≡ false) ↔ SameResponse x y
unfolding cmp_response
cmp_response-SameResponse x y xs ys =
    iff_trans
      (or_iff
        (or_iff
          (or_iff
            (or_iff
              (or_iff (differs_iff (int_eq_iff x.0 y.0))
                (differs_iff (int_eq_iff x.1.minor_version y.1.minor_version)))
              (differs_iff (int_eq_iff x.1.status y.1.status)))
            (differs_iff (slice_eq_iff x.1.msg y.1.msg)))
          (differs_iff (count_eq_iff x.1.table.num_headers y.1.table.num_headers)))
        (differs_iff (slots_equal_iff x.1.table y.1.table xs ys)))
      (
        λ h. record {
          code = h.0.0.0.0.0;
          minor_version = h.0.0.0.0.1;
          status = h.0.0.0.1;
          msg = h.0.0.1;
          table = table_same x.1.table y.1.table xs ys h.0.1 h.1;
        },
        λ h. (
          ((((h.code, h.minor_version), h.status), h.msg), h.table.num_headers),
          slots_same x.1.table y.1.table xs ys h.table,
        ),
      )

pub record SameHeaders (x y : ℤ × HeaderTable) : Type 0 where
  pub code : x.0 ≡ y.0
  pub table : SameTable x.1 y.1

-- cmp_headers, on tables of MAXH slots, reports no mismatch exactly when the two return values, the
-- counts, each slot of a header and the slot behind the last header, where the array has one, are the
-- same.
pub cmp_headers-SameHeaders :
    (x y : ℤ × HeaderTable)
    → length x.1.slots ≡ maxh
    → length y.1.slots ≡ maxh
    → (cmp_headers x y ≡ false) ↔ SameHeaders x y
unfolding cmp_headers
cmp_headers-SameHeaders x y xs ys =
    iff_trans
      (or_iff
        (or_iff (differs_iff (int_eq_iff x.0 y.0))
          (differs_iff (count_eq_iff x.1.num_headers y.1.num_headers)))
        (differs_iff (slots_equal_iff x.1 y.1 xs ys)))
      (
        λ h. record { code = h.0.0; table = table_same x.1 y.1 xs ys h.0.1 h.1 },
        λ h. ((h.code, h.table.num_headers), slots_same x.1 y.1 xs ys h.table),
      )
