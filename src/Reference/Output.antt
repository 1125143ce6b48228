-- ===== src/Reference/Output.antt =====
-- The caller's memory that the parsers of reference/picohttpparser.c write through their pointer
-- arguments, and the actions that write it. An error keeps what was written before it.
use picohttpparser_rs.Base.{
  ℕ, zero, suc, ◌-◌, ◌%◌, ◌^◌, List, [], ◌∷◌, Option, none, some, Res, ok, err, partial, malformed,
  fault, stuck, ltb, if◌then◌else◌, length, ℤ, negsuc, pos,
}
use picohttpparser_rs.Reference.Chars.{Cursor, Slice}

-- `struct phr_header`: `none` is a NULL pointer with length 0.
pub record Header : Type 0 where
  pub name : Option Slice
  pub value : Option Slice

-- The array `headers`, and `*num_headers`.
pub record HeaderTable : Type 0 where
  pub slots : List Header
  pub num_headers : ℕ

-- The outputs of phr_parse_request.
pub record RequestOut : Type 0 where
  pub method : Option Slice
  pub path : Option Slice
  pub minor_version : ℤ
  pub table : HeaderTable

-- The outputs of phr_parse_response.
pub record ResponseOut : Type 0 where
  pub minor_version : ℤ
  pub status : ℤ
  pub msg : Option Slice
  pub table : HeaderTable

abbrev pub M : Type 0 → Type 0 → Type 0
M S A = S → Res A × S

abbrev pub and_then : {S A B : Type 0} → Res A × S → (A → M S B) → Res B × S
and_then (ok a, t) f = f a t
and_then (err e, t) f = (err e, t)

infixl 5 ◌>>=◌ ◌>>◌
abbrev pub ◌>>=◌ : {S A B : Type 0} → M S A → (A → M S B) → M S B
◌>>=◌ m f s = and_then (m s) f

abbrev pub ◌>>◌ : {S B : Type 0} → M S (Unit {0}) → M S B → M S B
m >> k = m >>= λ _. k

abbrev pub lift : {S A : Type 0} → Res A → M S A
lift r s = (r, s)

abbrev pub modify : {S : Type 0} → (S → S) → M S (Unit {0})
modify f s = (ok tt, f s)

abbrev pub gets : {S A : Type 0} → (S → A) → M S A
gets f s = (ok (f s), s)

abbrev pub update : ℕ → (Header → Header) → List Header → List Header
update i f [] = []
update zero f (h ∷ hs) = f h ∷ hs
update (suc i) f (h ∷ hs) = h ∷ update i f hs

-- A write to `headers[i]`, which is a fault outside of the array.
unfoldable pub store : ℕ → (Header → Header) → M HeaderTable (Unit {0})
store i f t =
    if ltb i (length t.slots)
    then (ok tt, record t { slots = update i f t.slots })
    else (err fault, t)

-- What the public functions return: `(int)(buf - buf_start)`, with the wrap of a 32-bit `int`, or
-- the negative code; `none` where the code has no defined result.
unfoldable pub return_value : Res Cursor → Option ℤ
return_value (ok buf) =
    let n = buf.at % 2 ^ 32 in some (if ltb n (2 ^ 31) then pos n else negsuc (2 ^ 32 - 1 - n))
return_value (err malformed) = some (negsuc 0)
return_value (err partial) = some (negsuc 1)
return_value (err fault) = none
return_value (err stuck) = none
