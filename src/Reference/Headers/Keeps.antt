-- ===== src/Reference/Headers/Keeps.antt =====
-- parse_headers leaves the number of the slots as it is.
use picohttpparser_rs.Base.{
  ℕ, zero, suc, ◌≡◌, refl, ◌∙◌, [], ◌∷◌, List, Bool, true, false, not, ◌&&◌, none, some, malformed,
  ok, err, ltb, ◌==◌, if◌then◌else◌, length, Bool-cases, inl, inr, Res, ap,
}
use picohttpparser_rs.Reference.Chars.{Bytes, slice, is_blank}
use picohttpparser_rs.Reference.Headers.{
  trim_loop, header_name, header_continuation, header_value, header_line, header_loop,
}
use picohttpparser_rs.Reference.Output.{Header, HeaderTable, M, and_then, update, store}
use picohttpparser_rs.Reference.Scan.{parse_token, get_token_to_eol}

-- What an action ends with, where `f` of the outputs is still `n`.
pub data Kept {S A : Type 0} (f : S → ℕ) (n : ℕ) : Res A × S → Type 0 where
  kept : {r : Res A} {t : S} → f t ≡ n → Kept f n (r, t)

module _ {S A B : Type 0} {f : S → ℕ} {n : ℕ} where
  pub Kept-then :
      {e : Res A × S} (k : A → M S B)
      → Kept f n e
      → ((a : A) (t : S) → f t ≡ n → Kept f n (k a t))
      → Kept f n (and_then e k)
  Kept-then k (kept {r = ok a} {t = t} h) g = g a t h
  Kept-then k (kept {r = err c} {t = t} h) g = kept h

  pub Kept-lift :
      (r : Res A) (t : S) (k : A → M S B)
      → f t ≡ n
      → ((a : A) → Kept f n (k a t))
      → Kept f n (and_then (r, t) k)
  Kept-lift (ok a) t k h g = g a
  Kept-lift (err c) t k h g = kept h

pub Kept-same : {S A : Type 0} {f : S → ℕ} {n : ℕ} {e : Res A × S} → Kept f n e → f e.1 ≡ n
Kept-same (kept h) = h

abbrev pub slots_of : HeaderTable → ℕ
slots_of t = length t.slots

length-update :
    (i : ℕ) (f : Header → Header) (hs : List Header) → length (update i f hs) ≡ length hs
length-update i f [] = refl
length-update zero f (h ∷ hs) = refl
length-update (suc i) f (h ∷ hs) = ap suc (length-update i f hs)

module _ {k : ℕ} where
  store-Kept :
      (i : ℕ) (f : Header → Header) (t : HeaderTable)
      → slots_of t ≡ k
      → Kept slots_of k (store i f t)
  unfolding store
  store-Kept i f t e = elim (Bool-cases (ltb i (length t.slots))) [
    | inl within ↦ rw within (kept (length-update i f t.slots ∙ e))
    | inr outside ↦ rw outside (kept e)
  ]

  header_name-Kept :
      (i n : ℕ) (s : Bytes) (t : HeaderTable)
      → slots_of t ≡ k
      → Kept slots_of k (header_name i n s t)
  unfolding header_name
  header_name-Kept i n s t e = Kept-lift (parse_token b':' n s) t _ e λ x.
      Kept-then _ (store-Kept i (λ h. record h { name = some x.0 }) t e)
        λ u t1 e1. Kept-lift (if x.0.len == 0 then err malformed else ok tt) t1 _ e1 λ v. kept e1

  header_continuation-Kept :
      (i n : ℕ) (s : Bytes) (t : HeaderTable)
      → slots_of t ≡ k
      → Kept slots_of k (header_continuation i n s t)
  unfolding header_continuation
  header_continuation-Kept i n s t e =
      Kept-then _ (store-Kept i (λ h. record h { name = none }) t e) λ u t1 e1. kept e1

  header_value-Kept :
      (i n : ℕ) (s : Bytes) (t : HeaderTable)
      → slots_of t ≡ k
      → Kept slots_of k (header_value i n s t)
  unfolding header_value
  header_value-Kept i n s t e = Kept-lift (get_token_to_eol n s) t _ e λ x.
      Kept-then _
        (store-Kept i (λ h. record h { value = some (slice x.0.start (trim_loop s x.0.len)) }) t e)
        λ u t1 e1. kept e1

  header_line-Kept :
      (max n c : ℕ) (s : Bytes) (t : HeaderTable)
      → slots_of t ≡ k
      → Kept slots_of k (header_line max n c s t)
  unfolding header_line
  header_line-Kept max n c s t e =
      Kept-lift (if t.num_headers == max then err malformed else ok tt) t _ e λ u.
        Kept-then _ (either t.num_headers (not (not (t.num_headers == 0) && is_blank c)))
          λ buf t1 e1. header_value-Kept t.num_headers buf.at buf.rest t1 e1
    where
      either :
          (i : ℕ) (b : Bool)
          → Kept slots_of k
              ((if b then header_name i n (c ∷ s) else header_continuation i n (c ∷ s)) t)
      either i true = header_name-Kept i n (c ∷ s) t e
      either i false = header_continuation-Kept i n (c ∷ s) t e

  pub header_loop-Kept :
      (fuel max n : ℕ) (s : Bytes) (t : HeaderTable)
      → slots_of t ≡ k
      → Kept slots_of k (header_loop fuel max n s t)
  unfolding header_loop
  header_loop-Kept zero max n s t e = kept e
  header_loop-Kept (suc fuel) max n [] t e = kept e
  header_loop-Kept (suc fuel) max n (c ∷ s) t e = elim (Bool-cases (c == b'\r')) [
    | inl cr ↦ rw cr (kept e)
    | inr no_cr ↦ elim (Bool-cases (c == b'\n')) [
      | inl lf ↦ rw (no_cr, lf) (kept e)
      | inr no_lf ↦
          rw (no_cr, no_lf)
            (Kept-then _ (header_line-Kept max n c s t e)
              λ buf t1 e1. header_loop-Kept fuel max buf.at buf.rest t1 e1)
    ]
  ]
