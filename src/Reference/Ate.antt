-- ===== src/Reference/Ate.antt =====
-- The bytes that the parsers of reference/picohttpparser.c step over on the way to a value.
use picohttpparser_rs.Base.{ℕ, ◌≡◌, [], ◌∷◌, true, false, Res, ok, err, Code, arith, ◌==◌, ◌>>=◌}
use picohttpparser_rs.Reference.Chars.{Bytes, check_eof}
use picohttpparser_rs.Reference.Output.{M, and_then}

-- From the first bytes to the second, over CRs that each have an LF behind them.
pub data Ate : Bytes → Bytes → Type 0 where
  stay : {s : Bytes} → Ate s s
  byte : {c : ℕ} {s t : Bytes} → (c == b'\r') ≡ false → Ate s t → Ate (c ∷ s) t
  crlf :
      {c d : ℕ} {s t : Bytes}
      → (c == b'\r') ≡ true
      → (d == b'\n') ≡ true
      → Ate s t
      → Ate (c ∷ d ∷ s) t

-- One line end.
pub data LineEnd : Bytes → Bytes → Type 0 where
  at_lf : {c : ℕ} {s : Bytes} → (c == b'\n') ≡ true → LineEnd (c ∷ s) s
  at_crlf :
      {c d : ℕ} {s : Bytes} → (c == b'\r') ≡ true → (d == b'\n') ≡ true → LineEnd (c ∷ d ∷ s) s

-- Over bytes that end with a line end, and over bytes that end with two.
pub record AteLine (s t : Bytes) : Type 0 where
  pub from : Bytes
  pub before : Ate s from
  pub end : LineEnd from t

pub record AteBlock (s u : Bytes) : Type 0 where
  pub from : Bytes
  pub before : AteLine s from
  pub end : LineEnd from u

pub Ate-trans : {s t u : Bytes} → Ate s t → Ate t u → Ate s u
Ate-trans stay k = k
Ate-trans (byte n h) k = byte n (Ate-trans h k)
Ate-trans (crlf c d h) k = crlf c d (Ate-trans h k)

pub lf_not_cr : (c : ℕ) → (c == b'\n') ≡ true → (c == b'\r') ≡ false
lf_not_cr c h = ground arith

pub Ate-LineEnd : {s t : Bytes} → LineEnd s t → Ate s t
Ate-LineEnd (at_lf {c} h) = byte (lf_not_cr c h) stay
Ate-LineEnd (at_crlf c d) = crlf c d stay

pub Ate-AteLine : {s t : Bytes} → AteLine s t → Ate s t
Ate-AteLine h = Ate-trans h.before (Ate-LineEnd h.end)

pub AteLine-after : {s t u : Bytes} → Ate s t → AteLine t u → AteLine s u
AteLine-after h k = record { from = k.from; before = Ate-trans h k.before; end = k.end }

-- A value with a property, if there is one.
pub data When {A : Type 0} (P : A → Type 0) : Res A → Type 0 where
  passes : {a : A} → P a → When P (ok a)
  fails : {e : Code} → When P (err e)

pub data Upon {S A : Type 0} (P : A → Type 0) : Res A × S → Type 0 where
  passes : {a : A} {t : S} → P a → Upon P (ok a, t)
  fails : {e : Code} {t : S} → Upon P (err e, t)

module _ {S A B : Type 0} {P : A → Type 0} {Q : B → Type 0} where
  pub Upon-lift :
      {r : Res A} {t : S} (f : A → M S B)
      → When P r
      → ((a : A) → P a → Upon Q (f a t))
      → Upon Q (and_then (r, t) f)
  Upon-lift f (When.passes {a} h) k = k a h
  Upon-lift f When.fails k = Upon.fails

  pub Upon-then :
      {e : Res A × S} (f : A → M S B)
      → Upon P e
      → ((a : A) (t : S) → P a → Upon Q (f a t))
      → Upon Q (and_then e f)
  Upon-then f (Upon.passes {a} {t} h) k = k a t h
  Upon-then f Upon.fails k = Upon.fails

pub Upon-mono :
    {S A : Type 0} {P Q : A → Type 0} {e : Res A × S} → Upon P e → ((a : A) → P a → Q a) → Upon Q e
Upon-mono (Upon.passes {a} h) k = Upon.passes (k a h)
Upon-mono Upon.fails k = Upon.fails

-- An action on a part of the outputs.
pub Upon-part :
    {S T A : Type 0} {P : A → Type 0} (f : S → T) {e : Res A × S} → Upon P e → Upon P (e.0, f e.1)
Upon-part f (Upon.passes h) = Upon.passes h
Upon-part f Upon.fails = Upon.fails

pub Upon-of_When : {S A : Type 0} {P : A → Type 0} {r : Res A} {t : S} → When P r → Upon P (r, t)
Upon-of_When (When.passes h) = Upon.passes h
Upon-of_When When.fails = Upon.fails

pub When-bind :
    {A B : Type 0} {P : A → Type 0} {Q : B → Type 0} {r : Res A} (f : A → Res B)
    → When P r
    → ((a : A) → P a → When Q (f a))
    → When Q (r >>= f)
When-bind f (When.passes {a} h) k = k a h
When-bind f When.fails k = When.fails

pub When-mono :
    {A : Type 0} {P Q : A → Type 0} {r : Res A} → When P r → ((a : A) → P a → Q a) → When Q r
When-mono (When.passes {a} h) k = When.passes (k a h)
When-mono When.fails k = When.fails

pub When-check_eof :
    {A : Type 0} {P : A → Type 0} (s : Bytes) (r : Res A) → When P r → When P (check_eof s r)
When-check_eof [] r h = When.fails
When-check_eof (c ∷ s) r h = h

-- Whatever the value is.
pub When-any : {A : Type 0} (r : Res A) → When (λ a. Unit {0}) r
When-any (ok a) = When.passes tt
When-any (err e) = When.fails

pub Upon-any : {S A : Type 0} (e : Res A × S) → Upon (λ a. Unit {0}) e
Upon-any (ok a, t) = Upon.passes tt
Upon-any (err e, t) = Upon.fails
