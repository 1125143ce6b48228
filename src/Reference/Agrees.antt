-- ===== src/Reference/Agrees.antt =====
-- Two runs on buffers of which the second goes on where the first ends: what the first decides, the
-- second decides alike, with the same outputs.
use picohttpparser_rs.Base.{
  ◌≡◌, refl, sym, ◌++◌, Res, ok, err, partial, malformed, fault, stuck, Bool, true, false,
  if◌then◌else◌,
}
use mathlib.Core.Path.{subst}
use picohttpparser_rs.Reference.Chars.{Bytes, Cursor, cursor}
use picohttpparser_rs.Reference.Output.{M, and_then}
use picohttpparser_rs.Reference.Scan.Extend.{Extends, ExtendsWith}

-- Nothing is said where the first run asks for more bytes, nor where it has no defined result.
pub data Agrees {A : Type 0} (R : A → A → Type 0) : Res A → Res A → Type 0 where
  both : {a a' : A} → R a a' → Agrees R (ok a) (ok a')
  refuse : Agrees R (err malformed) (err malformed)
  wants_more : {r : Res A} → Agrees R (err partial) r
  faults : {r : Res A} → Agrees R (err fault) r
  is_stuck : {r : Res A} → Agrees R (err stuck) r

pub data AgreesOn {S A : Type 0} (R : A → A → Type 0) : Res A × S → Res A × S → Type 0 where
  both : {a a' : A} {t : S} → R a a' → AgreesOn R (ok a, t) (ok a', t)
  refuse : {t : S} → AgreesOn R (err malformed, t) (err malformed, t)
  wants_more : {t : S} {e : Res A × S} → AgreesOn R (err partial, t) e
  faults : {t : S} {e : Res A × S} → AgreesOn R (err fault, t) e
  is_stuck : {t : S} {e : Res A × S} → AgreesOn R (err stuck, t) e

-- The same place, with `more` behind the buffer.
abbrev pub Longer : Bytes → Cursor → Cursor → Type 0
Longer more b b' = b' ≡ cursor b.at (b.rest ++ more)

abbrev pub LongerWith : {A : Type 0} → Bytes → A × Cursor → A × Cursor → Type 0
LongerWith more x x' = x' ≡ (x.0, cursor x.1.at (x.1.rest ++ more))

module _ {S A B : Type 0} {R : A → A → Type 0} {R' : B → B → Type 0} where
  pub AgreesOn-lift :
      {r r' : Res A} {t : S} (f f' : A → M S B)
      → Agrees R r r'
      → ((a a' : A) → R a a' → AgreesOn R' (f a t) (f' a' t))
      → AgreesOn R' (and_then (r, t) f) (and_then (r', t) f')
  AgreesOn-lift f f' (Agrees.both {a} {a'} h) k = k a a' h
  AgreesOn-lift f f' Agrees.refuse k = AgreesOn.refuse
  AgreesOn-lift f f' Agrees.wants_more k = AgreesOn.wants_more
  AgreesOn-lift f f' Agrees.faults k = AgreesOn.faults
  AgreesOn-lift f f' Agrees.is_stuck k = AgreesOn.is_stuck

  pub AgreesOn-then :
      {e e' : Res A × S} (f f' : A → M S B)
      → AgreesOn R e e'
      → ((a a' : A) (t : S) → R a a' → AgreesOn R' (f a t) (f' a' t))
      → AgreesOn R' (and_then e f) (and_then e' f')
  AgreesOn-then f f' (AgreesOn.both {a} {a'} {t} h) k = k a a' t h
  AgreesOn-then f f' AgreesOn.refuse k = AgreesOn.refuse
  AgreesOn-then f f' AgreesOn.wants_more k = AgreesOn.wants_more
  AgreesOn-then f f' AgreesOn.faults k = AgreesOn.faults
  AgreesOn-then f f' AgreesOn.is_stuck k = AgreesOn.is_stuck

-- An action on the outputs that reads no buffer.
pub AgreesOn-same : {S A : Type 0} (e : Res A × S) → AgreesOn (λ a a'. Unit {0}) e e
AgreesOn-same (ok a, t) = AgreesOn.both tt
AgreesOn-same (err malformed, t) = AgreesOn.refuse
AgreesOn-same (err partial, t) = AgreesOn.wants_more
AgreesOn-same (err fault, t) = AgreesOn.faults
AgreesOn-same (err stuck, t) = AgreesOn.is_stuck

module _ {S B : Type 0} {R' : B → B → Type 0} (more : Bytes) where
  pub AgreesOn-at :
      {r r' : Res Cursor} {t : S} (f f' : Cursor → M S B)
      → Agrees (Longer more) r r'
      → ((b : Cursor) → AgreesOn R' (f b t) (f' (cursor b.at (b.rest ++ more)) t))
      → AgreesOn R' (and_then (r, t) f) (and_then (r', t) f')
  AgreesOn-at {t = t} f f' h k =
      AgreesOn-lift f f' h (λ b b' e. subst (λ c. AgreesOn R' (f b t) (f' c t)) (sym e) (k b))

  pub AgreesOn-after :
      {e e' : Res Cursor × S} (f f' : Cursor → M S B)
      → AgreesOn (Longer more) e e'
      → ((b : Cursor) (t : S) → AgreesOn R' (f b t) (f' (cursor b.at (b.rest ++ more)) t))
      → AgreesOn R' (and_then e f) (and_then e' f')
  AgreesOn-after f f' h k =
      AgreesOn-then f f' h (λ b b' t e. subst (λ c. AgreesOn R' (f b t) (f' c t)) (sym e) (k b t))

pub AgreesOn-with :
    {S A B : Type 0} {R' : B → B → Type 0} (more : Bytes) {r r' : Res (A × Cursor)} {t : S}
    (f f' : A × Cursor → M S B)
    → Agrees (LongerWith more) r r'
    → ((x : A × Cursor) → AgreesOn R' (f x t) (f' (x.0, cursor x.1.at (x.1.rest ++ more)) t))
    → AgreesOn R' (and_then (r, t) f) (and_then (r', t) f')
AgreesOn-with {R' = R'} more {t = t} f f' h k =
    AgreesOn-lift f f' h (λ x x' e. subst (λ c. AgreesOn R' (f x t) (f' c t)) (sym e) (k x))

-- The end of an action.
pub AgreesOn-last :
    {S A : Type 0} {R : A → A → Type 0} {r r' : Res A} {t : S}
    → Agrees R r r'
    → AgreesOn R (r, t) (r', t)
AgreesOn-last (Agrees.both h) = AgreesOn.both h
AgreesOn-last Agrees.refuse = AgreesOn.refuse
AgreesOn-last Agrees.wants_more = AgreesOn.wants_more
AgreesOn-last Agrees.faults = AgreesOn.faults
AgreesOn-last Agrees.is_stuck = AgreesOn.is_stuck

-- An action on a part of the outputs.
pub AgreesOn-part :
    {S T A : Type 0} {R : A → A → Type 0} (f : S → T) {e e' : Res A × S}
    → AgreesOn R e e'
    → AgreesOn R (e.0, f e.1) (e'.0, f e'.1)
AgreesOn-part f (AgreesOn.both h) = AgreesOn.both h
AgreesOn-part f AgreesOn.refuse = AgreesOn.refuse
AgreesOn-part f AgreesOn.wants_more = AgreesOn.wants_more
AgreesOn-part f AgreesOn.faults = AgreesOn.faults
AgreesOn-part f AgreesOn.is_stuck = AgreesOn.is_stuck

pub Agrees-of_Extends :
    (more : Bytes) (r r' : Res Cursor) → Extends more r r' → Agrees (Longer more) r r'
Agrees-of_Extends more (ok b) r' h = subst (Agrees (Longer more) (ok b)) (sym h) (Agrees.both refl)
Agrees-of_Extends more (err malformed) r' h =
    subst (Agrees (Longer more) (err malformed)) (sym h) Agrees.refuse
Agrees-of_Extends more (err partial) r' h = Agrees.wants_more
Agrees-of_Extends more (err fault) r' h = Agrees.faults
Agrees-of_Extends more (err stuck) r' h = Agrees.is_stuck

pub Agrees-of_ExtendsWith :
    {A : Type 0} (more : Bytes) (r r' : Res (A × Cursor))
    → ExtendsWith more r r'
    → Agrees (LongerWith more) r r'
Agrees-of_ExtendsWith more (ok (a, b)) r' h =
    subst (Agrees (LongerWith more) (ok (a, b))) (sym h) (Agrees.both refl)
Agrees-of_ExtendsWith more (err malformed) r' h =
    subst (Agrees (LongerWith more) (err malformed)) (sym h) Agrees.refuse
Agrees-of_ExtendsWith more (err partial) r' h = Agrees.wants_more
Agrees-of_ExtendsWith more (err fault) r' h = Agrees.faults
Agrees-of_ExtendsWith more (err stuck) r' h = Agrees.is_stuck

-- The same test on both sides.
pub Agrees-test :
    (b : Bool)
    → Agrees {A = Unit {0}}
        (λ u v. Unit {0})
        (if b then err malformed else ok tt)
        (if b then err malformed else ok tt)
Agrees-test true = Agrees.refuse
Agrees-test false = Agrees.both tt
