-- ===== src/Reference/Ensures.antt =====
-- What a scanner, or an action on the outputs, ends with: a value with a property, or a refusal; never a
-- read outside of the buffer, a write outside of an array, or fuel that ran out.
use picohttpparser_rs.Base.{
  ℕ, ◌+◌, ◌≤◌, ◌<◌, ◌≡◌, Res, ok, err, partial, malformed, fault, stuck, arith, length, Bool, true,
  false, if◌then◌else◌, refl,
}
use picohttpparser_rs.Reference.Chars.{Bytes, Cursor, Slice}
use picohttpparser_rs.Reference.Output.{M, and_then}
use picohttpparser_rs.Reference.Scan.Bounds.{Moves, Scans, Stops, StopsAt}

pub data Fine {A : Type 0} (P : A → Type 0) : Res A → Type 0 where
  value : {a : A} → P a → Fine P (ok a)
  wants_more : Fine P (err partial)
  refused : Fine P (err malformed)

-- The outputs have property `Q`, whether or not there is a value.
pub data Ensures {S A : Type 0} (P : A → Type 0) (Q : S → Type 0) : Res A × S → Type 0 where
  returns : {a : A} {t : S} → P a → Q t → Ensures P Q (ok a, t)
  stops_partial : {t : S} → Q t → Ensures P Q (err partial, t)
  stops_malformed : {t : S} → Q t → Ensures P Q (err malformed, t)

module _ {S A B : Type 0} {P : A → Type 0} {P' : B → Type 0} {Q : S → Type 0} where
  pub Ensures-lift :
      {r : Res A} {t : S} (f : A → M S B)
      → Fine P r
      → Q t
      → ((a : A) → P a → Ensures P' Q (f a t))
      → Ensures P' Q (and_then (r, t) f)
  Ensures-lift f (value {a} h) q k = k a h
  Ensures-lift f wants_more q k = stops_partial q
  Ensures-lift f refused q k = stops_malformed q

  pub Ensures-then :
      {end : Res A × S} (f : A → M S B)
      → Ensures P Q end
      → ((a : A) (t : S) → P a → Q t → Ensures P' Q (f a t))
      → Ensures P' Q (and_then end f)
  Ensures-then f (returns {a} {t} h q) k = k a t h q
  Ensures-then f (stops_partial q) k = stops_partial q
  Ensures-then f (stops_malformed q) k = stops_malformed q

-- `b` lies `least` bytes or more behind offset `n` in a buffer of `size` bytes.
pub record Within (size n : ℕ) (b : Cursor) : Type 0 where
  pub ahead : n ≤ b.at
  pub in_buffer : b.at + length b.rest ≡ size

-- A token that begins at offset `n`, and a cursor that is not before its end.
pub record Token (size n : ℕ) (x : Slice × Cursor) : Type 0 where
  pub starts : x.0.start ≡ n
  pub end_le : n + x.0.len ≤ x.1.at
  pub in_buffer : x.1.at + length x.1.rest ≡ size

module _ (size n : ℕ) (s : Bytes) (e : n + length s ≡ size) where
  pub Fine-of_Moves :
      (least : ℕ) (r : Res Cursor) → Moves least n s r → Fine (Within size (n + least)) r
  Fine-of_Moves least (ok b) h = value (record { ahead = h.0; in_buffer = omega arith })
  Fine-of_Moves least (err partial) h = wants_more
  Fine-of_Moves least (err malformed) h = refused
  Fine-of_Moves least (err fault) h = absurd h
  Fine-of_Moves least (err stuck) h = absurd h

  pub Fine-of_Scans :
      (least : ℕ) (r : Res (Slice × Cursor)) → Scans least n s r → Fine (Token size n) r
  Fine-of_Scans least (ok x) h =
      value (record { starts = h.0; end_le = omega arith; in_buffer = omega arith })
  Fine-of_Scans least (err partial) h = wants_more
  Fine-of_Scans least (err malformed) h = refused
  Fine-of_Scans least (err fault) h = absurd h
  Fine-of_Scans least (err stuck) h = absurd h

-- With a byte to read at the cursor.
abbrev pub ByteAt : Cursor → Type 0
ByteAt b = 0 < length b.rest

pub Fine-Stops :
    {P : Cursor → Type 0} {r : Res Cursor} → Fine P r → Stops r → Fine (λ b. P b × ByteAt b) r
Fine-Stops (value h) st = value (h, st)
Fine-Stops wants_more st = wants_more
Fine-Stops refused st = refused

pub Fine-StopsAt :
    {P : Slice × Cursor → Type 0} {r : Res (Slice × Cursor)}
    → Fine P r
    → StopsAt r
    → Fine (λ x. P x × ByteAt x.1) r
Fine-StopsAt (value h) st = value (h, st)
Fine-StopsAt wants_more st = wants_more
Fine-StopsAt refused st = refused

-- A refusal under a test.
pub Fine-test :
    (b : Bool) → Fine {A = Unit {0}} (λ u. b ≡ false) (if b then err malformed else ok tt)
Fine-test true = refused
Fine-test false = value refl

pub Fine-mono :
    {A : Type 0} {P P' : A → Type 0} {r : Res A} → Fine P r → ((a : A) → P a → P' a) → Fine P' r
Fine-mono (value {a} h) f = value (f a h)
Fine-mono wants_more f = wants_more
Fine-mono refused f = refused
