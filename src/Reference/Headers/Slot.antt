-- ===== src/Reference/Headers/Slot.antt =====
-- What the parts of a round of parse_headers make of the slot that they fill.
use mathlib.Core.Path.{subst}
use picohttpparser_rs.Base.{
  ℕ, zero, suc, ◌+◌, ◌≤◌, ◌<◌, ◌≡◌, refl, sym, [], ◌∷◌, none, some, arith, length, Res, Code, ok,
  err, partial, malformed, fault, stuck, Bool-cases, inl, inr, ◌==◌,
}
use picohttpparser_rs.Base.Lists.{length-drop}
use picohttpparser_rs.Reference.Chars.{Bytes, Cursor, cursor, Slice}
use picohttpparser_rs.Reference.Headers.Table.{
  SliceIn, NameIn, FirstIn, At, length-update, FirstIn-update, At-update,
}
use picohttpparser_rs.Reference.Headers.{
  blank_loop, trim_loop, advance, header_name, header_continuation,
}
use picohttpparser_rs.Reference.Output.{Header, HeaderTable, update, store}
use picohttpparser_rs.Reference.Scan.Bounds.{
  Moves, Scans, parse_token-Scans, StopsAt, parse_token-StopsAt,
}
use picohttpparser_rs.Reference.Scan.{parse_token}

blank_loop-Moves : (n : ℕ) (s : Bytes) → Moves 0 n s (blank_loop n s)
unfolding blank_loop
blank_loop-Moves n [] = tt
blank_loop-Moves n (c ∷ s) = ground (arith, blank_loop-Moves (n + 1) s)

pub trim_loop-le : (s : Bytes) (k : ℕ) → trim_loop s k ≤ k
unfolding trim_loop
trim_loop-le s zero = omega arith
trim_loop-le s (suc k) = ground (arith, trim_loop-le s k)

-- What a part of a round makes of slot `i` of the table: the slots below stay as they are, and where
-- the part succeeds the slot has the property.
abbrev pub OnOk : Res Cursor → Type 0 → Type 0
OnOk (ok b) P = P
OnOk (err e) P = Unit

pub record Writes (size i least n : ℕ) (s : Bytes) (P : Header → Type 0) (t : HeaderTable)
    (end : Res Cursor × HeaderTable) : Type 0 where
  pub moves : Moves least n s end.0
  pub same_count : end.1.num_headers ≡ t.num_headers
  pub same_length : length end.1.slots ≡ length t.slots
  pub below : FirstIn size i t.slots → FirstIn size i end.1.slots
  pub at_slot : OnOk end.0 (At i P end.1.slots)

abbrev pub written : ℕ → (Header → Header) → HeaderTable → HeaderTable
written i f t = record t { slots = update i f t.slots }

pub Moves-of_err :
    (m least n : ℕ) (s : Bytes) (c : Code) → Scans m n s (err c) → Moves least n s (err c)
Moves-of_err m least n s partial h = tt
Moves-of_err m least n s malformed h = tt
Moves-of_err m least n s fault h = h
Moves-of_err m least n s stuck h = h

OnOk-intro : (r : Res Cursor) (P : Type 0) → P → OnOk r P
OnOk-intro (ok b) P h = h
OnOk-intro (err c) P h = tt

module _ (size i least n : ℕ) (s : Bytes) (P : Header → Type 0) (t : HeaderTable) where
  Writes-err : (m : ℕ) (c : Code) → Scans m n s (err c) → Writes size i least n s P t (err c, t)
  Writes-err m c sc = record {
    moves = Moves-of_err m least n s c sc;
    same_count = refl;
    same_length = refl;
    below = λ h. h;
    at_slot = tt;
  }

  Writes-update :
      (f : Header → Header) (r : Res Cursor)
      → Moves least n s r
      → OnOk r (At i P (update i f t.slots))
      → Writes size i least n s P t (r, written i f t)
  Writes-update f r m a = record {
    moves = m;
    same_count = refl;
    same_length = length-update i f t.slots;
    below = λ h. FirstIn-update size i i f t.slots (omega arith) h;
    at_slot = a;
  }

module _ (size i n : ℕ) (s : Bytes) (t : HeaderTable) where
  header_name-err : (c : Code) → parse_token b':' n s ≡ err c → header_name i n s t ≡ (err c, t)
  unfolding header_name
  header_name-err c p = rw p

  abbrev named : Slice → HeaderTable
  named v = written i (λ h. record h { name = some v }) t

  header_name-empty :
      (v : Slice) (b : Cursor)
      → parse_token b':' n s ≡ ok (v, b)
      → i < length t.slots
      → v.len ≡ 0
      → header_name i n s t ≡ (err malformed, named v)
  unfolding header_name store
  header_name-empty v b p lt z = ground arith

  header_name-ok :
      (v : Slice) (b : Cursor)
      → parse_token b':' n s ≡ ok (v, b)
      → i < length t.slots
      → 0 < v.len
      → header_name i n s t ≡ (blank_loop (advance b).at (advance b).rest, named v)
  unfolding header_name store
  header_name-ok v b p lt z = ground arith

-- The cursor behind a token's end, and all that follows from there.
pub Moves-trans :
    (k l m : ℕ) (n : ℕ) (s : Bytes) (b : Cursor) (r : Res Cursor)
    → n + k ≤ b.at
    → b.at + length b.rest ≡ n + length s
    → Moves l b.at b.rest r
    → m ≤ k + l
    → Moves m n s r
Moves-trans k l m n s b (ok c) p q h le = omega arith
Moves-trans k l m n s b (err partial) p q h le = tt
Moves-trans k l m n s b (err malformed) p q h le = tt
Moves-trans k l m n s b (err fault) p q h le = h
Moves-trans k l m n s b (err stuck) p q h le = h

module _ (size i n : ℕ) (s : Bytes) (t : HeaderTable) (e : n + length s ≡ size)
    (lt : i < length t.slots) where
  named_slot :
      (v : Slice) (r : Res Cursor)
      → 0 < v.len
      → SliceIn size v
      → OnOk r (At i (λ h. NameIn size h.name) (named size i n s t v).slots)
  named_slot v r pos within = OnOk-intro r _ (
      At-update i (λ h. record h { name = some v }) (λ h. NameIn size h.name) t.slots lt
        (λ h. (pos, within)))

  behind_colon :
      (v : Slice) (b : Cursor)
      → Scans 0 n s (ok (v, b))
      → 0 < length b.rest
      → Moves 1 n s (blank_loop (advance b).at (advance b).rest)
  behind_colon v b sc st =
      Moves-trans 1 0 1 n s (advance b) _ (omega arith) (omega (arith, length-drop 1 b.rest))
        (blank_loop-Moves _ _) (omega arith)

  pub header_name-Writes : Writes size i 1 n s (λ h. NameIn size h.name) t (header_name i n s t)
  header_name-Writes =
      after (parse_token b':' n s) refl (parse_token-Scans b':' n s) (parse_token-StopsAt b':' n s)
    where
      after :
          (r : Res (Slice × Cursor))
          → parse_token b':' n s ≡ r
          → Scans 0 n s r
          → StopsAt r
          → Writes size i 1 n s (λ h. NameIn size h.name) t (header_name i n s t)
      after (err c) p sc st =
          subst (Writes size i 1 n s (λ h. NameIn size h.name) t)
            (sym (header_name-err size i n s t c p))
            (Writes-err size i 1 n s (λ h. NameIn size h.name) t 0 c sc)
      after (ok (v, b)) p sc st = elim (Bool-cases (v.len == 0)) [
        | inl empty ↦
            subst (Writes size i 1 n s (λ h. NameIn size h.name) t)
              (sym (header_name-empty size i n s t v b p lt (ground arith)))
              (Writes-update size i 1 n s (λ h. NameIn size h.name) t _ (err malformed) tt tt)
        | inr full ↦
            subst (Writes size i 1 n s (λ h. NameIn size h.name) t)
              (sym (header_name-ok size i n s t v b p lt (ground arith)))
              (Writes-update size i 1 n s (λ h. NameIn size h.name) t _ _ (behind_colon v b sc st)
                (named_slot v _ (ground arith) (omega arith)))
      ]

  pub header_continuation-Writes :
      Writes size i 0 n s (λ h. NameIn size h.name) t (header_continuation i n s t)
  header_continuation-Writes = subst (Writes size i 0 n s (λ h. NameIn size h.name) t) (sym same) (
      Writes-update size i 0 n s (λ h. NameIn size h.name) t (λ h. record h { name = none })
        (ok (cursor n s)) (omega arith)
        (At-update i _ (λ h. NameIn size h.name) t.slots lt (λ h. tt)))
    where
      same :
          header_continuation i n s t
          ≡ (ok (cursor n s), written i (λ h. record h { name = none }) t)
      same = unfold header_continuation store in ground arith

Moves-weaken : (n : ℕ) (s : Bytes) (r : Res Cursor) → Moves 1 n s r → Moves 0 n s r
Moves-weaken n s (ok b) h = omega arith
Moves-weaken n s (err partial) h = tt
Moves-weaken n s (err malformed) h = tt
Moves-weaken n s (err fault) h = h
Moves-weaken n s (err stuck) h = h

pub Writes-weaken :
    (size i n : ℕ) (s : Bytes) (P : Header → Type 0) (t : HeaderTable)
    (end : Res Cursor × HeaderTable)
    → Writes size i 1 n s P t end
    → Writes size i 0 n s P t end
Writes-weaken size i n s P t end w = record {
  moves = Moves-weaken n s end.0 w.moves;
  same_count = w.same_count;
  same_length = w.same_length;
  below = w.below;
  at_slot = w.at_slot;
}

pub Moves-raise : (n : ℕ) (s : Bytes) (c : Code) → Moves 0 n s (err c) → Moves 1 n s (err c)
Moves-raise n s partial h = tt
Moves-raise n s malformed h = tt
Moves-raise n s fault h = h
Moves-raise n s stuck h = h
