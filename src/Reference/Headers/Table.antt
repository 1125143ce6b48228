-- ===== src/Reference/Headers/Table.antt =====
-- Header tables whose filled slots hold slices of the buffer.
use picohttpparser_rs.Base.{
  ℕ, zero, suc, ◌+◌, ◌≤◌, ◌<◌, ◌≡◌, refl, ap, [], ◌∷◌, List, none, some, Option, arith, length,
}
use picohttpparser_rs.Reference.Chars.{Slice}
use picohttpparser_rs.Reference.Output.{Header, HeaderTable, update}

-- The slice lies in the first `size` bytes.
abbrev pub SliceIn : ℕ → Slice → Type 0
SliceIn size v = v.start + v.len ≤ size

-- The name is NULL, or a slice that is not empty.
abbrev pub NameIn : ℕ → Option Slice → Type 0
NameIn size none = Unit
NameIn size (some v) = (0 < v.len) × SliceIn size v

abbrev pub ValueIn : ℕ → Option Slice → Type 0
ValueIn size none = ⊥
ValueIn size (some v) = SliceIn size v

abbrev pub HeaderIn : ℕ → Header → Type 0
HeaderIn size h = NameIn size h.name × ValueIn size h.value

abbrev pub FirstIn : ℕ → ℕ → List Header → Type 0
FirstIn size zero hs = Unit
FirstIn size (suc k) [] = ⊥
FirstIn size (suc k) (h ∷ hs) = HeaderIn size h × FirstIn size k hs

-- There is a slot `i`, and it has the property.
abbrev pub At : ℕ → (Header → Type 0) → List Header → Type 0
At i P [] = ⊥
At zero P (h ∷ hs) = P h
At (suc i) P (h ∷ hs) = At i P hs

-- `*num_headers` is at most the capacity, and the slots below it hold slices of the buffer.
pub record IsTable (size max_headers : ℕ) (t : HeaderTable) : Type 0 where
  pub count_le : t.num_headers ≤ max_headers
  pub has_room : max_headers ≤ length t.slots
  pub filled : FirstIn size t.num_headers t.slots

pub length-update :
    (i : ℕ) (f : Header → Header) (hs : List Header) → length (update i f hs) ≡ length hs
length-update i f [] = refl
length-update zero f (h ∷ hs) = refl
length-update (suc i) f (h ∷ hs) = ap suc (length-update i f hs)

-- A write at `i` leaves the slots below alone.
pub FirstIn-update :
    (size k i : ℕ) (f : Header → Header) (hs : List Header)
    → k ≤ i
    → FirstIn size k hs
    → FirstIn size k (update i f hs)
FirstIn-update size zero i f hs le h = tt
FirstIn-update size (suc k) i f [] le h = h
FirstIn-update size (suc k) zero f (x ∷ hs) le h = absurd (omega arith)
FirstIn-update size (suc k) (suc i) f (x ∷ hs) le h =
    (h.0, FirstIn-update size k i f hs (omega arith) h.1)

pub FirstIn-suc :
    (size k : ℕ) (hs : List Header)
    → FirstIn size k hs
    → At k (HeaderIn size) hs
    → FirstIn size (suc k) hs
FirstIn-suc size zero [] h a = a
FirstIn-suc size zero (x ∷ hs) h a = (a, tt)
FirstIn-suc size (suc k) [] h a = a
FirstIn-suc size (suc k) (x ∷ hs) h a = (h.0, FirstIn-suc size k hs h.1 a)

pub At-update :
    (i : ℕ) (f : Header → Header) (P : Header → Type 0) (hs : List Header)
    → i < length hs
    → ((h : Header) → P (f h))
    → At i P (update i f hs)
At-update i f P [] lt p = elim lt [ ]
At-update zero f P (h ∷ hs) lt p = p h
At-update (suc i) f P (h ∷ hs) lt p = At-update i f P hs (omega arith) p

pub At-update_of :
    (i : ℕ) (f : Header → Header) (Q P : Header → Type 0) (hs : List Header)
    → At i Q hs
    → ((h : Header) → Q h → P (f h))
    → At i P (update i f hs)
At-update_of i f Q P [] a p = a
At-update_of zero f Q P (h ∷ hs) a p = p h a
At-update_of (suc i) f Q P (h ∷ hs) a p = At-update_of i f Q P hs a p
