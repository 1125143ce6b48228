-- ===== src/Reference/Scan/Complete.antt =====
-- is_complete of reference/picohttpparser.c on a buffer with two line ends in a row.
use picohttpparser_rs.Base.{
  ℕ, zero, suc, ◌+◌, ◌-◌, ◌<◌, ◌≤◌, ◌≡◌, refl, [], ◌∷◌, true, false, Res, ok, err, arith, length,
  drop, ltb, ◌==◌, Bool-cases, inl, inr,
}
use picohttpparser_rs.Reference.Ate.{
  lf_not_cr, Ate, stay, byte, crlf, LineEnd, at_lf, at_crlf, AteLine, AteBlock,
}
use picohttpparser_rs.Reference.Chars.{Bytes, Cursor}
use picohttpparser_rs.Reference.Scan.{complete_loop, is_complete}

abbrev pub IsOk : Res Cursor → Type 0
IsOk (ok b) = Unit {0}
IsOk (err e) = ⊥

-- A line that ends behind the cut.
AteLine-drop :
    {s m t : Bytes} (j : ℕ) → Ate s m → LineEnd m t → j + length t < length s → AteLine (drop j s) t
AteLine-drop zero h e lt = record { from = _; before = h; end = e }
AteLine-drop (suc j) stay (at_lf h) lt = absurd (omega arith)
AteLine-drop (suc zero) stay (at_crlf c d) lt = record { from = _; before = stay; end = at_lf d }
AteLine-drop (suc (suc j)) stay (at_crlf c d) lt = absurd (omega arith)
AteLine-drop (suc j) (byte n h) e lt = AteLine-drop j h e (omega arith)
AteLine-drop (suc zero) (crlf {d = d} c l h) e lt = record {
  from = _;
  before = byte (lf_not_cr d l) h;
  end = e;
}
AteLine-drop (suc (suc j)) (crlf c d h) e lt = AteLine-drop j h e (omega arith)

-- At a line end: the second one in a row, or one more to come.
lf_step :
    (cnt n c : ℕ) (s : Bytes)
    → cnt < 2
    → (c == b'\n') ≡ true
    → IsOk (complete_loop 1 (n + 1) s)
    → IsOk (complete_loop cnt n (c ∷ s))
unfolding complete_loop
lf_step cnt n c [] lt h k = absurd k
lf_step zero n c (d ∷ s) lt h k = rw (lf_not_cr c h, h) k
lf_step (suc zero) n c (d ∷ s) lt h k = rw (lf_not_cr c h, h) tt
lf_step (suc (suc cnt)) n c (d ∷ s) lt h k = absurd (omega arith)

crlf_step :
    (cnt n c d : ℕ) (s : Bytes)
    → cnt < 2
    → (c == b'\r') ≡ true
    → (d == b'\n') ≡ true
    → IsOk (complete_loop 1 (n + 2) s)
    → IsOk (complete_loop cnt n (c ∷ d ∷ s))
unfolding complete_loop
crlf_step zero n c d s lt cr lf k = rw (cr, lf) k
crlf_step (suc zero) n c d s lt cr lf k = rw (cr, lf) tt
crlf_step (suc (suc cnt)) n c d s lt cr lf k = absurd (omega arith)

other_step :
    (cnt n c : ℕ) (s : Bytes)
    → (c == b'\r') ≡ false
    → (c == b'\n') ≡ false
    → IsOk (complete_loop 0 (n + 1) s)
    → IsOk (complete_loop cnt n (c ∷ s))
unfolding complete_loop
other_step cnt n c [] ncr nlf k = absurd k
other_step cnt n c (d ∷ s) ncr nlf k = rw (ncr, nlf) k

complete_loop-last :
    {t u : Bytes} (cnt n : ℕ) → LineEnd t u → cnt ≡ 1 → IsOk (complete_loop cnt n t)
unfolding complete_loop
complete_loop-last cnt n (at_lf {c} {s} h) e = last_lf s
  where
    last_lf : (s : Bytes) → IsOk (complete_loop cnt n (c ∷ s))
    last_lf [] = rw (lf_not_cr c h, h, e) tt
    last_lf (d ∷ s) = rw (lf_not_cr c h, h, e) tt
complete_loop-last cnt n (at_crlf c d) e = rw (c, d, e) tt

complete_loop-IsOk :
    {s m t u : Bytes} (cnt n : ℕ)
    → cnt < 2
    → Ate s m
    → LineEnd m t
    → LineEnd t u
    → IsOk (complete_loop cnt n s)
complete_loop-IsOk cnt n lt stay (at_lf {c} {s} h) e =
    lf_step cnt n c s lt h (complete_loop-last 1 (n + 1) e refl)
complete_loop-IsOk cnt n lt stay (at_crlf {c} {d} {s} h k) e =
    crlf_step cnt n c d s lt h k (complete_loop-last 1 (n + 2) e refl)
complete_loop-IsOk cnt n lt (byte {c} {s} h a) l e = elim (Bool-cases (c == b'\n')) [
  | inl lf ↦ lf_step cnt n c s lt lf (complete_loop-IsOk 1 (n + 1) (omega arith) a l e)
  | inr nlf ↦ other_step cnt n c s h nlf (complete_loop-IsOk 0 (n + 1) (omega arith) a l e)
]
complete_loop-IsOk cnt n lt (crlf {c} {d} {s} h k a) l e =
    crlf_step cnt n c d s lt h k (complete_loop-IsOk 1 (n + 2) (omega arith) a l e)

Ate-length : {s t : Bytes} → Ate s t → length t ≤ length s
Ate-length stay = omega arith
Ate-length (byte n h) = omega (arith, Ate-length h)
Ate-length (crlf c d h) = omega (arith, Ate-length h)

LineEnd-length : {s t : Bytes} → LineEnd s t → (length t < length s) × (length s ≤ length t + 2)
LineEnd-length (at_lf h) = omega arith
LineEnd-length (at_crlf c d) = omega arith

-- The scan finds the two line ends from any offset that the code may start at.
pub is_complete-IsOk :
    {s u : Bytes} (last_len : ℕ)
    → AteBlock s u
    → last_len + length u < length s
    → IsOk (is_complete s last_len)
unfolding is_complete
is_complete-IsOk {s} {u} last_len h lt =
    let l = AteLine-drop (last_len - 3) h.before.before h.before.end (
      omega
        (arith, Ate-length h.before.before, LineEnd-length h.before.end, LineEnd-length h.end)) in
    elim (Bool-cases (ltb (length s) (last_len - 3))) [
      | inl out ↦ absurd (ground arith)
      | inr inside ↦
          rw inside (complete_loop-IsOk 0 (last_len - 3) (omega arith) l.before l.end h.end)
    ]
