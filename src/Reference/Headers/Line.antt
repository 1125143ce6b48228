-- ===== src/Reference/Headers/Line.antt =====
-- What a round of parse_headers leaves.
use mathlib.Core.Path.{subst}
use picohttpparser_rs.Base.{
  ℕ, ◌+◌, ◌<◌, ◌≡◌, sym, ◌∷◌, arith, length, Res, ok, err, malformed, Bool-cases, inl, inr, ◌==◌,
  if◌then◌else◌, not, ◌&&◌, ◌≢◌,
}
use picohttpparser_rs.Reference.Chars.{Bytes, Cursor, is_blank}
use picohttpparser_rs.Reference.Headers.Slot.{
  Writes, Moves-raise, Moves-trans, Writes-weaken, header_name-Writes, header_continuation-Writes,
}
use picohttpparser_rs.Reference.Headers.Table.{NameIn, FirstIn, IsTable}
use picohttpparser_rs.Reference.Headers.{
  header_name, header_continuation, header_value, header_line,
}
use picohttpparser_rs.Reference.Output.{HeaderTable, M, and_then}
use picohttpparser_rs.Reference.Headers.Value.{Leaves, header_value-Leaves}

-- A round's first half: the name, or its absence on a continuation line.
abbrev pub name_part : ℕ → ℕ → ℕ → Bytes → M HeaderTable Cursor
name_part i n c s =
    if not (not (i == 0) && is_blank c)
    then header_name i n (c ∷ s)
    else header_continuation i n (c ∷ s)

module _ (size max_headers n c : ℕ) (s : Bytes) (t : HeaderTable) where
  pub header_line_full :
      t.num_headers ≡ max_headers → header_line max_headers n c s t ≡ (err malformed, t)
  unfolding header_line
  header_line_full e = ground arith

  pub header_line_part :
      t.num_headers ≢ max_headers
      → header_line max_headers n c s t
        ≡ and_then
            (name_part t.num_headers n c s t)
            (λ buf. header_value t.num_headers buf.at buf.rest)
  unfolding header_line
  header_line_part ne = ground arith

  module _ (e : n + length (c ∷ s) ≡ size) (table : IsTable size max_headers t) where
    name_part-Writes :
        t.num_headers < max_headers
        → Writes size t.num_headers 0 n
            (c ∷ s)
            (λ h. NameIn size h.name)
            t
            (name_part t.num_headers n c s t)
    name_part-Writes lt =
        let i = t.num_headers in
        elim (Bool-cases (not (not (i == 0) && is_blank c))) [
          | inl named ↦ rw named (
              Writes-weaken size i n (c ∷ s) _ t _
                (header_name-Writes size i n (c ∷ s) t e (omega (arith, table))))
          | inr folded ↦
              rw folded (header_continuation-Writes size i n (c ∷ s) t e (omega (arith, table)))
        ]

    -- The second half goes on from where the first ends.
    after_part :
        t.num_headers < max_headers
        → (end : Res Cursor × HeaderTable)
        → Writes size t.num_headers 0 n (c ∷ s) (λ h. NameIn size h.name) t end
        → Leaves size max_headers 1 n
            (c ∷ s)
            (and_then end (λ buf. header_value t.num_headers buf.at buf.rest))
    after_part lt (ok b, t') w =
        let v =
          header_value-Leaves size max_headers t.num_headers b.at b.rest t' (omega (arith, w.moves))
            w.same_count lt (omega (arith, w.same_length, table)) (w.below table.filled)
            w.at_slot in
        record {
          moves =
              Moves-trans 0 1 1 n (c ∷ s) b _ (omega (arith, w.moves)) (omega (arith, w.moves))
                v.moves (omega arith);
          table = v.table;
        }
    after_part lt (err code, t') w = record {
      moves = Moves-raise n (c ∷ s) code w.moves;
      table = record {
        count_le = omega (arith, w.same_count);
        has_room = omega (arith, w.same_length, table);
        filled = subst (λ k. FirstIn size k t'.slots) (sym w.same_count) (w.below table.filled);
      };
    }

    pub header_line-Leaves : Leaves size max_headers 1 n (c ∷ s) (header_line max_headers n c s t)
    header_line-Leaves = elim (Bool-cases (t.num_headers == max_headers)) [
      | inl full ↦
          subst (Leaves size max_headers 1 n (c ∷ s)) (sym (header_line_full (ground arith)))
            (record { moves = tt; table = table })
      | inr room ↦
          subst (Leaves size max_headers 1 n (c ∷ s)) (sym (header_line_part (ground arith)))
            (after_part (ground (arith, table)) _ (name_part-Writes (ground (arith, table))))
    ]
