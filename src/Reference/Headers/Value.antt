-- ===== src/Reference/Headers/Value.antt =====
-- What the second half of a round of parse_headers leaves: the value in its slot.
use mathlib.Core.Path.{subst}
use picohttpparser_rs.Base.{
  ℕ, suc, ◌+◌, ◌≤◌, ◌<◌, ◌≡◌, refl, sym, some, arith, length, Res, Code, ok, err,
}
use picohttpparser_rs.Reference.Chars.{Bytes, Cursor, Slice, slice}
use picohttpparser_rs.Reference.Headers.Slot.{Moves-of_err, trim_loop-le}
use picohttpparser_rs.Reference.Headers.Table.{
  NameIn, HeaderIn, FirstIn, At, IsTable, length-update, FirstIn-update, FirstIn-suc, At-update_of,
}
use picohttpparser_rs.Reference.Headers.{trim_loop, header_value}
use picohttpparser_rs.Reference.Output.{Header, HeaderTable, update, store}
use picohttpparser_rs.Reference.Scan.Bounds.{Moves, Scans, get_token_to_eol-Scans}
use picohttpparser_rs.Reference.Scan.{get_token_to_eol}

-- The result moves on in the buffer, and the table is well formed.
pub record Leaves (size max_headers least n : ℕ) (s : Bytes) (end : Res Cursor × HeaderTable)
    : Type 0 where
  pub moves : Moves least n s end.0
  pub table : IsTable size max_headers end.1

abbrev pub with_value : Bytes → Slice → Header → Header
with_value s v h = record h { value = some (slice v.start (trim_loop s v.len)) }

abbrev filled_table : ℕ → Bytes → Slice → HeaderTable → HeaderTable
filled_table i s v t = record {
  slots = update i (with_value s v) t.slots;
  num_headers = t.num_headers + 1;
}

module _ (size max_headers i n : ℕ) (s : Bytes) (t : HeaderTable) where
  header_value-err : (c : Code) → get_token_to_eol n s ≡ err c → header_value i n s t ≡ (err c, t)
  unfolding header_value
  header_value-err c p = rw p

  header_value-ok :
      (v : Slice) (b : Cursor)
      → get_token_to_eol n s ≡ ok (v, b)
      → i < length t.slots
      → header_value i n s t ≡ (ok b, filled_table i s v t)
  unfolding header_value store
  header_value-ok v b p lt = ground arith

  module _ (e : n + length s ≡ size) (count : t.num_headers ≡ i) (lt : i < max_headers)
      (room : max_headers ≤ length t.slots) (below : FirstIn size i t.slots)
      (name : At i (λ h. NameIn size h.name) t.slots) where
    filled_slot :
        (v : Slice) (b : Cursor)
        → Scans 1 n s (ok (v, b))
        → FirstIn size (t.num_headers + 1) (update i (with_value s v) t.slots)
    filled_slot v b sc =
        let next : suc i ≡ t.num_headers + 1 = omega arith in
        subst (λ k. FirstIn size k (update i (with_value s v) t.slots)) next
          (FirstIn-suc size i _ (FirstIn-update size i i _ t.slots (omega arith) below) (
            At-update_of i (with_value s v) (λ h. NameIn size h.name) (HeaderIn size) t.slots name
              (λ h nm. (nm, omega (arith, trim_loop-le s v.len)))))

    pub header_value-Leaves : Leaves size max_headers 1 n s (header_value i n s t)
    header_value-Leaves = after (get_token_to_eol n s) refl (get_token_to_eol-Scans n s)
      where
        after :
            (r : Res (Slice × Cursor))
            → get_token_to_eol n s ≡ r
            → Scans 1 n s r
            → Leaves size max_headers 1 n s (header_value i n s t)
        after (err c) p sc =
            subst (Leaves size max_headers 1 n s) (sym (header_value-err c p)) (record {
              moves = Moves-of_err 1 1 n s c sc;
              table = record {
                count_le = omega arith;
                has_room = room;
                filled = subst (λ k. FirstIn size k t.slots) (sym count) below;
              };
            })
        after (ok (v, b)) p sc =
            subst (Leaves size max_headers 1 n s) (sym (header_value-ok v b p (omega arith)))
              (record {
                moves = omega arith;
                table = record {
                  count_le = omega arith;
                  has_room = omega (arith, length-update i (with_value s v) t.slots);
                  filled = filled_slot v b sc;
                };
              })
