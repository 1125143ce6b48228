-- ===== src/Reference/Headers/Bounds.antt =====
-- What parse_headers and phr_parse_headers of reference/picohttpparser.c read and write,
-- and what their outputs hold.
use picohttpparser_rs.Base.{
  ℕ, zero, suc, ◌+◌, ◌≤◌, ◌<◌, ◌≡◌, refl, [], ◌∷◌, List, arith, length, Res, ok, err, Bool-cases,
  inl, inr, ◌==◌,
}
use picohttpparser_rs.Reference.Chars.{Bytes, Cursor, cursor}
use picohttpparser_rs.Reference.Ensures.{
  Fine, value, wants_more, refused, Ensures, returns, stops_partial, stops_malformed, Ensures-lift,
  Within, Fine-of_Moves,
}
use picohttpparser_rs.Reference.Headers.Slot.{Moves-trans}
use picohttpparser_rs.Reference.Headers.Steps.{header_loop-cr, header_loop-lf, header_loop-line}
use picohttpparser_rs.Reference.Headers.Table.{IsTable}
use picohttpparser_rs.Reference.Headers.{header_loop, parse_headers, phr_parse_headers, gate}
use picohttpparser_rs.Reference.Output.{Header, HeaderTable, and_then}
use picohttpparser_rs.Reference.Scan.Bounds.{expect_char-Moves, is_complete-Moves}
use picohttpparser_rs.Reference.Scan.{is_complete}
use picohttpparser_rs.Reference.Headers.Value.{Leaves}
use picohttpparser_rs.Reference.Headers.Line.{header_line-Leaves}

-- Where the loop goes on, it goes on from a well-formed table with fewer bytes left.
after_line :
    (size max_headers fuel n c : ℕ) (s : Bytes)
    → n + length (c ∷ s) ≡ size
    → length s < fuel
    → ((m : ℕ) (r : Bytes) (t : HeaderTable)
        → m + length r ≡ size
        → length r < fuel
        → IsTable size max_headers t
        → Leaves size max_headers 1 m r (header_loop fuel max_headers m r t))
    → (end : Res Cursor × HeaderTable) → Leaves size max_headers 1 n (c ∷ s) end
    → Leaves size max_headers 1 n
        (c ∷ s)
        (and_then end (λ buf. header_loop fuel max_headers buf.at buf.rest))
after_line size max_headers fuel n c s e lt ih (ok b, t) l =
    let rest = ih b.at b.rest t (omega (arith, l.moves)) (omega (arith, l.moves)) l.table in
    record {
      moves =
          Moves-trans 1 1 1 n (c ∷ s) b _ (omega (arith, l.moves)) (omega (arith, l.moves))
            rest.moves (omega arith);
      table = rest.table;
    }
after_line size max_headers fuel n c s e lt ih (err code, t) l = l

-- The loop, with a table that may hold headers already.
header_loop-Leaves :
    (size max_headers fuel n : ℕ) (s : Bytes) (t : HeaderTable)
    → n + length s ≡ size
    → length s < fuel
    → IsTable size max_headers t
    → Leaves size max_headers 1 n s (header_loop fuel max_headers n s t)
header_loop-Leaves size max_headers zero n s t e lt table = absurd (omega arith)
header_loop-Leaves size max_headers (suc fuel) n [] t e lt table =
    unfold header_loop in record { moves = tt; table = table }
header_loop-Leaves size max_headers (suc fuel) n (c ∷ s) t e lt table =
    elim (Bool-cases (c == b'\r')) [
      | inl cr ↦ rw (header_loop-cr fuel max_headers n c s t cr) (record {
        moves =
            Moves-trans 1 1 1 n (c ∷ s) (cursor (n + 1) s) _ (omega arith) (omega arith)
              (expect_char-Moves b'\n' (n + 1) s) (omega arith);
        table = table;
      })
      | inr ncr ↦ elim (Bool-cases (c == b'\n')) [
        | inl lf ↦
            rw (header_loop-lf fuel max_headers n c s t lf)
              (record { moves = omega arith; table = table })
        | inr nlf ↦ rw (header_loop-line fuel max_headers n c s t ncr nlf) (
            after_line size max_headers fuel n c s e (omega arith)
              (λ m r t' e' lt' table'.
                header_loop-Leaves size max_headers fuel m r t' e' lt' table')
              _ (header_line-Leaves size max_headers n c s t e table))
      ]
    ]

-- parse_headers on a table that is well formed: no read outside of the buffer, no write outside of
-- the array, the fuel is enough, and the table is well formed again, also where the block is refused.
pub parse_headers-Leaves :
    (size max_headers n : ℕ) (s : Bytes) (t : HeaderTable)
    → n + length s ≡ size
    → IsTable size max_headers t
    → Leaves size max_headers 1 n s (parse_headers max_headers n s t)
unfolding parse_headers
parse_headers-Leaves size max_headers n s t e table =
    header_loop-Leaves size max_headers (length s + 1) n s t e (omega arith) table

pub gate-Fine :
    (s : Bytes) (last_len : ℕ) → last_len ≤ length s + 3 → Fine (λ u. Unit {0}) (gate s last_len)
unfolding gate
gate-Fine s last_len le = elim (Bool-cases (last_len == 0)) [
  | inl first ↦ rw first (value tt)
  | inr again ↦ rw again (
      scanned (is_complete s last_len)
        (Fine-of_Moves (length s) 0 s (omega arith) 0 _ (is_complete-Moves s last_len le)))
]
  where
    scanned :
        (r : Res Cursor)
        → Fine (Within (length s) (0 + 0)) r
        → Fine {A = Unit {0}} (λ u. Unit {0}) (elim r [ ok _ ↦ ok tt | err e ↦ err e ])
    scanned (ok b) h = value tt
    scanned (err c) wants_more = wants_more
    scanned (err c) refused = refused

parse_headers-Ensures :
    (size max_headers : ℕ) (s : Bytes) (end : Res Cursor × HeaderTable)
    → length s ≡ size
    → Leaves size max_headers 1 0 s end
    → Ensures (Within size 1) (IsTable size max_headers) end
parse_headers-Ensures size max_headers s (r, t) e l =
    after r (Fine-of_Moves size 0 s (omega arith) 1 r l.moves)
  where
    after :
        (r : Res Cursor)
        → Fine (Within size (0 + 1)) r
        → Ensures (Within size 1) (IsTable size max_headers) (r, t)
    after (ok b) (value w) = returns w l.table
    after (err c) wants_more = stops_partial l.table
    after (err c) refused = stops_malformed l.table

-- phr_parse_headers on any bytes, with room for `max_headers` headers and a `last_len` that is at
-- most three more than the buffer's length: it returns a cursor inside of the buffer, -2 or -1. It
-- reads no byte outside of the buffer and writes no header outside of the array. In each case
-- `*num_headers` is at most `max_headers`, and the headers below it hold slices of the buffer with no
-- empty name.
pub phr_parse_headers-Ensures :
    (s : Bytes) (headers : List Header) (max_headers last_len : ℕ)
    → max_headers ≤ length headers
    → last_len ≤ length s + 3
    → Ensures
        (Within (length s) 1)
        (IsTable (length s) max_headers)
        (phr_parse_headers s headers max_headers last_len)
unfolding phr_parse_headers
phr_parse_headers-Ensures s headers max_headers last_len room le =
    let start : HeaderTable = record { slots = headers; num_headers = 0 } in
    let h : IsTable (length s) max_headers start = record {
      count_le = omega arith;
      has_room = room;
      filled = tt;
    } in
    Ensures-lift _ (gate-Fine s last_len le) h λ u w.
      parse_headers-Ensures (length s) max_headers s _ refl
        (parse_headers-Leaves (length s) max_headers 0 s start (omega arith) h)
