-- ===== src/Reference/Request/Bounds.antt =====
-- What parse_request and phr_parse_request of reference/picohttpparser.c read and write,
-- and what their outputs hold.
use picohttpparser_rs.Base.{
  ℕ, ◌+◌, ◌≤◌, ◌<◌, ◌≡◌, [], ◌∷◌, List, none, some, pos, Option, arith, length, drop, Res, ok, err,
  partial, malformed, fault, stuck, ◌==◌, ◌||◌,
}
use picohttpparser_rs.Base.Lists.{length-drop}
use picohttpparser_rs.Reference.Chars.{Bytes, Cursor, Slice}
use picohttpparser_rs.Reference.Ensures.{
  Fine, value, wants_more, refused, Ensures, returns, stops_partial, stops_malformed, ByteAt,
  Ensures-lift, Within, Token, Fine-of_Moves, Fine-of_Scans, Fine-Stops, Fine-StopsAt, Fine-test,
}
use picohttpparser_rs.Reference.Headers.Bounds.{parse_headers-Leaves, gate-Fine}
use picohttpparser_rs.Reference.Headers.Value.{Leaves}
use picohttpparser_rs.Reference.Headers.Table.{SliceIn, IsTable}
use picohttpparser_rs.Reference.Headers.{parse_headers}
use picohttpparser_rs.Reference.Output.{HeaderTable, Header, RequestOut}
use picohttpparser_rs.Reference.Request.{
  space_loop, skip_spaces, skip_empty_line, line_end, parse_request, cleared_request,
  phr_parse_request,
}
use picohttpparser_rs.Reference.Scan.Bounds.{
  Moves, Scans, Stops, StopsAt, expect_char-Moves, parse_token-Scans, parse_token-StopsAt,
  advance_token-Scans, advance_token-StopsAt, Versions, parse_http_version-Versions,
}
use picohttpparser_rs.Reference.Scan.{parse_token, advance_token}

space_loop-Moves : (n : ℕ) (s : Bytes) → Moves 0 n s (space_loop n s) × Stops (space_loop n s)
unfolding space_loop
space_loop-Moves n [] = (tt, tt)
space_loop-Moves n (c ∷ s) = ground (arith, space_loop-Moves (n + 1) s)

skip_empty_line-Moves : (n : ℕ) (s : Bytes) → Moves 0 n s (skip_empty_line n s)
unfolding skip_empty_line
skip_empty_line-Moves n [] = tt
skip_empty_line-Moves n (c ∷ s) = ground (arith, expect_char-Moves b'\n' (n + 1) s)

line_end-Moves : (n : ℕ) (s : Bytes) → 0 < length s → Moves 1 n s (line_end n s)
unfolding line_end
line_end-Moves n [] h = absurd (omega arith)
line_end-Moves n (c ∷ s) h = ground (arith, expect_char-Moves b'\n' (n + 1) s)

abbrev pub OptionIn : ℕ → Option Slice → Type 0
OptionIn size none = Unit
OptionIn size (some v) = SliceIn size v

pub record IsRequest (size max_headers : ℕ) (o : RequestOut) : Type 0 where
  pub method_in : OptionIn size o.method
  pub path_in : OptionIn size o.path
  pub table_in : IsTable size max_headers o.table

module _ (size max_headers : ℕ) where
  -- From a cursor with a byte to read, over the spaces behind that byte.
  pub skip_spaces-Fine :
      (b : Cursor)
      → b.at + length b.rest ≡ size
      → 0 < length b.rest
      → Fine (λ b'. Within size (b.at + 1 + 0) b' × ByteAt b') (skip_spaces b)
  unfolding skip_spaces
  skip_spaces-Fine b w byte =
      let e : b.at + 1 + length (drop 1 b.rest) ≡ size = omega (arith, length-drop 1 b.rest) in
      let h = space_loop-Moves (b.at + 1) (drop 1 b.rest) in
      Fine-Stops (Fine-of_Moves size (b.at + 1) (drop 1 b.rest) e 0 _ h.0) h.1

  -- A token that stops at a byte to read.
  Token-at :
      (n : ℕ) (s : Bytes) (r : Res (Slice × Cursor))
      → n + length s ≡ size
      → Scans 0 n s r
      → StopsAt r
      → Fine (λ x. Token size n x × ByteAt x.1) r
  Token-at n s r e h st = Fine-StopsAt (Fine-of_Scans size n s e 0 r h) st

  pub parse_token_at :
      (ch : ℕ) (b : Cursor)
      → b.at + length b.rest ≡ size
      → Fine (λ x. Token size b.at x × ByteAt x.1) (parse_token ch b.at b.rest)
  parse_token_at ch b e =
      Token-at b.at b.rest _ e (parse_token-Scans ch b.at b.rest)
        (parse_token-StopsAt ch b.at b.rest)

  advance_token_at :
      (b : Cursor)
      → b.at + length b.rest ≡ size
      → Fine (λ x. Token size b.at x × ByteAt x.1) (advance_token b.at b.rest)
  advance_token_at b e =
      Token-at b.at b.rest _ e (advance_token-Scans b.at b.rest) (advance_token-StopsAt b.at b.rest)

  -- The version leaves a byte to read.
  pub version_at :
      (n : ℕ) (s : Bytes) (r : Res (ℕ × Cursor))
      → n + length s ≡ size
      → Versions n s r
      → Fine (λ x. Within size (n + 8) x.1 × ByteAt x.1) r
  version_at n s (ok x) e h = value (record { ahead = omega arith; in_buffer = omega arith }, h.2)
  version_at n s (err partial) e h = wants_more
  version_at n s (err malformed) e h = refused
  version_at n s (err fault) e h = absurd h
  version_at n s (err stuck) e h = absurd h

  pub headers_end :
      (n : ℕ) (s : Bytes) (o : RequestOut) (end : Res Cursor × HeaderTable)
      → n + length s ≡ size
      → IsRequest size max_headers o
      → Leaves size max_headers 1 n s end
      → Ensures (Within size 0) (IsRequest size max_headers) (end.0, record o { table = end.1 })
  headers_end n s o (r, t) e h l = after r (Fine-of_Moves size n s e 1 r l.moves)
    where
      o' : RequestOut
      o' = record o { table = t }

      h' : IsRequest size max_headers o'
      h' = record { method_in = h.method_in; path_in = h.path_in; table_in = l.table }

      after :
          (r : Res Cursor)
          → Fine (Within size (n + 1)) r
          → Ensures (Within size 0) (IsRequest size max_headers) (r, o')
      after (ok b) (value w) = returns (record { ahead = omega arith; in_buffer = w.in_buffer }) h'
      after (err c) wants_more = stops_partial h'
      after (err c) refused = stops_malformed h'

  parse_request-Ensures :
      (n : ℕ) (s : Bytes) (o : RequestOut)
      → n + length s ≡ size
      → IsRequest size max_headers o
      → Ensures (Within size 0) (IsRequest size max_headers) (parse_request max_headers n s o)
  unfolding parse_request
  parse_request-Ensures n s o e h =
      Ensures-lift _ (Fine-of_Moves size n s e 0 _ (skip_empty_line-Moves n s)) h λ b0 w0.
        Ensures-lift _ (parse_token_at b' ' b0 w0.in_buffer) h λ x1 w1.
          let o1 = record o { method = some x1.0 } in
          let h1 : IsRequest size max_headers o1 = record {
            method_in = omega (arith, w1);
            path_in = h.path_in;
            table_in = h.table_in;
          } in
          Ensures-lift _ (skip_spaces-Fine x1.1 w1.0.in_buffer w1.1) h1 λ b2 w2.
            Ensures-lift _ (advance_token_at b2 w2.0.in_buffer) h1 λ x3 w3.
              let o3 = record o1 { path = some x3.0 } in
              let h3 : IsRequest size max_headers o3 = record {
                method_in = h1.method_in;
                path_in = omega (arith, w3);
                table_in = h.table_in;
              } in
              Ensures-lift _ (skip_spaces-Fine x3.1 w3.0.in_buffer w3.1) h3 λ b4 w4.
                Ensures-lift _ (Fine-test (x1.0.len == 0 || x3.0.len == 0)) h3 λ u w5.
                  Ensures-lift _
                    (version_at b4.at b4.rest _ w4.0.in_buffer
                      (parse_http_version-Versions b4.at b4.rest))
                    h3
                    λ x6 w6.
                      let o6 = record o3 { minor_version = pos x6.0 } in
                      let h6 : IsRequest size max_headers o6 = record {
                        method_in = h3.method_in;
                        path_in = h3.path_in;
                        table_in = h.table_in;
                      } in
                      Ensures-lift _
                        (Fine-of_Moves size x6.1.at x6.1.rest w6.0.in_buffer 1 _
                          (line_end-Moves x6.1.at x6.1.rest w6.1))
                        h6
                        λ b7 w7.
                          headers_end b7.at b7.rest o6
                            (parse_headers max_headers b7.at b7.rest o6.table) w7.in_buffer h6
                            (parse_headers-Leaves size max_headers b7.at b7.rest o6.table
                              w7.in_buffer h6.table_in)

-- phr_parse_request on any bytes, with room for `max_headers` headers and a `last_len` that is at
-- most three more than the buffer's length: it returns a cursor inside of the buffer, -2 or -1. It
-- reads no byte outside of the buffer and writes no header outside of the array. In each case the
-- method, the path and the headers below `*num_headers` (at most `max_headers`) are slices of the
-- buffer, and no header has an empty name.
pub phr_parse_request-Ensures :
    (s : Bytes) (headers : List Header) (max_headers last_len : ℕ)
    → max_headers ≤ length headers
    → last_len ≤ length s + 3
    → Ensures
        (Within (length s) 0)
        (IsRequest (length s) max_headers)
        (phr_parse_request s headers max_headers last_len)
unfolding phr_parse_request
phr_parse_request-Ensures s headers max_headers last_len room le =
    let h : IsRequest (length s) max_headers (cleared_request headers) = record {
      method_in = tt;
      path_in = tt;
      table_in = record { count_le = omega arith; has_room = room; filled = tt };
    } in
    Ensures-lift _ (gate-Fine s last_len le) h λ u w.
      parse_request-Ensures (length s) max_headers 0 s (cleared_request headers) (omega arith) h
