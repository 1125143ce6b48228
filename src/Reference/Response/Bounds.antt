-- ===== src/Reference/Response/Bounds.antt =====
-- What parse_response and phr_parse_response of reference/picohttpparser.c read and write,
-- and what their outputs hold.
use mathlib.Core.Path.{subst}
use picohttpparser_rs.Base.{
  ℕ, zero, suc, ◌+◌, ◌-◌, ◌%◌, ◌^◌, ◌≤◌, ◌<◌, ◌≡◌, refl, [], ◌∷◌, List, some, arith, length, Res,
  ok, err, malformed, fault, ◌==◌, if◌then◌else◌, ltb, pos, ℤ, Bool-cases, inl, inr,
}
use picohttpparser_rs.Reference.Chars.{Bytes, Cursor, Slice, is_digit}
use picohttpparser_rs.Reference.Ensures.{
  Fine, value, wants_more, refused, Ensures, returns, stops_partial, stops_malformed, ByteAt,
  Ensures-lift, Ensures-then, Within, Token, Fine-of_Moves, Fine-of_Scans, Fine-mono,
}
use picohttpparser_rs.Reference.Headers.Bounds.{parse_headers-Leaves, gate-Fine}
use picohttpparser_rs.Reference.Headers.Value.{Leaves}
use picohttpparser_rs.Reference.Headers.Table.{IsTable}
use picohttpparser_rs.Reference.Headers.{parse_headers}
use picohttpparser_rs.Reference.Output.{Header, HeaderTable, ResponseOut}
use picohttpparser_rs.Reference.Request.Bounds.{OptionIn, skip_spaces-Fine, version_at}
use picohttpparser_rs.Reference.Response.{
  version_space, parse_int_3, parse_status, strip_loop, strip_message, parse_response,
  cleared_response, phr_parse_response,
}
use picohttpparser_rs.Reference.Scan.Bounds.{get_token_to_eol-Scans, parse_http_version-Versions}
use picohttpparser_rs.Reference.Scan.Breaks.{BreaksAt, LineBreaks, get_token_to_eol-LineBreaks}
use picohttpparser_rs.Reference.Scan.{get_token_to_eol, parse_int}

version_space-Fine :
    (size : ℕ) (b : Cursor)
    → b.at + length b.rest ≡ size
    → ByteAt b
    → Fine (λ b'. Within size b.at b' × ByteAt b') (version_space b)
unfolding version_space
version_space-Fine size b e byte = at_byte b.rest refl
  where
    at_byte :
        (s : Bytes)
        → b.rest ≡ s
        → Fine
            (λ b'. Within size b.at b' × ByteAt b')
            (elim s [ [] ↦ err fault | c ∷ _ ↦ if c == b' ' then ok b else err malformed ])
    at_byte [] p = absurd (ground arith)
    at_byte (c ∷ s) p = elim (Bool-cases (c == b' ')) [
      | inl sp ↦ rw sp (value (record { ahead = omega arith; in_buffer = e }, byte))
      | inr other ↦ rw other refused
    ]

-- A slice that begins at `start` or behind it, and ends where `start + len` is.
abbrev Shortens : ℕ → ℕ → Slice → Type 0
Shortens start len v = v.start + v.len ≡ start + len

-- The loop stops at the byte that breaks the line, so that the length does not wrap.
strip_loop-Fine :
    (start len : ℕ) (s : Bytes)
    → len < 2 ^ 64
    → BreaksAt len s
    → Fine (Shortens start len) (strip_loop start len s)
unfolding strip_loop
strip_loop-Fine start len [] lt h = absurd h
strip_loop-Fine start zero (c ∷ s) lt h = rw h (value refl)
strip_loop-Fine start (suc k) (c ∷ s) lt h = elim (Bool-cases (c == b' ')) [
  | inl sp ↦
      let wrap : (suc k + 2 ^ 64 - 1) % 2 ^ 64 ≡ k = omega arith in
      rw (sp, wrap)
        (Fine-mono (strip_loop-Fine (start + 1) k s (omega arith) h) (λ v e. omega arith))
  | inr other ↦ rw other (value refl)
]

strip_message-Fine :
    (v : Slice) (s : Bytes)
    → v.len < 2 ^ 64
    → BreaksAt v.len s
    → Fine (Shortens v.start v.len) (strip_message s v)
unfolding strip_message
strip_message-Fine v [] lt h = absurd h
strip_message-Fine v (c ∷ s) lt h = elim (Bool-cases (v.len == 0)) [
  | inl empty ↦ rw empty (value refl)
  | inr full ↦ elim (Bool-cases (c == b' ')) [
    | inl sp ↦ rw (full, sp) (rw sp at (strip_loop-Fine v.start v.len (c ∷ s) lt h))
    | inr other ↦ rw (full, other) refused
  ]
]

pub record IsResponse (size max_headers : ℕ) (o : ResponseOut) : Type 0 where
  pub msg_in : OptionIn size o.msg
  pub table_in : IsTable size max_headers o.table

-- A digit takes a byte.
parse_int_at :
    (size mul n : ℕ) (s : Bytes)
    → n + length s ≡ size
    → 0 < length s
    → Fine
        (λ x. (x.1.at + length x.1.rest ≡ size) × (length x.1.rest + 1 ≡ length s))
        (parse_int mul n s)
unfolding parse_int
parse_int_at size mul n [] e byte = absurd (omega arith)
parse_int_at size mul n (c ∷ s) e byte = elim (Bool-cases (is_digit c)) [
  | inl digit ↦ rw digit (value (omega arith, omega arith))
  | inr other ↦ rw other refused
]

module _ (size max_headers : ℕ) where
  parse_int_3-Ensures :
      (n : ℕ) (s : Bytes) (o : ResponseOut)
      → n + length s ≡ size
      → 3 ≤ length s
      → IsResponse size max_headers o
      → Ensures (λ b. b.at + length b.rest ≡ size) (IsResponse size max_headers) (parse_int_3 n s o)
  unfolding parse_int_3
  parse_int_3-Ensures n s o e le h =
      let keep = λ (k : ℤ).
        let h' : IsResponse size max_headers (record o { status = k }) = record {
          msg_in = h.msg_in;
          table_in = h.table_in;
        } in
        h' in
      Ensures-lift _ (parse_int_at size 100 n s e (omega arith)) h λ x1 w1.
        Ensures-lift _ (parse_int_at size 10 x1.1.at x1.1.rest w1.0 (omega arith)) (keep _) λ x2 w2.
          Ensures-lift _ (parse_int_at size 1 x2.1.at x2.1.rest w2.0 (omega arith)) (keep _)
            λ x3 w3. returns w3.0 (keep _)

  parse_status-Ensures :
      (n : ℕ) (s : Bytes) (o : ResponseOut)
      → n + length s ≡ size
      → IsResponse size max_headers o
      → Ensures
          (λ b. b.at + length b.rest ≡ size)
          (IsResponse size max_headers)
          (parse_status n s o)
  unfolding parse_status
  parse_status-Ensures n s o e h = elim (Bool-cases (ltb (length s) 4)) [
    | inl short ↦ rw short (stops_partial h)
    | inr long ↦ rw long (parse_int_3-Ensures n s o e (ground arith) h)
  ]

  -- The message is a slice of the buffer, and stays one when the space before it is taken off.
  message_at :
      (n : ℕ) (s : Bytes)
      → n + length s ≡ size
      → size < 2 ^ 64
      → Fine
          (λ x. Token size n x × Fine (λ v. v.start + v.len ≤ size) (strip_message s x.0))
          (get_token_to_eol n s)
  message_at n s e lt =
      after (get_token_to_eol n s) (Fine-of_Scans size n s e 1 _ (get_token_to_eol-Scans n s))
        (get_token_to_eol-LineBreaks n s)
    where
      after :
          (r : Res (Slice × Cursor))
          → Fine (Token size n) r
          → LineBreaks n n s r
          → Fine (λ x. Token size n x × Fine (λ v. v.start + v.len ≤ size) (strip_message s x.0)) r
      after (ok x) (value w) (k, p, breaks) =
          let same : k ≡ x.0.len = omega arith in
          value (
            w,
            Fine-mono
                (strip_message-Fine x.0 s (omega (arith, w))
                  (subst (λ j. BreaksAt j s) same breaks))
                (λ v q. omega (arith, w)),
          )
      after (err c) wants_more p = wants_more
      after (err c) refused p = refused

  headers_end :
      (n : ℕ) (s : Bytes) (o : ResponseOut) (end : Res Cursor × HeaderTable)
      → n + length s ≡ size
      → IsResponse size max_headers o
      → Leaves size max_headers 1 n s end
      → Ensures (Within size 0) (IsResponse size max_headers) (end.0, record o { table = end.1 })
  headers_end n s o (r, t) e h l = after r (Fine-of_Moves size n s e 1 r l.moves)
    where
      o' : ResponseOut
      o' = record o { table = t }

      h' : IsResponse size max_headers o'
      h' = record { msg_in = h.msg_in; table_in = l.table }

      after :
          (r : Res Cursor)
          → Fine (Within size (n + 1)) r
          → Ensures (Within size 0) (IsResponse size max_headers) (r, o')
      after (ok b) (value w) = returns (record { ahead = omega arith; in_buffer = w.in_buffer }) h'
      after (err c) wants_more = stops_partial h'
      after (err c) refused = stops_malformed h'

  parse_response-Ensures :
      (n : ℕ) (s : Bytes) (o : ResponseOut)
      → n + length s ≡ size
      → size < 2 ^ 64
      → IsResponse size max_headers o
      → Ensures (Within size 0) (IsResponse size max_headers) (parse_response max_headers n s o)
  unfolding parse_response
  parse_response-Ensures n s o e lt h =
      Ensures-lift _ (version_at size max_headers n s _ e (parse_http_version-Versions n s)) h
        λ x1 w1.
          let o1 = record o { minor_version = pos x1.0 } in
          let h1 : IsResponse size max_headers o1 = record {
            msg_in = h.msg_in;
            table_in = h.table_in;
          } in
          Ensures-lift _ (version_space-Fine size x1.1 w1.0.in_buffer w1.1) h1 λ b2 w2.
            Ensures-lift _ (skip_spaces-Fine size max_headers b2 w2.0.in_buffer w2.1) h1 λ b3 w3.
              Ensures-then _ (parse_status-Ensures b3.at b3.rest o1 w3.0.in_buffer h1)
                λ b4 o4 e4 h4. Ensures-lift _ (message_at b4.at b4.rest e4 lt) h4 λ x5 w5.
                  let o5 = record o4 { msg = some x5.0 } in
                  let h5 : IsResponse size max_headers o5 = record {
                    msg_in = omega (arith, w5.0);
                    table_in = h4.table_in;
                  } in
                  Ensures-lift _ w5.1 h5 λ v within.
                    let o6 = record o5 { msg = some v } in
                    let h6 : IsResponse size max_headers o6 = record {
                      msg_in = within;
                      table_in = h4.table_in;
                    } in
                    headers_end x5.1.at x5.1.rest o6
                      (parse_headers max_headers x5.1.at x5.1.rest o6.table) w5.0.in_buffer h6
                      (parse_headers-Leaves size max_headers x5.1.at x5.1.rest o6.table
                        w5.0.in_buffer h6.table_in)

-- phr_parse_response on any bytes, fewer than 2^64, with room for `max_headers` headers and a
-- `last_len` that is at most three more than the buffer's length: it returns a cursor inside of the
-- buffer, -2 or -1. It reads no byte outside of the buffer, also when it takes the spaces off the
-- message, whose length does not wrap, and writes no header outside of the array. In each case the
-- message and the headers below `*num_headers` (at most `max_headers`) are slices of the buffer, and
-- no header has an empty name.
pub phr_parse_response-Ensures :
    (s : Bytes) (headers : List Header) (max_headers last_len : ℕ)
    → length s < 2 ^ 64
    → max_headers ≤ length headers
    → last_len ≤ length s + 3
    → Ensures
        (Within (length s) 0)
        (IsResponse (length s) max_headers)
        (phr_parse_response s headers max_headers last_len)
unfolding phr_parse_response
phr_parse_response-Ensures s headers max_headers last_len lt room le =
    let h : IsResponse (length s) max_headers (cleared_response headers) = record {
      msg_in = tt;
      table_in = record { count_le = omega arith; has_room = room; filled = tt };
    } in
    Ensures-lift _ (gate-Fine s last_len le) h λ u w.
      parse_response-Ensures (length s) max_headers 0 s (cleared_response headers) (omega arith) lt
        h
