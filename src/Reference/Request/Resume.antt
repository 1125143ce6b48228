-- ===== src/Reference/Request/Resume.antt =====
-- phr_parse_request of reference/picohttpparser.c with a `last_len`, on a buffer that holds a whole
-- request.
use picohttpparser_rs.Base.{
  ℕ, ◌+◌, ◌<◌, ◌≤◌, ◌≡◌, refl, ◌∙◌, ap, [], ◌∷◌, ◌++◌, List, some, ◌||◌, pos, ok, err, partial,
  malformed, arith, length, drop, ◌==◌, Bool-cases, inl, inr, if◌then◌else◌,
}
use picohttpparser_rs.Reference.Ate.{
  Ate, stay, byte, AteLine, AteBlock, at_lf, When, Upon, Ate-trans, AteLine-after, Upon-lift,
  Upon-part, When-any, When-mono, Ate-LineEnd,
}
use picohttpparser_rs.Reference.Chars.{Bytes, Cursor}
use picohttpparser_rs.Reference.Headers.Ate.{advance-Ate, parse_headers-AteBlock, gate-open_at}
use picohttpparser_rs.Reference.Headers.{gate}
use picohttpparser_rs.Reference.Output.{Header, RequestOut, and_then}
use picohttpparser_rs.Reference.Request.Bounds.{phr_parse_request-Ensures}
use picohttpparser_rs.Reference.Request.{
  space_loop, skip_spaces, skip_empty_line, line_end, parse_request, cleared_request,
  phr_parse_request,
}
use picohttpparser_rs.Base.Lists.{length-append}
use picohttpparser_rs.Reference.Request.Extend.{phr_parse_request-AgreesOn}
use picohttpparser_rs.Reference.Waits.{at_end, waits}
use picohttpparser_rs.Reference.Scan.Ate.{
  Starts, parse_token-StopsOn, advance_token-StopsOn, expect_lf-LineEnd, parse_http_version-Ate,
}

space_loop-Ate : (n : ℕ) (s : Bytes) → When (λ b. Ate s b.rest) (space_loop n s)
unfolding space_loop
space_loop-Ate n [] = When.fails
space_loop-Ate n (c ∷ s) = elim (Bool-cases (c == b' ')) [
  | inl space ↦ rw space (When-mono (space_loop-Ate (n + 1) s) λ b h. byte (ground arith) h)
  | inr text ↦ rw text (When.passes stay)
]

-- From a space on.
pub skip_spaces-Ate :
    (b : Cursor) → Starts b' ' b.rest → When (λ b'. Ate b.rest b'.rest) (skip_spaces b)
unfolding skip_spaces
skip_spaces-Ate b h =
    When-mono (space_loop-Ate (b.at + 1) (drop 1 b.rest))
      λ b' k. Ate-trans (advance-Ate b' ' 0 b.rest refl h) k

skip_empty_line-Ate : (n : ℕ) (s : Bytes) → When (λ b. Ate s b.rest) (skip_empty_line n s)
unfolding skip_empty_line
skip_empty_line-Ate n [] = When.fails
skip_empty_line-Ate n (c ∷ s) = elim (Bool-cases (c == b'\r')) [
  | inl cr ↦ rw cr (When-mono (expect_lf-LineEnd c (n + 1) s cr) λ b h. Ate-LineEnd h)
  | inr ncr ↦ elim (Bool-cases (c == b'\n')) [
    | inl lf ↦ rw (ncr, lf) (When.passes (byte ncr stay))
    | inr text ↦ rw (ncr, text) (When.passes stay)
  ]
]

line_end-AteLine : (n : ℕ) (s : Bytes) → When (λ b. AteLine s b.rest) (line_end n s)
unfolding line_end
line_end-AteLine n [] = When.fails
line_end-AteLine n (c ∷ s) = elim (Bool-cases (c == b'\r')) [
  | inl cr ↦ rw cr (
      When-mono (expect_lf-LineEnd c (n + 1) s cr)
        λ b h. record { from = _; before = stay; end = h })
  | inr ncr ↦ elim (Bool-cases (c == b'\n')) [
    | inl lf ↦ rw (ncr, lf) (When.passes (record { from = _; before = stay; end = at_lf lf }))
    | inr text ↦ rw (ncr, text) When.fails
  ]
]

parse_request-AteBlock :
    (max_headers n : ℕ) (s : Bytes) (o : RequestOut)
    → Upon (λ b. AteBlock s b.rest) (parse_request max_headers n s o)
unfolding parse_request
parse_request-AteBlock max_headers n s o = Upon-lift _ (skip_empty_line-Ate n s) λ b0 h0.
    Upon-lift _ (parse_token-StopsOn b' ' b0.at b0.rest) λ m h1.
      Upon-lift _ (skip_spaces-Ate m.1 h1.1) λ b2 h2.
        Upon-lift _ (advance_token-StopsOn b2.at b2.rest) λ p h3.
          Upon-lift _ (skip_spaces-Ate p.1 h3.1) λ b4 h4.
            Upon-lift _ (When-any (if m.0.len == 0 || p.0.len == 0 then err malformed else ok tt))
              λ u w. Upon-lift _ (parse_http_version-Ate b4.at b4.rest) λ v h5.
                Upon-lift _ (line_end-AteLine v.1.at v.1.rest) λ b6 h6.
                  let text =
                    Ate-trans h0
                      (Ate-trans h1.0 (Ate-trans h2 (Ate-trans h3.0 (Ate-trans h4 h5)))) in
                  Upon-part
                    (λ tb. record {
                      method = some m.0;
                      path = some p.0;
                      minor_version = pos v.0;
                      table = tb;
                    })
                    (parse_headers-AteBlock s max_headers b6.at b6.rest o.table
                      (AteLine-after text h6))

-- A whole request is in the buffer where the parser accepts it.
pub accepted-AteBlock :
    (s : Bytes) (headers : List Header) (max_headers : ℕ)
    → Upon (λ b. AteBlock s b.rest) (phr_parse_request s headers max_headers 0)
unfolding phr_parse_request gate
accepted-AteBlock s headers max_headers =
    parse_request-AteBlock max_headers 0 s (cleared_request headers)

-- An open gate changes nothing.
phr_parse_request-open :
    (s : Bytes) (headers : List Header) (max_headers last_len : ℕ)
    → gate s last_len ≡ ok tt
    → phr_parse_request s headers max_headers last_len ≡ phr_parse_request s headers max_headers 0
unfolding phr_parse_request gate
phr_parse_request-open s headers max_headers last_len e =
    ap (λ g. and_then (g, cleared_request headers) (λ u. parse_request max_headers 0 s)) e

-- Where phr_parse_request accepts a buffer without `last_len` and reads more than `last_len` bytes of
-- it, the call with `last_len` returns the same, with the same outputs: the check for a whole request
-- refuses no request that the parser accepts. There is room for `max_headers` headers.
pub phr_parse_request-last_len :
    (s : Bytes) (headers : List Header) (max_headers last_len : ℕ) (b : Cursor)
    → max_headers ≤ length headers
    → (phr_parse_request s headers max_headers 0).0 ≡ ok b
    → last_len < b.at
    → phr_parse_request s headers max_headers last_len ≡ phr_parse_request s headers max_headers 0
phr_parse_request-last_len s headers max_headers last_len b room e lt =
    phr_parse_request-open s headers max_headers last_len (
      gate-open_at last_len (phr_parse_request-Ensures s headers max_headers 0 room (omega arith))
        (accepted-AteBlock s headers max_headers) b e lt)

-- Where phr_parse_request accepts a buffer to its last byte without `last_len`, it returns -2 for every
-- buffer that is cut off before, with every `last_len` up to the bytes that are left: it does not refuse
-- a request that is still arriving, and it takes no part of it for the whole. There is room for
-- `max_headers` headers.
pub phr_parse_request-waits :
    (s more : Bytes) (headers : List Header) (max_headers last_len : ℕ) (b : Cursor)
    → max_headers ≤ length headers
    → last_len ≤ length s
    → 0 < length more
    → (phr_parse_request (s ++ more) headers max_headers 0).0 ≡ ok b
    → b.rest ≡ []
    → (phr_parse_request s headers max_headers last_len).0 ≡ err partial
phr_parse_request-waits s more headers max_headers last_len b room le some_more e end =
    let w = phr_parse_request-Ensures (s ++ more) headers max_headers 0 room (omega arith) in
    let whole = at_end w b e end in
    waits more (phr_parse_request-AgreesOn more s headers max_headers last_len)
      (phr_parse_request-Ensures s headers max_headers last_len room (omega arith)) b
      (ap (λ x. x.0)
          (phr_parse_request-last_len (s ++ more) headers max_headers last_len b room e
            (omega (arith, whole, length-append s more)))
        ∙ e)
      end some_more
