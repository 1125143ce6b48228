-- ===== src/Reference/Response/Resume.antt =====
-- phr_parse_response of reference/picohttpparser.c with a `last_len`, on a buffer that holds a whole
-- response.
use picohttpparser_rs.Base.{
  ℕ, ◌<◌, ◌≤◌, ◌^◌, ◌≡◌, refl, sym, ap, ◌∙◌, [], ◌∷◌, ◌++◌, List, some, Res, ok, err, malformed,
  fault, partial, arith, length, ltb, ◌==◌, Bool-cases, inl, inr, if◌then◌else◌,
}
use picohttpparser_rs.Reference.Ate.{
  Ate, AteBlock, When, Upon, Ate-trans, AteLine-after, Upon-lift, Upon-then, Upon-part, When-any,
}
use picohttpparser_rs.Reference.Chars.{Bytes, Cursor}
use picohttpparser_rs.Reference.Headers.Ate.{parse_headers-AteBlock, gate-open_at}
use picohttpparser_rs.Reference.Headers.{gate}
use picohttpparser_rs.Reference.Output.{Header, ResponseOut, and_then}
use picohttpparser_rs.Reference.Request.Resume.{skip_spaces-Ate}
use picohttpparser_rs.Reference.Response.Bounds.{phr_parse_response-Ensures}
use picohttpparser_rs.Reference.Response.{
  version_space, parse_int_3, parse_status, strip_message, parse_response, cleared_response,
  phr_parse_response,
}
use picohttpparser_rs.Base.Lists.{length-append}
use picohttpparser_rs.Reference.Response.Extend.{phr_parse_response-AgreesOn}
use picohttpparser_rs.Reference.Waits.{at_end, waits}
use picohttpparser_rs.Reference.Scan.Ate.{
  Starts, get_token_to_eol-AteLine, parse_int-Ate, parse_http_version-Ate,
}
use mathlib.Core.Path.{subst}

version_space-Starts :
    (b : Cursor) → When (λ b'. (b'.rest ≡ b.rest) × Starts b' ' b'.rest) (version_space b)
unfolding version_space
version_space-Starts b = at_byte b.rest refl
  where
    at_byte :
        (s : Bytes)
        → b.rest ≡ s
        → When
            (λ b'. (b'.rest ≡ b.rest) × Starts b' ' b'.rest)
            (elim s as (λ k. Res Cursor) [
              | [] ↦ err fault
              | c ∷ _ ↦ if c == b' ' then ok b else err malformed
            ])
    at_byte [] e = When.fails
    at_byte (c ∷ s) e = elim (Bool-cases (c == b' ')) [
      | inl space ↦ rw space (When.passes (refl, subst (Starts b' ') (sym e) space))
      | inr other ↦ rw other When.fails
    ]

parse_status-Ate :
    (n : ℕ) (s : Bytes) (o : ResponseOut) → Upon (λ b. Ate s b.rest) (parse_status n s o)
unfolding parse_status parse_int_3
parse_status-Ate n s o = elim (Bool-cases (ltb (length s) 4)) [
  | inl short ↦ rw short Upon.fails
  | inr enough ↦ rw enough (
      Upon-lift _ (parse_int-Ate 100 n s) λ d1 h1.
        Upon-lift _ (parse_int-Ate 10 d1.1.at d1.1.rest) λ d2 h2.
          Upon-lift _ (parse_int-Ate 1 d2.1.at d2.1.rest)
            λ d3 h3. Upon.passes (Ate-trans h1 (Ate-trans h2 h3)))
]

parse_response-AteBlock :
    (max_headers n : ℕ) (s : Bytes) (o : ResponseOut)
    → Upon (λ b. AteBlock s b.rest) (parse_response max_headers n s o)
unfolding parse_response
parse_response-AteBlock max_headers n s o = Upon-lift _ (parse_http_version-Ate n s) λ v h1.
    Upon-lift _ (version_space-Starts v.1) λ b2 h2. Upon-lift _ (skip_spaces-Ate b2 h2.1) λ b3 h3.
      Upon-then _ (parse_status-Ate b3.at b3.rest _) λ b4 t h4.
        Upon-lift _ (get_token_to_eol-AteLine b4.at b4.rest) λ m h5.
          Upon-lift _ (When-any (strip_message b4.rest m.0)) λ text w.
            let version : Ate s b2.rest = subst (Ate s) (sym h2.0) h1 in
            Upon-part
              (λ tb. record {
                minor_version = t.minor_version;
                status = t.status;
                msg = some text;
                table = tb;
              })
              (parse_headers-AteBlock s max_headers m.1.at m.1.rest t.table
                (AteLine-after (Ate-trans version (Ate-trans h3 h4)) h5))

pub accepted-AteBlock :
    (s : Bytes) (headers : List Header) (max_headers : ℕ)
    → Upon (λ b. AteBlock s b.rest) (phr_parse_response s headers max_headers 0)
unfolding phr_parse_response gate
accepted-AteBlock s headers max_headers =
    parse_response-AteBlock max_headers 0 s (cleared_response headers)

phr_parse_response-open :
    (s : Bytes) (headers : List Header) (max_headers last_len : ℕ)
    → gate s last_len ≡ ok tt
    → phr_parse_response s headers max_headers last_len ≡ phr_parse_response s headers max_headers 0
unfolding phr_parse_response gate
phr_parse_response-open s headers max_headers last_len e =
    ap (λ g. and_then (g, cleared_response headers) (λ u. parse_response max_headers 0 s)) e

-- Where phr_parse_response accepts a buffer without `last_len` and reads more than `last_len` bytes of
-- it, the call with `last_len` returns the same, with the same outputs: the check for a whole response
-- refuses no response that the parser accepts. There is room for `max_headers` headers, and the buffer
-- has fewer than 2^64 bytes.
pub phr_parse_response-last_len :
    (s : Bytes) (headers : List Header) (max_headers last_len : ℕ) (b : Cursor)
    → length s < 2 ^ 64
    → max_headers ≤ length headers
    → (phr_parse_response s headers max_headers 0).0 ≡ ok b
    → last_len < b.at
    → phr_parse_response s headers max_headers last_len ≡ phr_parse_response s headers max_headers 0
phr_parse_response-last_len s headers max_headers last_len b size room e lt =
    phr_parse_response-open s headers max_headers last_len (
      gate-open_at last_len
        (phr_parse_response-Ensures s headers max_headers 0 size room (omega arith))
        (accepted-AteBlock s headers max_headers) b e lt)

-- Where phr_parse_response accepts a buffer to its last byte without `last_len`, it returns -2 for every
-- buffer that is cut off before, with every `last_len` up to the bytes that are left: it does not refuse
-- a response that is still arriving, and it takes no part of it for the whole. There is room for
-- `max_headers` headers, and the buffer has fewer than 2^64 bytes.
pub phr_parse_response-waits :
    (s more : Bytes) (headers : List Header) (max_headers last_len : ℕ) (b : Cursor)
    → length (s ++ more) < 2 ^ 64
    → max_headers ≤ length headers
    → last_len ≤ length s
    → 0 < length more
    → (phr_parse_response (s ++ more) headers max_headers 0).0 ≡ ok b
    → b.rest ≡ []
    → (phr_parse_response s headers max_headers last_len).0 ≡ err partial
phr_parse_response-waits s more headers max_headers last_len b size room le some_more e end =
    let w = phr_parse_response-Ensures (s ++ more) headers max_headers 0 size room (omega arith) in
    let whole = at_end w b e end in
    let less : length s < 2 ^ 64 = omega (arith, length-append s more, size) in
    waits more (phr_parse_response-AgreesOn more s headers max_headers last_len)
      (phr_parse_response-Ensures s headers max_headers last_len less room (omega arith)) b
      (ap (λ x. x.0)
          (phr_parse_response-last_len (s ++ more) headers max_headers last_len b size room e
            (omega (arith, whole, length-append s more)))
        ∙ e)
      end some_more
