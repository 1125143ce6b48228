-- ===== src/Integ/Head/Laws.antt =====
-- What the loops of scripts/integ_http11.c rely on of their parsers.
use picohttpparser_rs.Base.{
  ℕ, ◌≤◌, ◌<◌, ◌^◌, ◌≡◌, [], ◌++◌, List, Res, ok, err, partial, arith, length,
}
use picohttpparser_rs.Integ.Head.{HeadParser, max_headers, request_parser, response_parser}
use picohttpparser_rs.Reference.Agrees.{AgreesOn, Longer}
use picohttpparser_rs.Reference.Chars.{Bytes, Cursor}
use picohttpparser_rs.Reference.Ensures.{Ensures, returns, stops_partial, stops_malformed, Within}
use picohttpparser_rs.Reference.Output.{Header}
use picohttpparser_rs.Reference.Request.Bounds.{phr_parse_request-Ensures}
use picohttpparser_rs.Reference.Request.Extend.{phr_parse_request-AgreesOn}
use picohttpparser_rs.Reference.Request.Resume.{phr_parse_request-last_len, phr_parse_request-waits}
use picohttpparser_rs.Reference.Response.Bounds.{phr_parse_response-Ensures}
use picohttpparser_rs.Reference.Response.Extend.{phr_parse_response-AgreesOn}
use picohttpparser_rs.Reference.Response.Resume.{
  phr_parse_response-last_len, phr_parse_response-waits,
}

-- A buffer, a header array and a `last_len` of a call.
abbrev pub CanCall : Bytes → List Header → ℕ → Type 0
CanCall s headers last_len =
    (length s < 2 ^ 64) × (max_headers ≤ length headers) × (last_len ≤ length s)

pub record HeadLaws (p : HeadParser) : Type 0 where
  -- A call has a defined result, and leaves room in the array.
  pub settles :
      (s : Bytes) (headers : List Header) (last_len : ℕ)
      → CanCall s headers last_len
      → Ensures
          (Within (length s) 0)
          (λ o. max_headers ≤ length (p.slots o))
          (p.parse s headers last_len)
  -- `last_len` does not change what is accepted behind it.
  pub resumes :
      (s : Bytes) (headers : List Header) (last_len : ℕ) (b : Cursor)
      → CanCall s headers last_len
      → (p.parse s headers 0).0 ≡ ok b
      → last_len < b.at
      → p.parse s headers last_len ≡ p.parse s headers 0
  -- A part of what is accepted is waited on.
  pub waits_on :
      (s more : Bytes) (headers : List Header) (last_len : ℕ) (b : Cursor)
      → length (s ++ more) < 2 ^ 64
      → CanCall s headers last_len
      → 0 < length more
      → (p.parse (s ++ more) headers 0).0 ≡ ok b
      → b.rest ≡ []
      → (p.parse s headers last_len).0 ≡ err partial
  -- More bytes behind what is accepted change nothing.
  pub extends :
      (more s : Bytes) (headers : List Header) (last_len : ℕ)
      → AgreesOn (Longer more) (p.parse s headers last_len) (p.parse (s ++ more) headers last_len)

Ensures-mono :
    {S A : Type 0} {P : A → Type 0} {Q Q' : S → Type 0} {e : Res A × S}
    → Ensures P Q e
    → ((o : S) → Q o → Q' o)
    → Ensures P Q' e
Ensures-mono (returns {t = t} h q) f = returns h (f t q)
Ensures-mono (stops_partial {t} q) f = stops_partial (f t q)
Ensures-mono (stops_malformed {t} q) f = stops_malformed (f t q)

pub request-HeadLaws : HeadLaws request_parser
request-HeadLaws = record {
  settles = λ s headers last_len h.
      Ensures-mono
        (phr_parse_request-Ensures s headers max_headers last_len h.1 (omega (arith, h.2)))
        (λ o q. q.table_in.has_room);
  resumes =
      λ s headers last_len b h. phr_parse_request-last_len s headers max_headers last_len b h.1;
  waits_on = λ s more headers last_len b size h.
      phr_parse_request-waits s more headers max_headers last_len b h.1 h.2;
  extends =
      λ more s headers last_len. phr_parse_request-AgreesOn more s headers max_headers last_len;
}

pub response-HeadLaws : HeadLaws response_parser
response-HeadLaws = record {
  settles = λ s headers last_len h.
      Ensures-mono
        (phr_parse_response-Ensures s headers max_headers last_len h.0 h.1 (omega (arith, h.2)))
        (λ o q. q.table_in.has_room);
  resumes = λ s headers last_len b h.
      phr_parse_response-last_len s headers max_headers last_len b h.0 h.1;
  waits_on = λ s more headers last_len b size h.
      phr_parse_response-waits s more headers max_headers last_len b size h.1 h.2;
  extends =
      λ more s headers last_len. phr_parse_response-AgreesOn more s headers max_headers last_len;
}
