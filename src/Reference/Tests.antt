-- ===== src/Reference/Tests.antt =====
-- Runs of the parsers of reference/picohttpparser.c on inputs of reference/test.c.
use picohttpparser_rs.Base.{
  err, partial, [], arith, ℕ, ◌>>=◌, length, ◌++◌, ◌≡◌, refl, ◌∷◌, List, none, some, ok, pos, codes,
  replicate,
}
use picohttpparser_rs.Reference.Headers.{gate, parse_headers}
use picohttpparser_rs.Reference.Chars.{
  Cursor, cursor, slice, is_printable_ascii, is_ctl, is_token_char, expect_char,
}
use picohttpparser_rs.Reference.Agrees.{AgreesOn, Longer}
use picohttpparser_rs.Reference.Ensures.{Ensures, Within}
use picohttpparser_rs.Reference.Headers.Bounds.{phr_parse_headers-Ensures}
use picohttpparser_rs.Reference.Headers.Extend.{phr_parse_headers-AgreesOn}
use picohttpparser_rs.Reference.Headers.Table.{IsTable}
use picohttpparser_rs.Reference.Headers.{phr_parse_headers}
use picohttpparser_rs.Reference.Request.Bounds.{IsRequest, phr_parse_request-Ensures}
use picohttpparser_rs.Reference.Request.Extend.{phr_parse_request-AgreesOn}
use picohttpparser_rs.Reference.Response.Bounds.{IsResponse, phr_parse_response-Ensures}
use picohttpparser_rs.Reference.Response.Extend.{phr_parse_response-AgreesOn}
use picohttpparser_rs.Reference.Response.{phr_parse_response}
use picohttpparser_rs.Reference.Scan.Hot.{get_token_to_eol-eol_loop}
use picohttpparser_rs.Reference.Scan.{eol_loop, found_ctl}
use picohttpparser_rs.Reference.Output.{Header, store}
use picohttpparser_rs.Reference.Request.{phr_parse_request}
use picohttpparser_rs.Reference.Scan.{
  is_complete, get_token_to_eol, parse_token, parse_http_version, advance_token,
}

abbrev empty_slots : List Header
empty_slots = replicate 4 (record { name = none; value = none })

simple_request :
    phr_parse_request (codes "GET / HTTP/1.0\r\nHost: a b  \r\n\r\nxyz") empty_slots 4 0 ≡ (
      ok (cursor 31 (codes "xyz")),
      record {
        method = some (slice 0 3);
        path = some (slice 4 1);
        minor_version = pos 0;
        table = record {
          slots =
              record { name = some (slice 16 4); value = some (slice 22 3) }
              ∷ replicate 3 (record { name = none; value = none });
          num_headers = 1;
        };
      },
    )
unfolding phr_parse_request parse_token get_token_to_eol advance_token parse_http_version gate
    parse_headers store is_printable_ascii is_ctl is_token_char expect_char
simple_request = refl

abbrev two_headers : List ℕ
two_headers = codes "Host: a\r\n b\r\n\r\n"

abbrev request : List ℕ
request = codes "GET /x HTTP/1.1\r\nA: 1\n\r\n"

abbrev response : List ℕ
response = codes "HTTP/1.1 200  OK\r\nA: 1\n\r\n"

phr_parse_headers-Ensures_example :
    Ensures
      (Within (length two_headers) 1)
      (IsTable (length two_headers) 4)
      (phr_parse_headers two_headers empty_slots 4 9)
phr_parse_headers-Ensures_example =
    phr_parse_headers-Ensures two_headers empty_slots 4 9 (omega arith) (omega arith)

phr_parse_request-Ensures_example :
    Ensures
      (Within (length request) 0)
      (IsRequest (length request) 4)
      (phr_parse_request request empty_slots 4 20)
phr_parse_request-Ensures_example =
    phr_parse_request-Ensures request empty_slots 4 20 (omega arith) (omega arith)

phr_parse_response-Ensures_example :
    Ensures
      (Within (length response) 0)
      (IsResponse (length response) 4)
      (phr_parse_response response empty_slots 4 20)
phr_parse_response-Ensures_example =
    phr_parse_response-Ensures response empty_slots 4 20 (omega arith) (omega arith) (omega arith)

phr_parse_headers-AgreesOn_example :
    AgreesOn
      (Longer (codes "rest"))
      (phr_parse_headers two_headers empty_slots 4 0)
      (phr_parse_headers (two_headers ++ codes "rest") empty_slots 4 0)
phr_parse_headers-AgreesOn_example =
    phr_parse_headers-AgreesOn (codes "rest") two_headers empty_slots 4 0

phr_parse_request-AgreesOn_example :
    AgreesOn
      (Longer (codes "rest"))
      (phr_parse_request request empty_slots 4 3)
      (phr_parse_request (request ++ codes "rest") empty_slots 4 3)
phr_parse_request-AgreesOn_example =
    phr_parse_request-AgreesOn (codes "rest") request empty_slots 4 3

phr_parse_response-AgreesOn_example :
    AgreesOn
      (Longer (codes "rest"))
      (phr_parse_response response empty_slots 4 3)
      (phr_parse_response (response ++ codes "rest") empty_slots 4 3)
phr_parse_response-AgreesOn_example =
    phr_parse_response-AgreesOn (codes "rest") response empty_slots 4 3

get_token_to_eol-eol_loop_example :
    get_token_to_eol 5 (codes "text/plain; q=1\r\nA")
    ≡ (eol_loop 5 (codes "text/plain; q=1\r\nA") >>= λ (ctl : Cursor). found_ctl 5 ctl.at ctl.rest)
get_token_to_eol-eol_loop_example = get_token_to_eol-eol_loop 5 (codes "text/plain; q=1\r\nA")

-- An empty header block, read at once and read again behind its first byte.
empty_block :
    phr_parse_headers (codes "\r\n") empty_slots 4 0
    ≡ (ok (cursor 2 []), record { slots = empty_slots; num_headers = 0 })
unfolding phr_parse_headers gate parse_headers expect_char
empty_block = refl

empty_block_again :
    phr_parse_headers (codes "\r\n") empty_slots 4 1
    ≡ (err partial, record { slots = empty_slots; num_headers = 0 })
unfolding phr_parse_headers gate parse_headers is_complete
empty_block_again = refl
