-- ===== src/Reference/ResumeTests.antt =====
-- The theorems on `last_len` at an input.
use picohttpparser_rs.Base.{
  ◌≡◌, refl, [], ◌++◌, List, none, ok, err, partial, arith, codes, replicate,
}
use picohttpparser_rs.Reference.Chars.{
  Bytes, cursor, is_token_char, is_printable_ascii, is_ctl, expect_char,
}
use picohttpparser_rs.Reference.Headers.{gate, parse_headers}
use picohttpparser_rs.Reference.Scan.{
  parse_token, advance_token, parse_http_version, get_token_to_eol,
}
use picohttpparser_rs.Reference.Output.{Header, store}
use picohttpparser_rs.Reference.Request.Resume.{phr_parse_request-last_len, phr_parse_request-waits}
use picohttpparser_rs.Reference.Request.{phr_parse_request, skip_spaces}
use picohttpparser_rs.Reference.Response.Resume.{
  phr_parse_response-last_len, phr_parse_response-waits,
}
use picohttpparser_rs.Reference.Response.{phr_parse_response}

abbrev slots : List Header
slots = replicate 2 (record { name = none; value = none })

abbrev request : Bytes
request = codes "GET / HTTP/1.1\r\nA: b\r\n\r\nrest"

abbrev response : Bytes
response = codes "HTTP/1.1 200 OK\r\nA: b\r\n\r\nrest"

request_accepted : (phr_parse_request request slots 2 0).0 ≡ ok (cursor 24 (codes "rest"))
unfolding phr_parse_request gate parse_token is_token_char advance_token is_printable_ascii
    parse_http_version expect_char parse_headers store get_token_to_eol is_ctl
request_accepted = refl

response_accepted : (phr_parse_response response slots 2 0).0 ≡ ok (cursor 25 (codes "rest"))
unfolding phr_parse_response gate parse_http_version skip_spaces get_token_to_eol is_printable_ascii
    is_ctl parse_headers parse_token is_token_char store
response_accepted = refl

phr_parse_request-last_len_example :
    phr_parse_request request slots 2 23 ≡ phr_parse_request request slots 2 0
phr_parse_request-last_len_example =
    phr_parse_request-last_len request slots 2 23 (cursor 24 (codes "rest")) (omega arith)
      request_accepted (omega arith)

phr_parse_response-last_len_example :
    phr_parse_response response slots 2 21 ≡ phr_parse_response response slots 2 0
phr_parse_response-last_len_example =
    phr_parse_response-last_len response slots 2 21 (cursor 25 (codes "rest")) (omega arith)
      (omega arith) response_accepted (omega arith)

abbrev head : Bytes
head = codes "GET / HTTP/1.1\r\nA: b\r"

whole_accepted : (phr_parse_request (head ++ codes "\n\r\n") slots 2 0).0 ≡ ok (cursor 24 [])
unfolding phr_parse_request gate parse_token is_token_char advance_token is_printable_ascii
    parse_http_version expect_char parse_headers store get_token_to_eol is_ctl
whole_accepted = refl

phr_parse_request-waits_example : (phr_parse_request head slots 2 9).0 ≡ err partial
phr_parse_request-waits_example =
    phr_parse_request-waits head (codes "\n\r\n") slots 2 9 (cursor 24 []) (omega arith)
      (omega arith) (omega arith) whole_accepted refl

abbrev status_line : Bytes
status_line = codes "HTTP/1.1 200 OK\r\nA: b"

answer_accepted :
    (phr_parse_response (status_line ++ codes "\r\n\r\n") slots 2 0).0 ≡ ok (cursor 25 [])
unfolding phr_parse_response gate parse_http_version skip_spaces get_token_to_eol is_printable_ascii
    is_ctl parse_headers parse_token is_token_char store
answer_accepted = refl

phr_parse_response-waits_example : (phr_parse_response status_line slots 2 16).0 ≡ err partial
phr_parse_response-waits_example =
    phr_parse_response-waits status_line (codes "\r\n\r\n") slots 2 16 (cursor 25 []) (omega arith)
      (omega arith) (omega arith) (omega arith) answer_accepted refl
