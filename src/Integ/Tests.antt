-- ===== src/Integ/Tests.antt =====
-- The theorems on scripts/integ_http11.c at an input.
use picohttpparser_rs.Base.{
  ◌≡◌, refl, sym, [], ◌∷◌, ◌++◌, List, none, arith, length, take, drop, codes, replicate, some, ◌+◌,
  ◌-◌, ◌^◌,
}
use picohttpparser_rs.Base.Lists.{length-take, take-append-drop}
use picohttpparser_rs.Integ.Body.Ends.{Fits, client_body-Ends}
use picohttpparser_rs.Integ.Body.Message.{IsMessageBody, server_body-Arrives, client_body-Arrives}
use picohttpparser_rs.Integ.Body.{server_body, client_body}
use picohttpparser_rs.Reference.Chunked.Printed.{hex_value}
use picohttpparser_rs.Reference.Chunked.RoundTrip.{Message, IsMessage}
use picohttpparser_rs.Reference.Decoder.{decode_hex}
use picohttpparser_rs.Integ.Carry.Decimal.{decimal, length_loop-decimal}
use picohttpparser_rs.Integ.Carry.Skips.{GivesLength, carry-GivesLength, carry-wraps}
use picohttpparser_rs.Integ.Carry.{is_content_length, length_loop, carry}
use picohttpparser_rs.Integ.Head.Arrives.{
  Arrives, IsHead, Accepts, server_head-Arrives, client_head-Arrives,
}
use picohttpparser_rs.Integ.Head.Ends.{Ends, InBuffer, server_head-Ends}
use picohttpparser_rs.Integ.Head.{request_parser, response_parser, server_head, client_head}
use picohttpparser_rs.Integ.Socket.{Socket, Obeys, Delivers}
use picohttpparser_rs.Reference.Chars.{
  slice, Bytes, is_token_char, is_printable_ascii, is_ctl, expect_char,
}
use picohttpparser_rs.Reference.Headers.{gate, parse_headers}
use picohttpparser_rs.Reference.Output.{Header, store}
use picohttpparser_rs.Reference.Request.{phr_parse_request, skip_spaces}
use picohttpparser_rs.Reference.Response.{phr_parse_response}
use picohttpparser_rs.Reference.Scan.{
  parse_token, advance_token, parse_http_version, get_token_to_eol,
}

-- A connection whose state is the bytes on their way.
abbrev pipe : Socket
pipe = record {
  Sock = Bytes;
  recv = λ s want. (take want s, drop want s);
  send = λ s b. (length b, s ++ b);
}

pipe-Obeys : Obeys pipe
pipe-Obeys = record {
  recv_le = λ s want. omega (arith, length-take want s);
  send_le = λ s b. omega arith;
}

pipe-Delivers : Delivers pipe (λ s. s)
pipe-Delivers = record {
  in_order = λ s want. sym (take-append-drop want s);
  some_bytes = λ s want lt more. omega (arith, length-take want s);
}

abbrev slots : List Header
slots = replicate 32 (record { name = none; value = none })

abbrev request : Bytes
request = codes "GET /submit HTTP/1.1\r\n\r\n"

abbrev response : Bytes
response = codes "HTTP/1.1 200 OK\r\n\r\n"

request-Accepts : Accepts request_parser request
unfolding phr_parse_request gate parse_token is_token_char advance_token is_printable_ascii
    parse_http_version expect_char parse_headers store get_token_to_eol is_ctl
request-Accepts headers room = refl

response-Accepts : Accepts response_parser response
unfolding phr_parse_response gate parse_http_version skip_spaces get_token_to_eol is_printable_ascii
    is_ctl parse_headers parse_token is_token_char store expect_char
response-Accepts headers room = refl

server_head-Ends_example :
    Ends (InBuffer pipe request_parser) (server_head pipe (codes "GET / HTT") slots)
server_head-Ends_example = server_head-Ends pipe pipe-Obeys (codes "GET / HTT") slots (omega arith)

server_head-Arrives_example :
    Arrives
      (IsHead pipe request_parser (λ s. s) request (codes "body"))
      (server_head pipe (request ++ codes "body") slots)
server_head-Arrives_example =
    server_head-Arrives pipe pipe-Obeys (λ s. s) pipe-Delivers request (codes "body")
      (request ++ codes "body") slots refl request-Accepts (omega arith) (omega arith) (omega arith)

client_head-Arrives_example :
    Arrives
      (IsHead pipe response_parser (λ s. s) response (codes "5\r\n"))
      (client_head pipe (response ++ codes "5\r\n") slots)
client_head-Arrives_example =
    client_head-Arrives pipe pipe-Obeys (λ s. s) pipe-Delivers response (codes "5\r\n")
      (response ++ codes "5\r\n") slots refl response-Accepts (omega arith) (omega arith)
      (omega arith)

abbrev upload : Message
upload = record {
  chunks = record { size = record { digits = codes "5"; ext = [] }; body = codes "hello" } ∷ [];
  last = record { digits = codes "0"; ext = [] };
  trailers = codes "A: b" ∷ [];
}

upload-IsMessage : IsMessage upload
unfolding hex_value decode_hex
upload-IsMessage = record {
  chunks_are = (
    record {
      size_is = record {
        some_digits = omega arith;
        few_digits = omega arith;
        value = refl;
        ext_is = tt;
      };
      has_body = omega arith;
    },
    tt,
  );
  last_is = record {
    some_digits = omega arith;
    few_digits = omega arith;
    value = refl;
    ext_is = tt;
  };
  trailers_are = ((omega arith, (refl, (refl, (refl, (refl, tt))))), tt);
}

abbrev upload_bytes : Bytes
upload_bytes = codes "\r\nhello\r\n0\r\nxy"

abbrev answer_bytes : Bytes
answer_bytes = codes "\r\nhello\r\n0\r\nA: b\r\n\r\n"

client_body-Ends_example : Ends Fits (client_body pipe 9 (codes "3\r\nab") [])
client_body-Ends_example =
    client_body-Ends pipe (λ s. s) pipe-Delivers 9 (codes "3\r\nab") [] (omega arith) (omega arith)

server_body-Arrives_example :
    Arrives
      (IsMessageBody (λ s. s) upload (codes "xy"))
      (server_body pipe 30 upload_bytes (codes "5"))
server_body-Arrives_example =
    server_body-Arrives pipe (λ s. s) pipe-Delivers upload_bytes (codes "5") upload (codes "xy")
      upload-IsMessage (omega arith) (omega arith) 30 (omega arith) (omega arith) refl

client_body-Arrives_example :
    Arrives (IsMessageBody (λ s. s) upload []) (client_body pipe 30 answer_bytes (codes "5"))
client_body-Arrives_example =
    client_body-Arrives pipe (λ s. s) pipe-Delivers answer_bytes (codes "5") upload []
      upload-IsMessage (omega arith) (omega arith) 30 (omega arith) (omega arith) refl

abbrev heads : Bytes
heads = codes "G / HTTP/1.1\r\nContent-Length: 3\r\n\r\nabcrest"

abbrev length_header : Header
length_header = record { name = some (slice 14 14); value = some (slice 30 1) }

heads-GivesLength : GivesLength heads 3 (length_header ∷ [])
unfolding is_content_length decimal
heads-GivesLength = record {
  before = [];
  header = length_header;
  after = [];
  in_order = refl;
  others_before = tt;
  others_after = tt;
  named_so = refl;
  value_is = refl;
}

carry-GivesLength_example : carry heads 35 (length_header ∷ []) ≡ some (drop (35 + 3) heads)
carry-GivesLength_example =
    carry-GivesLength heads 35 3 (length_header ∷ []) heads-GivesLength (omega arith) (omega arith)

abbrev huge : Bytes
huge = codes "G / HTTP/1.1\r\nContent-Length: 18446744073709551615\r\n\r\nrest"

abbrev huge_header : Header
huge_header = record { name = some (slice 14 14); value = some (slice 30 20) }

huge-GivesLength : GivesLength huge (2 ^ 64 - 1) (huge_header ∷ [])
unfolding is_content_length decimal
huge-GivesLength = record {
  before = [];
  header = huge_header;
  after = [];
  in_order = refl;
  others_before = tt;
  others_after = tt;
  named_so = refl;
  value_is = refl;
}

carry-wraps_example : carry huge 54 (huge_header ∷ []) ≡ some (drop (54 - 1) huge)
carry-wraps_example =
    carry-wraps huge 54 1 (huge_header ∷ []) huge-GivesLength (omega arith) (omega arith)
      (omega arith) (omega arith)

length_loop-decimal_example : length_loop 0 (decimal 4 4096) ≡ some 4096
length_loop-decimal_example = length_loop-decimal 4 4096 (omega arith) (omega arith)
