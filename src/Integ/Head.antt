-- ===== src/Integ/Head.antt =====
-- The loops of scripts/integ_http11.c that read the head of a request and of a response: each gives the
-- parser all bytes so far, with the number of those of the call before as `last_len`.
pub mod Laws
pub mod Rounds
pub mod Ends
pub mod Arrives
use picohttpparser_rs.Base.{
  ℕ, zero, suc, ◌+◌, ◌-◌, [], ◌++◌, List, Option, none, some, Res, ok, err, partial, malformed,
  fault, stuck, ltb, ◌==◌, if◌then◌else◌, length,
}
use picohttpparser_rs.Integ.Socket.{Socket, Phase, ends, fails, undefined, out_of_fuel}
use picohttpparser_rs.Reference.Chars.{Bytes, Cursor}
use picohttpparser_rs.Reference.Output.{Header, RequestOut, ResponseOut}
use picohttpparser_rs.Reference.Request.{phr_parse_request}
use picohttpparser_rs.Reference.Response.{phr_parse_response}

-- A parser of a head with the array `headers` as its argument, and where its outputs have that array.
pub record HeadParser : Type 1 where
  pub Outputs : Type 0
  pub parse : Bytes → List Header → ℕ → Res Cursor × Outputs
  pub slots : Outputs → List Header

-- `num_headers = sizeof(headers) / sizeof(headers[0])`
abbrev pub max_headers : ℕ
max_headers = 32

-- `sizeof(buf)`
abbrev pub buf_size : ℕ
buf_size = 4096

abbrev pub request_parser : HeadParser
request_parser = record {
  Outputs = RequestOut;
  parse = λ s headers last_len. phr_parse_request s headers max_headers last_len;
  slots = λ o. o.table.slots;
}

abbrev pub response_parser : HeadParser
response_parser = record {
  Outputs = ResponseOut;
  parse = λ s headers last_len. phr_parse_response s headers max_headers last_len;
  slots = λ o. o.table.slots;
}

module _ (k : Socket) where
  -- A round's recv, and the buffer behind it; `none` where the phase fails.
  abbrev pub Recv : Type 0
  Recv = k.Sock → Bytes → Option (Bytes × k.Sock)

  -- `want` is what is left of the buffer, and at most 32.
  unfoldable pub server_recv : Recv
  server_recv s buf =
      let left = buf_size - length buf in
      let (bytes, s') = k.recv s (if ltb 32 left then 32 else left) in
      if length bytes == 0 then none else some (buf ++ bytes, s')

  -- 16 bytes at most, through `rbuf`.
  unfoldable pub client_recv : Recv
  client_recv s buf =
      let (bytes, s') = k.recv s 16 in
      if length bytes == 0
      then none
      else if ltb buf_size (length buf + length bytes)
      then none
      else some (buf ++ bytes, s')

  -- What a phase has read, where its parser accepts it.
  pub record Head (p : HeadParser) : Type 0 where
    pub buf : Bytes
    pub end : Cursor
    pub outputs : p.Outputs

  -- What follows the parser's call; `again` are the rounds behind it.
  unfoldable pub after_call :
      (p : HeadParser)
      → Bytes
      → k.Sock
      → Res Cursor × p.Outputs
      → (List Header → Phase k.Sock (Head p))
      → Phase k.Sock (Head p)
  after_call p buf s (ok b, o) again = ends (record { buf = buf; end = b; outputs = o }) s
  after_call p buf s (err partial, o) again = again (p.slots o)
  after_call p buf s (err malformed, o) again = fails
  after_call p buf s (err fault, o) again = undefined
  after_call p buf s (err stuck, o) again = undefined

  -- What follows recv.
  unfoldable pub after_recv :
      {A : Type 0} → Option (Bytes × k.Sock) → (Bytes → k.Sock → Phase k.Sock A) → Phase k.Sock A
  after_recv none next = fails
  after_recv (some (buf, s)) next = next buf s

  -- The `for (;;)`, on fuel, with `have` bytes in the buffer and `prev`.
  pub head_loop :
      (p : HeadParser) → Recv → ℕ → k.Sock → Bytes → ℕ → List Header → Phase k.Sock (Head p)
  unfolding after_call after_recv
  head_loop p read zero s buf prev headers = out_of_fuel
  head_loop p read (suc fuel) s buf prev headers = after_recv (read s buf) λ buf' s'.
      after_call p buf' s' (p.parse buf' headers prev)
        (λ slots. head_loop p read fuel s' buf' (length buf') slots)

  -- A round takes a byte at least, and the buffer has 4096.
  unfoldable pub server_head : k.Sock → List Header → Phase k.Sock (Head request_parser)
  unfolding head_loop server_recv
  server_head s headers = head_loop request_parser server_recv (buf_size + 1) s [] 0 headers

  unfoldable pub client_head : k.Sock → List Header → Phase k.Sock (Head response_parser)
  unfolding head_loop client_recv
  client_head s headers = head_loop response_parser client_recv (buf_size + 1) s [] 0 headers
