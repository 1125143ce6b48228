-- ===== src/Integ/Head/Ends.antt =====
-- The head loops of scripts/integ_http11.c from their first round to their last.
use picohttpparser_rs.Base.{
  ℕ, zero, suc, ◌+◌, ◌≤◌, ◌<◌, [], List, Option, none, some, Res, ok, err, length, arith,
}
use picohttpparser_rs.Integ.Head.Laws.{HeadLaws, request-HeadLaws}
use picohttpparser_rs.Integ.Head.Rounds.{Grows, grows, server_recv-Grows}
use picohttpparser_rs.Integ.Head.{
  HeadParser, Head, Recv, after_call, after_recv, head_loop, buf_size, max_headers, request_parser,
  server_recv, server_head,
}
use picohttpparser_rs.Integ.Socket.{Socket, Phase, ends, fails, Obeys}
use picohttpparser_rs.Reference.Chars.{Bytes, Cursor}
use picohttpparser_rs.Reference.Ensures.{Ensures, returns, stops_partial, stops_malformed, Within}
use picohttpparser_rs.Reference.Output.{Header}

-- A phase that fails, or returns with such a result and socket.
pub data Ends {S A : Type 0} (P : A → S → Type 0) : Phase S A → Type 0 where
  returned : {a : A} {s : S} → P a s → Ends P (ends a s)
  failed : Ends P fails

-- A head inside of the buffer.
abbrev pub InBuffer : (k : Socket) (p : HeadParser) → Head k p → k.Sock → Type 0
InBuffer k p h s = (length h.buf ≤ buf_size) × Within (length h.buf) 0 h.end

module _ (k : Socket) (p : HeadParser) (laws : HeadLaws p) (read : Recv k) where
  decided :
      (buf : Bytes) (s : k.Sock) (e : Res Cursor × p.Outputs)
      (again : List Header → Phase k.Sock (Head k p))
      → length buf ≤ buf_size
      → Ensures (Within (length buf) 0) (λ o. max_headers ≤ length (p.slots o)) e
      → ((slots : List Header) → max_headers ≤ length slots → Ends (InBuffer k p) (again slots))
      → Ends (InBuffer k p) (after_call k p buf s e again)
  unfolding after_call
  decided buf s (ok b, o) again le (returns w q) next = returned (le, w)
  decided buf s (err code, o) again le (stops_partial q) next = next (p.slots o) q
  decided buf s (err code, o) again le (stops_malformed q) next = failed

  received :
      {A : Type 0} {P : A → k.Sock → Type 0} (buf : Bytes) (r : Option (Bytes × k.Sock))
      (next : Bytes → k.Sock → Phase k.Sock A)
      → Grows k buf r
      → ((buf' : Bytes) (s' : k.Sock)
          → length buf < length buf'
          → length buf' ≤ buf_size
          → Ends P (next buf' s'))
      → Ends P (after_recv k r next)
  unfolding after_recv
  received buf none next h f = failed
  received buf (some (buf', s')) next (grows more fits) f = f buf' s' more fits

  pub head_loop-InBuffer :
      ((s : k.Sock) (buf : Bytes) → length buf ≤ buf_size → Grows k buf (read s buf))
      → (fuel : ℕ) (s : k.Sock) (buf : Bytes) (prev : ℕ) (headers : List Header)
      → buf_size < fuel + length buf
      → length buf ≤ buf_size
      → prev ≤ length buf
      → max_headers ≤ length headers
      → Ends (InBuffer k p) (head_loop k p read fuel s buf prev headers)
  unfolding head_loop
  head_loop-InBuffer grow zero s buf prev headers lt le prev_le room = absurd (omega arith)
  head_loop-InBuffer grow (suc fuel) s buf prev headers lt le prev_le room =
      received buf (read s buf) _ (grow s buf le) λ buf' s' more fits.
        decided buf' s' (p.parse buf' headers prev) _ fits
          (laws.settles buf' headers prev (omega arith, room, omega arith))
          λ slots room'.
            head_loop-InBuffer grow fuel s' buf' (length buf') slots (omega arith) fits
              (omega arith) room'

module _ (k : Socket) (o : Obeys k) (s : k.Sock) (headers : List Header)
    (room : max_headers ≤ length headers) where
  -- The server's loop over the head of a request, on a socket whose recv stores at most the bytes that
  -- it is asked for: it ends, after at most as many rounds as the buffer has bytes. It fails, or the
  -- parser accepts what is read, with a cursor inside of it, and at most sizeof(buf) bytes are read. No
  -- round is undefined in C.
  pub server_head-Ends : Ends (InBuffer k request_parser) (server_head k s headers)
  unfolding server_head
  server_head-Ends =
      head_loop-InBuffer k request_parser request-HeadLaws (server_recv k) (server_recv-Grows k o)
        (buf_size + 1) s [] 0 headers (omega arith) (omega arith) (omega arith) room
