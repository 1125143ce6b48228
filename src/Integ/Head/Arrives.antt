-- ===== src/Integ/Head/Arrives.antt =====
-- The head loops of scripts/integ_http11.c on a connection that delivers a whole head.
use mathlib.Core.Path.{subst}
use mathlib.Core.List.{append_assoc}
use picohttpparser_rs.Base.{
  ℕ, zero, suc, ◌+◌, ◌≤◌, ◌<◌, ◌≡◌, refl, sym, ◌∙◌, ap, [], ◌++◌, List, Option, none, some, Res, ok,
  err, partial, length, arith, inl, inr,
}
use picohttpparser_rs.Base.Lists.{length-append, append-cases}
use picohttpparser_rs.Integ.Head.Laws.{HeadLaws, CanCall, request-HeadLaws, response-HeadLaws}
use picohttpparser_rs.Integ.Head.Rounds.{Feeds, feeds, server_recv-Feeds, client_recv-Feeds}
use picohttpparser_rs.Integ.Head.{
  HeadParser, Head, Recv, after_call, after_recv, head_loop, buf_size, max_headers, request_parser,
  response_parser, server_recv, client_recv, server_head, client_head,
}
use picohttpparser_rs.Integ.Socket.{Socket, Phase, ends, Obeys, Delivers}
use picohttpparser_rs.Reference.Agrees.{AgreesOn, Longer}
use picohttpparser_rs.Reference.Chars.{Bytes, Cursor, cursor}
use picohttpparser_rs.Reference.Ensures.{Ensures, stops_partial, stops_malformed}
use picohttpparser_rs.Reference.Output.{Header}

-- A phase that returns, with such a result and socket.
pub data Arrives {S A : Type 0} (P : A → S → Type 0) : Phase S A → Type 0 where
  arrived : {a : A} {s : S} → P a s → Arrives P (ends a s)

-- The parser accepts the message to its last byte, whatever the array holds.
abbrev pub Accepts : HeadParser → Bytes → Type 0
Accepts p msg =
    (headers : List Header)
    → max_headers ≤ length headers
    → (p.parse msg headers 0).0 ≡ ok (cursor (length msg) [])

-- What is read is the message and some bytes behind it, the outputs are those of one call on the
-- message alone, and the other bytes are still to come.
pub record IsHead (k : Socket) (p : HeadParser) (stream : k.Sock → Bytes) (msg behind : Bytes)
    (h : Head k p) (s : k.Sock) : Type 0 where
  pub extra : Bytes
  pub read : h.buf ≡ msg ++ extra
  pub to_come : extra ++ stream s ≡ behind
  pub end : h.end ≡ cursor (length msg) extra
  pub outputs :
      (headers : List Header) × (max_headers ≤ length headers)
      × (h.outputs ≡ (p.parse msg headers 0).1)

module _ (k : Socket) (p : HeadParser) (laws : HeadLaws p) (read : Recv k) (stream : k.Sock → Bytes)
    (msg behind : Bytes) (accepts : Accepts p msg) (size : length msg ≤ buf_size) where
  abbrev Arrived : Phase k.Sock (Head k p) → Type 0
  Arrived = Arrives (IsHead k p stream msg behind)

  -- The call asks for more.
  waiting :
      {P : Cursor → Type 0} (buf : Bytes) (s : k.Sock) (e : Res Cursor × p.Outputs)
      (again : List Header → Phase k.Sock (Head k p))
      → e.0 ≡ err partial
      → Ensures P (λ o. max_headers ≤ length (p.slots o)) e
      → ((slots : List Header) → max_headers ≤ length slots → Arrived (again slots))
      → Arrived (after_call k p buf s e again)
  unfolding after_call
  waiting buf s (ok b, o) again w h next = cc
  waiting buf s (err code, o) again w (stops_partial q) next = next (p.slots o) q
  waiting buf s (err code, o) again w (stops_malformed q) next = cc

  -- The call accepts the message with `extra` behind it.
  accepted :
      (extra : Bytes) (s : k.Sock) (headers : List Header) (e e' : Res Cursor × p.Outputs)
      (again : List Header → Phase k.Sock (Head k p))
      → max_headers ≤ length headers
      → e ≡ p.parse msg headers 0
      → e.0 ≡ ok (cursor (length msg) [])
      → AgreesOn (Longer extra) e e'
      → extra ++ stream s ≡ behind
      → Arrived (after_call k p (msg ++ extra) s e' again)
  unfolding after_call
  accepted extra s headers e e' again room same code (AgreesOn.both {a} {a'} {t} r) rest =
      let at : a ≡ cursor (length msg) [] = cc in
      arrived (record {
        extra = extra;
        read = refl;
        to_come = rest;
        end = r ∙ ap (λ b. cursor b.at (b.rest ++ extra)) at;
        outputs = (headers, room, ap (λ x. x.1) same);
      })
  accepted extra s headers e e' again room same code AgreesOn.refuse rest = cc
  accepted extra s headers e e' again room same code AgreesOn.wants_more rest = cc
  accepted extra s headers e e' again room same code AgreesOn.faults rest = cc
  accepted extra s headers e e' again room same code AgreesOn.is_stuck rest = cc

  fed :
      (s : k.Sock) (buf : Bytes) (r : Option (Bytes × k.Sock))
      (next : Bytes → k.Sock → Phase k.Sock (Head k p))
      → Feeds k stream s buf r
      → ((bytes : Bytes) (s' : k.Sock)
          → 0 < length bytes
          → stream s ≡ bytes ++ stream s'
          → length (buf ++ bytes) ≤ buf_size
          → Arrived (next (buf ++ bytes) s'))
      → Arrived (after_recv k r next)
  unfolding after_recv
  fed s buf none next h f = elim h [ ]
  fed s buf (some (buf', s')) next (feeds bytes got order fits) f = f bytes s' got order fits

  pub head_loop-Arrives :
      ((s : k.Sock) (buf : Bytes)
        → length buf < length msg
        → 0 < length (stream s)
        → Feeds k stream s buf (read s buf))
      → (fuel : ℕ) (s : k.Sock) (buf : Bytes) (headers : List Header)
      → length msg ≤ fuel + length buf
      → length buf < length msg
      → max_headers ≤ length headers
      → buf ++ stream s ≡ msg ++ behind
      → Arrived (head_loop k p read fuel s buf (length buf) headers)
  unfolding head_loop
  head_loop-Arrives feed zero s buf headers enough lt room same = absurd (omega arith)
  head_loop-Arrives feed (suc fuel) s buf headers enough lt room same =
      fed s buf (read s buf) _
        (feed s buf lt
          (omega (arith, ap length same, length-append buf (stream s), length-append msg behind)))
        λ bytes s' got order fits.
          let grown = length-append buf bytes in
          let same' : (buf ++ bytes) ++ stream s' ≡ msg ++ behind =
            append_assoc buf bytes (stream s') ∙ ap (λ x. buf ++ x) (sym order) ∙ same in
          elim (append-cases (buf ++ bytes) (stream s') msg behind same') [
            | inl (more, some_more, cut) ↦
                let whole =
                  subst (λ m. (p.parse m headers 0).0 ≡ ok (cursor (length msg) [])) cut
                    (accepts headers room) in
                let can : CanCall (buf ++ bytes) headers (length buf) =
                  (omega arith, room, omega arith) in
                waiting (buf ++ bytes) s' (p.parse (buf ++ bytes) headers (length buf)) _
                  (laws.waits_on (buf ++ bytes) more headers (length buf) (cursor (length msg) [])
                    (omega (arith, ap length cut)) can some_more whole refl)
                  (laws.settles (buf ++ bytes) headers (length buf) can)
                  λ slots room'.
                    head_loop-Arrives feed fuel s' (buf ++ bytes) slots (omega arith)
                      (omega (arith, ap length cut, length-append (buf ++ bytes) more)) room' same'
            | inr (extra, whole, rest) ↦
                let can : CanCall msg headers (length buf) = (omega arith, room, omega arith) in
                let again =
                  laws.resumes msg headers (length buf) (cursor (length msg) []) can
                    (accepts headers room) lt in
                subst
                  (λ b. Arrived (
                    after_call k p b s' (p.parse b headers (length buf))
                      (λ slots. head_loop k p read fuel s' b (length b) slots)))
                  (sym whole)
                  (accepted extra s' headers (p.parse msg headers (length buf)) _ _ room again
                    (ap (λ x. x.0) again ∙ accepts headers room)
                    (laws.extends extra msg headers (length buf)) rest)
          ]

module _ (k : Socket) (o : Obeys k) (stream : k.Sock → Bytes) (d : Delivers k stream)
    (msg behind : Bytes) where
  -- The server's loop on a connection that delivers, in pieces of any size, a request that the parser
  -- accepts to its last byte in one call, whatever the header array holds, and any bytes behind it. The
  -- request has a byte at least and fits in the buffer. The loop returns: it has read the request and some
  -- of the bytes behind it, the rest is still to come, the cursor stands behind the request, and the
  -- outputs are those of the one call.
  pub server_head-Arrives :
      (s : k.Sock) (headers : List Header)
      → stream s ≡ msg ++ behind
      → Accepts request_parser msg
      → 0 < length msg
      → length msg ≤ buf_size
      → max_headers ≤ length headers
      → Arrives (IsHead k request_parser stream msg behind) (server_head k s headers)
  unfolding server_head
  server_head-Arrives s headers same accepts some_bytes size room =
      head_loop-Arrives k request_parser request-HeadLaws (server_recv k) stream msg behind accepts
        size (λ t buf lt more. server_recv-Feeds k o stream d t buf (omega arith) more)
        (buf_size + 1) s [] headers (omega arith) some_bytes room same

  -- The client's loop on a connection that delivers, in pieces of any size, a response that the parser
  -- accepts to its last byte in one call, whatever the header array holds, and any bytes behind it. The
  -- response has a byte at least and leaves 15 bytes of the buffer at least, so that no read of 16 bytes
  -- overflows it. The loop returns: it has read the response and some of the bytes behind it, the rest is
  -- still to come, the cursor stands behind the response, and the outputs are those of the one call.
  pub client_head-Arrives :
      (s : k.Sock) (headers : List Header)
      → stream s ≡ msg ++ behind
      → Accepts response_parser msg
      → 0 < length msg
      → length msg + 15 ≤ buf_size
      → max_headers ≤ length headers
      → Arrives (IsHead k response_parser stream msg behind) (client_head k s headers)
  unfolding client_head
  client_head-Arrives s headers same accepts some_bytes size room =
      head_loop-Arrives k response_parser response-HeadLaws (client_recv k) stream msg behind
        accepts (omega arith)
        (λ t buf lt more. client_recv-Feeds k o stream d t buf (omega arith) more) (buf_size + 1) s
        [] headers (omega arith) some_bytes room same
