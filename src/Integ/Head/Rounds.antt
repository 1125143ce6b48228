-- ===== src/Integ/Head/Rounds.antt =====
-- What a round of the head loops of scripts/integ_http11.c receives.
use picohttpparser_rs.Base.{
  ◌+◌, ◌-◌, ◌≤◌, ◌<◌, ◌≡◌, ◌++◌, Option, none, some, ltb, ◌==◌, if◌then◌else◌, length, arith,
  Bool-cases, inl, inr,
}
use picohttpparser_rs.Base.Lists.{length-append}
use picohttpparser_rs.Integ.Head.{buf_size, server_recv, client_recv}
use picohttpparser_rs.Integ.Socket.{Socket, Obeys, Delivers}
use picohttpparser_rs.Reference.Chars.{Bytes}

module _ (k : Socket) where
  -- A round fails, or the buffer grows and does not overflow.
  pub data Grows (buf : Bytes) : Option (Bytes × k.Sock) → Type 0 where
    no_growth : Grows buf none
    grows :
        {buf' : Bytes} {s' : k.Sock}
        → length buf < length buf'
        → length buf' ≤ buf_size
        → Grows buf (some (buf', s'))

  -- A round that takes the next bytes of the stream.
  pub data Feeds (stream : k.Sock → Bytes) (s : k.Sock) (buf : Bytes)
      : Option (Bytes × k.Sock) → Type 0 where
    feeds :
        (bytes : Bytes) {s' : k.Sock}
        → 0 < length bytes
        → stream s ≡ bytes ++ stream s'
        → length (buf ++ bytes) ≤ buf_size
        → Feeds stream s buf (some (buf ++ bytes, s'))

  module _ (o : Obeys k) where
    pub server_recv-Grows :
        (s : k.Sock) (buf : Bytes) → length buf ≤ buf_size → Grows buf (server_recv k s buf)
    unfolding server_recv
    server_recv-Grows s buf le =
        let left = buf_size - length buf in
        let want = if ltb 32 left then 32 else left in
        elim (Bool-cases (length (k.recv s want).0 == 0)) [
          | inl empty ↦ rw empty no_growth
          | inr some_bytes ↦ rw some_bytes (
              grows (ground (arith, length-append buf (k.recv s want).0))
                (ground (arith, length-append buf (k.recv s want).0, o.recv_le s want)))
        ]

    pub client_recv-Grows :
        (s : k.Sock) (buf : Bytes) → length buf ≤ buf_size → Grows buf (client_recv k s buf)
    unfolding client_recv
    client_recv-Grows s buf le = elim (Bool-cases (length (k.recv s 16).0 == 0)) [
      | inl empty ↦ rw empty no_growth
      | inr some_bytes ↦ elim (Bool-cases (ltb buf_size (length buf + length (k.recv s 16).0))) [
        | inl over ↦ rw (some_bytes, over) no_growth
        | inr fits ↦
            rw (some_bytes, fits)
              (grows (ground (arith, length-append buf (k.recv s 16).0))
                (ground (arith, length-append buf (k.recv s 16).0)))
      ]
    ]

    module _ (stream : k.Sock → Bytes) (d : Delivers k stream) where
      pub server_recv-Feeds :
          (s : k.Sock) (buf : Bytes)
          → length buf < buf_size
          → 0 < length (stream s)
          → Feeds stream s buf (server_recv k s buf)
      unfolding server_recv
      server_recv-Feeds s buf lt more =
          let left = buf_size - length buf in
          let want = if ltb 32 left then 32 else left in
          let got = d.some_bytes s want (ground arith) more in
          elim (Bool-cases (length (k.recv s want).0 == 0)) [
            | inl empty ↦ absurd (ground arith)
            | inr some_bytes ↦ rw some_bytes (
                feeds _ got (d.in_order s want)
                  (ground (arith, length-append buf (k.recv s want).0, o.recv_le s want)))
          ]

      pub client_recv-Feeds :
          (s : k.Sock) (buf : Bytes)
          → length buf + 16 ≤ buf_size
          → 0 < length (stream s)
          → Feeds stream s buf (client_recv k s buf)
      unfolding client_recv
      client_recv-Feeds s buf lt more =
          let got = d.some_bytes s 16 (omega arith) more in
          elim (Bool-cases (length (k.recv s 16).0 == 0)) [
            | inl empty ↦ absurd (ground arith)
            | inr some_bytes ↦
                elim (Bool-cases (ltb buf_size (length buf + length (k.recv s 16).0))) [
                  | inl over ↦ absurd (ground (arith, o.recv_le s 16))
                  | inr fits ↦
                      rw (some_bytes, fits)
                        (feeds _ got (d.in_order s 16)
                          (ground (arith, length-append buf (k.recv s 16).0, o.recv_le s 16)))
                ]
          ]
