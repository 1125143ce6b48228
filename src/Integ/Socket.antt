-- ===== src/Integ/Socket.antt =====
-- The sockets of scripts/integ_http11.c, as a parameter, and send_all.
use picohttpparser_rs.Base.{
  ℕ, zero, suc, ◌≤◌, ◌<◌, ◌≡◌, ◌∙◌, ap, ◌++◌, ◌==◌, if◌then◌else◌, length, take, drop,
}
use mathlib.Core.List.{append_assoc}
use picohttpparser_rs.Base.Lists.{take-append-drop}
use picohttpparser_rs.Reference.Chars.{Bytes}

-- recv with the bytes that it stores, none for a result of 0 or less, and send with the number of bytes
-- that it takes, 0 for a result of 0 or less.
pub record Socket : Type 1 where
  pub Sock : Type 0
  pub recv : Sock → ℕ → Bytes × Sock
  pub send : Sock → Bytes → ℕ × Sock

-- What both calls keep to: recv stores at most the bytes that it is asked for, and send takes at most
-- those that it is given.
pub record Obeys (k : Socket) : Type 0 where
  pub recv_le : (s : k.Sock) (want : ℕ) → length (k.recv s want).0 ≤ want
  pub send_le : (s : k.Sock) (b : Bytes) → (k.send s b).0 ≤ length b

-- A connection that delivers a stream of bytes in order, some of them at every call.
pub record Delivers (k : Socket) (stream : k.Sock → Bytes) : Type 0 where
  pub in_order : (s : k.Sock) (want : ℕ) → stream s ≡ (k.recv s want).0 ++ stream (k.recv s want).1
  pub some_bytes :
      (s : k.Sock) (want : ℕ) → 0 < want → 0 < length (stream s) → 0 < length (k.recv s want).0

-- A connection that takes bytes in order; `taken` are those that it took.
pub record Takes (k : Socket) (taken : k.Sock → Bytes) : Type 0 where
  pub appends : (s : k.Sock) (b : Bytes) → taken (k.send s b).1 ≡ taken s ++ take (k.send s b).0 b

-- How a phase ends: it goes on, it prints FAIL and returns 1, it is undefined in C, or its fuel ran out.
pub data Phase (S A : Type 0) : Type 0 where
  ends : A → S → Phase S A
  fails : Phase S A
  undefined : Phase S A
  out_of_fuel : Phase S A

module _ (k : Socket) where
  -- The `while` of send_all, on fuel; -1 is `fails`. What is sent has fewer than 2^31 bytes, which the cast
  -- of its size to int leaves as it is.
  pub send_all : ℕ → k.Sock → Bytes → Phase k.Sock (Unit {0})
  send_all zero s b = out_of_fuel
  send_all (suc fuel) s b =
      let (r, s') = k.send s b in
      let rest = send_all fuel s' (drop r b) in
      if length b == 0 then ends tt s else if r == 0 then fails else rest

  -- It took all of the bytes, or it took some of them, `rest` were left, and a call took none of those.
  pub data Sent (taken : k.Sock → Bytes) (s : k.Sock) (b : Bytes)
      : Phase k.Sock (Unit {0}) → Type 0 where
    sent : {s' : k.Sock} → taken s' ≡ taken s ++ b → Sent taken s b (ends tt s')
    failed :
        (s' : k.Sock) (rest : Bytes)
        → taken s' ++ rest ≡ taken s ++ b
        → 0 < length rest
        → (k.send s' rest).0 ≡ 0
        → Sent taken s b fails

module _ (k : Socket) (o : Obeys k) (taken : k.Sock → Bytes) (t : Takes k taken) where
  same_bytes :
      (s : k.Sock) (b : Bytes) → taken (k.send s b).1 ++ drop (k.send s b).0 b ≡ taken s ++ b
  same_bytes s b =
      ap (λ x. x ++ drop (k.send s b).0 b) (t.appends s b)
      ∙ append_assoc (taken s) (take (k.send s b).0 b) (drop (k.send s b).0 b)
      ∙ ap (λ x. taken s ++ x) (take-append-drop (k.send s b).0 b)
