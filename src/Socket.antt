-- ===== src/Socket.antt =====
-- `recv` of <sys/socket.h>, which is not part of the repository, as an interface: a call that asks for
-- some bytes returns at least one of them and at most as many as it asks for, in the order in which
-- the peer sends them; or 0 when the peer has closed; or -1, with EAGAIN or with another error.
use exchange_simulator.Common.{ℕ, ◌<◌, ◌≤◌, ◌≡◌, refl, sym, subst, List, ◌++◌, length}

pub data RecvResult : Type 0 where
  received : List ℕ → RecvResult
  closed would_block failed : RecvResult

-- What the result of a call that asks for `want` bytes says of the bytes still to come.
abbrev pub IsRecv : ℕ → RecvResult → List ℕ → List ℕ → Type 0
IsRecv want (received xs) before after =
    (0 < length xs) × (length xs ≤ want) × (before ≡ xs ++ after)
IsRecv want closed before after = before ≡ after
IsRecv want would_block before after = before ≡ after
IsRecv want failed before after = before ≡ after

-- `pending` is the bytes that are sent and have not been received.
pub record Socket (S : Type 0) : Type 0 where
  pub recv : ℕ → S → RecvResult × S
  pub pending : S → List ℕ
  pub recv_lem :
      (want : ℕ) (s : S)
      → 0 < want
      → IsRecv want (recv want s).0 (pending s) (pending (recv want s).1)

-- The peer has closed, or the call has failed with another error than EAGAIN.
abbrev pub IsLost : ℕ → RecvResult → Type 0
IsLost want (received xs) = ⊥
IsLost want closed = Unit
IsLost want would_block = ⊥
IsLost want failed = Unit

-- There are no bytes now, or fewer than were asked for.
abbrev pub IsPause : ℕ → RecvResult → Type 0
IsPause want (received xs) = length xs < want
IsPause want closed = ⊥
IsPause want would_block = Unit
IsPause want failed = ⊥

-- No bytes are returned.
abbrev pub IsNothing : ℕ → RecvResult → Type 0
IsNothing want (received xs) = ⊥
IsNothing want _ = Unit

-- The socket is as a call that asks for some bytes has left it, and the call's result is such.
pub record LastRecv {S : Type 0} (k : Socket S) (Result : ℕ → RecvResult → Type 0) (after : S)
    : Type 0 where
  pub want : ℕ
  pub before : S
  pub some_asked : 0 < want
  pub such : Result want (k.recv want before).0
  pub leaves_it : (k.recv want before).1 ≡ after

pub last_recv :
    {S : Type 0} (k : Socket S) (Result : ℕ → RecvResult → Type 0) (want : ℕ) (s : S)
    (x : RecvResult)
    → 0 < want
    → (k.recv want s).0 ≡ x
    → Result want x
    → LastRecv k Result (k.recv want s).1
last_recv k Result want s x h e such = record {
  want = want;
  before = s;
  some_asked = h;
  such = subst (Result want) (sym e) such;
  leaves_it = refl;
}
