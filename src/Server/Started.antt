-- ===== src/Server/Started.antt =====
-- The rounds of `run` after `start`.
use exchange_simulator.Common.{ℕ, ◌≡◌, sym, subst, List, [], Bool, true, false, returned, arith}
use exchange_simulator.Socket.{Socket}
use exchange_simulator.Server.{Server}
use exchange_simulator.Server.Rounds.{Meets, run_rounds}
use exchange_simulator.Server.Starting.{StartCalls, start, constructed, started, started-IsWatched}
use exchange_simulator.Server.Admission.{Grows}
use exchange_simulator.Server.Safety.{AllPolled, Safe, rounds-Safe}

start-started :
    (calls : StartCalls) (s : Server) → start calls constructed ≡ returned s → s ≡ started
start-started calls s e =
    go calls.socket calls.bind calls.listen calls.fcntl calls.epoll_create calls.epoll_ctl e
  where
    go :
        (a b c d f g : Bool)
        → start
            (record {
              socket = a;
              bind = b;
              listen = c;
              fcntl = d;
              epoll_create = f;
              epoll_ctl = g;
            })
            constructed
          ≡ returned s
        → s ≡ started
    go false b c d f g e = absurd cc
    go true false c d f g e = absurd cc
    go true true false d f g e = absurd cc
    go true true true false f g e = absurd cc
    go true true true true false g e = absurd cc
    go true true true true true false e = absurd cc
    go true true true true true true e = cc

module _ {S : Type 0} (k : Socket S) where
  -- A new server that `start` has started, whatever the system calls have answered: any rounds of
  -- `run`, whose events are of the listening descriptor or of watched ones, return or throw one of
  -- the three exceptions of `accept_client`, are never undefined, and end with the invariant and at
  -- least 1024 slots.
  pub start-Safe :
      (calls : StartCalls) (s : Server) (sockets : ℕ → S) (ms : List Meets)
      → start calls constructed ≡ returned s
      → AllPolled k ms (record { server = s; sockets = sockets; inbound = [] })
      → Safe 1024 (run_rounds k ms (record { server = s; sockets = sockets; inbound = [] }))
  start-Safe calls s sockets ms e polled =
      rounds-Safe k ms 1024 (record { server = s; sockets = sockets; inbound = [] }) polled
        (subst (Grows 1024) (sym (start-started calls s e))
          (record { watched_ok = started-IsWatched; as_long = omega arith }))
