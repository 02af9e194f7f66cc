-- ===== src/Server/Starting.antt =====
-- `ExchangeServer::start`, src/exchange_server.cpp: what each of its system calls answers is an input.
use exchange_simulator.Common.{
  leb, length, take, ◌++◌, ◌-◌, if◌then◌else◌, ℕ, List, [], none, Bool, true, false, codes,
  replicate, Outcome, returned, threw, runtime_error, ◌>>=◌,
}
use exchange_simulator.Server.{ClientState, Server, new_client}
use exchange_simulator.Server.Watched.{IsWatched}
use exchange_simulator.Server.Admission.{Slot-replicate}

-- Whether each call succeeds.
pub record StartCalls : Type 0 where
  pub socket : Bool
  pub bind : Bool
  pub listen : Bool
  pub fcntl : Bool
  pub epoll_create : Bool
  pub epoll_ctl : Bool

-- The server that the constructor makes; epoll watches no client.
abbrev pub constructed : Server
constructed = record { clients = []; pending_writes = []; watched = λ fd. none }

-- `if(failed) throw std::runtime_error(text)`
abbrev expect : Bool → List ℕ → Outcome (Unit {0})
expect true text = returned tt
expect false text = threw (runtime_error text)

-- `clients_.resize(n)`
abbrev resized : ℕ → List ClientState → List ClientState
resized n cs = if leb n (length cs) then take n cs else cs ++ replicate (n - length cs) new_client

abbrev pub start : StartCalls → Server → Outcome Server
start calls s = do
  _ ← expect calls.socket (codes "socket creation failed")
  _ ← expect calls.bind (codes "bind failed")
  _ ← expect calls.listen (codes "listen failed")
  _ ← expect calls.fcntl (codes "failed to set socket to non blocking")
  _ ← expect calls.epoll_create (codes "epoll creation failed")
  _ ← expect calls.epoll_ctl (codes "failed to register server with epoll")
  returned (record s { clients = resized 1024 s.clients })

-- The server that has been started.
abbrev pub started : Server
started = record constructed { clients = replicate 1024 new_client }

pub started-IsWatched : IsWatched started
started-IsWatched = record { slots = λ fd. Slot-replicate none 1024 fd tt; pending_ok = tt }
