-- ===== src/Server/Rounds.antt =====
-- `ExchangeServer::accept_client` and the rounds of `run`, src/exchange_server.cpp. What the system
-- calls answer is an input: the results of `accept` with those of `fcntl` and `epoll_ctl` for the new
-- descriptor, the events of `epoll_wait`, and how many pushes of a call of `handle_read` find room.
use exchange_simulator.Common.{
  ℕ, ◌+◌, ◌-◌, ◌*◌, max, List, [], ◌∷◌, ◌++◌, some, Bool, true, false, leb, if◌then◌else◌, update,
  codes, length, set, replicate, Outcome, returned, threw, undefined, stuck, Exception,
  runtime_error, ◌==◌,
}
use exchange_simulator.Types.{InboundMessage, OutboundMessage}
use exchange_simulator.Engine.{continue}
use exchange_simulator.Socket.{Socket}
use exchange_simulator.Server.{
  ClientState, new_client, Server, SendResult, handle_write, drain_outbound_queue,
  flush_pending_writes,
}
use exchange_simulator.Server.Reading.{Reading, handle_read}

-- A new descriptor, and whether `fcntl` and `epoll_ctl` succeed; -1 with EAGAIN; or another error.
pub data AcceptResult : Type 0 where
  accepted : ℕ → Bool → Bool → AcceptResult
  no_more accept_failed : AcceptResult

abbrev pub failed_accept : Exception
failed_accept = runtime_error (codes "accept failed")

abbrev pub failed_fcntl : Exception
failed_fcntl = runtime_error (codes "failed to set socket to non blocking")

abbrev pub failed_register : Exception
failed_register = runtime_error (codes "failed to register client with epoll")

-- `clients_` is resized if it has no slot for the descriptor.
abbrev pub grown : ℕ → List ClientState → List ClientState
grown fd cs =
    if leb (length cs) fd
    then cs ++ replicate (max (length cs * 2) (fd + 1) - length cs) new_client
    else cs

-- The client is registered with epoll, and has a new state in its slot.
abbrev pub admit : ℕ → Server → Server
admit fd s = record s {
  clients = set (grown fd s.clients) fd (record new_client { active = true });
  watched = update s.watched fd (some false);
}

-- The loop ends by its results, or with them.
unfoldable pub accept_client : List AcceptResult → Server → Outcome (Unit {0}) × Server
accept_client [] s = (returned tt, s)
accept_client (no_more ∷ rs) s = (returned tt, s)
accept_client (accept_failed ∷ rs) s = (threw failed_accept, s)
accept_client (accepted fd false registered ∷ rs) s = (threw failed_fcntl, s)
accept_client (accepted fd true false ∷ rs) s = (threw failed_register, s)
accept_client (accepted fd true true ∷ rs) s = accept_client rs (admit fd s)

-- An event of `epoll_wait`: on the listening descriptor, with what `accept` answers; or on a client's,
-- with whether it is readable and writable, the room for the messages read, and what `send` answers.
pub data Event : Type 0 where
  connection : List AcceptResult → Event
  ready : ℕ → Bool → Bool → ℕ → SendResult → Event

-- The server, the sockets of its clients, and the inbound ring.
pub record Host (S : Type 0) : Type 0 where
  pub server : Server
  pub sockets : ℕ → S
  pub inbound : List InboundMessage

module _ {S : Type 0} where
  -- Goes on with the server that a call has returned.
  abbrev pub with_server :
      Host S → Outcome Server → (Host S → Outcome (Unit {0}) × Host S) → Outcome (Unit {0}) × Host S
  with_server h (returned s) f = f (record h { server = s })
  with_server h (threw e) f = (threw e, h)
  with_server h undefined f = (undefined, h)
  with_server h stuck f = (stuck, h)

  abbrev pub after_handle_read :
      ℕ → Host S → Outcome (Server × Reading S) → Outcome (Unit {0}) × Host S
  after_handle_read fd h (returned (s, r)) = (
    returned tt,
    record {
      server = s;
      sockets = λ i. if i == fd then r.socket else h.sockets i;
      inbound = r.inbound;
    },
  )
  after_handle_read fd h (threw e) = (threw e, h)
  after_handle_read fd h undefined = (undefined, h)
  after_handle_read fd h stuck = (stuck, h)

  abbrev pub after_accept : Host S → Outcome (Unit {0}) × Server → Outcome (Unit {0}) × Host S
  after_accept h (r, s) = (r, record h { server = s })

-- What a round meets: the messages in the outbound ring, the answers to the sends of the pending
-- descriptors, and the events.
pub record Meets : Type 0 where
  pub outbound : List OutboundMessage
  pub results : ℕ → SendResult
  pub events : List Event

module _ {S : Type 0} (k : Socket S) where
  -- The fuel of `handle_read` is two rounds more than there are bytes to come.
  abbrev pub read_ready : ℕ → Bool → ℕ → Host S → Outcome (Unit {0}) × Host S
  read_ready fd true room h = after_handle_read fd h (
      handle_read k fd (length (k.pending (h.sockets fd)) + 2) (h.sockets fd) h.inbound room
        h.server)
  read_ready fd false room h = (returned tt, h)

  abbrev pub write_ready : ℕ → Bool → SendResult → Host S → Outcome (Unit {0}) × Host S
  write_ready fd true result h =
      with_server h (handle_write fd result h.server) λ h'. (returned tt, h')
  write_ready fd false result h = (returned tt, h)

  abbrev pub serve_event : Event → Host S → Outcome (Unit {0}) × Host S
  serve_event (connection results) h = after_accept h (accept_client results h.server)
  serve_event (ready fd readable writable room result) h =
      continue (write_ready fd writable result) (read_ready fd readable room h)

  -- The loop over the events.
  unfoldable pub serve_events : List Event → Host S → Outcome (Unit {0}) × Host S
  serve_events [] h = (returned tt, h)
  serve_events (e ∷ es) h = continue (serve_events es) (serve_event e h)

  -- One round of `while(true)`.
  unfoldable pub run_round : Meets → Host S → Outcome (Unit {0}) × Host S
  unfolding serve_events
  run_round m h =
      with_server h (flush_pending_writes m.results (drain_outbound_queue m.outbound h.server))
        (serve_events m.events)

  unfoldable pub run_rounds : List Meets → Host S → Outcome (Unit {0}) × Host S
  unfolding run_round
  run_rounds [] h = (returned tt, h)
  run_rounds (m ∷ ms) h = continue (run_rounds ms) (run_round m h)
