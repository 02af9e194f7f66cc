-- ===== src/Tests/Rounds.antt =====
-- Rounds of the server on concrete events.
use exchange_simulator.Common.{
  ℕ, zero, suc, Bool, ap, arith, ◌==◌, ◌≡◌, refl, List, [], ◌∷◌, Option, none, true, false,
  returned, threw, Outcome, sym,
}
use exchange_simulator.Server.{
  ClientState, new_client, Server, client_at, sent, would_block, flush_pending_writes,
  drain_outbound_queue, try_send,
}
use exchange_simulator.Server.Delivered.{frames}
use exchange_simulator.Types.{OutboundMessage}
use exchange_simulator.Common.{subst, ◌++◌, ◌≤◌, length, drop, ◌⊎◌}
use exchange_simulator.Server.Streams.{Owes, bytes_for, unsent}
use exchange_simulator.Server.Sending.{Gone}
use exchange_simulator.Server.Flushed.{AllFit, AnyFailed, flush_pending_writes-Drains}
use exchange_simulator.Tests.Readings.{in_slot_zero}
use exchange_simulator.Server.Rounds.{
  accepted, no_more, accept_failed, failed_accept, connection, ready, Host, Meets, run_rounds,
  accept_client,
}
use exchange_simulator.Server.Watched.{IsWatched, Slot}
use exchange_simulator.Server.Starting.{StartCalls, constructed, started}
use exchange_simulator.Server.Safety.{Polled, Safe, run_rounds-Safe}
use exchange_simulator.Server.Started.{start-Safe}
use exchange_simulator.Tests.Readings.{trickling, one_client, one_client-ReadOk, messages_sent}

one_client-slots : (fd : ℕ) → Slot (one_client.watched fd) (client_at fd one_client.clients)
unfolding client_at
one_client-slots zero = (refl, one_client-ReadOk)
one_client-slots (suc zero) = refl
one_client-slots (suc (suc fd)) = let e : (suc (suc fd) == 0) ≡ false = ground arith in rw e tt

one_client-IsWatched : IsWatched one_client
one_client-IsWatched = record { slots = one_client-slots; pending_ok = tt }

one_client-Owes : Owes one_client 0 []
one_client-Owes = record {
  client = record new_client { active = true };
  in_slot = in_slot_zero;
  is_active = refl;
  counted_right = omega arith;
  owed = refl;
}

abbrev outgoing : List OutboundMessage
outgoing = record { fd = 0; payload = 1 ∷ 2 ∷ [] } ∷ record { fd = 1; payload = 7 ∷ [] } ∷ []

abbrev unsent_of : Outcome ClientState → List ℕ
unsent_of (returned c) = unsent c
unsent_of _ = []

-- One byte is sent of the two.
one_sent : AllFit 0 0 (λ i. sent 1) (0 ∷ []) (drain_outbound_queue outgoing one_client)
unfolding drain_outbound_queue client_at
one_sent = (
  λ e c at on. (
    omega arith,
    let q : 1 ∷ 2 ∷ [] ≡ unsent c = ap unsent_of at in subst (λ b. 1 ≤ length b) q (omega arith),
  ),
  λ t e. tt,
)

flush_pending_writes-Drains_example :
    (s : Server) × (flush_pending_writes (λ i. sent 1) (drain_outbound_queue outgoing one_client)
      ≡ returned s)
    × IsWatched s
    × (Owes s 0 (drop 1 ([] ++ bytes_for 0 outgoing))
        ⊎ (Gone s 0 × AnyFailed 0 0 (λ i. sent 1) (0 ∷ [])))
unfolding drain_outbound_queue client_at
flush_pending_writes-Drains_example =
    flush_pending_writes-Drains outgoing (λ i. sent 1) one_client 0 [] one_client-IsWatched
      one_client-Owes one_sent

-- The connected client has sent two messages.
abbrev host : Host (List ℕ)
host = record { server = one_client; sockets = λ fd. frames messages_sent; inbound = [] }

-- A client connects, and the other one is read from and written to.
abbrev busy_round : Meets
busy_round = record {
  outbound = record { fd = 0; payload = 1 ∷ 2 ∷ [] } ∷ [];
  results = λ i. would_block;
  events = connection (accepted 1 true true ∷ no_more ∷ []) ∷ ready 0 true true 9 (sent 2) ∷ [];
}

abbrev watched_zero : Outcome Server → Option Bool
watched_zero (returned s) = s.watched 0
watched_zero _ = none

busy_round-Polled : Polled (trickling 9) busy_round host
unfolding flush_pending_writes drain_outbound_queue try_send client_at
busy_round-Polled s e = (tt, ((false, sym (ap watched_zero e)), tt))

run_rounds-Safe_example : Safe 2 (run_rounds (trickling 9) (busy_round ∷ []) host)
run_rounds-Safe_example =
    run_rounds-Safe (trickling 9) (busy_round ∷ []) host one_client-IsWatched
      (busy_round-Polled, λ h e. tt)

abbrev all_succeed : StartCalls
all_succeed = record {
  socket = true;
  bind = true;
  listen = true;
  fcntl = true;
  epoll_create = true;
  epoll_ctl = true;
}

-- Two clients connect, and then `accept` fails.
abbrev connecting : List Meets
connecting =
    record {
      outbound = [];
      results = λ i. would_block;
      events =
          connection (accepted 7 true true ∷ accepted 2000 true true ∷ accept_failed ∷ []) ∷ [];
    }
    ∷ []

start-Safe_example : Safe 1024 (
    run_rounds
      (trickling 9)
      connecting
      (record { server = started; sockets = λ fd. []; inbound = [] }))
start-Safe_example =
    start-Safe (trickling 9) all_succeed started (λ fd. []) connecting refl
      (λ s e. (tt, tt), λ h e. tt)

abbrev exceptions_of : Outcome (Unit {0}) × Host (List ℕ) → Outcome (Unit {0})
exceptions_of (out, h) = out

-- An error of `accept` ends the rounds.
accept_ends_rounds :
    exceptions_of (
      run_rounds
        (trickling 9)
        connecting
        (record { server = constructed; sockets = λ fd. []; inbound = [] }))
    ≡ threw failed_accept
unfolding run_rounds flush_pending_writes drain_outbound_queue accept_client
accept_ends_rounds = refl
