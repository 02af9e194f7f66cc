-- ===== src/Tests/Servers.antt =====
-- The write path of the server on concrete messages.
use exchange_simulator.Common.{
  ◌≡◌, refl, List, [], ◌∷◌, ◌++◌, some, none, update, true, false, returned, ◌>>=◌, arith,
}
use exchange_simulator.Types.{OutboundMessage}
use exchange_simulator.Server.{
  Server, new_client, client_at, sent, nothing, try_send, handle_write, drain_outbound_queue,
}
use exchange_simulator.Server.Streams.{Owes, bytes_for, drain_outbound_queue-Owes, send-Owes}

-- One client is connected, in slot 0.
abbrev pub connected : Server
connected = record {
  clients = record new_client { active = true } ∷ [];
  pending_writes = [];
  watched = λ fd. some false;
}

abbrev messages : List OutboundMessage
messages =
    record { fd = 0; payload = 1 ∷ 2 ∷ [] }
    ∷ record { fd = 7; payload = 9 ∷ [] }
    ∷ record { fd = 0; payload = 3 ∷ [] }
    ∷ []

pub connected-Owes : Owes connected 0 []
connected-Owes = record {
  client = record new_client { active = true };
  in_slot = unfold client_at in refl;
  is_active = refl;
  counted_right = omega arith;
  owed = refl;
}

drain_outbound_queue-Owes_example :
    Owes (drain_outbound_queue messages connected) 0 ([] ++ bytes_for 0 messages)
drain_outbound_queue-Owes_example = drain_outbound_queue-Owes messages connected 0 [] connected-Owes

abbrev drained : Server
drained = drain_outbound_queue messages connected

send-Owes_example :
    ((s : Server) × (try_send 0 (sent 2) drained ≡ returned s) × Owes s 0 (3 ∷ []))
    × ((s : Server) × (handle_write 0 (sent 2) drained ≡ returned s) × Owes s 0 (3 ∷ []))
send-Owes_example =
    send-Owes 2 drained 0 (1 ∷ 2 ∷ 3 ∷ []) drain_outbound_queue-Owes_example (omega arith)
      (omega arith)

-- A send that is not enough, one by `try_send` that is, and the write event that is still watched
-- for, at which `send` is asked for no bytes and returns 0: the client is disconnected.
live_client_lost :
    (do s ← try_send 0 (sent 2) drained; s' ← try_send 0 (sent 1) s; handle_write 0 nothing s')
    ≡ returned (record {
      clients = new_client ∷ [];
      pending_writes = 0 ∷ 0 ∷ [];
      watched = update (update (λ fd. some false) 0 (some true)) 0 none;
    })
unfolding try_send handle_write drain_outbound_queue client_at
live_client_lost = refl
