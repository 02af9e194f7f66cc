-- ===== src/Tests/Readings.antt =====
-- The reading of the server on concrete bytes, and rounds of the server.
use exchange_simulator.Common.{
  ℕ, zero, suc, ◌+◌, min, ◌<◌, ◌≤◌, ◌≡◌, refl, sym, ap, List, [], ◌∷◌, some, none, update, true,
  false, returned, arith, length, take, drop, take-drop, Outcome, map,
}
use exchange_simulator.Types.{Message, cancel_order, order_ack, trade, InboundMessage}
use exchange_simulator.Memory.{bytes_of, htonl, store, resize}
use exchange_simulator.Socket.{RecvResult, received, would_block, Socket, IsRecv}
use exchange_simulator.Server.{Server, new_client, client_at}
use exchange_simulator.Server.Reading.{Reading, handle_read}
use exchange_simulator.Server.Framing.{Parser, at_header, at_payload}
use exchange_simulator.Server.Delivery.{ReadOk, held, parser_of}
use exchange_simulator.Server.ReadLoop.{Called, start_reading, handle_read_lem}
use exchange_simulator.Server.Delivered.{frames, inbound_of}
use exchange_simulator.Server.Repeated.{Position}

-- A socket from which at most `cap + 1` bytes are received at once.
abbrev trickle : ℕ → ℕ → List ℕ → RecvResult × List ℕ
trickle cap zero bytes = (would_block, bytes)
trickle cap (suc n) [] = (would_block, [])
trickle cap (suc n) (b ∷ bytes) = (received (b ∷ take (min n cap) bytes), drop (min n cap) bytes)

pub trickle-IsRecv :
    (cap want : ℕ) (s : List ℕ)
    → 0 < want
    → IsRecv want (trickle cap want s).0 s (trickle cap want s).1
trickle-IsRecv cap zero s h = absurd (omega arith)
trickle-IsRecv cap (suc n) [] h = refl
trickle-IsRecv cap (suc n) (b ∷ s) h = (
  omega arith,
  omega (arith, length-take_le (min n cap) s),
  ap (◌∷◌ b) (sym (take-drop (min n cap) s)),
)
  where
    length-take_le : (m : ℕ) (xs : List ℕ) → length (take m xs) ≤ m
    length-take_le zero xs = omega arith
    length-take_le (suc m) [] = omega arith
    length-take_le (suc m) (x ∷ xs) = omega (arith, length-take_le m xs)

abbrev pub trickling : ℕ → Socket (List ℕ)
trickling cap = record { recv = trickle cap; pending = λ s. s; recv_lem = trickle-IsRecv cap }

-- One client is connected, in slot 0.
abbrev pub one_client : Server
one_client = record {
  clients = record new_client { active = true } ∷ new_client ∷ [];
  pending_writes = [];
  watched = update (λ fd. none) 0 (some false);
}

abbrev pub messages_sent : List Message
messages_sent =
    record { type = cancel_order; payload = 7 ∷ 8 ∷ 9 ∷ 10 ∷ [] }
    ∷ record { type = order_ack; payload = 5 ∷ [] }
    ∷ record { type = trade; payload = [] }
    ∷ []

pub one_client-ReadOk : ReadOk (record new_client { active = true })
one_client-ReadOk = record { header_size = refl; phase_ok = omega arith }

-- The messages in the ring, those held back, and the bytes that are left, after a call.
abbrev left : Outcome (Server × Reading (List ℕ)) → List (List InboundMessage) × List ℕ
left (returned (s, r)) = (r.inbound ∷ held 0 r.client ∷ [], r.socket)
left _ = ([], [])

-- The parser of the client after two calls.
abbrev parser_after : Socket (List ℕ) → Outcome (Server × Reading (List ℕ)) → Parser
parser_after k (returned (s, r)) = go (handle_read k 0 20 r.socket r.inbound 9 s)
  where
    go : Outcome (Server × Reading (List ℕ)) → Parser
    go (returned (s, r)) = parser_of r.client
    go _ = at_header []
parser_after k _ = at_header []

-- Calls that receive three bytes at once leave within the header, and then within the payload.
in_parts :
    parser_after
      (trickling 2)
      (handle_read (trickling 2) 0 20 (frames messages_sent) [] 9 one_client)
    ≡ at_payload cancel_order 4 (7 ∷ 8 ∷ 9 ∷ [])
unfolding handle_read client_at bytes_of htonl store resize
in_parts = refl

-- A ring with room for one message: the other is held back, whole.
held_back : left (handle_read (trickling 9) 0 20 (frames messages_sent) [] 1 one_client) ≡ (
  map (inbound_of 0) (take 1 messages_sent)
      ∷ map (inbound_of 0) (take 1 (drop 1 messages_sent))
      ∷ [],
  take 5 (frames (drop 2 messages_sent)),
)
unfolding handle_read client_at bytes_of htonl store resize
held_back = refl

pub in_slot_zero : client_at 0 one_client.clients ≡ returned (record new_client { active = true })
unfolding client_at
in_slot_zero = refl

abbrev start_position : Position (List ℕ)
start_position = record { server = one_client; socket = frames messages_sent; inbound = [] }

frames-length : length (frames messages_sent) + 1 < 40
unfolding bytes_of htonl
frames-length = omega arith

handle_read_lem_example :
    Called
      (trickling 9)
      0
      one_client
      (start_reading
        (trickling 9)
        0
        (record new_client { active = true })
        (frames messages_sent)
        []
        1)
      (handle_read (trickling 9) 0 40 (frames messages_sent) [] 1 one_client)
handle_read_lem_example =
    handle_read_lem (trickling 9) 0 40 1 one_client (record new_client { active = true })
      (frames messages_sent) [] in_slot_zero refl one_client-ReadOk frames-length
