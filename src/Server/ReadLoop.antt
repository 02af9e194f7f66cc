-- ===== src/Server/ReadLoop.antt =====
-- The loop of `handle_read` ends, and so does the call; what it has done with the bytes received.
use exchange_simulator.Common.{
  ℕ, zero, suc, ◌+◌, ◌<◌, ◌≡◌, refl, sym, ap, subst, ◌⊎◌, inl, inr, List, true, length,
  length-append, not, if◌then◌else◌, Outcome, returned, arith,
}
use exchange_simulator.Types.{InboundMessage}
use exchange_simulator.Socket.{Socket}
use exchange_simulator.Server.{
  ReadPhase, header, payload, ClientState, Server, client_at, put_client, disconnect_client,
}
use exchange_simulator.Server.Reading.{
  Reading, Flow, on, leaves, dropped, broken, spent, next_block, header_block, payload_block,
  read_loop, after_read, handle_read,
}
use exchange_simulator.Server.Delivery.{
  ReadOk, Follows, FlowOk, Settled, Lost, FlowOk-trans, AtHeader, Drew,
}
use exchange_simulator.Server.HeaderBlock.{header_block-ok}
use exchange_simulator.Server.PayloadBlock.{payload_block-ok}

module _ {S : Type 0} (k : Socket S) (fd : ℕ) where
  -- The loop does not end by going on.
  abbrev Never : Reading S → Type 0
  Never r = ⊥

  abbrev to_come : Reading S → ℕ
  to_come r = length (k.pending r.socket)

  Follows-le : (r r' : Reading S) (n : ℕ) → Follows k fd r r' → to_come r < n → to_come r' < n
  Follows-le r r' n f h =
      omega (arith, ap length f.drawn, length-append f.bytes (k.pending r'.socket))

  -- A loop that ends from the header of a message, with few enough bytes to come.
  abbrev Ends : ℕ → (Reading S → Flow S) → Type 0
  Ends n loop =
      (r : Reading S)
      → AtHeader k fd r
      → ReadOk r.client
      → to_come r < n
      → FlowOk k fd Never r (loop r)

  -- The loop after the second block.
  after_payload :
      (loop : Reading S → Flow S) (n : ℕ) (r : Reading S)
      → Ends n loop
      → to_come r < n
      → (f : Flow S) → FlowOk k fd (AtHeader k fd) r f
      → FlowOk k fd Never r (next_block f loop)
  after_payload loop n r ends h (on s) (a, p) =
      FlowOk-trans k fd Never r s (loop s) a (ends s p a.ok (Follows-le r s n a h))
  after_payload loop n r ends h (leaves s) a = a
  after_payload loop n r ends h (dropped s) a = a
  after_payload loop n r ends h broken a = a
  after_payload loop n r ends h spent a = a

  -- The second block and the loop after it.
  second_block :
      (loop : Reading S → Flow S) (n : ℕ) (r : Reading S)
      → Ends n loop
      → to_come r < n
      → ReadOk r.client
      → (p : ReadPhase) → r.client.read_phase ≡ p
      → FlowOk k fd Never r (next_block (payload_block k fd p r) loop)
  second_block loop n r ends h ok header e = ends r e ok h
  second_block loop n r ends h ok payload e =
      after_payload loop n r ends h (payload_block k fd payload r) (payload_block-ok k fd r e ok)

  -- The blocks of a round from the header of a message.
  after_header :
      (loop : Reading S → Flow S) (n : ℕ) (r : Reading S)
      → Ends n loop
      → to_come r < suc n
      → (f : Flow S) → FlowOk k fd (Drew k fd r) r f
      → FlowOk k fd Never r
          (next_block f λ s. next_block (payload_block k fd s.client.read_phase s) loop)
  after_header loop n r ends h (on s) (a, drew) =
      FlowOk-trans k fd Never r s _ a
        (second_block loop n s ends (omega arith) a.ok s.client.read_phase refl)
  after_header loop n r ends h (leaves s) a = a
  after_header loop n r ends h (dropped s) a = a
  after_header loop n r ends h broken a = a
  after_header loop n r ends h spent a = a

  read_loop-Ends : (fuel : ℕ) → Ends fuel (read_loop k fd fuel)
  unfolding read_loop
  read_loop-Ends zero r e ok h = absurd (omega arith)
  read_loop-Ends (suc fuel) r e ok h =
      subst
        (λ p. FlowOk k fd Never r (
          next_block (header_block k fd p r)
            λ s. next_block (payload_block k fd s.client.read_phase s) (read_loop k fd fuel)))
        (sym e)
        (after_header (read_loop k fd fuel) fuel r (read_loop-Ends fuel) h
          (header_block k fd header r) (header_block-ok k fd r e ok))

  read_loop-ok :
      (fuel : ℕ) (r : Reading S) (p : ReadPhase)
      → r.client.read_phase ≡ p
      → ReadOk r.client
      → to_come r < fuel
      → FlowOk k fd Never r (read_loop k fd (suc fuel) r)
  unfolding read_loop
  read_loop-ok fuel r header e ok h = read_loop-Ends (suc fuel) r e ok (omega arith)
  read_loop-ok fuel r payload e ok h =
      subst
        (λ p. FlowOk k fd Never r (
          next_block (header_block k fd p r)
            λ s. next_block (payload_block k fd s.client.read_phase s) (read_loop k fd fuel)))
        (sym e)
        (second_block (read_loop k fd fuel) fuel r (read_loop-Ends fuel) h ok r.client.read_phase
          refl)

  -- What a call has done from `r`, and with which result.
  pub record Called (s : Server) (r : Reading S) (out : Outcome (Server × Reading S)) : Type 0 where
    pub reading : Reading S
    pub follows : Follows k fd r reading
    pub ends :
        ((out ≡ returned (put_client fd reading.client s, reading)) × Settled k fd reading)
        ⊎ ((out ≡ returned (disconnect_client fd s, reading)) × Lost k fd reading)

  called :
      (s : Server) (r : Reading S) (f : Flow S)
      → FlowOk k fd Never r f
      → Called s r (after_read k fd s f)
  called s r (on t) (a, p) = absurd p
  called s r (leaves t) (a, p) = record { reading = t; follows = a; ends = inl (refl, p) }
  called s r (dropped t) (a, p) = record { reading = t; follows = a; ends = inr (refl, p) }
  called s r broken a = absurd a
  called s r spent a = absurd a

  abbrev pub start_reading : ClientState → S → List InboundMessage → ℕ → Reading S
  start_reading c socket inbound room = record {
    client = c;
    socket = socket;
    inbound = inbound;
    room = room;
  }

  -- A call for a connected client ends, within as many rounds as there are bytes to come and two
  -- more, and it writes to no place outside of its buffers. The messages in the bytes that it has
  -- received are pushed to the inbound ring, in their order and behind those that were there and the
  -- one that was held back, and what is read of the next message is kept. The client stays connected
  -- if the last `recv` has found no bytes now, or fewer than asked for, and no message is held back;
  -- or if the ring has no room for the message at hand, which is held back whole. Or the last `recv`
  -- has found that the peer has closed, or has failed with another error than EAGAIN, and the client
  -- is disconnected after the pushes.
  pub handle_read_lem :
      (fuel room : ℕ) (s : Server) (c : ClientState) (socket : S) (inbound : List InboundMessage)
      → client_at fd s.clients ≡ returned c
      → c.active ≡ true
      → ReadOk c
      → length (k.pending socket) + 1 < fuel
      → Called s (start_reading c socket inbound room) (handle_read k fd fuel socket inbound room s)
  unfolding handle_read
  handle_read_lem zero room s c socket inbound e a ok h = absurd (omega arith)
  handle_read_lem (suc fuel) room s c socket inbound e a ok h =
      let r : Reading S = start_reading c socket inbound room in
      let loop = read_loop k fd (suc fuel) r in
      rw e (
        subst (λ b. Called s r (if not b then returned (s, r) else after_read k fd s loop)) (sym a)
          (called s r loop (read_loop-ok fuel r c.read_phase refl ok (omega arith))))
