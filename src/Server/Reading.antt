-- ===== src/Server/Reading.antt =====
-- `ExchangeServer::handle_read`, src/exchange_server.cpp.
use exchange_simulator.Common.{
  ℕ, zero, suc, ◌+◌, ◌-◌, List, [], ◌∷◌, ◌++◌, not, ltb, ◌==◌, if◌then◌else◌, length, take, drop,
  get_or, Outcome, returned, undefined, threw, stuck, ◌>>=◌,
}
use exchange_simulator.Types.{message_of_byte, InboundMessage}
use exchange_simulator.Memory.{value_of, htonl, resize, store}
use exchange_simulator.Socket.{RecvResult, received, closed, would_block, failed, Socket}
use exchange_simulator.Server.{
  ReadPhase, header, payload, ClientState, Server, client_at, put_client, disconnect_client,
}

-- The client that is read from, its socket, the messages pushed to the inbound ring, and how many
-- pushes of this call find room: the first that finds none ends the call.
pub record Reading (S : Type 0) : Type 0 where
  pub client : ClientState
  pub socket : S
  pub inbound : List InboundMessage
  pub room : ℕ

-- How a block of the loop ends: it goes on, it leaves the call, it leaves the call for a
-- disconnection, it writes outside of a buffer, or the loop's fuel is spent.
pub data Flow (S : Type 0) : Type 0 where
  on : Reading S → Flow S
  leaves : Reading S → Flow S
  dropped : Reading S → Flow S
  broken : Flow S
  spent : Flow S

-- The payload length that a header holds.
abbrev pub header_length : List ℕ → ℕ
header_length h = htonl (value_of (take 4 (drop 1 h)))

-- The five bytes of the header are there.
abbrev pub parse_header : ClientState → ClientState
parse_header c =
    let n = header_length c.header_buffer in
    record c {
      message_type = message_of_byte (get_or c.header_buffer 0 0);
      payload_length = n;
      read_buffer = resize n c.read_buffer;
      bytes_read = 0;
      read_phase = if n == 0 then header else payload;
    }

abbrev pub inbound_message : ℕ → ClientState → InboundMessage
inbound_message fd c = record { fd = fd; type = c.message_type; payload = c.read_buffer }

module _ {S : Type 0} where
  abbrev pub set_client : ClientState → Reading S → Reading S
  set_client c r = record r { client = c }

  -- After `recv` has written `n` bytes into the header's buffer.
  abbrev pub header_stored : ℕ → Outcome (List ℕ) → Reading S → Flow S
  header_stored n (returned buffer) r =
      let c = record r.client { header_buffer = buffer; bytes_read = r.client.bytes_read + n } in
      if ltb c.bytes_read 5 then leaves (set_client c r) else on (set_client (parse_header c) r)
  header_stored n (threw e) r = broken
  header_stored n undefined r = broken
  header_stored n stuck r = broken

  abbrev pub header_result : RecvResult → Reading S → Flow S
  header_result (received []) r = dropped r
  header_result (received (x ∷ xs)) r =
      header_stored (length (x ∷ xs)) (store r.client.bytes_read (x ∷ xs) r.client.header_buffer) r
  header_result closed r = dropped r
  header_result would_block r = leaves r
  header_result failed r = dropped r

  -- The payload is there: it is pushed, unless the ring is full.
  abbrev pub push_message : ℕ → ℕ → Reading S → Flow S
  push_message fd zero r = leaves r
  push_message fd (suc room) r = on (record r {
    client = record r.client { read_phase = header; bytes_read = 0 };
    inbound = r.inbound ++ inbound_message fd r.client ∷ [];
    room = room;
  })

  -- After `recv` has written `n` bytes into the payload's buffer.
  abbrev pub payload_stored : ℕ → ℕ → Outcome (List ℕ) → Reading S → Flow S
  payload_stored fd n (returned buffer) r =
      let c = record r.client { read_buffer = buffer; bytes_read = r.client.bytes_read + n } in
      if ltb c.bytes_read c.payload_length
      then leaves (set_client c r)
      else push_message fd r.room (set_client c r)
  payload_stored fd n (threw e) r = broken
  payload_stored fd n undefined r = broken
  payload_stored fd n stuck r = broken

  abbrev pub payload_result : ℕ → RecvResult → Reading S → Flow S
  payload_result fd (received []) r = dropped r
  payload_result fd (received (x ∷ xs)) r =
      payload_stored fd (length (x ∷ xs)) (store r.client.bytes_read (x ∷ xs) r.client.read_buffer)
        r
  payload_result fd closed r = dropped r
  payload_result fd would_block r = leaves r
  payload_result fd failed r = dropped r

  -- Goes on with the next block.
  abbrev pub next_block : Flow S → (Reading S → Flow S) → Flow S
  next_block (on r) f = f r
  next_block (leaves r) f = leaves r
  next_block (dropped r) f = dropped r
  next_block broken f = broken
  next_block spent f = spent

module _ {S : Type 0} (k : Socket S) (fd : ℕ) where
  abbrev pub with_recv : ℕ → (RecvResult → Reading S → Flow S) → Reading S → Flow S
  with_recv want f r = let out = k.recv want r.socket in f out.0 (record r { socket = out.1 })

  abbrev pub header_block : ReadPhase → Reading S → Flow S
  header_block header r = with_recv (5 - r.client.bytes_read) header_result r
  header_block payload r = on r

  abbrev pub payload_block : ReadPhase → Reading S → Flow S
  payload_block header r = on r
  payload_block payload r =
      if ltb r.client.bytes_read r.client.payload_length
      then with_recv (r.client.payload_length - r.client.bytes_read) (payload_result fd) r
      else push_message fd r.room r

  -- `while(true)`, on fuel.
  unfoldable pub read_loop : ℕ → Reading S → Flow S
  read_loop zero r = spent
  read_loop (suc fuel) r =
      next_block (header_block r.client.read_phase r)
        λ r'. next_block (payload_block r'.client.read_phase r') (read_loop fuel)

  -- The server and the inbound ring after the loop.
  abbrev pub after_read : Server → Flow S → Outcome (Server × Reading S)
  after_read s (on r) = stuck
  after_read s (leaves r) = returned (put_client fd r.client s, r)
  after_read s (dropped r) = returned (disconnect_client fd s, r)
  after_read s broken = undefined
  after_read s spent = stuck

  -- The pushed messages and the socket are those of the `Reading` that it returns.
  unfoldable pub handle_read :
      ℕ → S → List InboundMessage → ℕ → Server → Outcome (Server × Reading S)
  unfolding read_loop
  handle_read fuel socket inbound room s = do
    c ← client_at fd s.clients
    let r : Reading S = record { client = c; socket = socket; inbound = inbound; room = room }
    if not c.active then returned (s, r) else after_read s (read_loop fuel r)
