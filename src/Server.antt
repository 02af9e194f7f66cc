-- ===== src/Server.antt =====
-- The write path of class `ExchangeServer`: include/client_state.hpp, and in src/exchange_server.cpp
-- drain_outbound_queue, flush_pending_writes, try_send, handle_write, set_epoll_write and
-- disconnect_client. The result of each `send` is an input. What epoll watches for a file descriptor
-- is the function of its entries: whether it is watched for writing. An index outside of `clients_`
-- is undefined.
pub mod Streams
pub mod Reading
pub mod Framing
pub mod Delivery
pub mod HeaderBlock
pub mod PayloadBlock
pub mod ReadLoop
pub mod Delivered
pub mod Repeated
pub mod Rounds
pub mod Watched
pub mod Writing
pub mod Admission
pub mod Starting
pub mod Flushing
pub mod Sending
pub mod Flushed
pub mod Safety
pub mod Started
use exchange_simulator.Common.{
  ℕ, zero, suc, ◌+◌, List, [], ◌∷◌, ◌++◌, Option, none, some, Bool, true, false, not, update, ltb,
  leb, ◌==◌, if◌then◌else◌, length, set, replicate, Outcome, returned, undefined, ◌>>=◌,
}
use exchange_simulator.Types.{MessageType, unnamed_message, OutboundMessage}

pub data ReadPhase : Type 0 where
  header payload : ReadPhase

pub record ClientState : Type 0 where
  pub read_phase : ReadPhase
  pub message_type : MessageType
  pub header_buffer : List ℕ
  pub read_buffer : List ℕ
  pub write_buffer : List ℕ
  pub payload_length : ℕ
  pub bytes_read : ℕ
  pub bytes_sent : ℕ
  pub send_size : ℕ
  pub active : Bool

-- `ClientState{}`
abbrev pub new_client : ClientState
new_client = record {
  read_phase = header;
  message_type = unnamed_message 0;
  header_buffer = replicate 5 0;
  read_buffer = [];
  write_buffer = [];
  payload_length = 0;
  bytes_read = 0;
  bytes_sent = 0;
  send_size = 0;
  active = false;
}

pub record Server : Type 0 where
  pub clients : List ClientState
  pub pending_writes : List ℕ
  pub watched : ℕ → Option Bool

-- What `send` returns: a count of bytes, 0, or -1 with EAGAIN or with another error.
pub data SendResult : Type 0 where
  sent : ℕ → SendResult
  nothing would_block failed : SendResult

-- `clients_[fd]`
unfoldable pub client_at : ℕ → List ClientState → Outcome ClientState
client_at fd [] = undefined
client_at zero (c ∷ cs) = returned c
client_at (suc fd) (c ∷ cs) = client_at fd cs

abbrev pub put_client : ℕ → ClientState → Server → Server
put_client fd c s = record s { clients = set s.clients fd c }

abbrev pub set_epoll_write : ℕ → Bool → Server → Server
set_epoll_write fd enable s = record s { watched = update s.watched fd (some enable) }

abbrev pub disconnect_client : ℕ → Server → Server
disconnect_client fd s = put_client fd new_client (record s { watched = update s.watched fd none })

abbrev pub cleared : ClientState → ClientState
cleared c = record c { write_buffer = []; bytes_sent = 0 }

abbrev pub counted : ℕ → ClientState → ClientState
counted n c = record c { bytes_sent = c.bytes_sent + n }

abbrev pub is_empty : List ℕ → Bool
is_empty [] = true
is_empty (x ∷ xs) = false

-- What `try_send` does with the result of its `send`.
abbrev pub after_try_send : ℕ → ClientState → SendResult → Server → Server
after_try_send fd c (sent n) s =
    if (c.bytes_sent + n) == length c.write_buffer
    then put_client fd (cleared c) s
    else set_epoll_write fd true (put_client fd (counted n c) s)
after_try_send fd c nothing s = disconnect_client fd s
after_try_send fd c would_block s = s
after_try_send fd c failed s = disconnect_client fd s

unfoldable pub try_send : ℕ → SendResult → Server → Outcome Server
try_send fd result s = do
  c ← client_at fd s.clients
  if not c.active
      then returned s
      else if is_empty c.write_buffer
      then returned s
      else returned (after_try_send fd c result s)

-- What `handle_write` does with the result of its `send`.
abbrev pub after_handle_write : ℕ → ClientState → SendResult → Server → Server
after_handle_write fd c (sent n) s =
    if ltb (c.bytes_sent + n) (length c.write_buffer)
    then put_client fd (counted n c) s
    else set_epoll_write fd false (put_client fd (cleared c) s)
after_handle_write fd c nothing s = disconnect_client fd s
after_handle_write fd c would_block s = s
after_handle_write fd c failed s = disconnect_client fd s

unfoldable pub handle_write : ℕ → SendResult → Server → Outcome Server
handle_write fd result s = do
  c ← client_at fd s.clients
  if not c.active then returned s else returned (after_handle_write fd c result s)

-- One message of `drain_outbound_queue`, for the slot of its client.
abbrev pub enqueue : OutboundMessage → Outcome ClientState → Server → Server
enqueue m (returned c) s =
    if not c.active
    then s
    else record (put_client m.fd (record c { write_buffer = c.write_buffer ++ m.payload }) s) {
      pending_writes = s.pending_writes ++ m.fd ∷ [];
    }
enqueue m _ s = s

-- The messages that the loop takes out of the outbound ring.
unfoldable pub drain_outbound_queue : List OutboundMessage → Server → Server
drain_outbound_queue [] s = s
drain_outbound_queue (m ∷ ms) s =
    drain_outbound_queue ms
      (if leb (length s.clients) m.fd then s else enqueue m (client_at m.fd s.clients) s)

-- The loop over the pending descriptors; `results i` answers the `i`-th of them.
unfoldable pub flush_from : ℕ → (ℕ → SendResult) → List ℕ → Server → Outcome Server
flush_from i results [] s = returned s
flush_from i results (fd ∷ fds) s = do
  s' ← try_send fd (results i) s
  flush_from (i + 1) results fds s'

unfoldable pub flush_pending_writes : (ℕ → SendResult) → Server → Outcome Server
unfolding flush_from
flush_pending_writes results s = do
  s' ← flush_from 0 results s.pending_writes s
  returned (record s' { pending_writes = [] })
