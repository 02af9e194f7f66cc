-- ===== src/Processor.antt =====
-- Class `OrderProcessor`: include/order_processor.hpp and src/order_processor.cpp.
-- The outbound ring is the list of the messages pushed to it, oldest first: `process` waits until
-- each push succeeds, while the server's thread takes messages out at the other end.
-- `order_to_client_fd_` is the function of its entries, and the clock is a parameter: `clock i` is its
-- reading number `i` during one call.
pub mod Replies
pub mod Clients
pub mod Soundness
use exchange_simulator.Common.{
  ℕ, suc, ◌+◌, List, [], ◌∷◌, ◌++◌, Option, none, some, update, codes, Outcome, returned, threw,
  undefined, stuck, Exception, runtime_error, what,
}
use exchange_simulator.Types.{
  Side, bid, ask, unnamed_side, Order, Trade, Acknowledgement, Rejection, MessageType, new_order,
  cancel_order as cancel_request, order_ack, reject, trade, cancel_ack, unnamed_message, Message,
  InboundMessage, OutboundMessage,
}
use exchange_simulator.Book.{OrderBook, cancel_order}
use exchange_simulator.Engine.{Matched, match, continue}
use exchange_simulator.Memory.{load}
use exchange_simulator.Serializer.{
  deserialize_order, deserialize_cancel, serialize_trade, serialize_acknowledgement,
  serialize_cancel_ack, serialize_rejection,
}

pub record Processor : Type 0 where
  pub orderbook : OrderBook
  pub order_to_client_fd : ℕ → Option ℕ
  pub outbound : List OutboundMessage

-- What the body of a `try` has done: how it ended, the reply in `buffer`, and the processor.
pub record Attempt : Type 0 where
  pub result : Outcome (Unit {0})
  pub buffer : List ℕ
  pub state : Processor

abbrev pub push_outbound : ℕ → List ℕ → Processor → Processor
push_outbound fd payload p = record p {
  outbound = p.outbound ++ record { fd = fd; payload = payload } ∷ [];
}

-- Goes on with a value, unless there is none.
abbrev pub with_value {ℓ} : {A : Type ℓ} → Outcome A → Attempt → (A → Attempt) → Attempt
with_value (returned v) a f = f v
with_value (threw e) a f = record a { result = threw e }
with_value undefined a f = record a { result = undefined }
with_value stuck a f = record a { result = stuck }

-- `map[id]`: a missing entry is made, with the value 0.
abbrev pub entry_or_zero : Option ℕ → ℕ
entry_or_zero none = 0
entry_or_zero (some fd) = fd

abbrev pub counterparty : Side → Trade → ℕ
counterparty ask t = t.buyer_order_id
counterparty bid t = t.seller_order_id
counterparty (unnamed_side _) t = t.seller_order_id

-- Sends the counterparty of a trade its frame.
abbrev pub notify : Side → Trade → List ℕ → Processor → Processor
notify side t payload p =
    let id = counterparty side t in
    let fd = entry_or_zero (p.order_to_client_fd id) in
    push_outbound fd payload
      (record p { order_to_client_fd = update p.order_to_client_fd id (some fd) })

-- `for (const Trade& trade : trades)`
unfoldable pub report_trades : Side → List Trade → Attempt → Attempt
report_trades side [] a = a
report_trades side (t ∷ ts) a = with_value (serialize_trade t a.buffer) a λ buffer.
    with_value (serialize_trade t []) (record a { buffer = buffer })
      λ cp_buffer.
        report_trades side ts
          (record a { buffer = buffer; state = notify side t cp_buffer a.state })

-- Goes on with an attempt that has returned so far.
abbrev if_returned {ℓ} : {R : Type ℓ} → Outcome (Unit {0}) → R → (Outcome (Unit {0}) → R) → R
if_returned (returned _) go failed = go
if_returned (threw e) go failed = failed (threw e)
if_returned undefined go failed = failed undefined
if_returned stuck go failed = failed stuck

abbrev append_ack : ℕ → Attempt → Attempt
append_ack id a =
    if_returned a.result
      (with_value (serialize_acknowledgement (record { id = id }) a.buffer) a
        λ buffer. record a { buffer = buffer })
      (λ r. a)

-- After `match` has returned: the client is noted, the trades are reported, the order acknowledged.
unfoldable pub accept_order : ℕ → Order → Matched → Processor → Attempt
unfolding report_trades
accept_order fd o m p = append_ack o.id (
    report_trades o.side m.trades (record {
      result = returned tt;
      buffer = [];
      state = record p {
        orderbook = m.book;
        order_to_client_fd = update p.order_to_client_fd o.id (some fd);
      };
    }))

abbrev after_match : ℕ → Order → Matched → Processor → Attempt
after_match fd o m p =
    if_returned m.result (accept_order fd o m p)
      (λ r. record { result = r; buffer = []; state = record p { orderbook = m.book } })

abbrev start_attempt : Processor → Attempt
start_attempt p = record { result = returned tt; buffer = []; state = p }

-- The body of the `try` for a new order.
unfoldable pub try_new_order : (ℕ → ℕ) → ℕ → Message → Processor → Attempt
unfolding accept_order
try_new_order clock fd message p =
    with_value (deserialize_order (clock 0) message) (start_attempt p)
      λ o. after_match fd o (match (λ i. clock (suc i)) o p.orderbook []) p

-- What `cancel_order` did to the book, and the client's entry that goes with a success.
abbrev cancelled : ℕ → List ℕ → Processor → Outcome (Unit {0}) × OrderBook → Attempt
cancelled id buffer p (returned _, b) = record {
  result = returned tt;
  buffer = buffer;
  state = record p { orderbook = b; order_to_client_fd = update p.order_to_client_fd id none };
}
cancelled id buffer p (threw e, b) = record {
  result = threw e;
  buffer = buffer;
  state = record p { orderbook = b };
}
cancelled id buffer p (undefined, b) = record {
  result = undefined;
  buffer = buffer;
  state = record p { orderbook = b };
}
cancelled id buffer p (stuck, b) = record {
  result = stuck;
  buffer = buffer;
  state = record p { orderbook = b };
}

-- The body of the `try` for a cancellation. The acknowledgement is written first.
unfoldable pub try_cancel : Message → Processor → Attempt
try_cancel message p = with_value (deserialize_cancel message) (start_attempt p) λ id.
    with_value (serialize_cancel_ack (record { id = id }) []) (start_attempt p)
      λ buffer. cancelled id buffer p (cancel_order id p.orderbook)

-- `catch (const std::exception& e)`: a rejection is appended to the buffer.
abbrev pub catch_result : Outcome (Unit {0}) → ℕ → Attempt → Attempt
catch_result (threw e) raw_id a =
    with_value (serialize_rejection (record { id = raw_id; reason = what e }) a.buffer) a
      λ buffer. record a { result = returned tt; buffer = buffer }
catch_result (returned _) raw_id a = a
catch_result undefined raw_id a = a
catch_result stuck raw_id a = a

abbrev pub catch_exception : ℕ → Attempt → Attempt
catch_exception raw_id a = catch_result a.result raw_id a

-- Behind the `switch`: the reply goes to the client.
abbrev pub reply : ℕ → Attempt → Outcome (Unit {0}) × Processor
reply fd a =
    if_returned a.result (returned tt, push_outbound fd a.buffer a.state) (λ r. (r, a.state))

-- `raw_id` is copied from the payload before anything is checked.
abbrev given_id :
    Outcome ℕ → Processor → (ℕ → Outcome (Unit {0}) × Processor) → Outcome (Unit {0}) × Processor
given_id (returned raw_id) p f = f raw_id
given_id (threw e) p f = (threw e, p)
given_id undefined p f = (undefined, p)
given_id stuck p f = (stuck, p)

abbrev with_raw_id :
    List ℕ → Processor → (ℕ → Outcome (Unit {0}) × Processor) → Outcome (Unit {0}) × Processor
with_raw_id payload p f = given_id (load 8 0 payload) p f

abbrev pub unknown_message : Exception
unknown_message = runtime_error (codes "unknown message type")

abbrev pub process_type :
    (ℕ → ℕ) → MessageType → InboundMessage → Processor → Outcome (Unit {0}) × Processor
process_type clock new_order i p = with_raw_id i.payload p λ raw_id. reply i.fd (
    catch_exception raw_id
      (try_new_order clock i.fd (record { type = new_order; payload = i.payload }) p))
process_type clock cancel_request i p = with_raw_id i.payload p λ raw_id.
    reply i.fd (
      catch_exception raw_id (try_cancel (record { type = cancel_request; payload = i.payload }) p))
process_type clock order_ack i p = (threw unknown_message, p)
process_type clock reject i p = (threw unknown_message, p)
process_type clock trade i p = (threw unknown_message, p)
process_type clock cancel_ack i p = (threw unknown_message, p)
process_type clock (unnamed_message _) i p = (threw unknown_message, p)

unfoldable pub process : (ℕ → ℕ) → InboundMessage → Processor → Outcome (Unit {0}) × Processor
unfolding try_new_order try_cancel
process clock i p = process_type clock i.type i p

-- The rounds of `run` on the messages that it takes out of the inbound ring. An exception that
-- leaves `process` ends the thread.
unfoldable pub run : List (InboundMessage × (ℕ → ℕ)) → Processor → Outcome (Unit {0}) × Processor
run [] p = (returned tt, p)
run ((i, clock) ∷ is) p = continue (run is) (process clock i p)
