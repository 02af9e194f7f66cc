-- ===== src/Processor/Replies.antt =====
-- What `process` does with each kind of message.
use exchange_simulator.Common.{
  ℕ, suc, ◌≡◌, ◌≢◌, refl, inl, inr, ◌⊎◌, List, [], ◌∷◌, ◌++◌, append-nil, append_assoc, none, some,
  update, Outcome, returned, threw, what, arith,
}
use exchange_simulator.Types.{
  Side, Order, Trade, MessageType, new_order, cancel_order as cancel_request, order_ack, reject,
  trade, cancel_ack, unnamed_message, InboundMessage,
}
use exchange_simulator.Book.{OrderBook, cancel_order, order_not_found}
use exchange_simulator.Book.Valid.{IsValid}
use exchange_simulator.Book.Cancel.{Cancelled, cancel_order_lem}
use exchange_simulator.Engine.{Matched, match}
use exchange_simulator.Engine.Refine.{match-returns}
use exchange_simulator.Memory.{load}
use exchange_simulator.Serializer.{deserialize_order, deserialize_cancel}
use exchange_simulator.Serializer.Frames.{
  frame, id_payload, rejection_payload, trade_payload, serialize_trade-frame,
  serialize_acknowledgement-frame, serialize_cancel_ack-frame, serialize_rejection-frame,
}
use exchange_simulator.Serializer.Decoding.{deserialize_order-IsValid}
use exchange_simulator.Processor.{
  Processor, Attempt, push_outbound, notify, report_trades, accept_order, catch_exception,
  cancelled, reply, process, process_type, unknown_message,
}

-- The frames of the trades, in their order.
abbrev pub trade_frames : List Trade → List ℕ
trade_frames [] = []
trade_frames (t ∷ ts) = frame trade (trade_payload t) ++ trade_frames ts

-- Each counterparty in turn is sent the frame of its trade.
abbrev pub notify_all : Side → List Trade → Processor → Processor
notify_all side [] p = p
notify_all side (t ∷ ts) p = notify_all side ts (notify side t (frame trade (trade_payload t)) p)

report_trades_lem :
    (side : Side) (ts : List Trade) (a : Attempt)
    → report_trades side ts a
      ≡ record a { buffer = a.buffer ++ trade_frames ts; state = notify_all side ts a.state }
unfolding report_trades
report_trades_lem side [] a = rw append-nil
report_trades_lem side (t ∷ ts) a =
    rw (serialize_trade-frame, serialize_trade-frame, report_trades_lem side ts, append_assoc)

-- The processor that has noted the client of an order and taken over the book after its matching.
abbrev pub noted : ℕ → Order → Matched → Processor → Processor
noted fd o m p = record p {
  orderbook = m.book;
  order_to_client_fd = update p.order_to_client_fd o.id (some fd);
}

accept_order_lem :
    (fd : ℕ) (o : Order) (m : Matched) (p : Processor)
    → accept_order fd o m p ≡ record {
      result = returned tt;
      buffer = trade_frames m.trades ++ frame order_ack (id_payload o.id);
      state = notify_all o.side m.trades (noted fd o m p);
    }
unfolding accept_order
accept_order_lem fd o m p = rw (report_trades_lem, serialize_acknowledgement-frame)

-- On a valid book, an order that is read from a payload is matched, and its client is noted; every
-- counterparty is notified, and then the client.
pub process-decoded_order :
    (clock : ℕ → ℕ) (i : InboundMessage) (p : Processor) (o : Order)
    → i.type ≡ new_order
    → deserialize_order (clock 0) (record { type = new_order; payload = i.payload }) ≡ returned o
    → IsValid p.orderbook
    → let m = match (λ k. clock (suc k)) o p.orderbook [] in
      process clock i p ≡ (
        returned tt,
        push_outbound i.fd
            (trade_frames m.trades ++ frame order_ack (id_payload o.id))
            (notify_all o.side m.trades (noted i.fd o m p)),
      )
unfolding process
process-decoded_order clock i p o t e v =
    let (h, vo) =
      deserialize_order-IsValid (clock 0) (record { type = new_order; payload = i.payload }) o e in
    rw (t, h, e, match-returns (λ k. clock (suc k)) o p.orderbook [] vo v, accept_order_lem)

-- Bytes that `Order`'s constructor refuses are answered by one rejection, with the id that they
-- begin with and the reason of the refusal; nothing else changes.
pub process-invalid_order :
    (clock : ℕ → ℕ) (i : InboundMessage) (p : Processor) (raw_id : ℕ) (e : _)
    → i.type ≡ new_order
    → load 8 0 i.payload ≡ returned raw_id
    → deserialize_order (clock 0) (record { type = new_order; payload = i.payload }) ≡ threw e
    → process clock i p ≡ (
      returned tt,
      push_outbound i.fd
          (frame reject (rejection_payload (record { id = raw_id; reason = what e })))
          p,
    )
unfolding process
process-invalid_order clock i p raw_id e t h k =
    ground (arith, serialize_rejection-frame (record { id = raw_id; reason = what e }) [])

-- On a valid book and a payload of an id at least, `process` returns. A cancellation of a known id is
-- acknowledged, and the order and the client's entry are gone. One of an unknown id changes neither
-- the book nor the entries, and is answered by an acknowledgement of the cancellation followed, in
-- the same message, by its rejection.
pub process-cancel :
    (clock : ℕ → ℕ) (i : InboundMessage) (p : Processor) (id : ℕ)
    → i.type ≡ cancel_request
    → load 8 0 i.payload ≡ returned id
    → IsValid p.orderbook
    → let out = process clock i p in
      let cancel = cancel_order id p.orderbook in
      (Cancelled id p.orderbook cancel
        × (out ≡ (
          returned tt,
          push_outbound i.fd (frame cancel_ack (id_payload id)) (record p {
            orderbook = cancel.1;
            order_to_client_fd = update p.order_to_client_fd id none;
          }),
        )))
      ⊎ ((p.orderbook.order_map id ≡ none)
          × (out ≡ (
            returned tt,
            push_outbound i.fd
                (frame cancel_ack (id_payload id)
                  ++ frame reject
                      (rejection_payload (record { id = id; reason = what order_not_found })))
                p,
          )))
unfolding process deserialize_cancel
process-cancel clock i p id t h v = elim (cancel_order_lem id p.orderbook v) [
  | inl (e, c) ↦ inr (e, rw (t, h, serialize_cancel_ack-frame, c, serialize_rejection-frame))
  | inr c ↦ inl (
    c,
    rw (t, h, serialize_cancel_ack-frame)
        (cancelled_returned (cancel_order id p.orderbook) c.returns),
  )
]
  where
    cancelled_returned :
        (r : Outcome (Unit {0}) × OrderBook)
        → r.0 ≡ returned tt
        → reply i.fd
            (catch_exception id (cancelled id ([] ++ frame cancel_ack (id_payload id)) p r))
          ≡ (
            returned tt,
            push_outbound i.fd (frame cancel_ack (id_payload id)) (record p {
              orderbook = r.1;
              order_to_client_fd = update p.order_to_client_fd id none;
            }),
          )
    cancelled_returned (r, b) e = rw e

-- A message of a type other than a new order or a cancellation makes `process` throw, whatever its
-- payload; the processor is left as it was.
pub process-unknown :
    (clock : ℕ → ℕ) (i : InboundMessage) (p : Processor)
    → i.type ≢ new_order
    → i.type ≢ cancel_request
    → process clock i p ≡ (threw unknown_message, p)
unfolding process
process-unknown clock i p h k = by_type i.type h k
  where
    by_type :
        (t : MessageType)
        → t ≢ new_order
        → t ≢ cancel_request
        → process_type clock t i p ≡ (threw unknown_message, p)
    by_type new_order a b = absurd (a refl)
    by_type cancel_request a b = absurd (b refl)
    by_type order_ack a b = refl
    by_type reject a b = refl
    by_type trade a b = refl
    by_type cancel_ack a b = refl
    by_type (unnamed_message c) a b = refl
