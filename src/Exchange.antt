-- ===== src/Exchange.antt =====
-- The processor of src/order_processor.cpp and the server of src/exchange_server.cpp together: what a
-- new order makes the server send. The outbound ring between them is the list of its messages.
use exchange_simulator.Common.{
  ℕ, suc, ◌≡◌, refl, sym, ap, ◌∙◌, subst, inl, inr, List, [], ◌∷◌, ◌++◌, map, append-nil,
  append_assoc, none, ◌==◌, Bool-cases, if◌then◌else◌, returned,
}
use exchange_simulator.Types.{Order, new_order, order_ack, InboundMessage, OutboundMessage}
use exchange_simulator.Order.Valid.{IsValid as IsValidOrder}
use exchange_simulator.Engine.{match}
use exchange_simulator.Serializer.Frames.{frame, id_payload, order_payload}
use exchange_simulator.Serializer.RoundTrip.{OrderFits, deserialize_order-payload}
use exchange_simulator.Serializer.{deserialize_order}
use exchange_simulator.Processor.{Processor, process}
use exchange_simulator.Processor.Replies.{trade_frames}
use exchange_simulator.Processor.Clients.{IsSound, notice, process-new_order}
use exchange_simulator.Server.{Server, drain_outbound_queue}
use exchange_simulator.Server.Streams.{Owes, bytes_for, drain_outbound_queue-Owes}

bytes_for-append :
    (fd : ℕ) (xs ys : List OutboundMessage)
    → bytes_for fd (xs ++ ys) ≡ bytes_for fd xs ++ bytes_for fd ys
bytes_for-append fd [] ys = refl
bytes_for-append fd (x ∷ xs) ys = elim (Bool-cases (x.fd == fd)) [
  | inl same ↦ rw same (
      ap (λ b. x.payload ++ b) (bytes_for-append fd xs ys)
      ∙ sym (append_assoc x.payload (bytes_for fd xs) (bytes_for fd ys)))
  | inr other ↦ rw other (bytes_for-append fd xs ys)
]

bytes_for_one :
    (fd k : ℕ) (payload : List ℕ)
    → bytes_for fd (record { fd = k; payload = payload } ∷ []) ≡ (if k == fd then payload else [])
bytes_for_one fd k payload = elim (Bool-cases (k == fd)) [
  | inl same ↦ rw same (append-nil payload)
  | inr other ↦ rw other
]

-- An order with fields that fit, that is valid, and whose id is not resting, arrives at a sound
-- processor with an empty outbound ring, as the payload that the client's serializer writes. The
-- processor answers, and when the server has taken the answers out, each connected client is owed,
-- behind what it was owed, its notices of the trades, in their order; and the client of the order in
-- addition all trades and, at the end, the acknowledgement of its id.
pub process-drain_outbound_queue :
    (clock : ℕ → ℕ) (i : InboundMessage) (p : Processor) (o : Order) (s : Server) (fd : ℕ)
    (bytes : List ℕ)
    → i.type ≡ new_order
    → i.payload ≡ order_payload o
    → OrderFits o
    → IsValidOrder o
    → IsSound p
    → p.outbound ≡ []
    → p.orderbook.order_map o.id ≡ none
    → Owes s fd bytes
    → let stamped : Order = record o { timestamp = clock 0 } in
      let trades = (match (λ k. clock (suc k)) stamped p.orderbook []).trades in
      let out = process clock i p in
      (out.0 ≡ returned tt)
      × Owes (drain_outbound_queue out.1.outbound s) fd (
          bytes
          ++ (bytes_for fd (map (notice p.order_to_client_fd stamped) trades)
              ++ (if i.fd == fd
                  then trade_frames trades ++ frame order_ack (id_payload o.id)
                  else [])))
process-drain_outbound_queue clock i p o s fd bytes t e f v sound empty fresh owed =
    let stamped : Order = record o { timestamp = clock 0 } in
    let trades = (match (λ k. clock (suc k)) stamped p.orderbook []).trades in
    let read =
      ap (λ b. deserialize_order (clock 0) (record { type = new_order; payload = b })) e
      ∙ deserialize_order-payload (clock 0) o new_order f v in
    let done = process-new_order clock i p stamped t read sound fresh in
    let notices = map (notice p.order_to_client_fd stamped) trades in
    let reply : OutboundMessage = record {
      fd = i.fd;
      payload = trade_frames trades ++ frame order_ack (id_payload o.id);
    } in
    let sent : (process clock i p).1.outbound ≡ notices ++ reply ∷ [] =
      ap (λ x. x.1.outbound) done ∙ ap (λ b. b ++ (notices ++ reply ∷ [])) empty in
    let each : bytes_for fd (process clock i p).1.outbound
        ≡ bytes_for fd notices ++ (if i.fd == fd then reply.payload else []) =
      ap (bytes_for fd) sent
      ∙ bytes_for-append fd notices (reply ∷ [])
      ∙ ap (λ b. bytes_for fd notices ++ b) (bytes_for_one fd i.fd reply.payload) in
    (
      ap (λ x. x.0) done,
      subst (λ b. Owes (drain_outbound_queue (process clock i p).1.outbound s) fd (bytes ++ b)) each
          (drain_outbound_queue-Owes (process clock i p).1.outbound s fd bytes owed),
    )
