-- ===== src/Tests/Requests.antt =====
-- The order processor on concrete requests.
use exchange_simulator.Common.{
  ℕ, suc, ◌+◌, ◌≡◌, ◌≢◌, refl, ◌⊎◌, [], ◌∷◌, ◌++◌, map, none, some, update, returned, threw, arith,
  what,
}
use exchange_simulator.Types.{
  Order, new_order, cancel_order as cancel_request, order_ack, reject, cancel_ack, trade,
  InboundMessage,
}
use exchange_simulator.Order.{zero_quantity, make_order}
use exchange_simulator.Book.{empty_book, cancel_order, order_not_found}
use exchange_simulator.Book.Valid.{empty_book-IsValid}
use exchange_simulator.Book.Cancel.{Cancelled}
use exchange_simulator.Engine.{match}
use exchange_simulator.Memory.{bytes_of, value_of, load, load_bytes}
use exchange_simulator.Serializer.{deserialize_order}
use exchange_simulator.Serializer.Frames.{frame, order_payload, id_payload, rejection_payload}
use exchange_simulator.Processor.{Processor, process, run, push_outbound, unknown_message}
use exchange_simulator.Processor.Replies.{trade_frames, process-invalid_order, process-cancel}
use exchange_simulator.Processor.Clients.{IsSound, notice, process-new_order}
use exchange_simulator.Processor.Soundness.{new_request, cancellation, run-IsSound, run-unknown}
use exchange_simulator.Tests.Wire.{sent}

abbrev pub clock : ℕ → ℕ
clock i = 1000 + i

abbrev pub idle : Processor
idle = record { orderbook = empty_book; order_to_client_fd = λ id. none; outbound = [] }

abbrev pub stamped : Order
stamped = record sent { timestamp = 1000 }

pub idle-IsSound : IsSound idle
idle-IsSound = record { book_ok = empty_book-IsValid; clients_ok = λ id. tt }

abbrev new_message : InboundMessage
new_message = record { fd = 6; type = new_order; payload = order_payload sent }

process-new_order_example :
    let m = match (λ i. clock (suc i)) stamped empty_book [] in
    process clock new_message idle ≡ (
      returned tt,
      record {
        orderbook = m.book;
        order_to_client_fd = update (λ id. none) 258 (some 6);
        outbound =
            []
            ++ (map (notice (λ id. none) stamped) m.trades
                ++ record {
                  fd = 6;
                  payload = trade_frames m.trades ++ frame order_ack (id_payload 258);
                }
                  ∷ []);
      },
    )
process-new_order_example =
    process-new_order clock new_message idle stamped refl
      (unfold deserialize_order load load_bytes bytes_of value_of make_order in refl) idle-IsSound
      refl

abbrev cancel_message : InboundMessage
cancel_message = record { fd = 6; type = cancel_request; payload = id_payload 258 }

cancel_message-id : load 8 0 (id_payload 258) ≡ returned 258
unfolding load load_bytes bytes_of value_of
cancel_message-id = refl

run-IsSound_example :
    let out = run ((new_message, clock) ∷ (cancel_message, clock) ∷ []) idle in
    (out.0 ≡ returned tt) × IsSound out.1
run-IsSound_example =
    run-IsSound ((new_message, clock) ∷ (cancel_message, clock) ∷ []) idle idle-IsSound (
      new_request 258 refl (unfold bytes_of in omega arith)
          (unfold load load_bytes bytes_of value_of in refl) refl,
      (cancellation 258 refl cancel_message-id, tt),
    )

abbrev nothing : Order
nothing = record sent { quantity = 0 }

process-invalid_order_example :
    process clock (record { fd = 6; type = new_order; payload = order_payload nothing }) idle ≡ (
      returned tt,
      push_outbound 6
          (frame reject (rejection_payload (record { id = 258; reason = what zero_quantity })))
          idle,
    )
process-invalid_order_example =
    process-invalid_order clock
      (record { fd = 6; type = new_order; payload = order_payload nothing }) idle 258 zero_quantity
      refl (unfold load load_bytes bytes_of value_of in refl)
      (unfold deserialize_order load load_bytes bytes_of value_of make_order in refl)

process-cancel_example :
    let out = process clock cancel_message idle in
    let cancel = cancel_order 258 empty_book in
    (Cancelled 258 empty_book cancel
      × (out ≡ (
        returned tt,
        push_outbound 6 (frame cancel_ack (id_payload 258)) (record idle {
          orderbook = cancel.1;
          order_to_client_fd = update (λ id. none) 258 none;
        }),
      )))
    ⊎ ((empty_book.order_map 258 ≡ none)
        × (out ≡ (
          returned tt,
          push_outbound 6
              (frame cancel_ack (id_payload 258)
                ++ frame reject
                    (rejection_payload (record { id = 258; reason = what order_not_found })))
              idle,
        )))
process-cancel_example =
    process-cancel clock cancel_message idle 258 refl cancel_message-id empty_book-IsValid

trade_not_new_order : trade ≢ new_order
trade_not_new_order = cc

abbrev stray_message : InboundMessage
stray_message = record { fd = 6; type = trade; payload = [] }

run-unknown_example :
    let out = run ((new_message, clock) ∷ []) idle in
    (run ((new_message, clock) ∷ (stray_message, clock) ∷ (cancel_message, clock) ∷ []) idle
      ≡ (threw unknown_message, out.1))
    × (out.0 ≡ returned tt)
    × IsSound out.1
run-unknown_example =
    run-unknown ((new_message, clock) ∷ []) stray_message clock ((cancel_message, clock) ∷ []) idle
      idle-IsSound
      (
        new_request 258 refl (unfold bytes_of in omega arith)
            (unfold load load_bytes bytes_of value_of in refl) refl,
        tt,
      )
      trade_not_new_order trade_not_cancel
  where
    trade_not_cancel : trade ≢ cancel_request
    trade_not_cancel = cc
