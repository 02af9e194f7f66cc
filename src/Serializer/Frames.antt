-- ===== src/Serializer/Frames.antt =====
-- What each `serialize_*` appends to its buffer: one frame of the wire format, a type byte, the
-- length of the payload in network order, and the payload.
use exchange_simulator.Common.{
  ℕ, ◌+◌, ◌%◌, ◌^◌, ◌≡◌, ◌∙◌, List, ◌++◌, append-nil, length, length-append, returned, arith,
}
use exchange_simulator.Types.{
  byte_of_side, byte_of_type, Order, Trade, Acknowledgement, Rejection, MessageType, new_order,
  cancel_order, order_ack, reject, trade, cancel_ack, byte_of_message,
}
use exchange_simulator.Memory.{bytes_of, htonl, resize, store_fields}
use exchange_simulator.Memory.Laws.{length-bytes_of, joined, store_fields-joined, resize_more}
use exchange_simulator.Serializer.{
  serialize_order, serialize_cancel, serialize_acknowledgement, serialize_rejection,
  serialize_trade, serialize_cancel_ack,
}

-- The wire format.
abbrev pub frame : MessageType → List ℕ → List ℕ
frame type payload =
    bytes_of 1 (byte_of_message type) ++ (bytes_of 4 (htonl (length payload % 2 ^ 32)) ++ payload)

abbrev pub order_payload : Order → List ℕ
order_payload o =
    bytes_of 8 o.id
    ++ (bytes_of 8 o.price
        ++ (bytes_of 4 o.quantity
            ++ (bytes_of 1 (byte_of_side o.side) ++ bytes_of 1 (byte_of_type o.order_type))))

abbrev pub id_payload : ℕ → List ℕ
id_payload id = bytes_of 8 id

abbrev pub rejection_payload : Rejection → List ℕ
rejection_payload r = bytes_of 8 r.id ++ (bytes_of 4 (length r.reason) ++ r.reason)

abbrev pub trade_payload : Trade → List ℕ
trade_payload t =
    bytes_of 8 t.price
    ++ (bytes_of 8 t.buyer_order_id
        ++ (bytes_of 8 t.seller_order_id ++ (bytes_of 4 t.quantity ++ bytes_of 8 t.timestamp)))

-- Growing the buffer by the length of the fields and copying them in appends them.
store_grown :
    (buffer : List ℕ) (fs : List (List ℕ)) (n : ℕ)
    → length (joined fs) ≡ n
    → store_fields (length buffer) fs (resize (length buffer + n) buffer)
      ≡ returned (buffer ++ joined fs)
store_grown buffer fs n e =
    rw (← e, resize_more buffer (length (joined fs))) (store_fields-joined buffer fs)

-- The length of bytes_of and of a joined list, as `simp` computes it.
ruleset lengths = (length-append, length-bytes_of, append-nil)

pub length-order_payload : (o : Order) → length (order_payload o) ≡ 22
length-order_payload o = simp lengths

length-trade_payload : (t : Trade) → length (trade_payload t) ≡ 36
length-trade_payload t = simp lengths

length-rejection_payload : (r : Rejection) → length (rejection_payload r) ≡ 8 + 4 + length r.reason
length-rejection_payload r = simp lengths (omega arith)

-- Each serializer appends one frame with its type and payload, and writes within the buffer.
pub serialize_order-frame :
    (o : Order) (buffer : List ℕ)
    → serialize_order o buffer ≡ returned (buffer ++ frame new_order (order_payload o))
unfolding serialize_order
serialize_order-frame o buffer =
    store_grown buffer _ 27 (simp lengths) ∙ rw (length-order_payload o, append-nil)

pub serialize_cancel-frame :
    (id : ℕ) (buffer : List ℕ)
    → serialize_cancel id buffer ≡ returned (buffer ++ frame cancel_order (id_payload id))
unfolding serialize_cancel
serialize_cancel-frame id buffer =
    store_grown buffer _ 13 (simp lengths) ∙ rw (length-bytes_of, append-nil)

pub serialize_acknowledgement-frame :
    (a : Acknowledgement) (buffer : List ℕ)
    → serialize_acknowledgement a buffer ≡ returned (buffer ++ frame order_ack (id_payload a.id))
unfolding serialize_acknowledgement
serialize_acknowledgement-frame a buffer =
    store_grown buffer _ 13 (simp lengths) ∙ rw (length-bytes_of, append-nil)

pub serialize_cancel_ack-frame :
    (a : Acknowledgement) (buffer : List ℕ)
    → serialize_cancel_ack a buffer ≡ returned (buffer ++ frame cancel_ack (id_payload a.id))
unfolding serialize_cancel_ack
serialize_cancel_ack-frame a buffer =
    store_grown buffer _ 13 (simp lengths) ∙ rw (length-bytes_of, append-nil)

pub serialize_trade-frame :
    (t : Trade) (buffer : List ℕ)
    → serialize_trade t buffer ≡ returned (buffer ++ frame trade (trade_payload t))
unfolding serialize_trade
serialize_trade-frame t buffer =
    store_grown buffer _ 41 (simp lengths) ∙ rw (length-trade_payload t, append-nil)

pub serialize_rejection-frame :
    (r : Rejection) (buffer : List ℕ)
    → serialize_rejection r buffer ≡ returned (buffer ++ frame reject (rejection_payload r))
unfolding serialize_rejection
serialize_rejection-frame r buffer =
    store_grown buffer _ (5 + (8 + 4 + length r.reason)) (simp lengths (omega arith))
    ∙ rw (length-rejection_payload r, append-nil)
