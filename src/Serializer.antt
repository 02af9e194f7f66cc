-- ===== src/Serializer.antt =====
-- Class `BinarySerializer`: include/serializer.hpp, include/binary_serializer.hpp and
-- src/binary_serializer.cpp. Each `serialize_*` grows the buffer by a header of five bytes and the
-- payload, and copies the fields in, each behind the one before it; a write outside of the buffer
-- would be `undefined`. Each `deserialize_*` copies its fields out of the payload; a payload that is
-- too short is read out of bounds, which is `undefined`.
pub mod Frames
pub mod RoundTrip
pub mod Decoding
pub mod Interface
use exchange_simulator.Common.{ℕ, ◌+◌, ◌%◌, ◌^◌, List, [], ◌∷◌, length, Outcome, returned, ◌>>=◌}
use exchange_simulator.Types.{
  side_of_byte, byte_of_side, type_of_byte, byte_of_type, Order, Trade, Acknowledgement, Rejection,
  MessageType, new_order, cancel_order, order_ack, reject, trade, cancel_ack, byte_of_message,
  Message,
}
use exchange_simulator.Order.{make_order}
use exchange_simulator.Memory.{bytes_of, htonl, resize, store_fields, load_bytes, load}

abbrev header_size : ℕ
header_size = 5

abbrev pub order_size : ℕ
order_size = 22

abbrev pub id_size : ℕ
id_size = 8

abbrev pub trade_size : ℕ
trade_size = 36

unfoldable pub serialize_order : Order → List ℕ → Outcome (List ℕ)
serialize_order o buffer =
    store_fields (length buffer)
      (bytes_of 1 (byte_of_message new_order)
        ∷ bytes_of 4 (htonl (order_size % 2 ^ 32))
        ∷ bytes_of 8 o.id
        ∷ bytes_of 8 o.price
        ∷ bytes_of 4 o.quantity
        ∷ bytes_of 1 (byte_of_side o.side)
        ∷ bytes_of 1 (byte_of_type o.order_type)
        ∷ [])
      (resize (length buffer + (header_size + order_size)) buffer)

-- `now` is the reading of the clock that `Order`'s constructor makes.
unfoldable pub deserialize_order : ℕ → Message → Outcome Order
deserialize_order now message = do
  id ← load 8 0 message.payload
  price ← load 8 8 message.payload
  quantity ← load 4 16 message.payload
  side ← load 1 20 message.payload
  order_type ← load 1 21 message.payload
  make_order now id price quantity (side_of_byte side) (type_of_byte order_type)

-- The three messages that hold an id alone.
abbrev serialize_id : MessageType → ℕ → List ℕ → Outcome (List ℕ)
serialize_id type id buffer =
    store_fields (length buffer)
      (bytes_of 1 (byte_of_message type)
        ∷ bytes_of 4 (htonl (id_size % 2 ^ 32))
        ∷ bytes_of 8 id
        ∷ [])
      (resize (length buffer + (header_size + id_size)) buffer)

unfoldable pub serialize_cancel : ℕ → List ℕ → Outcome (List ℕ)
serialize_cancel id buffer = serialize_id cancel_order id buffer

unfoldable pub deserialize_cancel : Message → Outcome ℕ
deserialize_cancel message = load 8 0 message.payload

unfoldable pub serialize_acknowledgement : Acknowledgement → List ℕ → Outcome (List ℕ)
serialize_acknowledgement a buffer = serialize_id order_ack a.id buffer

unfoldable pub deserialize_acknowledgement : Message → Outcome Acknowledgement
deserialize_acknowledgement message = do
  id ← load 8 0 message.payload
  returned (record { id = id })

-- `reason_length` is a `size_t`, of which the low four bytes are copied.
unfoldable pub serialize_rejection : Rejection → List ℕ → Outcome (List ℕ)
serialize_rejection r buffer =
    let size = 8 + 4 + length r.reason in
    store_fields (length buffer)
      (bytes_of 1 (byte_of_message reject)
        ∷ bytes_of 4 (htonl (size % 2 ^ 32))
        ∷ bytes_of 8 r.id
        ∷ bytes_of 4 (length r.reason)
        ∷ r.reason
        ∷ [])
      (resize (length buffer + (header_size + size)) buffer)

unfoldable pub deserialize_rejection : Message → Outcome Rejection
deserialize_rejection message = do
  id ← load 8 0 message.payload
  reason_length ← load 4 8 message.payload
  reason ← load_bytes reason_length 12 message.payload
  returned (record { id = id; reason = reason })

unfoldable pub serialize_trade : Trade → List ℕ → Outcome (List ℕ)
serialize_trade t buffer =
    store_fields (length buffer)
      (bytes_of 1 (byte_of_message trade)
        ∷ bytes_of 4 (htonl (trade_size % 2 ^ 32))
        ∷ bytes_of 8 t.price
        ∷ bytes_of 8 t.buyer_order_id
        ∷ bytes_of 8 t.seller_order_id
        ∷ bytes_of 4 t.quantity
        ∷ bytes_of 8 t.timestamp
        ∷ [])
      (resize (length buffer + (header_size + trade_size)) buffer)

unfoldable pub deserialize_trade : Message → Outcome Trade
deserialize_trade message = do
  price ← load 8 0 message.payload
  buyer_order_id ← load 8 8 message.payload
  seller_order_id ← load 8 16 message.payload
  quantity ← load 4 24 message.payload
  timestamp ← load 8 28 message.payload
  returned (record {
    price = price;
    buyer_order_id = buyer_order_id;
    seller_order_id = seller_order_id;
    quantity = quantity;
    timestamp = timestamp;
  })

unfoldable pub serialize_cancel_ack : Acknowledgement → List ℕ → Outcome (List ℕ)
serialize_cancel_ack a buffer = serialize_id cancel_ack a.id buffer

unfoldable pub deserialize_cancel_ack : Message → Outcome Acknowledgement
deserialize_cancel_ack message = do id ← load 8 0 message.payload; returned (record { id = id })
