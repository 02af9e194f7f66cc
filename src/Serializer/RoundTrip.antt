-- ===== src/Serializer/RoundTrip.antt =====
-- Each `deserialize_*` reads back the payload that its `serialize_*` writes.
use exchange_simulator.Common.{
  ℕ, ◌+◌, ◌^◌, ◌<◌, ◌≡◌, refl, ◌∙◌, List, [], ◌++◌, append-nil, length, returned, arith, ◌>>=◌,
}
use exchange_simulator.Types.{
  IsByte, IsU32, IsU64, Side, bid, ask, unnamed_side, side_of_byte, byte_of_side, OrderType, limit,
  market, unnamed_type, type_of_byte, byte_of_type, Order, Trade, Acknowledgement, Rejection,
  MessageType, new_order, cancel_order, order_ack, reject, trade, cancel_ack,
}
use exchange_simulator.Order.Valid.{IsValid, make_order-fields}
use exchange_simulator.Memory.{bytes_of, load_bytes, load}
use exchange_simulator.Memory.Laws.{
  length-bytes_of, value_of-bytes_of, load_bytes_past, load_bytes_front,
}
use exchange_simulator.Serializer.{
  serialize_order, serialize_cancel, serialize_acknowledgement, serialize_rejection,
  serialize_trade, serialize_cancel_ack, deserialize_order, deserialize_cancel,
  deserialize_acknowledgement, deserialize_rejection, deserialize_trade, deserialize_cancel_ack,
}
use exchange_simulator.Serializer.Frames.{
  frame, serialize_order-frame, serialize_cancel-frame, serialize_acknowledgement-frame,
  serialize_rejection-frame, serialize_trade-frame, serialize_cancel_ack-frame, order_payload,
  id_payload, rejection_payload, trade_payload,
}

-- The fields of the C++ types: an enumerator has its byte, and an unnamed value another.
abbrev pub SideFits : Side → Type 0
SideFits bid = Unit
SideFits ask = Unit
SideFits (unnamed_side b) = (1 < b) × IsByte b

abbrev pub TypeFits : OrderType → Type 0
TypeFits limit = Unit
TypeFits market = Unit
TypeFits (unnamed_type b) = (1 < b) × IsByte b

pub record OrderFits (o : Order) : Type 0 where
  pub id : IsU64 o.id
  pub price : IsU64 o.price
  pub quantity : IsU32 o.quantity
  pub side : SideFits o.side
  pub order_type : TypeFits o.order_type

pub record TradeFits (t : Trade) : Type 0 where
  pub price : IsU64 t.price
  pub buyer_order_id : IsU64 t.buyer_order_id
  pub seller_order_id : IsU64 t.seller_order_id
  pub quantity : IsU32 t.quantity
  pub timestamp : IsU64 t.timestamp

-- A field of `w` bytes lies in front of the one that is read, or is the one.
past : (w v n k : ℕ) (rest : List ℕ) → load n (w + k) (bytes_of w v ++ rest) ≡ load n k rest
unfolding load
past w v n k rest = let e = load_bytes_past n k (bytes_of w v) rest in rw (rw length-bytes_of at e)

load-bytes_of :
    (n v : ℕ) (rest : List ℕ) → v < 256 ^ n → load n 0 (bytes_of n v ++ rest) ≡ returned v
unfolding load
load-bytes_of n v rest h =
    let e = load_bytes_front (bytes_of n v) rest in
    rw (rw length-bytes_of at e, ◌>>=◌, value_of-bytes_of n v h)

last : (n v : ℕ) → v < 256 ^ n → load n 0 (bytes_of n v) ≡ returned v
last n v h = rw append-nil at (load-bytes_of n v [] h)

byte_of_side_fits : (s : Side) → SideFits s → byte_of_side s < 256 ^ 1
byte_of_side_fits bid h = omega arith
byte_of_side_fits ask h = omega arith
byte_of_side_fits (unnamed_side b) h = omega arith

side_of_byte-byte_of_side : (s : Side) → SideFits s → side_of_byte (byte_of_side s) ≡ s
side_of_byte-byte_of_side bid h = refl
side_of_byte-byte_of_side ask h = refl
side_of_byte-byte_of_side (unnamed_side b) h = ground arith

byte_of_type_fits : (t : OrderType) → TypeFits t → byte_of_type t < 256 ^ 1
byte_of_type_fits limit h = omega arith
byte_of_type_fits market h = omega arith
byte_of_type_fits (unnamed_type b) h = omega arith

type_of_byte-byte_of_type : (t : OrderType) → TypeFits t → type_of_byte (byte_of_type t) ≡ t
type_of_byte-byte_of_type limit h = refl
type_of_byte-byte_of_type market h = refl
type_of_byte-byte_of_type (unnamed_type b) h = ground arith

-- The payload of a valid order is read back as the order, with the timestamp of its receipt.
pub deserialize_order-payload :
    (now : ℕ) (o : Order) (type : MessageType)
    → OrderFits o
    → IsValid o
    → deserialize_order now (record { type = type; payload = order_payload o })
      ≡ returned (record o { timestamp = now })
unfolding deserialize_order
deserialize_order-payload now o type f v =
    let tail1 = bytes_of 1 (byte_of_type o.order_type) in
    let tail2 = bytes_of 1 (byte_of_side o.side) ++ tail1 in
    let tail3 = bytes_of 4 o.quantity ++ tail2 in
    let tail4 = bytes_of 8 o.price ++ tail3 in
    rw (
      load-bytes_of 8 o.id tail4 f.id,
      past 8 o.id 8 0 tail4 ∙ load-bytes_of 8 o.price tail3 f.price,
      past 8 o.id 4 8 tail4
          ∙ past 8 o.price 4 0 tail3
          ∙ load-bytes_of 4 o.quantity tail2 f.quantity,
      past 8 o.id 1 12 tail4
          ∙ past 8 o.price 1 4 tail3
          ∙ past 4 o.quantity 1 0 tail2
          ∙ load-bytes_of 1 (byte_of_side o.side) tail1 (byte_of_side_fits o.side f.side),
      past 8 o.id 1 13 tail4
          ∙ past 8 o.price 1 5 tail3
          ∙ past 4 o.quantity 1 1 tail2
          ∙ past 1 (byte_of_side o.side) 1 0 tail1
          ∙ last 1 (byte_of_type o.order_type) (byte_of_type_fits o.order_type f.order_type),
      side_of_byte-byte_of_side o.side f.side,
      type_of_byte-byte_of_type o.order_type f.order_type,
      make_order-fields now o.id o.price o.quantity o.side o.order_type v.priced v.some_quantity,
    )

-- The three messages that hold an id alone.
deserialize_cancel-payload :
    (id : ℕ) (type : MessageType)
    → IsU64 id
    → deserialize_cancel (record { type = type; payload = id_payload id }) ≡ returned id
unfolding deserialize_cancel
deserialize_cancel-payload id type h = last 8 id h

deserialize_acknowledgement-payload :
    (a : Acknowledgement) (type : MessageType)
    → IsU64 a.id
    → deserialize_acknowledgement (record { type = type; payload = id_payload a.id }) ≡ returned a
unfolding deserialize_acknowledgement
deserialize_acknowledgement-payload a type h = rw (last 8 a.id h)

deserialize_cancel_ack-payload :
    (a : Acknowledgement) (type : MessageType)
    → IsU64 a.id
    → deserialize_cancel_ack (record { type = type; payload = id_payload a.id }) ≡ returned a
unfolding deserialize_cancel_ack
deserialize_cancel_ack-payload a type h = rw (last 8 a.id h)

deserialize_trade-payload :
    (t : Trade) (type : MessageType)
    → TradeFits t
    → deserialize_trade (record { type = type; payload = trade_payload t }) ≡ returned t
unfolding deserialize_trade
deserialize_trade-payload t type f =
    let tail2 = bytes_of 4 t.quantity ++ bytes_of 8 t.timestamp in
    let tail3 = bytes_of 8 t.seller_order_id ++ tail2 in
    let tail4 = bytes_of 8 t.buyer_order_id ++ tail3 in
    rw (
      load-bytes_of 8 t.price tail4 f.price,
      past 8 t.price 8 0 tail4 ∙ load-bytes_of 8 t.buyer_order_id tail3 f.buyer_order_id,
      past 8 t.price 8 8 tail4
          ∙ past 8 t.buyer_order_id 8 0 tail3
          ∙ load-bytes_of 8 t.seller_order_id tail2 f.seller_order_id,
      past 8 t.price 4 16 tail4
          ∙ past 8 t.buyer_order_id 4 8 tail3
          ∙ past 8 t.seller_order_id 4 0 tail2
          ∙ load-bytes_of 4 t.quantity (bytes_of 8 t.timestamp) f.quantity,
      past 8 t.price 8 20 tail4
          ∙ past 8 t.buyer_order_id 8 12 tail3
          ∙ past 8 t.seller_order_id 8 4 tail2
          ∙ past 4 t.quantity 8 0 (bytes_of 8 t.timestamp)
          ∙ last 8 t.timestamp f.timestamp,
    )

past_bytes :
    (w v n k : ℕ) (rest : List ℕ)
    → load_bytes n (w + k) (bytes_of w v ++ rest) ≡ load_bytes n k rest
past_bytes w v n k rest = rw length-bytes_of at (load_bytes_past n k (bytes_of w v) rest)

all_bytes : (xs : List ℕ) → load_bytes (length xs) 0 xs ≡ returned xs
all_bytes xs = rw append-nil at (load_bytes_front xs [])

-- A reason of less than 2 ^ 32 bytes is read back.
deserialize_rejection-payload :
    (r : Rejection) (type : MessageType)
    → IsU64 r.id
    → IsU32 (length r.reason)
    → deserialize_rejection (record { type = type; payload = rejection_payload r }) ≡ returned r
unfolding deserialize_rejection
deserialize_rejection-payload r type h k =
    let tail = bytes_of 4 (length r.reason) ++ r.reason in
    rw (
      load-bytes_of 8 r.id tail h,
      past 8 r.id 4 0 tail ∙ load-bytes_of 4 (length r.reason) r.reason k,
      past_bytes 8 r.id (length r.reason) 4 tail
          ∙ past_bytes 4 (length r.reason) (length r.reason) 0 r.reason
          ∙ all_bytes r.reason,
    )

-- Serializing an order appends one frame to the buffer, and its payload is read back as the order,
-- stamped with the time of its receipt, if the order is valid and its fields fit their types.
pub order_round_trip :
    (now : ℕ) (o : Order) (buffer : List ℕ)
    → OrderFits o
    → IsValid o
    → (serialize_order o buffer ≡ returned (buffer ++ frame new_order (order_payload o)))
      × (deserialize_order now (record { type = new_order; payload = order_payload o })
          ≡ returned (record o { timestamp = now }))
order_round_trip now o buffer f v =
    (serialize_order-frame o buffer, deserialize_order-payload now o new_order f v)

-- Serializing a trade appends one frame to the buffer, and its payload is read back as the trade, if
-- its fields fit their types.
pub trade_round_trip :
    (t : Trade) (buffer : List ℕ)
    → TradeFits t
    → (serialize_trade t buffer ≡ returned (buffer ++ frame trade (trade_payload t)))
      × (deserialize_trade (record { type = trade; payload = trade_payload t }) ≡ returned t)
trade_round_trip t buffer f = (serialize_trade-frame t buffer, deserialize_trade-payload t trade f)

-- Serializing a rejection appends one frame to the buffer, and its payload is read back as the
-- rejection, if its id fits in 8 bytes and the payload, which is its reason and 12 bytes more, has
-- less than 2 ^ 32 bytes.
pub rejection_round_trip :
    (r : Rejection) (buffer : List ℕ)
    → IsU64 r.id
    → 12 + length r.reason < 2 ^ 32
    → (serialize_rejection r buffer ≡ returned (buffer ++ frame reject (rejection_payload r)))
      × (deserialize_rejection (record { type = reject; payload = rejection_payload r })
          ≡ returned r)
rejection_round_trip r buffer h k =
    (serialize_rejection-frame r buffer, deserialize_rejection-payload r reject h (omega arith))

-- Serializing a cancellation, an acknowledgement, or an acknowledgement of a cancellation appends one
-- frame of its type to the buffer, and the payload is read back, if the id fits in 8 bytes.
pub id_round_trips :
    (a : Acknowledgement) (buffer : List ℕ)
    → IsU64 a.id
    → (serialize_cancel a.id buffer ≡ returned (buffer ++ frame cancel_order (id_payload a.id)))
      × (deserialize_cancel (record { type = cancel_order; payload = id_payload a.id })
          ≡ returned a.id)
      × (serialize_acknowledgement a buffer
          ≡ returned (buffer ++ frame order_ack (id_payload a.id)))
      × (deserialize_acknowledgement (record { type = order_ack; payload = id_payload a.id })
          ≡ returned a)
      × (serialize_cancel_ack a buffer ≡ returned (buffer ++ frame cancel_ack (id_payload a.id)))
      × (deserialize_cancel_ack (record { type = cancel_ack; payload = id_payload a.id })
          ≡ returned a)
id_round_trips a buffer h = (
  serialize_cancel-frame a.id buffer,
  deserialize_cancel-payload a.id cancel_order h,
  serialize_acknowledgement-frame a buffer,
  deserialize_acknowledgement-payload a order_ack h,
  serialize_cancel_ack-frame a buffer,
  deserialize_cancel_ack-payload a cancel_ack h,
)
