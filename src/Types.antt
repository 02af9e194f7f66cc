-- ===== src/Types.antt =====
-- The plain data of include/types.hpp, order.hpp, trade.hpp, acknowledgement.hpp, rejection.hpp,
-- message.hpp, inbound_message.hpp and outbound_message.hpp. Integers are native numbers; the
-- widths of their C++ types are `IsU8`, `IsU32` and `IsU64`, and bytes are numbers.
use exchange_simulator.Common.{ℕ, ◌<◌, ◌^◌, List, ◌==◌, if◌then◌else◌}

abbrev pub IsByte : ℕ → Type 0
IsByte v = v < 256

abbrev pub IsU32 : ℕ → Type 0
IsU32 v = v < 2 ^ 32

abbrev pub IsU64 : ℕ → Type 0
IsU64 v = v < 2 ^ 64

-- `enum class Side : uint8_t`. A value that is copied from the wire may be any byte, so the bytes
-- that no enumerator names are values too.
pub data Side : Type 0 where
  bid ask : Side
  unnamed_side : ℕ → Side

abbrev pub side_of_byte : ℕ → Side
side_of_byte b = if b == 0 then bid else if b == 1 then ask else unnamed_side b

abbrev pub byte_of_side : Side → ℕ
byte_of_side bid = 0
byte_of_side ask = 1
byte_of_side (unnamed_side b) = b

-- `enum class OrderType : uint8_t`, likewise.
pub data OrderType : Type 0 where
  limit market : OrderType
  unnamed_type : ℕ → OrderType

abbrev pub type_of_byte : ℕ → OrderType
type_of_byte b = if b == 0 then limit else if b == 1 then market else unnamed_type b

abbrev pub byte_of_type : OrderType → ℕ
byte_of_type limit = 0
byte_of_type market = 1
byte_of_type (unnamed_type b) = b

-- The fields of class `Order`, in the order of their declaration.
pub record Order : Type 0 where
  pub timestamp : ℕ
  pub id : ℕ
  pub price : ℕ
  pub quantity : ℕ
  pub side : Side
  pub order_type : OrderType

pub record Trade : Type 0 where
  pub price : ℕ
  pub buyer_order_id : ℕ
  pub seller_order_id : ℕ
  pub quantity : ℕ
  pub timestamp : ℕ

pub record Acknowledgement : Type 0 where
  pub id : ℕ

pub record Rejection : Type 0 where
  pub id : ℕ
  pub reason : List ℕ

-- `enum class MessageType : uint8_t`, a byte that is cast without a check.
pub data MessageType : Type 0 where
  new_order cancel_order order_ack reject trade cancel_ack : MessageType
  unnamed_message : ℕ → MessageType

abbrev pub byte_of_message : MessageType → ℕ
byte_of_message new_order = 1
byte_of_message cancel_order = 2
byte_of_message order_ack = 3
byte_of_message reject = 4
byte_of_message trade = 5
byte_of_message cancel_ack = 6
byte_of_message (unnamed_message b) = b

abbrev pub message_of_byte : ℕ → MessageType
message_of_byte b =
    if b == 1
    then new_order
    else if b == 2
    then cancel_order
    else if b == 3
    then order_ack
    else if b == 4
    then reject
    else if b == 5
    then trade
    else if b == 6
    then cancel_ack
    else unnamed_message b

pub record Message : Type 0 where
  pub type : MessageType
  pub payload : List ℕ

pub record InboundMessage : Type 0 where
  pub fd : ℕ
  pub type : MessageType
  pub payload : List ℕ

pub record OutboundMessage : Type 0 where
  pub fd : ℕ
  pub payload : List ℕ
