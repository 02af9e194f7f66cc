-- ===== src/Serializer/Interface.antt =====
-- The abstract class `Serializer` of include/serializer.hpp as a record of its operations, and
-- `BinarySerializer` as the one implementation. A `serialize_*` appends to the buffer that it is given;
-- the reading of the clock in `Order`'s constructor is an argument of `deserialize_order`.
use exchange_simulator.Common.{ℕ, List, Outcome}
use exchange_simulator.Types.{Order, Trade, Acknowledgement, Rejection, Message}
use exchange_simulator.Serializer.{
  serialize_order as binary_serialize_order, deserialize_order as binary_deserialize_order,
  serialize_cancel as binary_serialize_cancel, deserialize_cancel as binary_deserialize_cancel,
  serialize_acknowledgement as binary_serialize_acknowledgement,
  deserialize_acknowledgement as binary_deserialize_acknowledgement,
  serialize_rejection as binary_serialize_rejection,
  deserialize_rejection as binary_deserialize_rejection, serialize_trade as binary_serialize_trade,
  deserialize_trade as binary_deserialize_trade,
  serialize_cancel_ack as binary_serialize_cancel_ack,
  deserialize_cancel_ack as binary_deserialize_cancel_ack,
}

pub record Serializer : Type 0 where
  pub serialize_order : Order → List ℕ → Outcome (List ℕ)
  pub deserialize_order : ℕ → Message → Outcome Order
  pub serialize_cancel : ℕ → List ℕ → Outcome (List ℕ)
  pub deserialize_cancel : Message → Outcome ℕ
  pub serialize_acknowledgement : Acknowledgement → List ℕ → Outcome (List ℕ)
  pub deserialize_acknowledgement : Message → Outcome Acknowledgement
  pub serialize_rejection : Rejection → List ℕ → Outcome (List ℕ)
  pub deserialize_rejection : Message → Outcome Rejection
  pub serialize_trade : Trade → List ℕ → Outcome (List ℕ)
  pub deserialize_trade : Message → Outcome Trade
  pub serialize_cancel_ack : Acknowledgement → List ℕ → Outcome (List ℕ)
  pub deserialize_cancel_ack : Message → Outcome Acknowledgement

-- The virtual calls of a `BinarySerializer`.
abbrev pub binary_serializer : Serializer
binary_serializer = record {
  serialize_order = binary_serialize_order;
  deserialize_order = binary_deserialize_order;
  serialize_cancel = binary_serialize_cancel;
  deserialize_cancel = binary_deserialize_cancel;
  serialize_acknowledgement = binary_serialize_acknowledgement;
  deserialize_acknowledgement = binary_deserialize_acknowledgement;
  serialize_rejection = binary_serialize_rejection;
  deserialize_rejection = binary_deserialize_rejection;
  serialize_trade = binary_serialize_trade;
  deserialize_trade = binary_deserialize_trade;
  serialize_cancel_ack = binary_serialize_cancel_ack;
  deserialize_cancel_ack = binary_deserialize_cancel_ack;
}
