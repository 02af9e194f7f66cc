-- ===== src/Tests/Wire.antt =====
-- The serializer on concrete messages (tests/test_serializer.cpp).
use exchange_simulator.Common.{
  ◌+◌, ◌<◌, ◌^◌, ◌≡◌, refl, [], ◌∷◌, ◌++◌, returned, undefined, arith, length, codes,
}
use exchange_simulator.Types.{
  bid, limit, Order, Trade, Acknowledgement, Rejection, new_order, cancel_order, order_ack, reject,
  trade, cancel_ack,
}
use exchange_simulator.Order.Valid.{IsValid}
use exchange_simulator.Memory.{bytes_of, htonl, resize, store_fields, load}
use exchange_simulator.Serializer.{
  serialize_order, deserialize_order, serialize_cancel, deserialize_cancel,
  serialize_acknowledgement, deserialize_acknowledgement, serialize_rejection,
  deserialize_rejection, serialize_trade, deserialize_trade, serialize_cancel_ack,
  deserialize_cancel_ack,
}
use exchange_simulator.Serializer.Frames.{
  frame, order_payload, id_payload, rejection_payload, trade_payload,
}
use exchange_simulator.Serializer.RoundTrip.{
  OrderFits, TradeFits, order_round_trip, trade_round_trip, rejection_round_trip, id_round_trips,
}

abbrev pub sent : Order
sent = record { timestamp = 7; id = 258; price = 100; quantity = 8; side = bid; order_type = limit }

pub sent-OrderFits : OrderFits sent
sent-OrderFits = record {
  id = omega arith;
  price = omega arith;
  quantity = omega arith;
  side = tt;
  order_type = tt;
}

pub sent-IsValid : IsValid sent
sent-IsValid = record { priced = omega arith; some_quantity = omega arith }

order_bytes :
    serialize_order sent []
    ≡ returned (
        1 ∷ 0 ∷ 0 ∷ 0 ∷ 22 ∷ 2 ∷ 1 ∷ 0 ∷ 0 ∷ 0 ∷ 0 ∷ 0 ∷ 0 ∷ 100 ∷ 0 ∷ 0 ∷ 0 ∷ 0 ∷ 0 ∷ 0 ∷ 0 ∷ 8 ∷ 0
        ∷ 0 ∷ 0 ∷ 0 ∷ 0 ∷ [])
unfolding serialize_order store_fields bytes_of htonl resize
order_bytes = refl

-- A payload of an id alone is too short for an order.
short_order :
    deserialize_order 5 (record { type = new_order; payload = id_payload 258 }) ≡ undefined
unfolding deserialize_order bytes_of load
short_order = refl

order_round_trip_example :
    (serialize_order sent (1 ∷ []) ≡ returned ((1 ∷ []) ++ frame new_order (order_payload sent)))
    × (deserialize_order 5 (record { type = new_order; payload = order_payload sent })
        ≡ returned (record sent { timestamp = 5 }))
order_round_trip_example = order_round_trip 5 sent (1 ∷ []) sent-OrderFits sent-IsValid

abbrev done : Trade
done = record {
  price = 99;
  buyer_order_id = 3;
  seller_order_id = 2;
  quantity = 5;
  timestamp = 1000;
}

done-TradeFits : TradeFits done
done-TradeFits = record {
  price = omega arith;
  buyer_order_id = omega arith;
  seller_order_id = omega arith;
  quantity = omega arith;
  timestamp = omega arith;
}

trade_round_trip_example :
    (serialize_trade done [] ≡ returned ([] ++ frame trade (trade_payload done)))
    × (deserialize_trade (record { type = trade; payload = trade_payload done }) ≡ returned done)
trade_round_trip_example = trade_round_trip done [] done-TradeFits

abbrev refusal : Rejection
refusal = record { id = 3; reason = codes "order not found" }

rejection_round_trip_example :
    (serialize_rejection refusal [] ≡ returned ([] ++ frame reject (rejection_payload refusal)))
    × (deserialize_rejection (record { type = reject; payload = rejection_payload refusal })
        ≡ returned refusal)
rejection_round_trip_example = rejection_round_trip refusal [] (omega arith) short
  where
    short : 12 + length (codes "order not found") < 2 ^ 32
    short = omega arith

abbrev ack : Acknowledgement
ack = record { id = 258 }

id_round_trips_example :
    (serialize_cancel 258 [] ≡ returned ([] ++ frame cancel_order (id_payload 258)))
    × (deserialize_cancel (record { type = cancel_order; payload = id_payload 258 }) ≡ returned 258)
    × (serialize_acknowledgement ack [] ≡ returned ([] ++ frame order_ack (id_payload 258)))
    × (deserialize_acknowledgement (record { type = order_ack; payload = id_payload 258 })
        ≡ returned ack)
    × (serialize_cancel_ack ack [] ≡ returned ([] ++ frame cancel_ack (id_payload 258)))
    × (deserialize_cancel_ack (record { type = cancel_ack; payload = id_payload 258 })
        ≡ returned ack)
id_round_trips_example = id_round_trips ack [] (omega arith)
