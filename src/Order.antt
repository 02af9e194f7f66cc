-- ===== src/Order.antt =====
-- Class `Order` of include/order.hpp: the constructor with its validation, and `reduce_quantity`.
-- The reading of the clock that the constructor makes is an argument.
pub mod Valid
use exchange_simulator.Common.{
  ℕ, ◌-◌, List, [], Bool, true, false, ◌&&◌, not, ltb, ◌==◌, if◌then◌else◌, codes, Outcome,
  returned, threw, Exception, invalid_argument,
}
use exchange_simulator.Types.{Side, OrderType, limit, market, unnamed_type, Order}

-- `orderType == OrderType::LIMIT`, and so on.
abbrev pub is_limit : OrderType → Bool
is_limit limit = true
is_limit market = false
is_limit (unnamed_type b) = false

abbrev pub is_market : OrderType → Bool
is_market limit = false
is_market market = true
is_market (unnamed_type b) = false

abbrev pub bad_limit_price : Exception
bad_limit_price = invalid_argument (codes "limit orders cant have non-positive price")

abbrev pub bad_market_price : Exception
bad_market_price = invalid_argument (codes "market orders cant have positive price")

abbrev pub zero_quantity : Exception
zero_quantity = invalid_argument (codes "quantity must be greater than 0")

abbrev pub over_reduced : Exception
over_reduced = invalid_argument (codes "cannot reduce by more than current quantity")

-- The constructor. `price <= 0` on an unsigned price is `price == 0`.
unfoldable pub make_order : ℕ → ℕ → ℕ → ℕ → Side → OrderType → Outcome Order
make_order now id price quantity side order_type =
    if is_limit order_type && price == 0
    then threw bad_limit_price
    else if is_market order_type && ltb 0 price
    then threw bad_market_price
    else if quantity == 0
    then threw zero_quantity
    else returned (record {
      timestamp = now;
      id = id;
      price = price;
      quantity = quantity;
      side = side;
      order_type = order_type;
    })

unfoldable pub reduce_quantity : Order → ℕ → Outcome Order
reduce_quantity o quantity =
    if ltb o.quantity quantity
    then threw over_reduced
    else returned (record o { quantity = o.quantity - quantity })
