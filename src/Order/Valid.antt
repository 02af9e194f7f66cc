-- ===== src/Order/Valid.antt =====
-- What the constructor of `Order` accepts, and what `reduce_quantity` keeps.
use exchange_simulator.Common.{
  ℕ, ◌-◌, ◌<◌, ◌≤◌, ◌≡◌, ◌⊎◌, inl, inr, refl, dec_lt, arith, returned, threw,
}
use exchange_simulator.Types.{Side, OrderType, limit, market, unnamed_type, Order}
use exchange_simulator.Order.{
  make_order, reduce_quantity, bad_limit_price, bad_market_price, zero_quantity, over_reduced,
}

-- The prices that an order of the type may have.
abbrev pub PriceFits : OrderType → ℕ → Type 0
PriceFits limit price = 0 < price
PriceFits market price = price ≡ 0
PriceFits (unnamed_type b) price = Unit

-- What every object of class `Order` satisfies.
pub record IsValid (o : Order) : Type 0 where
  pub priced : PriceFits o.order_type o.price
  pub some_quantity : 0 < o.quantity

-- An order that the constructor returns is valid: a limit order has a positive price, a market order
-- the price 0, and every order some quantity.
pub make_order-IsValid :
    (now id price quantity : ℕ) (s : Side) (t : OrderType) (o : Order)
    → make_order now id price quantity s t ≡ returned o
    → IsValid o
unfolding make_order
make_order-IsValid now id price quantity s limit o e = ground arith
make_order-IsValid now id price quantity s market o e = ground arith
make_order-IsValid now id price quantity s (unnamed_type b) o e = ground arith

-- On fields that fit each other, the constructor returns, and stores them.
pub make_order-fields :
    (now id price quantity : ℕ) (s : Side) (t : OrderType)
    → PriceFits t price
    → 0 < quantity
    → make_order now id price quantity s t
      ≡ returned (record {
        timestamp = now;
        id = id;
        price = price;
        quantity = quantity;
        side = s;
        order_type = t;
      })
unfolding make_order
make_order-fields now id price quantity s limit v h = ground arith
make_order-fields now id price quantity s market v h = ground arith
make_order-fields now id price quantity s (unnamed_type b) v h = ground arith

-- An order with the arguments of the constructor.
abbrev pub order_with : ℕ → ℕ → ℕ → ℕ → Side → OrderType → Order
order_with now id price quantity s t = record {
  timestamp = now;
  id = id;
  price = price;
  quantity = quantity;
  side = s;
  order_type = t;
}

-- The constructor ends in one of four ways. A limit order with the price 0 is refused for its price, and
-- so is a market order with a price other than 0; any other order without quantity is refused for it;
-- and every other order is returned, with the arguments as its fields. The price is an unsigned number,
-- so 0 is the only price that is refused to a limit order: one of 2 ^ 64 - 500, which the argument
-- -500 converts to, is not.
pub make_order_lem :
    (now id price quantity : ℕ) (s : Side) (t : OrderType)
    → let out = make_order now id price quantity s t in
      ((t ≡ limit) × (price ≡ 0) × (out ≡ threw bad_limit_price))
      ⊎ ((t ≡ market) × (0 < price) × (out ≡ threw bad_market_price))
      ⊎ (PriceFits t price × (quantity ≡ 0) × (out ≡ threw zero_quantity))
      ⊎ (IsValid (order_with now id price quantity s t)
          × (out ≡ returned (order_with now id price quantity s t)))
unfolding make_order
make_order_lem now id price quantity s limit = elim (dec_lt 0 price) [
  | no z ↦ let e : price ≡ 0 = omega arith in inl (refl, e, ground arith)
  | yes p ↦ elim (dec_lt 0 quantity) [
    | no z ↦ let e : quantity ≡ 0 = omega arith in inr (inr (inl (p, e, ground arith)))
    | yes q ↦ inr (inr (inr (record { priced = p; some_quantity = q }, ground arith)))
  ]
]
make_order_lem now id price quantity s market = elim (dec_lt 0 price) [
  | yes p ↦ inr (inl (refl, p, ground arith))
  | no z ↦
      let e : price ≡ 0 = omega arith in
      elim (dec_lt 0 quantity) [
        | no w ↦ let e' : quantity ≡ 0 = omega arith in inr (inr (inl (e, e', ground arith)))
        | yes q ↦ inr (inr (inr (record { priced = e; some_quantity = q }, ground arith)))
      ]
]
make_order_lem now id price quantity s (unnamed_type b) = elim (dec_lt 0 quantity) [
  | no z ↦ let e : quantity ≡ 0 = omega arith in inr (inr (inl (tt, e, ground arith)))
  | yes q ↦ inr (inr (inr (record { priced = tt; some_quantity = q }, ground arith)))
]

-- Reducing an order by at most its quantity subtracts; by more, it throws.
pub reduce_quantity_lem :
    (o : Order) (q : ℕ)
    → ((q ≤ o.quantity) × (reduce_quantity o q ≡ returned (record o { quantity = o.quantity - q })))
      ⊎ ((o.quantity < q) × (reduce_quantity o q ≡ threw over_reduced))
unfolding reduce_quantity
reduce_quantity_lem o q = ground arith
