-- ===== src/Simulator.antt =====
-- Class `OrderSimulator`: include/order_simulator.hpp and src/order_simulator.cpp. What the random
-- distributions draw is an argument, and so is the reading of the clock in `Order`'s constructor.
pub mod Orders
use exchange_simulator.Common.{
  ℕ, zero, suc, ◌+◌, ◌%◌, ◌^◌, ◌<◌, ◌≤◌, List, [], ◌∷◌, ◌++◌, ltb, ◌==◌, if◌then◌else◌, Outcome,
  returned, threw, undefined, stuck,
}
use exchange_simulator.Types.{Side, bid, ask, OrderType, limit, market, Order}
use exchange_simulator.Order.{make_order}

-- A `long long`: `pos n` is n, and `negsuc n` is -(n + 1).
pub data ℤ : Type 0 where
  pos negsuc : ℕ → ℤ

-- What one call of `generate_order` draws; the rounded price is drawn for a limit order only.
pub record Draws : Type 0 where
  pub side : ℕ
  pub order_type : ℕ
  pub rounded : ℤ
  pub quantity : ℕ
  pub now : ℕ

abbrev pub Fits63 : ℤ → Type 0
Fits63 (pos n) = n < 2 ^ 63
Fits63 (negsuc n) = n < 2 ^ 63

-- The ranges of the three uniform distributions, and of a `long long`.
pub record InRange (d : Draws) : Type 0 where
  pub side_small : d.side ≤ 1
  pub type_small : d.order_type ≤ 1
  pub rounded_fits : Fits63 d.rounded
  pub some_quantity : 1 ≤ d.quantity
  pub quantity_small : d.quantity ≤ 1000

pub record OrderSimulator : Type 0 where
  pub id_counter : ℕ
  pub center_price : ℕ

-- `if (rounded < 1) rounded = 1;`, and the cast to `Price`.
abbrev pub clamped : ℤ → ℕ
clamped (pos n) = if ltb n 1 then 1 else n
clamped (negsuc n) = 1

abbrev pub drawn_side : ℕ → Side
drawn_side n = if n == 0 then bid else ask

abbrev pub drawn_type : ℕ → OrderType
drawn_type n = if n == 0 then limit else market

abbrev pub drawn_price : OrderType → ℤ → ℕ
drawn_price limit rounded = clamped rounded
drawn_price _ rounded = 0

abbrev pub generate_order : Draws → OrderSimulator → Outcome Order × OrderSimulator
generate_order d s = (
  make_order d.now s.id_counter (drawn_price (drawn_type d.order_type) d.rounded) d.quantity
      (drawn_side d.side) (drawn_type d.order_type),
  record s { id_counter = (s.id_counter + 1) % 2 ^ 64 },
)

-- Adds the order to those that there are, and goes on.
abbrev pub push_order :
    List Order
    → (List Order → OrderSimulator → Outcome (List Order) × OrderSimulator)
    → Outcome Order × OrderSimulator
    → Outcome (List Order) × OrderSimulator
push_order orders more (returned o, s) = more (orders ++ o ∷ []) s
push_order orders more (threw e, s) = (threw e, s)
push_order orders more (undefined, s) = (undefined, s)
push_order orders more (stuck, s) = (stuck, s)

-- The loop of `generate_n_orders` with `n` rounds left, of which the next is the `i`-th.
unfoldable pub generate_more :
    (ℕ → Draws) → ℕ → ℕ → List Order → OrderSimulator → Outcome (List Order) × OrderSimulator
generate_more draws zero i orders s = (returned orders, s)
generate_more draws (suc n) i orders s =
    push_order orders (generate_more draws n (suc i)) (generate_order (draws i) s)

-- `n` is not negative; `draws i` is for the `i`-th order.
unfoldable pub generate_n_orders :
    (ℕ → Draws) → ℕ → OrderSimulator → Outcome (List Order) × OrderSimulator
unfolding generate_more
generate_n_orders draws n s = generate_more draws n 0 [] s
