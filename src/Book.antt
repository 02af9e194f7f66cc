-- ===== src/Book.antt =====
-- Class `OrderBook`: include/orderbook.hpp and src/orderbook.cpp.
-- A `std::map<Price, std::list<Order>>` is the list of its levels in the order of its comparator,
-- and a list iterator is the address of its node, which is fresh when the node is made.
-- `order_map_` is the function of its entries.
pub mod Levels
pub mod Nodes
pub mod Queue
pub mod Valid
pub mod Remove
pub mod Restore
pub mod Cancel
pub mod Add
pub mod Front
pub mod Depth
pub mod Prices
use exchange_simulator.Common.{
  ℕ, ◌+◌, List, [], ◌∷◌, ◌++◌, Option, none, some, Bool, ltb, gtb, ◌==◌, if◌then◌else◌, update,
  codes, Outcome, returned, threw, undefined, ◌>>=◌, Exception, invalid_argument,
}
use exchange_simulator.Types.{Side, bid, ask, unnamed_side, Order}
use exchange_simulator.Order.{is_limit}

pub record Node : Type 0 where
  pub address : ℕ
  pub order : Order

pub record Level : Type 0 where
  pub price : ℕ
  pub orders : List Node

pub record OrderLocation : Type 0 where
  pub side : Side
  pub price : ℕ
  pub list_position : ℕ

pub record OrderBook : Type 0 where
  pub bids : List Level
  pub asks : List Level
  pub order_map : ℕ → Option OrderLocation
  pub next_address : ℕ

abbrev pub empty_book : OrderBook
empty_book = record { bids = []; asks = []; order_map = λ _. none; next_address = 0 }

-- `map[price]` as a reference through which `f` changes the list: an absent level is inserted
-- empty, at the place that the comparator `before` gives it.
unfoldable pub update_level : (ℕ → ℕ → Bool) → ℕ → (List Node → List Node) → List Level → List Level
update_level before p f [] = record { price = p; orders = f [] } ∷ []
update_level before p f (l ∷ ls) =
    if l.price == p
    then record l { orders = f l.orders } ∷ ls
    else if before p l.price
    then record { price = p; orders = f [] } ∷ l ∷ ls
    else l ∷ update_level before p f ls

-- `map.erase(price)`
unfoldable pub erase_level : ℕ → List Level → List Level
erase_level p [] = []
erase_level p (l ∷ ls) = if l.price == p then ls else l ∷ erase_level p ls

-- The list that `map[price]` refers to.
unfoldable pub level_orders : ℕ → List Level → List Node
level_orders p [] = []
level_orders p (l ∷ ls) = if l.price == p then l.orders else level_orders p ls

-- Stores a level's list back; an empty level is erased.
unfoldable pub put_level : (ℕ → ℕ → Bool) → ℕ → List Node → List Level → List Level
unfolding erase_level update_level
put_level before p [] ls = erase_level p ls
put_level before p (n ∷ ns) ls = update_level before p (λ _. n ∷ ns) ls

-- `list.erase(iterator)`; undefined for an iterator that does not point into the list.
unfoldable pub erase_node : ℕ → List Node → Outcome (List Node)
erase_node a [] = undefined
erase_node a (n ∷ ns) =
    let rest = erase_node a ns in
    if n.address == a then returned ns else do ns' ← rest; returned (n ∷ ns')

abbrev best_price : List Level → Option ℕ
best_price [] = none
best_price (l ∷ ls) = some l.price

unfoldable pub best_bid : OrderBook → Option ℕ
best_bid b = best_price b.bids

unfoldable pub best_ask : OrderBook → Option ℕ
best_ask b = best_price b.asks

-- `push_back` of a copy of the order in a new node.
abbrev pub push_back : Node → List Node → List Node
push_back n ns = ns ++ n ∷ []

abbrev pub located : Side → Order → OrderBook → ℕ → Option OrderLocation
located s o b =
    update b.order_map o.id
      (some (record { side = s; price = o.price; list_position = b.next_address }))

abbrev pub new_node : Order → OrderBook → Node
new_node o b = record { address = b.next_address; order = o }

abbrev pub add_to_side : Side → Order → OrderBook → OrderBook
add_to_side ask o b = record b {
  asks = update_level ltb o.price (push_back (new_node o b)) b.asks;
  order_map = located ask o b;
  next_address = b.next_address + 1;
}
add_to_side bid o b = record b {
  bids = update_level gtb o.price (push_back (new_node o b)) b.bids;
  order_map = located bid o b;
  next_address = b.next_address + 1;
}
add_to_side (unnamed_side _) o b = b

unfoldable pub add_order : Order → OrderBook → OrderBook
add_order o b = if is_limit o.order_type then add_to_side o.side o b else b

abbrev pub order_not_found : Exception
order_not_found = invalid_argument (codes "order id not found in the book")

-- What `cancel_order` does with the location that it found. If the iterator is bad, nothing is
-- known of the book, and the model leaves it as it was.
abbrev pub cancel_at : ℕ → Side → OrderLocation → OrderBook → Outcome (Unit {0}) × OrderBook
cancel_at id ask loc b = elim (erase_node loc.list_position (level_orders loc.price b.asks)) [
  | returned rest ↦ (
    returned tt,
    record b { asks = put_level ltb loc.price rest b.asks; order_map = update b.order_map id none },
  )
  | _ ↦ (undefined, b)
]
cancel_at id bid loc b = elim (erase_node loc.list_position (level_orders loc.price b.bids)) [
  | returned rest ↦ (
    returned tt,
    record b { bids = put_level gtb loc.price rest b.bids; order_map = update b.order_map id none },
  )
  | _ ↦ (undefined, b)
]
cancel_at id (unnamed_side _) loc b =
    (returned tt, record b { order_map = update b.order_map id none })

unfoldable pub cancel_order : ℕ → OrderBook → Outcome (Unit {0}) × OrderBook
cancel_order id b = elim (b.order_map id) [
  | none ↦ (threw order_not_found, b)
  | some loc ↦ cancel_at id loc.side loc b
]
