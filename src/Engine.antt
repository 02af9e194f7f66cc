-- ===== src/Engine.antt =====
-- Class `MatchingEngine`: include/matching_engine.hpp and src/matching_engine.cpp.
-- The clock is a parameter: `clock i` is its reading number `i` during one call of `match`.
-- The two branches on the side of the order differ in the map that they sweep, the test that a
-- limit order makes of the best price, and the trade that they write: a `Direction`. The loops are
-- written once, over a direction.
pub mod Rounds
pub mod Sweeps
pub mod PriceTime
pub mod Priority
pub mod Validity
pub mod Executed
pub mod Refine
pub mod Entries
pub mod Makers
pub mod Trades
use exchange_simulator.Common.{
  ℕ, zero, suc, ◌+◌, ◌-◌, min, List, [], ◌∷◌, ◌++◌, Option, none, some, Bool, ◌&&◌, ltb, gtb, ◌==◌,
  if◌then◌else◌, update, length, Outcome, returned, threw, undefined, stuck,
}
use exchange_simulator.Types.{Side, bid, ask, unnamed_side, Order, Trade}
use exchange_simulator.Order.{is_limit, make_order, reduce_quantity}
use exchange_simulator.Book.{
  Node, Level, OrderLocation, OrderBook, update_level, put_level, add_order,
}

pub record Direction : Type 0 where
  pub before : ℕ → ℕ → Bool
  pub blocked : ℕ → Bool
  pub trade_with : ℕ → Order → ℕ → ℕ → Trade

-- A bid sweeps the asks: it stops at a best ask above its limit, and it is the buyer.
abbrev pub buying : Order → Direction
buying o = record {
  before = ltb;
  blocked = λ best. is_limit o.order_type && ltb o.price best;
  trade_with = λ best maker filled now. record {
    price = best;
    buyer_order_id = o.id;
    seller_order_id = maker.id;
    quantity = filled;
    timestamp = now;
  };
}

-- An ask sweeps the bids: it stops at a best bid below its limit, and it is the seller.
abbrev pub selling : Order → Direction
selling o = record {
  before = gtb;
  blocked = λ best. is_limit o.order_type && ltb best o.price;
  trade_with = λ best maker filled now. record {
    price = best;
    buyer_order_id = maker.id;
    seller_order_id = o.id;
    quantity = filled;
    timestamp = now;
  };
}

-- The variables of the loop over the orders of one level; `reads` counts readings of the clock.
pub record Fill : Type 0 where
  pub remaining : ℕ
  pub orders : List Node
  pub order_map : ℕ → Option OrderLocation
  pub trades : List Trade
  pub reads : ℕ

-- The variables of the loop over the levels.
pub record Sweep : Type 0 where
  pub remaining : ℕ
  pub levels : List Level
  pub order_map : ℕ → Option OrderLocation
  pub trades : List Trade
  pub reads : ℕ

-- Goes on with a loop, unless its round did not return.
abbrev pub continue {ℓ} :
    {S : Type ℓ} → (S → Outcome (Unit {0}) × S) → Outcome (Unit {0}) × S → Outcome (Unit {0}) × S
continue loop (returned _, s) = loop s
continue loop (threw e, s) = (threw e, s)
continue loop (undefined, s) = (undefined, s)
continue loop (stuck, s) = (stuck, s)

module _ (clock : ℕ → ℕ) (d : Direction) where
  -- The rest of a round when the maker keeps some quantity.
  abbrev pub keep_maker : Outcome Order → Node → List Node → Fill → Outcome (Unit {0}) × Fill
  keep_maker (returned o) n rest f =
      (returned tt, record f { orders = record n { order = o } ∷ rest })
  keep_maker (threw e) n rest f = (threw e, f)
  keep_maker undefined n rest f = (undefined, f)
  keep_maker stuck n rest f = (stuck, f)

  -- One round of the inner loop, on the front order of the level at price `best`.
  unfoldable pub fill_front : ℕ → Node → List Node → Fill → Outcome (Unit {0}) × Fill
  fill_front best n rest f =
      let filled = min n.order.quantity f.remaining in
      let traded : Fill = record f {
        remaining = f.remaining - filled;
        trades = f.trades ++ d.trade_with best n.order filled (clock f.reads) ∷ [];
        reads = f.reads + 1;
      } in
      if n.order.quantity == filled
      then (
        returned tt,
        record traded { order_map = update f.order_map n.order.id none; orders = rest },
      )
      else keep_maker (reduce_quantity n.order filled) n rest traded

  -- `while (remaining_quantity > 0 && !orders.empty())`, on fuel.
  unfoldable pub fill_level : ℕ → ℕ → Fill → Outcome (Unit {0}) × Fill
  fill_level zero best f = (stuck, f)
  fill_level (suc fuel) best f = elim f.orders [
    | [] ↦ (returned tt, f)
    | n ∷ rest ↦
        if ltb 0 f.remaining
        then continue (fill_level fuel best) (fill_front best n rest f)
        else (returned tt, f)
  ]

  abbrev pub enter_level : Level → Sweep → Fill
  enter_level l s = record {
    remaining = s.remaining;
    orders = l.orders;
    order_map = s.order_map;
    trades = s.trades;
    reads = s.reads;
  }

  -- The level holds what the inner loop left; it is erased if that is nothing.
  abbrev pub leave_level : ℕ → Sweep → Outcome (Unit {0}) × Fill → Outcome (Unit {0}) × Sweep
  leave_level best s (r, f) = (
    r,
    record {
      remaining = f.remaining;
      levels = put_level d.before best f.orders s.levels;
      order_map = f.order_map;
      trades = f.trades;
      reads = f.reads;
    },
  )

  -- `while (remaining_quantity > 0 && !asks_.empty())`, on fuel. The inner loop makes at most one
  -- round for each order, and one more that stops it.
  unfoldable pub sweep : ℕ → Sweep → Outcome (Unit {0}) × Sweep
  sweep zero s = (stuck, s)
  sweep (suc fuel) s = elim s.levels [
    | [] ↦ (returned tt, s)
    | l ∷ ls ↦
        if ltb 0 s.remaining
        then (if d.blocked l.price
            then (returned tt, s)
            else continue (sweep fuel) (
                leave_level l.price s (fill_level (length l.orders + 1) l.price (enter_level l s))))
        else (returned tt, s)
  ]

abbrev pub start_sweep : Order → List Level → OrderBook → List Trade → Sweep
start_sweep o levels b trades = record {
  remaining = o.quantity;
  levels = levels;
  order_map = b.order_map;
  trades = trades;
  reads = 0;
}

abbrev pub book_added : OrderBook → Outcome Order → Outcome (Unit {0}) × OrderBook
book_added b (returned o) = (returned tt, add_order o b)
book_added b (threw e) = (threw e, b)
book_added b undefined = (undefined, b)
book_added b stuck = (stuck, b)

-- What is left of a limit order is made an order again, with its own timestamp, and booked.
abbrev pub rest_order : (ℕ → ℕ) → Order → ℕ → ℕ → OrderBook → Outcome (Unit {0}) × OrderBook
rest_order clock o remaining reads b =
    if ltb 0 remaining && is_limit o.order_type
    then book_added b (make_order (clock reads) o.id o.price remaining o.side o.order_type)
    else (returned tt, b)

pub record Matched : Type 0 where
  pub result : Outcome (Unit {0})
  pub book : OrderBook
  pub trades : List Trade

-- Books the rest after a sweep that returned, in the book with the swept levels.
abbrev pub after_sweep :
    (ℕ → ℕ) → Order → (Sweep → OrderBook) → Outcome (Unit {0}) × Sweep → Matched
after_sweep clock o swept (returned _, s) =
    let (r, b) = rest_order clock o s.remaining s.reads (swept s) in
    record { result = r; book = b; trades = s.trades }
after_sweep clock o swept (threw e, s) = record {
  result = threw e;
  book = swept s;
  trades = s.trades;
}
after_sweep clock o swept (undefined, s) = record {
  result = undefined;
  book = swept s;
  trades = s.trades;
}
after_sweep clock o swept (stuck, s) = record { result = stuck; book = swept s; trades = s.trades }

abbrev pub with_asks : OrderBook → Sweep → OrderBook
with_asks b s = record b { asks = s.levels; order_map = s.order_map }

abbrev pub with_bids : OrderBook → Sweep → OrderBook
with_bids b s = record b { bids = s.levels; order_map = s.order_map }

abbrev pub match_side : Side → (ℕ → ℕ) → Order → OrderBook → List Trade → Matched
match_side bid clock o b trades =
    after_sweep clock o (with_asks b)
      (sweep clock (buying o) (length b.asks + 1) (start_sweep o b.asks b trades))
match_side ask clock o b trades =
    after_sweep clock o (with_bids b)
      (sweep clock (selling o) (length b.bids + 1) (start_sweep o b.bids b trades))
match_side (unnamed_side _) clock o b trades = record {
  result = returned tt;
  book = b;
  trades = trades;
}

-- `MatchingEngine::match`, over the book that the engine refers to. The trades are appended.
unfoldable pub match : (ℕ → ℕ) → Order → OrderBook → List Trade → Matched
match clock o b trades = match_side o.side clock o b trades
