-- ===== src/Engine/PriceTime.antt =====
-- Price-time priority, told by itself: at which prices an order may trade, what a trade says, and how
-- an order meets the queue of the resting orders, best price first and oldest first at each price.
use exchange_simulator.Common.{
  ℕ, ◌+◌, ◌-◌, List, [], ◌∷◌, Bool, true, not, leb, ◌==◌, if◌then◌else◌,
}
use exchange_simulator.Types.{OrderType, limit, market, unnamed_type, Order, Trade}

pub record Fills : Type 0 where
  pub trades : List Trade
  pub resting : List Order
  pub remaining : ℕ

-- At which prices an order may trade, and its trade with a maker for a quantity at a time.
pub record Rules : Type 0 where
  pub may_trade : ℕ → Bool
  pub trade_with : Order → ℕ → ℕ → Trade

-- A limit order buys at no price above its limit, and any other order at every price.
abbrev pub buys_at : OrderType → ℕ → ℕ → Bool
buys_at limit price p = leb p price
buys_at market price p = true
buys_at (unnamed_type _) price p = true

-- A limit order sells at no price below its limit.
abbrev pub sells_at : OrderType → ℕ → ℕ → Bool
sells_at limit price p = leb price p
sells_at market price p = true
sells_at (unnamed_type _) price p = true

-- The price of a trade is the maker's.
abbrev pub bid_rules : Order → Rules
bid_rules o = record {
  may_trade = buys_at o.order_type o.price;
  trade_with = λ maker quantity now. record {
    price = maker.price;
    buyer_order_id = o.id;
    seller_order_id = maker.id;
    quantity = quantity;
    timestamp = now;
  };
}

abbrev pub ask_rules : Order → Rules
ask_rules o = record {
  may_trade = sells_at o.order_type o.price;
  trade_with = λ maker quantity now. record {
    price = maker.price;
    buyer_order_id = maker.id;
    seller_order_id = o.id;
    quantity = quantity;
    timestamp = now;
  };
}

module _ (clock : ℕ → ℕ) (rules : Rules) where
  -- The taker with `r` units left meets the queue: each maker in turn is filled, until nothing is
  -- left, the taker may not trade at the next price, or the maker is larger than the rest.
  unfoldable pub meet_queue : ℕ → ℕ → List Order → Fills
  meet_queue i r [] = record { trades = []; resting = []; remaining = r }
  meet_queue i r (o ∷ q) =
      let rest = meet_queue (i + 1) (r - o.quantity) q in
      if r == 0
      then record { trades = []; resting = o ∷ q; remaining = r }
      else if not (rules.may_trade o.price)
      then record { trades = []; resting = o ∷ q; remaining = r }
      else if leb o.quantity r
      then record {
        trades = rules.trade_with o o.quantity (clock i) ∷ rest.trades;
        resting = rest.resting;
        remaining = rest.remaining;
      }
      else record {
        trades = rules.trade_with o r (clock i) ∷ [];
        resting = record o { quantity = o.quantity - r } ∷ q;
        remaining = 0;
      }
