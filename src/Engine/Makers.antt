-- ===== src/Engine/Makers.antt =====
-- The makers of the trades of `match`: resting orders, which the order map knows.
use exchange_simulator.Common.{
  ℕ, ◌+◌, ◌-◌, ◌<◌, ◌≡◌, refl, List, [], ◌∷◌, some, false, ◌||◌, Bool-cases, inl, inr, leb, ◌==◌,
  arith, All, All-append, All-map,
}
use exchange_simulator.Types.{Side, bid, ask, Order, Trade}
use exchange_simulator.Order.Valid.{IsValid as IsValidOrder}
use exchange_simulator.Book.{Node, Level, OrderLocation, OrderBook}
use exchange_simulator.Book.Queue.{queue, orders_at}
use exchange_simulator.Book.Valid.{OrderMap, SideOk, IsValid}
use exchange_simulator.Engine.{Direction, buying, selling, match}
use exchange_simulator.Engine.Priority.{fill_queue}
use exchange_simulator.Engine.Refine.{match_bid-swept, match_ask-swept}

module _ (clock : ℕ → ℕ) (d : Direction) (P : Trade → Type 0) (R : Order → Type 0)
    (positive : (o : Order) → R o → 0 < o.quantity) where
  -- What holds of each trade with a maker that is not blocked holds of all.
  pub fill_queue-All :
      ((o : Order) (n now : ℕ)
        → R o
        → d.blocked o.price ≡ false
        → 0 < n
        → P (d.trade_with o.price o n now))
      → (i r : ℕ) (q : List Order) → All R q
      → All P (fill_queue clock d i r q).trades
  unfolding fill_queue
  fill_queue-All f i r [] a = tt
  fill_queue-All f i r (o ∷ q) a = elim (Bool-cases (r == 0 || d.blocked o.price)) [
    | inl stop ↦ rw stop tt
    | inr go ↦
        let open_price : d.blocked o.price ≡ false = ground arith in
        elim (Bool-cases (leb o.quantity r)) [
          | inl fits ↦
              rw (go, fits)
                (
                  f o o.quantity (clock i) a.0 open_price (positive o a.0),
                  fill_queue-All f (i + 1) (r - o.quantity) q a.1,
                )
          | inr over ↦ rw (go, over) (f o r (clock i) a.0 open_price (ground arith), tt)
        ]
  ]

orders_at-All :
    (R : Order → Type 0) (ns : List Node) → All (λ n. R n.order) ns → All R (orders_at ns)
orders_at-All R [] h = tt
orders_at-All R (n ∷ ns) h = (h.0, orders_at-All R ns h.1)

queue-All :
    (R : Order → Type 0) (ls : List Level)
    → All (λ l. All (λ n. R n.order) l.orders) ls
    → All R (queue ls)
queue-All R [] h = tt
queue-All R (l ∷ ls) h =
    All-append R (orders_at l.orders) (queue ls) (orders_at-All R l.orders h.0) (queue-All R ls h.1)

-- The map has an entry for the id.
abbrev pub IsKnown : OrderMap → ℕ → Type 0
IsKnown m id = (loc : OrderLocation) × (m id ≡ some loc)

abbrev IsMaker : OrderMap → Order → Type 0
IsMaker m o = (0 < o.quantity) × IsKnown m o.id

queue-IsMaker :
    {before : _} (m : OrderMap) (next : ℕ) (s : Side) (ls : List Level)
    → SideOk before m next s ls
    → All (IsMaker m) (queue ls)
queue-IsMaker m next s ls ok = queue-All (IsMaker m) ls (
    All-map ls (λ l h. All-map l.orders (λ n k. (k.some_quantity, (_, k.indexed))) h.nodes)
      ok.levels)

-- A trade of a bid, and of an ask, with a resting order.
abbrev pub BidTrade : OrderMap → Order → Trade → Type 0
BidTrade m o t = (t.buyer_order_id ≡ o.id) × IsKnown m t.seller_order_id

abbrev pub AskTrade : OrderMap → Order → Trade → Type 0
AskTrade m o t = (t.seller_order_id ≡ o.id) × IsKnown m t.buyer_order_id

pub match_bid-makers :
    (clock : ℕ → ℕ) (o : Order) (b : OrderBook)
    → IsValidOrder o
    → IsValid b
    → o.side ≡ bid
    → All (BidTrade b.order_map o) (match clock o b []).trades
match_bid-makers clock o b vo v e = rw ((match_bid-swept clock o b [] vo v e).trades_appended) (
    fill_queue-All clock (buying o) (BidTrade b.order_map o) (IsMaker b.order_map) (λ k h. h.0)
      (λ k n now h open_price p. (refl, h.1)) 0 o.quantity (queue b.asks)
      (queue-IsMaker b.order_map b.next_address ask b.asks v.indexed.asks_ok))

pub match_ask-makers :
    (clock : ℕ → ℕ) (o : Order) (b : OrderBook)
    → IsValidOrder o
    → IsValid b
    → o.side ≡ ask
    → All (AskTrade b.order_map o) (match clock o b []).trades
match_ask-makers clock o b vo v e = rw ((match_ask-swept clock o b [] vo v e).trades_appended) (
    fill_queue-All clock (selling o) (AskTrade b.order_map o) (IsMaker b.order_map) (λ k h. h.0)
      (λ k n now h open_price p. (refl, h.1)) 0 o.quantity (queue b.bids)
      (queue-IsMaker b.order_map b.next_address bid b.bids v.indexed.bids_ok))
