-- ===== src/Engine/Trades.antt =====
-- The trades of `match`: nothing is lost or made up, and no trade is outside the taker's limit.
use exchange_simulator.Common.{
  All-append, ltb, gtb, ◌&&◌, length, ℕ, ◌+◌, ◌-◌, ◌≡◌, ◌<◌, ◌≤◌, refl, List, [], ◌∷◌, Bool, false,
  arith, All,
}
use exchange_simulator.Types.{bid, ask, OrderType, limit, market, unnamed_type, Order, Trade}
use exchange_simulator.Order.Valid.{IsValid as IsValidOrder}
use exchange_simulator.Order.{is_limit}
use exchange_simulator.Book.{Node, Level, OrderBook}
use exchange_simulator.Book.Queue.{queue, orders_at, insert_order, IsPriced, IsPricedNode}
use exchange_simulator.Book.Valid.{IsValid}
use exchange_simulator.Engine.{Direction, buying, selling, match}
use exchange_simulator.Engine.Makers.{fill_queue-All}
use exchange_simulator.Engine.PriceTime.{Fills}
use exchange_simulator.Engine.Priority.{fill_queue}
use exchange_simulator.Engine.Validity.{remainder}
use exchange_simulator.Engine.Executed.{booked, SideOk-IsPriced, swept_asks, swept_bids}
use exchange_simulator.Engine.Refine.{match_bid-swept, match_ask-swept}

abbrev pub traded_total : List Trade → ℕ
traded_total [] = 0
traded_total (t ∷ ts) = t.quantity + traded_total ts

abbrev pub resting_total : List Order → ℕ
resting_total [] = 0
resting_total (o ∷ q) = o.quantity + resting_total q

-- A trade writes the quantity that it is given.
abbrev WritesQuantity : Direction → Type 0
WritesQuantity d = (p : ℕ) (maker : Order) (q now : ℕ) → (d.trade_with p maker q now).quantity ≡ q

module _ (clock : ℕ → ℕ) (d : Direction) (w : WritesQuantity d) where
  fill_queue-total :
      (i r : ℕ) (q : List Order)
      → let x = fill_queue clock d i r q in
        (traded_total x.trades + x.remaining ≡ r)
        × (traded_total x.trades + resting_total x.resting ≡ resting_total q)
  unfolding fill_queue
  fill_queue-total i r [] = omega arith
  fill_queue-total i r (o ∷ q) = ground (
    arith,
    fill_queue-total (i + 1) (r - o.quantity) q,
    w o.price o o.quantity (clock i),
    w o.price o r (clock i),
  )

-- What a buyer's, and a seller's, order of the type and price says of the price of a trade.
abbrev pub BuyerAccepts : OrderType → ℕ → ℕ → Type 0
BuyerAccepts limit price p = p ≤ price
BuyerAccepts market price p = Unit
BuyerAccepts (unnamed_type _) price p = Unit

abbrev pub SellerAccepts : OrderType → ℕ → ℕ → Type 0
SellerAccepts limit price p = price ≤ p
SellerAccepts market price p = Unit
SellerAccepts (unnamed_type _) price p = Unit

abbrev pub BuyerTrade : Order → Trade → Type 0
BuyerTrade o t =
    (t.buyer_order_id ≡ o.id) × (0 < t.quantity) × BuyerAccepts o.order_type o.price t.price

abbrev pub SellerTrade : Order → Trade → Type 0
SellerTrade o t =
    (t.seller_order_id ≡ o.id) × (0 < t.quantity) × SellerAccepts o.order_type o.price t.price

-- How the quantity that rests on the taker's own side changes.
abbrev pub OwnTotal : OrderType → ℕ → ℕ → ℕ → ℕ → Type 0
OwnTotal limit before after quantity traded = after + traded ≡ before + quantity
OwnTotal market before after quantity traded = after ≡ before
OwnTotal (unnamed_type _) before after quantity traded = after ≡ before

resting_total-insert :
    (before : ℕ → ℕ → Bool) (o : Order) (q : List Order)
    → resting_total (insert_order before o q) ≡ o.quantity + resting_total q
unfolding insert_order
resting_total-insert before o [] = refl
resting_total-insert before o (k ∷ q) = ground (arith, resting_total-insert before o q)

OwnTotal-booked :
    (before : ℕ → ℕ → Bool) (clock : ℕ → ℕ) (o : Order) (t : OrderType) (x : Fills) (q : List Order)
    → o.order_type ≡ t
    → traded_total x.trades + x.remaining ≡ o.quantity
    → OwnTotal t
        (resting_total q)
        (resting_total (booked before clock o x q))
        o.quantity
        (traded_total x.trades)
OwnTotal-booked before clock o limit x q e h =
    ground (arith, resting_total-insert before (remainder clock o x.remaining (length x.trades)) q)
OwnTotal-booked before clock o market x q e h = ground arith
OwnTotal-booked before clock o (unnamed_type b) x q e h = ground arith

buyer_trade :
    (o k : Order) (t : OrderType) (n now : ℕ)
    → o.order_type ≡ t
    → (is_limit t && ltb o.price k.price) ≡ false
    → 0 < n
    → (o.id ≡ o.id) × (0 < n) × BuyerAccepts t o.price k.price
buyer_trade o k limit n now e h p = (refl, p, ground arith)
buyer_trade o k market n now e h p = (refl, p, tt)
buyer_trade o k (unnamed_type b) n now e h p = (refl, p, tt)

seller_trade :
    (o k : Order) (t : OrderType) (n now : ℕ)
    → o.order_type ≡ t
    → (is_limit t && ltb k.price o.price) ≡ false
    → 0 < n
    → (o.id ≡ o.id) × (0 < n) × SellerAccepts t o.price k.price
seller_trade o k limit n now e h p = (refl, p, ground arith)
seller_trade o k market n now e h p = (refl, p, tt)
seller_trade o k (unnamed_type b) n now e h p = (refl, p, tt)

queue-positive : (ls : List Level) → IsPriced ls → All (λ o. 0 < o.quantity) (queue ls)
queue-positive [] h = tt
queue-positive (l ∷ ls) h =
    All-append _ (orders_at l.orders) (queue ls) (at_level l.orders h.0.1) (queue-positive ls h.1)
  where
    at_level :
        (ns : List Node) → All (IsPricedNode l.price) ns → All (λ o. 0 < o.quantity) (orders_at ns)
    at_level [] a = tt
    at_level (n ∷ ns) a = (a.0.1, at_level ns a.1)

-- The trades of a valid bid on a valid book: each has the bid as its buyer, some quantity, and, if the
-- bid is a limit order, a price of at most its limit; together they have at most the bid's quantity,
-- and the asks lose exactly what they have; the bids gain what a limit order did not trade, and
-- nothing from any other order.
pub match_bid-trades :
    (clock : ℕ → ℕ) (o : Order) (b : OrderBook)
    → IsValidOrder o
    → IsValid b
    → o.side ≡ bid
    → let out = match clock o b [] in
      All (BuyerTrade o) out.trades
      × (traded_total out.trades ≤ o.quantity)
      × (traded_total out.trades + resting_total (queue out.book.asks)
          ≡ resting_total (queue b.asks))
      × OwnTotal o.order_type
          (resting_total (queue b.bids))
          (resting_total (queue out.book.bids))
          o.quantity
          (traded_total out.trades)
match_bid-trades clock o b vo v e =
    let ex = match_bid-swept clock o b [] vo v e in
    let (sum, rest) =
      fill_queue-total clock (buying o) (λ p maker q now. refl) 0 o.quantity (queue b.asks) in
    rw (ex.trades_appended, ex.makers_left, ex.rest_booked)
      (
        fill_queue-All clock (buying o) (BuyerTrade o) (λ k. 0 < k.quantity) (λ k h. h)
            (λ k n now r h p. buyer_trade o k o.order_type n now refl h p) 0 o.quantity
            (queue b.asks) (queue-positive b.asks (SideOk-IsPriced v.indexed.asks_ok)),
        omega (arith, sum),
        rest,
        OwnTotal-booked gtb clock o o.order_type (swept_asks clock o b) (queue b.bids) refl sum,
      )

-- The trades of a valid ask on a valid book: each has the ask as its seller, some quantity, and, if the
-- ask is a limit order, a price of at least its limit; together they have at most the ask's quantity,
-- and the bids lose exactly what they have; the asks gain what a limit order did not trade, and
-- nothing from any other order.
pub match_ask-trades :
    (clock : ℕ → ℕ) (o : Order) (b : OrderBook)
    → IsValidOrder o
    → IsValid b
    → o.side ≡ ask
    → let out = match clock o b [] in
      All (SellerTrade o) out.trades
      × (traded_total out.trades ≤ o.quantity)
      × (traded_total out.trades + resting_total (queue out.book.bids)
          ≡ resting_total (queue b.bids))
      × OwnTotal o.order_type
          (resting_total (queue b.asks))
          (resting_total (queue out.book.asks))
          o.quantity
          (traded_total out.trades)
match_ask-trades clock o b vo v e =
    let ex = match_ask-swept clock o b [] vo v e in
    let (sum, rest) =
      fill_queue-total clock (selling o) (λ p maker q now. refl) 0 o.quantity (queue b.bids) in
    rw (ex.trades_appended, ex.makers_left, ex.rest_booked)
      (
        fill_queue-All clock (selling o) (SellerTrade o) (λ k. 0 < k.quantity) (λ k h. h)
            (λ k n now r h p. seller_trade o k o.order_type n now refl h p) 0 o.quantity
            (queue b.bids) (queue-positive b.bids (SideOk-IsPriced v.indexed.bids_ok)),
        omega (arith, sum),
        rest,
        OwnTotal-booked ltb clock o o.order_type (swept_bids clock o b) (queue b.asks) refl sum,
      )
