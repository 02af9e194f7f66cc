-- ===== src/Engine/Refine.antt =====
-- `match` on a valid book, against price-time priority on the queues of the two sides.
use exchange_simulator.Common.{
  ℕ, ◌+◌, ◌≡◌, refl, sym, subst, List, length, returned, arith, ltb, gtb, ◌&&◌, not,
}
use exchange_simulator.Types.{
  Side, bid, ask, unnamed_side, OrderType, limit, market, unnamed_type, Order, Trade,
}
use exchange_simulator.Order.{is_limit}
use exchange_simulator.Book.Queue.{queue}
use exchange_simulator.Order.Valid.{IsValid as IsValidOrder}
use exchange_simulator.Book.{OrderBook}
use exchange_simulator.Book.Valid.{IsValid}
use exchange_simulator.Engine.{
  buying, selling, sweep, match, start_sweep, with_asks, with_bids, match_side,
}
use exchange_simulator.Engine.PriceTime.{buys_at, sells_at, bid_rules, ask_rules}
use exchange_simulator.Engine.Priority.{sweep-fill_queue, fill_queue-meet_queue}
use exchange_simulator.Engine.Executed.{
  SideOk-IsPriced, sweep-reads, against_asks, against_bids, swept_asks, swept_bids, Rest-bid,
  Rest-ask, Executed, after_sweep-Executed,
}

module _ (clock : ℕ → ℕ) (o : Order) (b : OrderBook) (trades : List Trade) (vo : IsValidOrder o)
    (v : IsValid b) where
  bid-Executed :
      o.side ≡ bid
      → Executed gtb clock o
          (λ k. k.bids)
          (λ k. k.asks)
          (swept_asks clock o b)
          b
          trades
          (match_side bid clock o b trades)
  bid-Executed e =
      let s0 = start_sweep o b.asks b trades in
      let out = sweep clock (buying o) (length b.asks + 1) s0 in
      let (ret, same) =
        sweep-fill_queue clock (buying o) (length b.asks + 1) s0 (omega arith)
          (SideOk-IsPriced v.indexed.asks_ok) in
      after_sweep-Executed gtb clock o (λ k. k.bids) (λ k. k.asks) (swept_asks clock o b) b trades
        (with_asks b) out ret
        (Rest-bid clock o out.1.remaining out.1.reads (with_asks b out.1) vo e
          v.indexed.bids_ok.sorted (SideOk-IsPriced v.indexed.bids_ok))
        refl refl same (sweep-reads clock (buying o) (length b.asks + 1) s0 (omega arith) refl)

  ask-Executed :
      o.side ≡ ask
      → Executed ltb clock o
          (λ k. k.asks)
          (λ k. k.bids)
          (swept_bids clock o b)
          b
          trades
          (match_side ask clock o b trades)
  ask-Executed e =
      let s0 = start_sweep o b.bids b trades in
      let out = sweep clock (selling o) (length b.bids + 1) s0 in
      let (ret, same) =
        sweep-fill_queue clock (selling o) (length b.bids + 1) s0 (omega arith)
          (SideOk-IsPriced v.indexed.bids_ok) in
      after_sweep-Executed ltb clock o (λ k. k.asks) (λ k. k.bids) (swept_bids clock o b) b trades
        (with_bids b) out ret
        (Rest-ask clock o out.1.remaining out.1.reads (with_bids b out.1) vo e
          v.indexed.asks_ok.sorted (SideOk-IsPriced v.indexed.asks_ok))
        refl refl same (sweep-reads clock (selling o) (length b.bids + 1) s0 (omega arith) refl)

pub match_bid-swept :
    (clock : ℕ → ℕ) (o : Order) (b : OrderBook) (trades : List Trade)
    → IsValidOrder o
    → IsValid b
    → o.side ≡ bid
    → Executed gtb clock o
        (λ k. k.bids)
        (λ k. k.asks)
        (swept_asks clock o b)
        b
        trades
        (match clock o b trades)
unfolding match
match_bid-swept clock o b trades vo v e =
    subst
      (λ s.
        Executed gtb clock o (λ k. k.bids) (λ k. k.asks) (swept_asks clock o b) b trades
          (match_side s clock o b trades))
      (sym e) (bid-Executed clock o b trades vo v e)

pub match_ask-swept :
    (clock : ℕ → ℕ) (o : Order) (b : OrderBook) (trades : List Trade)
    → IsValidOrder o
    → IsValid b
    → o.side ≡ ask
    → Executed ltb clock o
        (λ k. k.asks)
        (λ k. k.bids)
        (swept_bids clock o b)
        b
        trades
        (match clock o b trades)
unfolding match
match_ask-swept clock o b trades vo v e =
    subst
      (λ s.
        Executed ltb clock o (λ k. k.asks) (λ k. k.bids) (swept_bids clock o b) b trades
          (match_side s clock o b trades))
      (sym e) (ask-Executed clock o b trades vo v e)

-- The tests on the best price of the other side, against the prices at which an order may trade.
buys_at-not : (t : OrderType) (price p : ℕ) → (is_limit t && ltb price p) ≡ not (buys_at t price p)
buys_at-not limit price p = ground arith
buys_at-not market price p = refl
buys_at-not (unnamed_type b) price p = refl

sells_at-not :
    (t : OrderType) (price p : ℕ) → (is_limit t && ltb p price) ≡ not (sells_at t price p)
sells_at-not limit price p = ground arith
sells_at-not market price p = refl
sells_at-not (unnamed_type b) price p = refl

-- On a valid book and a valid bid, `match` returns; its trades, the asks that are left and what is
-- left of the bid are those of price-time priority against the queue of the asks: each ask in turn is
-- traded with at its price, with the bid as the buyer, while some of the bid is left and its limit, if
-- it has one, is not below that price; the trades are appended, and the rest of a limit order goes to
-- its place in the queue of the bids, behind all bids of its price or better.
pub match-bid :
    (clock : ℕ → ℕ) (o : Order) (b : OrderBook) (trades : List Trade)
    → IsValidOrder o
    → IsValid b
    → o.side ≡ bid
    → Executed gtb clock o
        (λ k. k.bids)
        (λ k. k.asks)
        (against_asks clock o b)
        b
        trades
        (match clock o b trades)
match-bid clock o b trades vo v e =
    subst
      (λ x. Executed gtb clock o (λ k. k.bids) (λ k. k.asks) x b trades (match clock o b trades))
      (fill_queue-meet_queue clock (buying o) (bid_rules o) (buys_at-not o.order_type o.price)
        (λ maker quantity now. refl) 0 o.quantity (queue b.asks))
      (match_bid-swept clock o b trades vo v e)

-- On a valid book and a valid ask, `match` returns; its trades, the bids that are left and what is
-- left of the ask are those of price-time priority against the queue of the bids: each bid in turn is
-- traded with at its price, with the ask as the seller, while some of the ask is left and its limit,
-- if it has one, is not above that price; the trades are appended, and the rest of a limit order goes
-- to its place in the queue of the asks, behind all asks of its price or better.
pub match-ask :
    (clock : ℕ → ℕ) (o : Order) (b : OrderBook) (trades : List Trade)
    → IsValidOrder o
    → IsValid b
    → o.side ≡ ask
    → Executed ltb clock o
        (λ k. k.asks)
        (λ k. k.bids)
        (against_bids clock o b)
        b
        trades
        (match clock o b trades)
match-ask clock o b trades vo v e =
    subst
      (λ x. Executed ltb clock o (λ k. k.asks) (λ k. k.bids) x b trades (match clock o b trades))
      (fill_queue-meet_queue clock (selling o) (ask_rules o) (sells_at-not o.order_type o.price)
        (λ maker quantity now. refl) 0 o.quantity (queue b.bids))
      (match_ask-swept clock o b trades vo v e)

-- On a valid book, `match` returns for every valid order.
pub match-returns :
    (clock : ℕ → ℕ) (o : Order) (b : OrderBook) (trades : List Trade)
    → IsValidOrder o
    → IsValid b
    → (match clock o b trades).result ≡ returned tt
unfolding match
match-returns clock o b trades vo v = go o.side refl
  where
    go : (s : Side) → o.side ≡ s → (match_side s clock o b trades).result ≡ returned tt
    go bid e = (bid-Executed clock o b trades vo v e).returns
    go ask e = (ask-Executed clock o b trades vo v e).returns
    go (unnamed_side c) e = refl
