-- ===== src/Engine/Executed.antt =====
-- What is left of an order after its sweep, and where it goes, against price-time priority.
use exchange_simulator.Common.{
  ℕ, ◌+◌, ◌≡◌, ◌<◌, refl, ap, ◌∙◌, subst, inl, inr, List, [], ◌∷◌, ◌++◌, Bool, true, ◌&&◌, dec_lt,
  length, length-append, Outcome, returned, arith, All-map, ltb, gtb, lt→ltb, if◌then◌else◌,
}
use exchange_simulator.Types.{Side, bid, ask, limit, Order, Trade}
use exchange_simulator.Order.{is_limit}
use exchange_simulator.Order.Valid.{PriceFits, IsValid as IsValidOrder}
use exchange_simulator.Book.{Level, OrderBook, add_order, new_node}
use exchange_simulator.Book.Levels.{IsSorted, ltb-IsLinear, gtb-IsLinear}
use exchange_simulator.Book.Queue.{queue, insert_order, IsPriced, queue-update_level}
use exchange_simulator.Book.Valid.{OrderMap, SideOk}
use exchange_simulator.Engine.{
  Direction, buying, selling, Sweep, sweep, Matched, rest_order, after_sweep,
}
use exchange_simulator.Engine.Sweeps.{KeepsLevels, sweep_rule}
use exchange_simulator.Engine.PriceTime.{Fills, bid_rules, ask_rules, meet_queue}
use exchange_simulator.Engine.Priority.{fill_queue}
use exchange_simulator.Engine.Validity.{is_limit-eq, remainder, rest_order-limit, rest_order-none}

pub SideOk-IsPriced :
    {before : ℕ → ℕ → Bool} {m : OrderMap} {next : ℕ} {s : Side} {ls : List Level}
    → SideOk before m next s ls
    → IsPriced ls
SideOk-IsPriced {ls} ok =
    All-map ls
      (λ l v. (v.not_empty, All-map l.orders (λ n w. (w.at_price, w.some_quantity)) v.nodes))
      ok.levels

module _ (clock : ℕ → ℕ) (d : Direction) where
  -- The clock is read once for each trade.
  counted :
      (k : ℕ)
      → KeepsLevels clock d
          (λ s. k + s.reads ≡ length s.trades)
          (λ l ls f. k + f.reads ≡ length f.trades)
  counted k = record {
    rounds = λ l ls b. record {
      on_whole = λ n rest f e more fits v. omega (arith, length-append f.trades (_ ∷ []));
      on_part = λ n rest f e more over v. omega (arith, length-append f.trades (_ ∷ []));
    };
    enter = λ s l ls e v. v;
    leave = λ l ls f t v. v;
  }

  pub sweep-reads :
      (fuel : ℕ) (s : Sweep)
      → length s.levels < fuel
      → s.reads ≡ 0
      → length s.trades + (sweep clock d fuel s).1.reads ≡ length (sweep clock d fuel s).1.trades
  sweep-reads fuel s h z =
      (sweep_rule clock d _ _ (counted (length s.trades)) fuel s h (omega arith)).holds

-- What is left of the taker `o` goes to its place in the queue `q` of its own side, if it is a limit
-- order.
abbrev pub booked : (ℕ → ℕ → Bool) → (ℕ → ℕ) → Order → Fills → List Order → List Order
booked before clock o x q =
    if ltb 0 x.remaining && is_limit o.order_type
    then insert_order before (remainder clock o x.remaining (length x.trades)) q
    else q

-- A bid against the asks, and an ask against the bids, by price-time priority.
abbrev pub against_asks : (ℕ → ℕ) → Order → OrderBook → Fills
against_asks clock o b = meet_queue clock (bid_rules o) 0 o.quantity (queue b.asks)

abbrev pub against_bids : (ℕ → ℕ) → Order → OrderBook → Fills
against_bids clock o b = meet_queue clock (ask_rules o) 0 o.quantity (queue b.bids)

-- The same over the directions of the two branches of `match`.
abbrev pub swept_asks : (ℕ → ℕ) → Order → OrderBook → Fills
swept_asks clock o b = fill_queue clock (buying o) 0 o.quantity (queue b.asks)

abbrev pub swept_bids : (ℕ → ℕ) → Order → OrderBook → Fills
swept_bids clock o b = fill_queue clock (selling o) 0 o.quantity (queue b.bids)

-- The queues after the end of `match`: the rest is booked on its own side, and the other stays.
pub record Rest (b : OrderBook) (own other : OrderBook → List Level) (before : ℕ → ℕ → Bool)
    (clock : ℕ → ℕ) (o : Order) (r reads : ℕ) (out : Outcome (Unit {0}) × OrderBook) : Type 0 where
  returns : out.0 ≡ returned tt
  untouched : other out.1 ≡ other b
  placed : queue (own out.1) ≡ (
      if ltb 0 r && is_limit o.order_type
      then insert_order before (remainder clock o r reads) (queue (own b))
      else queue (own b))

module _ (clock : ℕ → ℕ) (o : Order) (r reads : ℕ) (b : OrderBook) (vo : IsValidOrder o) where
  Rest-cases :
      (own other : OrderBook → List Level) (before : ℕ → ℕ → Bool)
      → other (add_order (remainder clock o r reads) b) ≡ other b
      → (o.order_type ≡ limit
          → queue (own (add_order (remainder clock o r reads) b))
            ≡ insert_order before (remainder clock o r reads) (queue (own b)))
      → Rest b own other before clock o r reads (rest_order clock o r reads b)
  Rest-cases own other before same add = elim (is_limit-eq o.order_type) [
    | inr e ↦
        rw (rest_order-none clock o r reads b (inr e))
          (record { returns = refl; untouched = refl; placed = ground arith })
    | inl e ↦ elim (dec_lt 0 r) [
      | no h ↦
          let z : r ≡ 0 = omega arith in
          rw (rest_order-none clock o r reads b (inl z))
            (record { returns = refl; untouched = refl; placed = ground arith })
      | yes h ↦
          let p : 0 < o.price = subst (λ t. PriceFits t o.price) e vo.priced in
          rw (rest_order-limit clock o r reads b h e p) (record {
            returns = refl;
            untouched = same;
            placed =
                let t : is_limit o.order_type ≡ true = ap is_limit e in
                rw (lt→ltb 0 r h, t) (add e);
          })
    ]
  ]

  pub Rest-bid :
      o.side ≡ bid
      → IsSorted gtb b.bids
      → IsPriced b.bids
      → Rest b (λ k. k.bids) (λ k. k.asks) gtb clock o r reads (rest_order clock o r reads b)
  unfolding add_order
  Rest-bid e s p =
      Rest-cases (λ k. k.bids) (λ k. k.asks) gtb (ground arith)
        (λ t. ground (
          arith,
          queue-update_level gtb gtb-IsLinear (remainder clock o r reads)
              (new_node (remainder clock o r reads) b) b.bids refl s p,
        ))

  pub Rest-ask :
      o.side ≡ ask
      → IsSorted ltb b.asks
      → IsPriced b.asks
      → Rest b (λ k. k.asks) (λ k. k.bids) ltb clock o r reads (rest_order clock o r reads b)
  unfolding add_order
  Rest-ask e s p =
      Rest-cases (λ k. k.asks) (λ k. k.bids) ltb (ground arith)
        (λ t. ground (
          arith,
          queue-update_level ltb ltb-IsLinear (remainder clock o r reads)
              (new_node (remainder clock o r reads) b) b.asks refl s p,
        ))

-- What `match` does to the queues, for a taker whose trades, makers and rest are `x`.
pub record Executed (before : ℕ → ℕ → Bool) (clock : ℕ → ℕ) (o : Order)
    (own other : OrderBook → List Level) (x : Fills) (b : OrderBook) (trades : List Trade)
    (out : Matched) : Type 0 where
  pub returns : out.result ≡ returned tt
  pub trades_appended : out.trades ≡ trades ++ x.trades
  pub makers_left : queue (other out.book) ≡ x.resting
  pub rest_booked : queue (own out.book) ≡ booked before clock o x (queue (own b))

pub after_sweep-Executed :
    (before : ℕ → ℕ → Bool) (clock : ℕ → ℕ) (o : Order) (own other : OrderBook → List Level)
    (x : Fills) (b : OrderBook) (trades : List Trade) (swept : Sweep → OrderBook)
    (out : Outcome (Unit {0}) × Sweep)
    → out.0 ≡ returned tt
    → Rest
        (swept out.1)
        own
        other
        before
        clock
        o
        out.1.remaining
        out.1.reads
        (rest_order clock o out.1.remaining out.1.reads (swept out.1))
    → own (swept out.1) ≡ own b
    → other (swept out.1) ≡ out.1.levels
    → ◌≡◌ {A = Fills}
        (record {
          trades = out.1.trades;
          resting = queue out.1.levels;
          remaining = out.1.remaining;
        })
        (record { trades = trades ++ x.trades; resting = x.resting; remaining = x.remaining })
    → length trades + out.1.reads ≡ length out.1.trades
    → Executed before clock o own other x b trades (after_sweep clock o swept out)
after_sweep-Executed before clock o own other x b trades swept (r, s) e rest his theirs same n =
    let ts : s.trades ≡ trades ++ x.trades = ap (λ (y : Fills). y.trades) same in
    let left : s.remaining ≡ x.remaining = ap (λ (y : Fills). y.remaining) same in
    let reads : s.reads ≡ length x.trades =
      omega (arith, ap length ts, length-append trades x.trades) in
    rw e (record {
      returns = rest.returns;
      trades_appended = ts;
      makers_left = ap queue (rest.untouched ∙ theirs) ∙ ap (λ (y : Fills). y.resting) same;
      rest_booked = rw (← left, ← reads, ← his) rest.placed;
    })
