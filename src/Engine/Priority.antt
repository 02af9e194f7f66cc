-- ===== src/Engine/Priority.antt =====
-- The sweep of the levels as a function on the queue of the resting orders, over the same direction;
-- and this function against price-time priority, where the direction keeps its rules.
use exchange_simulator.Common.{
  List-cases, ℕ, ◌+◌, ◌-◌, ◌<◌, ◌≤◌, ◌≡◌, refl, sym, ◌∙◌, inl, inr, List, [], ◌∷◌, ◌++◌, false,
  ◌||◌, not, leb, ◌==◌, if◌then◌else◌, length, returned, arith, All, append-nil, append_assoc,
}
use exchange_simulator.Types.{Order, Trade}
use exchange_simulator.Book.{Level}
use exchange_simulator.Book.Front.{kept}
use exchange_simulator.Book.Queue.{IsPricedNode, IsPriced, orders_at, queue}
use exchange_simulator.Engine.{Direction, Fill, Sweep, sweep}
use exchange_simulator.Engine.PriceTime.{Fills, Rules, meet_queue}
use exchange_simulator.Engine.Rounds.{Keeps}
use exchange_simulator.Engine.Sweeps.{KeepsLevels, Stopped, sweep_rule, left}

module _ (clock : ℕ → ℕ) (d : Direction) where
  -- The taker with `r` units left meets the queue: each maker in turn is filled at its own price,
  -- until nothing is left, the next price is blocked, or the maker is larger than the rest.
  unfoldable pub fill_queue : ℕ → ℕ → List Order → Fills
  fill_queue i r [] = record { trades = []; resting = []; remaining = r }
  fill_queue i r (o ∷ q) =
      let rest = fill_queue (i + 1) (r - o.quantity) q in
      if r == 0 || d.blocked o.price
      then record { trades = []; resting = o ∷ q; remaining = r }
      else if leb o.quantity r
      then record {
        trades = d.trade_with o.price o o.quantity (clock i) ∷ rest.trades;
        resting = rest.resting;
        remaining = rest.remaining;
      }
      else record {
        trades = d.trade_with o.price o r (clock i) ∷ [];
        resting = record o { quantity = o.quantity - r } ∷ q;
        remaining = 0;
      }

  -- What the loops will have produced, told from their variables in mid-course.
  abbrev pub answer : List Trade → ℕ → ℕ → List Order → Fills
  answer ts i r q =
      let x = fill_queue i r q in
      record { trades = ts ++ x.trades; resting = x.resting; remaining = x.remaining }

  abbrev fill_answer : List Level → Fill → Fills
  fill_answer ls f = answer f.trades f.reads f.remaining (orders_at f.orders ++ queue ls)

  abbrev pub sweep_answer : Sweep → Fills
  sweep_answer s = answer s.trades s.reads s.remaining (queue s.levels)

  fill_queue_whole :
      (ts : List Trade) (i r : ℕ) (o : Order) (q : List Order)
      → 0 < r
      → d.blocked o.price ≡ false
      → o.quantity ≤ r
      → answer (ts ++ d.trade_with o.price o o.quantity (clock i) ∷ []) (i + 1) (r - o.quantity) q
        ≡ answer ts i r (o ∷ q)
  unfolding fill_queue
  fill_queue_whole ts i r o q h b fits = ground (
    arith,
    append_assoc ts (d.trade_with o.price o o.quantity (clock i) ∷ [])
        (fill_queue (i + 1) (r - o.quantity) q).trades,
  )

  fill_queue_zero :
      (i : ℕ) (q : List Order)
      → fill_queue i 0 q ≡ record { trades = []; resting = q; remaining = 0 }
  unfolding fill_queue
  fill_queue_zero i [] = refl
  fill_queue_zero i (o ∷ q) = refl

  fill_queue_part :
      (ts : List Trade) (i r : ℕ) (o : Order) (q : List Order)
      → 0 < r
      → d.blocked o.price ≡ false
      → r < o.quantity
      → answer
          (ts ++ d.trade_with o.price o r (clock i) ∷ [])
          (i + 1)
          0
          (record o { quantity = o.quantity - r } ∷ q)
        ≡ answer ts i r (o ∷ q)
  unfolding fill_queue
  fill_queue_part ts i r o q h b over =
      ground (arith, append-nil (ts ++ d.trade_with o.price o r (clock i) ∷ []))

  -- The invariants of the two loops: the answer to come is `a`.
  record OnFill (a : Fills) (l : Level) (ls : List Level) (f : Fill) : Type 0 where
    same : fill_answer ls f ≡ a
    priced : All (IsPricedNode l.price) f.orders
    others : IsPriced ls

  record OnSweep (a : Fills) (s : Sweep) : Type 0 where
    same : sweep_answer s ≡ a
    priced : IsPriced s.levels

  fill-Keeps :
      (a : Fills) (l : Level) (ls : List Level)
      → d.blocked l.price ≡ false
      → Keeps clock d (OnFill a l ls) l.price
  fill-Keeps a l ls b = record {
    on_whole = λ n rest f e more fits v.
        let pr : All (IsPricedNode l.price) (n ∷ rest) = rw e at v.priced in
        record {
          same = ground (
            arith,
            fill_queue_whole f.trades f.reads f.remaining n.order (orders_at rest ++ queue ls),
          );
          priced = pr.1;
          others = v.others;
        };
    on_part = λ n rest f e more over v.
        let pr : All (IsPricedNode l.price) (n ∷ rest) = rw e at v.priced in
        record {
          same = ground (
            arith,
            fill_queue_part f.trades f.reads f.remaining n.order (orders_at rest ++ queue ls),
          );
          priced = ((pr.0.0, omega arith), pr.1);
          others = v.others;
        };
  }

  left-OnSweep :
      (a : Fills) (l : Level) (ls : List Level) (f : Fill)
      → OnFill a l ls f
      → OnSweep a (left l ls f)
  left-OnSweep a l ls f v = elim (List-cases f.orders) [
    | inl e ↦ record { same = ground (arith, v.same); priced = rw (e, kept) v.others }
    | inr (n, ns, e) ↦ record {
      same = ground (arith, v.same);
      priced = rw (e, kept) ((λ p. cc, rw e at v.priced), v.others);
    }
  ]

  sweep-keeps : (a : Fills) → KeepsLevels clock d (OnSweep a) (OnFill a)
  sweep-keeps a = record {
    rounds = λ l ls b. fill-Keeps a l ls b;
    enter = λ s l ls e v.
        let pr : IsPriced (l ∷ ls) = rw e at v.priced in
        record { same = ground (arith, v.same); priced = pr.0.1; others = pr.1 };
    leave = λ l ls f _ v. left-OnSweep a l ls f v;
  }

  -- Where the loop stops, the reference has nothing left to do.
  answer-Stopped :
      (s : Sweep)
      → IsPriced s.levels
      → Stopped clock d s
      → sweep_answer s
        ≡ record { trades = s.trades; resting = queue s.levels; remaining = s.remaining }
  unfolding fill_queue
  answer-Stopped s pr (inl z) =
      ground (arith, fill_queue_zero s.reads (queue s.levels), append-nil s.trades)
  answer-Stopped s pr (inr (inl e)) = ground (arith, append-nil s.trades)
  answer-Stopped s pr (inr (inr (l, ls, e, b))) =
      let full : IsPriced (l ∷ ls) = rw e at pr in
      elim (List-cases l.orders) [
        | inl none ↦ absurd (full.0.0 none)
        | inr (n, ns, e') ↦
            let head : All (IsPricedNode l.price) (n ∷ ns) = rw e' at full.0.1 in
            ground (arith, append-nil s.trades)
      ]

  -- From levels whose orders bear their level's price, and with more fuel than levels, the sweep
  -- returns; its trades, the orders that it leaves and the rest of the taker are those of
  -- `fill_queue` on the queue of the levels.
  pub sweep-fill_queue :
      (fuel : ℕ) (s : Sweep)
      → length s.levels < fuel
      → IsPriced s.levels
      → let out = sweep clock d fuel s in
        (out.0 ≡ returned tt)
        × (record {
          trades = out.1.trades;
          resting = queue out.1.levels;
          remaining = out.1.remaining;
        }
            ≡ sweep_answer s)
  sweep-fill_queue fuel s h pr =
      let en =
        sweep_rule clock d (OnSweep (sweep_answer s)) (OnFill (sweep_answer s))
          (sweep-keeps (sweep_answer s)) fuel s h (record { same = refl; priced = pr }) in
      (
        en.returns,
        sym (answer-Stopped (sweep clock d fuel s).1 en.holds.priced en.stopped) ∙ en.holds.same,
      )

  -- A direction that stops where the rules forbid a trade, and writes the trades that they say.
  pub fill_queue-meet_queue :
      (rules : Rules)
      → ((p : ℕ) → d.blocked p ≡ not (rules.may_trade p))
      → ((maker : Order) (quantity now : ℕ)
          → d.trade_with maker.price maker quantity now ≡ rules.trade_with maker quantity now)
      → (i r : ℕ) (q : List Order) → fill_queue i r q ≡ meet_queue clock rules i r q
  unfolding fill_queue meet_queue
  fill_queue-meet_queue rules b t i r [] = refl
  fill_queue-meet_queue rules b t i r (o ∷ q) =
      rw
        (
          b o.price,
          t o o.quantity (clock i),
          t o r (clock i),
          fill_queue-meet_queue rules b t (i + 1) (r - o.quantity) q,
        )
        (ground arith)
