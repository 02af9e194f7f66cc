-- ===== src/Engine/Validity.antt =====
-- `match` returns, and keeps the book valid.
use exchange_simulator.Common.{
  ltb→lt, lt→ltb, ℕ, ◌+◌, ◌≡◌, ◌≢◌, ◌<◌, refl, sym, subst, inl, inr, ◌⊎◌, List, [], ◌∷◌, none, true,
  false, List-cases, dec_lt, length, Outcome, returned, arith, All, All-map, ltb, gtb,
}
use exchange_simulator.Types.{
  Side, bid, ask, unnamed_side, OrderType, limit, market, unnamed_type, Order, Trade,
}
use exchange_simulator.Order.{is_limit}
use exchange_simulator.Order.Valid.{PriceFits, IsValid as IsValidOrder, make_order-fields}
use exchange_simulator.Book.{Level, OrderBook, add_order}
use exchange_simulator.Book.Levels.{IsSorted, ltb-IsLinear, gtb-IsLinear, before-All}
use exchange_simulator.Book.Front.{kept, Faces, ask-Faces, bid-Faces}
use exchange_simulator.Book.Valid.{OrderMap, IsValid}
use exchange_simulator.Book.Add.{Apart, add_order-IsValid}
use exchange_simulator.Engine.{
  Direction, buying, selling, Sweep, sweep, Matched, match, match_side, rest_order, start_sweep,
  with_asks, with_bids, after_sweep,
}
use exchange_simulator.Engine.Rounds.{Keeps}
use exchange_simulator.Engine.Sweeps.{KeepsLevels, SweepEnded, Stopped, sweep_rule}

module _ (clock : ℕ → ℕ) (d : Direction) (P : List Level → OrderMap → Type 0) (face : Faces P) where
  face-rounds :
      (l : Level) (ls : List Level)
      → Keeps clock d (λ f. P (kept l f.orders ls) f.order_map) l.price
  face-rounds l ls = record {
    on_whole = λ n rest f e more fits v.
        face.take_front l n rest ls f.order_map (subst (λ os. P (kept l os ls) f.order_map) e v);
    on_part = λ n rest f e more over v.
        face.reduce_front l n rest ls f.order_map f.remaining over
          (subst (λ os. P (kept l os ls) f.order_map) e v);
  }

  kept-whole : (l : Level) (ls : List Level) → l.orders ≢ [] → kept l l.orders ls ≡ l ∷ ls
  kept-whole l ls h = elim (List-cases l.orders) [
    | inl e ↦ absurd (h e)
    | inr (n, ns, e) ↦ ground arith
  ]

  face-levels :
      KeepsLevels clock d
        (λ s. P s.levels s.order_map)
        (λ l ls f. P (kept l f.orders ls) f.order_map)
  face-levels = record {
    rounds = λ l ls b. face-rounds l ls;
    enter = λ s l ls e v.
        let v' = subst (λ k. P k s.order_map) e v in
        subst (λ k. P k s.order_map) (sym (kept-whole l ls (face.full l ls s.order_map v'))) v';
    leave = λ l ls f t v. v;
  }

  -- A sweep with more fuel than levels ends by its tests, and keeps what its rounds keep.
  sweep-face :
      (fuel : ℕ) (s : Sweep)
      → length s.levels < fuel
      → P s.levels s.order_map
      → SweepEnded clock d (λ s'. P s'.levels s'.order_map) (sweep clock d fuel s)
  sweep-face fuel s h v = sweep_rule clock d _ _ face-levels fuel s h v

-- The order that `match` makes of what is left of `o`.
abbrev pub remainder : (ℕ → ℕ) → Order → ℕ → ℕ → Order
remainder clock o r reads = record o { timestamp = clock reads; quantity = r }

-- What is left is booked exactly if it is left of a limit order.
pub rest_order-limit :
    (clock : ℕ → ℕ) (o : Order) (r reads : ℕ) (b : OrderBook)
    → 0 < r
    → o.order_type ≡ limit
    → 0 < o.price
    → rest_order clock o r reads b ≡ (returned tt, add_order (remainder clock o r reads) b)
rest_order-limit clock o r reads b h e p =
    rw (e, lt→ltb 0 r h, make_order-fields (clock reads) o.id o.price r o.side limit p h)

pub rest_order-none :
    (clock : ℕ → ℕ) (o : Order) (r reads : ℕ) (b : OrderBook)
    → (r ≡ 0) ⊎ (is_limit o.order_type ≡ false)
    → rest_order clock o r reads b ≡ (returned tt, b)
rest_order-none clock o r reads b (inl e) = rw e
rest_order-none clock o r reads b (inr e) = ground arith

record Rested (out : Outcome (Unit {0}) × OrderBook) : Type 0 where
  returns : out.0 ≡ returned tt
  valid : IsValid out.1

pub is_limit-eq : (t : OrderType) → (t ≡ limit) ⊎ (is_limit t ≡ false)
is_limit-eq limit = inl refl
is_limit-eq market = inr refl
is_limit-eq (unnamed_type b) = inr refl

rest_order-Rested :
    (clock : ℕ → ℕ) (o : Order) (r reads : ℕ) (b : OrderBook)
    → IsValidOrder o
    → IsValid b
    → b.order_map o.id ≡ none
    → (0 < r → o.order_type ≡ limit → Apart o.side o b)
    → Rested (rest_order clock o r reads b)
rest_order-Rested clock o r reads b vo v fresh apart = elim (is_limit-eq o.order_type) [
  | inr e ↦ rw (rest_order-none clock o r reads b (inr e)) (record { returns = refl; valid = v })
  | inl e ↦ elim (dec_lt 0 r) [
    | no h ↦
        rw (rest_order-none clock o r reads b (inl (omega arith)))
          (record { returns = refl; valid = v })
    | yes h ↦
        let p : 0 < o.price = subst (λ t. PriceFits t o.price) e vo.priced in
        rw (rest_order-limit clock o r reads b h e p) (record {
          returns = refl;
          valid =
              add_order-IsValid (remainder clock o r reads) b v fresh
                (record {
                  on_side = refl;
                  is_limit_order = e;
                  positive_price = p;
                  some_quantity = h;
                })
                (apart_again o.side (apart h e));
        })
  ]
]
  where
    apart_again : (s : Side) → Apart s o b → Apart s (remainder clock o r reads) b
    apart_again bid a = a
    apart_again ask a = a
    apart_again (unnamed_side _) a = a

-- Where the sweep stopped short of a rest, the other side's prices are all out of reach.
asks-apart :
    (clock : ℕ → ℕ) (o : Order) (s : Sweep)
    → IsSorted ltb s.levels
    → Stopped clock (buying o) s
    → 0 < s.remaining
    → All (λ a. o.price < a.price) s.levels
asks-apart clock o s sorted (inl z) h = absurd (omega arith)
asks-apart clock o s sorted (inr (inl e)) h = rw e tt
asks-apart clock o s sorted (inr (inr (l, ls, e, b))) h =
    let sorted' : IsSorted ltb (l ∷ ls) = rw e at sorted in
    let less : ltb o.price l.price ≡ true = ground arith in
    rw e (
      ltb→lt _ _ less,
      All-map ls (λ k t. ltb→lt _ _ t) (before-All ltb ltb-IsLinear o.price l ls less sorted'.0),
    )

bids-apart :
    (clock : ℕ → ℕ) (o : Order) (s : Sweep)
    → IsSorted gtb s.levels
    → Stopped clock (selling o) s
    → 0 < s.remaining
    → All (λ l. l.price < o.price) s.levels
bids-apart clock o s sorted (inl z) h = absurd (omega arith)
bids-apart clock o s sorted (inr (inl e)) h = rw e tt
bids-apart clock o s sorted (inr (inr (l, ls, e, b))) h =
    let sorted' : IsSorted gtb (l ∷ ls) = rw e at sorted in
    let more : gtb o.price l.price ≡ true = ground arith in
    rw e (
      ltb→lt _ _ more,
      All-map ls (λ k t. ltb→lt _ _ t) (before-All gtb gtb-IsLinear o.price l ls more sorted'.0),
    )

record MatchedOk (out : Matched) : Type 0 where
  pub returns : out.result ≡ returned tt
  pub valid : IsValid out.book

after_sweep-Ok :
    (clock : ℕ → ℕ) (o : Order) (swept : Sweep → OrderBook) (out : Outcome (Unit {0}) × Sweep)
    → out.0 ≡ returned tt
    → Rested (rest_order clock o out.1.remaining out.1.reads (swept out.1))
    → MatchedOk (after_sweep clock o swept out)
after_sweep-Ok clock o swept (r, s) e v = rw e (record { returns = v.returns; valid = v.valid })

match_bid-Ok :
    (clock : ℕ → ℕ) (o : Order) (b : OrderBook) (trades : List Trade)
    → IsValidOrder o
    → IsValid b
    → b.order_map o.id ≡ none
    → o.side ≡ bid
    → MatchedOk (match_side bid clock o b trades)
match_bid-Ok clock o b trades vo v fresh e =
    let en =
      sweep-face clock (buying o) _ (ask-Faces b.bids b.next_address o.id) (length b.asks + 1)
        (start_sweep o b.asks b trades) (omega arith)
        (record { indexed = v.indexed; uncrossed = v.uncrossed; fresh = fresh }) in
    let s = (sweep clock (buying o) (length b.asks + 1) (start_sweep o b.asks b trades)).1 in
    after_sweep-Ok clock o (with_asks b) _ en.returns (
      rest_order-Rested clock o s.remaining s.reads (with_asks b s) vo
        (record { indexed = en.holds.indexed; uncrossed = en.holds.uncrossed }) en.holds.fresh
        (λ h l. rw e (asks-apart clock o s en.holds.indexed.asks_ok.sorted en.stopped h)))

match_ask-Ok :
    (clock : ℕ → ℕ) (o : Order) (b : OrderBook) (trades : List Trade)
    → IsValidOrder o
    → IsValid b
    → b.order_map o.id ≡ none
    → o.side ≡ ask
    → MatchedOk (match_side ask clock o b trades)
match_ask-Ok clock o b trades vo v fresh e =
    let en =
      sweep-face clock (selling o) _ (bid-Faces b.asks b.next_address o.id) (length b.bids + 1)
        (start_sweep o b.bids b trades) (omega arith)
        (record { indexed = v.indexed; uncrossed = v.uncrossed; fresh = fresh }) in
    let s = (sweep clock (selling o) (length b.bids + 1) (start_sweep o b.bids b trades)).1 in
    after_sweep-Ok clock o (with_bids b) _ en.returns (
      rest_order-Rested clock o s.remaining s.reads (with_bids b s) vo
        (record { indexed = en.holds.indexed; uncrossed = en.holds.uncrossed }) en.holds.fresh
        (λ h l. rw e (bids-apart clock o s en.holds.indexed.bids_ok.sorted en.stopped h)))

match_side-Ok :
    (clock : ℕ → ℕ) (o : Order) (b : OrderBook) (trades : List Trade) (s : Side)
    → IsValidOrder o
    → IsValid b
    → b.order_map o.id ≡ none
    → o.side ≡ s
    → MatchedOk (match_side s clock o b trades)
match_side-Ok clock o b trades bid vo v fresh e = match_bid-Ok clock o b trades vo v fresh e
match_side-Ok clock o b trades ask vo v fresh e = match_ask-Ok clock o b trades vo v fresh e
match_side-Ok clock o b trades (unnamed_side c) vo v fresh e = record { returns = refl; valid = v }

-- A valid order with a new id leaves a valid book valid (so no bid meets an ask), and `match`
-- returns: its loops end, and neither of the two calls in it that may throw does.
pub match-IsValid :
    (clock : ℕ → ℕ) (o : Order) (b : OrderBook) (trades : List Trade)
    → IsValidOrder o
    → IsValid b
    → b.order_map o.id ≡ none
    → ((match clock o b trades).result ≡ returned tt) × IsValid (match clock o b trades).book
unfolding match
match-IsValid clock o b trades vo v fresh =
    let ok = match_side-Ok clock o b trades o.side vo v fresh refl in (ok.returns, ok.valid)
