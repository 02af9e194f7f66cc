-- ===== src/Engine/Entries.antt =====
-- The order map after `match`: entries go, and only the taker's own may come.
use exchange_simulator.Common.{
  ℕ, ◌+◌, ◌≡◌, refl, ◌⊎◌, inl, inr, List, none, update, ◌==◌, Bool-cases, ==_iff, length, dec_lt,
  subst, Outcome, returned, arith,
}
use exchange_simulator.Types.{Side, bid, ask, unnamed_side, Order, Trade}
use exchange_simulator.Order.{is_limit}
use exchange_simulator.Order.Valid.{PriceFits, IsValid as IsValidOrder}
use exchange_simulator.Book.{OrderBook, add_order, add_to_side}
use exchange_simulator.Book.Valid.{OrderMap}
use exchange_simulator.Engine.{
  Direction, buying, selling, Sweep, start_sweep, after_sweep, rest_order, with_asks, with_bids,
  match, match_side,
}
use exchange_simulator.Engine.Sweeps.{KeepsLevels, sweep_rule}
use exchange_simulator.Engine.Validity.{is_limit-eq, remainder, rest_order-limit, rest_order-none}

-- Each entry is gone, or is as it was in `m`.
abbrev IsSubmap : OrderMap → OrderMap → Type 0
IsSubmap m k = (id : ℕ) → (k id ≡ none) ⊎ (k id ≡ m id)

erase-IsSubmap : (m k : OrderMap) (j : ℕ) → IsSubmap m k → IsSubmap m (update k j none)
erase-IsSubmap m k j h id = elim (Bool-cases (id == j)) [
  | inl same ↦ inl (rw same)
  | inr other ↦ rw other (h id)
]

module _ (clock : ℕ → ℕ) (d : Direction) where
  keeps-IsSubmap :
      (m : OrderMap)
      → KeepsLevels clock d (λ s. IsSubmap m s.order_map) (λ l ls f. IsSubmap m f.order_map)
  keeps-IsSubmap m = record {
    rounds = λ l ls b. record {
      on_whole = λ n rest f e h k p. erase-IsSubmap m f.order_map n.order.id p;
      on_part = λ n rest f e h k p. p;
    };
    enter = λ s l ls e p. p;
    leave = λ l ls f t p. p;
  }

-- The same but for the entry of `own`.
abbrev pub IsSubmapBut : ℕ → OrderMap → OrderMap → Type 0
IsSubmapBut own m k = (id : ℕ) → (id ≡ own) ⊎ (k id ≡ none) ⊎ (k id ≡ m id)

add_to_side-IsSubmapBut :
    (s : Side) (o : Order) (m : OrderMap) (b : OrderBook)
    → IsSubmap m b.order_map
    → IsSubmapBut o.id m (add_to_side s o b).order_map
add_to_side-IsSubmapBut bid o m b h id = elim (Bool-cases (id == o.id)) [
  | inl same ↦ inl ((==_iff _ _).0 same)
  | inr other ↦ inr (rw other (h id))
]
add_to_side-IsSubmapBut ask o m b h id = elim (Bool-cases (id == o.id)) [
  | inl same ↦ inl ((==_iff _ _).0 same)
  | inr other ↦ inr (rw other (h id))
]
add_to_side-IsSubmapBut (unnamed_side _) o m b h id = inr (h id)

add_order-IsSubmapBut :
    (o : Order) (m : OrderMap) (b : OrderBook)
    → IsSubmap m b.order_map
    → IsSubmapBut o.id m (add_order o b).order_map
unfolding add_order
add_order-IsSubmapBut o m b h = elim (Bool-cases (is_limit o.order_type)) [
  | inl e ↦ rw e (add_to_side-IsSubmapBut o.side o m b h)
  | inr e ↦ rw e (λ id. inr (h id))
]

rest_order-IsSubmapBut :
    (clock : ℕ → ℕ) (o : Order) (r reads : ℕ) (m : OrderMap) (b : OrderBook)
    → IsValidOrder o
    → IsSubmap m b.order_map
    → IsSubmapBut o.id m (rest_order clock o r reads b).1.order_map
rest_order-IsSubmapBut clock o r reads m b vo h = elim (is_limit-eq o.order_type) [
  | inr e ↦ rw (rest_order-none clock o r reads b (inr e)) (λ id. inr (h id))
  | inl e ↦ elim (dec_lt 0 r) [
    | no z ↦ rw (rest_order-none clock o r reads b (inl (omega arith))) (λ id. inr (h id))
    | yes p ↦
        rw (rest_order-limit clock o r reads b p e (subst (λ t. PriceFits t o.price) e vo.priced))
          (add_order-IsSubmapBut (remainder clock o r reads) m b h)
  ]
]

after_sweep-IsSubmapBut :
    (clock : ℕ → ℕ) (o : Order) (m : OrderMap) (swept : Sweep → OrderBook)
    (out : Outcome (Unit {0}) × Sweep)
    → IsValidOrder o
    → out.0 ≡ returned tt
    → IsSubmap m (swept out.1).order_map
    → IsSubmapBut o.id m (after_sweep clock o swept out).book.order_map
after_sweep-IsSubmapBut clock o m swept (r, s) vo e h =
    rw e (rest_order-IsSubmapBut clock o s.remaining s.reads m (swept s) vo h)

-- After `match`, an id other than the taker's has no entry, or the one that it had.
pub match-IsSubmapBut :
    (clock : ℕ → ℕ) (o : Order) (b : OrderBook) (trades : List Trade)
    → IsValidOrder o
    → IsSubmapBut o.id b.order_map (match clock o b trades).book.order_map
unfolding match
match-IsSubmapBut clock o b trades vo = by_side o.side
  where
    by_side :
        (s : Side) → IsSubmapBut o.id b.order_map (match_side s clock o b trades).book.order_map
    by_side bid =
        let en =
          sweep_rule clock (buying o) _ _ (keeps-IsSubmap clock (buying o) b.order_map)
            (length b.asks + 1) (start_sweep o b.asks b trades) (omega arith) (λ id. inr refl) in
        after_sweep-IsSubmapBut clock o b.order_map (with_asks b) _ vo en.returns en.holds
    by_side ask =
        let en =
          sweep_rule clock (selling o) _ _ (keeps-IsSubmap clock (selling o) b.order_map)
            (length b.bids + 1) (start_sweep o b.bids b trades) (omega arith) (λ id. inr refl) in
        after_sweep-IsSubmapBut clock o b.order_map (with_bids b) _ vo en.returns en.holds
    by_side (unnamed_side _) = λ id. inr (inr refl)
