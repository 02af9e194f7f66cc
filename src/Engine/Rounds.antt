-- ===== src/Engine/Rounds.antt =====
-- The two loops of `match` as rules: what one round does, that the fuel is enough, and which
-- properties of the loop's variables hold when it stops.
use exchange_simulator.Common.{
  List-cases, dec_lt, ap, zero, suc, inl, inr, refl, ℕ, zero, suc, ◌+◌, ◌-◌, ◌≤◌, ◌<◌, min, ◌≡◌,
  refl, ◌⊎◌, inl, inr, List, [], ◌∷◌, ◌++◌, none, update, length, Outcome, returned, arith,
}
use exchange_simulator.Types.{Trade}
use exchange_simulator.Order.Valid.{reduce_quantity_lem}
use exchange_simulator.Book.{Node}
use exchange_simulator.Book.Front.{reduced}
use exchange_simulator.Engine.{Direction, Fill, continue, fill_front, fill_level}

module _ (clock : ℕ → ℕ) (d : Direction) where
  abbrev pub traded : ℕ → Node → ℕ → Fill → List Trade
  traded best n q f = f.trades ++ d.trade_with best n.order q (clock f.reads) ∷ []

  -- The round fills the maker and takes it off the list.
  abbrev pub whole : ℕ → Node → List Node → Fill → Fill
  whole best n rest f = record {
    remaining = f.remaining - n.order.quantity;
    orders = rest;
    order_map = update f.order_map n.order.id none;
    trades = traded best n n.order.quantity f;
    reads = f.reads + 1;
  }

  -- The round fills what remained of the taker, and the maker keeps the rest.
  abbrev pub part : ℕ → Node → List Node → Fill → Fill
  part best n rest f = record {
    remaining = 0;
    orders = reduced f.remaining n ∷ rest;
    order_map = f.order_map;
    trades = traded best n f.remaining f;
    reads = f.reads + 1;
  }

  fill_front_cases :
      (best : ℕ) (n : Node) (rest : List Node) (f : Fill)
      → ((n.order.quantity ≤ f.remaining)
          × (fill_front clock d best n rest f ≡ (returned tt, whole best n rest f)))
        ⊎ ((f.remaining < n.order.quantity)
            × (fill_front clock d best n rest f ≡ (returned tt, part best n rest f)))
  unfolding fill_front
  fill_front_cases best n rest f =
      ground (arith, reduce_quantity_lem n.order (min n.order.quantity f.remaining))

  -- A property that the two rounds keep, from states in which they are made.
  pub record Keeps {ℓ} (P : Fill → Type ℓ) (best : ℕ) : Type ℓ where
    pub on_whole :
        (n : Node) (rest : List Node) (f : Fill)
        → f.orders ≡ n ∷ rest
        → 0 < f.remaining
        → n.order.quantity ≤ f.remaining
        → P f
        → P (whole best n rest f)
    pub on_part :
        (n : Node) (rest : List Node) (f : Fill)
        → f.orders ≡ n ∷ rest
        → 0 < f.remaining
        → f.remaining < n.order.quantity
        → P f
        → P (part best n rest f)

  -- How the inner loop ends: by its test.
  pub record Ended {ℓ} (P : Fill → Type ℓ) (out : Outcome (Unit {0}) × Fill) : Type ℓ where
    pub returns : out.0 ≡ returned tt
    pub holds : P out.1
    pub stopped : (out.1.remaining ≡ 0) ⊎ (out.1.orders ≡ [])

  fill_level_stops :
      (fuel best : ℕ) (f : Fill)
      → (f.remaining ≡ 0) ⊎ (f.orders ≡ [])
      → fill_level clock d (suc fuel) best f ≡ (returned tt, f)
  unfolding fill_level
  fill_level_stops fuel best f s = ground arith

  fill_level_goes :
      (fuel best : ℕ) (n : Node) (rest : List Node) (f : Fill)
      → f.orders ≡ n ∷ rest
      → 0 < f.remaining
      → fill_level clock d (suc fuel) best f
        ≡ continue (fill_level clock d fuel best) (fill_front clock d best n rest f)
  unfolding fill_level
  fill_level_goes fuel best n rest f e h = ground arith

  stop {ℓ} :
      (P : Fill → Type ℓ) (fuel best : ℕ) (f : Fill)
      → 0 < fuel
      → P f
      → (f.remaining ≡ 0) ⊎ (f.orders ≡ [])
      → Ended P (fill_level clock d fuel best f)
  stop P zero best f h p s = absurd (omega arith)
  stop P (suc fuel) best f h p s =
      rw (fill_level_stops fuel best f s) (record { returns = refl; holds = p; stopped = s })

  -- The fuel that `sweep` gives is enough, and what the rounds keep holds when the loop stops.
  pub fill_level_rule {ℓ} :
      (P : Fill → Type ℓ) (best : ℕ)
      → Keeps P best
      → (fuel : ℕ) (f : Fill) → length f.orders < fuel
      → P f
      → Ended P (fill_level clock d fuel best f)
  fill_level_rule P best k zero f h p = absurd (omega arith)
  fill_level_rule P best k (suc fuel) f h p = elim (List-cases f.orders) [
    | inl e ↦ stop P (suc fuel) best f (omega arith) p (inr e)
    | inr (n, rest, e) ↦ elim (dec_lt 0 f.remaining) [
      | no done ↦ stop P (suc fuel) best f (omega arith) p (inl (omega arith))
      | yes more ↦
          rw (fill_level_goes fuel best n rest f e more) (elim (fill_front_cases best n rest f) [
            | inl (fits, r) ↦ rw r (
                fill_level_rule P best k fuel (whole best n rest f) (omega (arith, ap length e))
                  (k.on_whole n rest f e more fits p))
            | inr (over, r) ↦ rw r (
                stop P fuel best (part best n rest f) (omega (arith, ap length e))
                  (k.on_part n rest f e more over p) (inl refl))
          ])
    ]
  ]
