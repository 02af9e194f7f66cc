-- ===== src/Engine/Sweeps.antt =====
-- The loop over the levels as a rule: its fuel is enough, and what its rounds keep holds when it
-- stops by one of its tests.
use exchange_simulator.Common.{
  ℕ, zero, suc, ◌+◌, ◌<◌, ◌≡◌, refl, ap, ◌⊎◌, inl, inr, List, [], ◌∷◌, true, false, Bool-cases,
  List-cases, dec_lt, length, Outcome, returned, arith,
}
use exchange_simulator.Book.{Level}
use exchange_simulator.Book.Front.{kept, put_level-kept}
use exchange_simulator.Engine.{Direction, Fill, Sweep, fill_level, sweep, enter_level}
use exchange_simulator.Engine.Rounds.{Keeps, fill_level_rule}

abbrev pub left : Level → List Level → Fill → Sweep
left l ls f = record {
  remaining = f.remaining;
  levels = kept l f.orders ls;
  order_map = f.order_map;
  trades = f.trades;
  reads = f.reads;
}

module _ (clock : ℕ → ℕ) (d : Direction) where
  -- A property `P` of the outer loop, by way of a property `Q` of the inner one.
  pub record KeepsLevels {ℓ κ} (P : Sweep → Type ℓ) (Q : Level → List Level → Fill → Type κ)
      : Type (ℓ ⊔ κ) where
    pub rounds :
        (l : Level) (ls : List Level) → d.blocked l.price ≡ false → Keeps clock d (Q l ls) l.price
    pub enter :
        (s : Sweep) (l : Level) (ls : List Level)
        → s.levels ≡ l ∷ ls
        → P s
        → Q l ls (enter_level clock d l s)
    pub leave :
        (l : Level) (ls : List Level) (f : Fill)
        → (f.remaining ≡ 0) ⊎ (f.orders ≡ [])
        → Q l ls f
        → P (left l ls f)

  -- The tests that end the outer loop.
  abbrev pub Stopped : Sweep → Type 0
  Stopped s =
      (s.remaining ≡ 0)
      ⊎ (s.levels ≡ [])
      ⊎ ((l : Level) × (ls : List Level) × (s.levels ≡ l ∷ ls) × (d.blocked l.price ≡ true))

  pub record SweepEnded {ℓ} (P : Sweep → Type ℓ) (out : Outcome (Unit {0}) × Sweep) : Type ℓ where
    pub returns : out.0 ≡ returned tt
    pub holds : P out.1
    pub stopped : Stopped out.1

  sweep_stops : (fuel : ℕ) (s : Sweep) → Stopped s → sweep clock d (suc fuel) s ≡ (returned tt, s)
  unfolding sweep
  sweep_stops fuel s h = ground arith

  -- The inner loop on the best level.
  abbrev inner : Level → Sweep → Outcome (Unit {0}) × Fill
  inner l s = fill_level clock d (length l.orders + 1) l.price (enter_level clock d l s)

  sweep_goes :
      (fuel : ℕ) (s : Sweep) (l : Level) (ls : List Level)
      → s.levels ≡ l ∷ ls
      → 0 < s.remaining
      → d.blocked l.price ≡ false
      → (inner l s).0 ≡ returned tt
      → sweep clock d (suc fuel) s ≡ sweep clock d fuel (left l ls (inner l s).1)
  unfolding sweep
  sweep_goes fuel s l ls e h b r = ground (arith, put_level-kept d.before l (inner l s).1.orders ls)

  left-shorter :
      (l : Level) (ls : List Level) (f : Fill)
      → f.orders ≡ []
      → length (left l ls f).levels ≡ length ls
  left-shorter l ls f e = rw (e, kept)

  stop {ℓ} :
      (P : Sweep → Type ℓ) (fuel : ℕ) (s : Sweep)
      → 0 < fuel
      → P s
      → Stopped s
      → SweepEnded P (sweep clock d fuel s)
  stop P zero s h p t = absurd (omega arith)
  stop P (suc fuel) s h p t =
      rw (sweep_stops fuel s t) (record { returns = refl; holds = p; stopped = t })

  -- With more fuel than levels, the loop ends by its tests, and what its rounds keep holds then.
  pub sweep_rule {ℓ κ} :
      (P : Sweep → Type ℓ) (Q : Level → List Level → Fill → Type κ)
      → KeepsLevels P Q
      → (fuel : ℕ) (s : Sweep) → length s.levels < fuel
      → P s
      → SweepEnded P (sweep clock d fuel s)
  sweep_rule P Q k zero s h p = absurd (omega arith)
  sweep_rule P Q k (suc fuel) s h p = elim (List-cases s.levels) [
    | inl e ↦ stop P (suc fuel) s (omega arith) p (inr (inl e))
    | inr (l, ls, e) ↦ elim (dec_lt 0 s.remaining) [
      | no done ↦ stop P (suc fuel) s (omega arith) p (inl (omega arith))
      | yes more ↦ elim (Bool-cases (d.blocked l.price)) [
        | inl b ↦ stop P (suc fuel) s (omega arith) p (inr (inr (l, ls, e, b)))
        | inr b ↦
            let en =
              fill_level_rule clock d (Q l ls) l.price (k.rounds l ls b) (length l.orders + 1)
                (enter_level clock d l s) (omega arith) (k.enter s l ls e p) in
            let p' = k.leave l ls (inner l s).1 en.stopped en.holds in
            rw (sweep_goes fuel s l ls e more b en.returns) (elim en.stopped [
              | inl z ↦
                  stop P fuel (left l ls (inner l s).1) (omega (arith, ap length e)) p' (inl z)
              | inr z ↦
                  sweep_rule P Q k fuel (left l ls (inner l s).1)
                    (omega (arith, ap length e, left-shorter l ls (inner l s).1 z)) p'
            ])
      ]
    ]
  ]
