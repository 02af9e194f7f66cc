-- ===== src/Simulator/Orders.antt =====
-- The orders that the simulator generates.
use exchange_simulator.Common.{
  ℕ, zero, suc, ◌+◌, ◌%◌, ◌^◌, ◌<◌, ◌≡◌, refl, ap, ◌∙◌, List, [], ◌∷◌, ◌++◌, append-nil,
  append_assoc, map, ◌==◌, returned, arith, All, Bool-cases, inl, inr,
}
use exchange_simulator.Types.{Order, IsU64}
use exchange_simulator.Order.Valid.{IsValid, PriceFits, make_order-fields}
use exchange_simulator.Serializer.RoundTrip.{OrderFits}
use exchange_simulator.Simulator.{
  ℤ, pos, negsuc, Draws, Fits63, InRange, OrderSimulator, clamped, drawn_side, drawn_type,
  drawn_price, generate_order, generate_more, generate_n_orders,
}

-- The order that some draws make.
abbrev pub order_of : ℕ → Draws → Order
order_of id d = record {
  timestamp = d.now;
  id = id;
  price = drawn_price (drawn_type d.order_type) d.rounded;
  quantity = d.quantity;
  side = drawn_side d.side;
  order_type = drawn_type d.order_type;
}

clamped-positive : (z : ℤ) → 0 < clamped z
clamped-positive (pos n) = ground arith
clamped-positive (negsuc n) = omega arith

clamped-IsU64 : (z : ℤ) → Fits63 z → IsU64 (clamped z)
clamped-IsU64 (pos n) h = ground arith
clamped-IsU64 (negsuc n) h = omega arith

order_of-IsValid : (id : ℕ) (d : Draws) → InRange d → IsValid (order_of id d)
order_of-IsValid id d r = record {
  priced = go d.order_type;
  some_quantity = omega (arith, r.some_quantity);
}
  where
    go : (n : ℕ) → PriceFits (drawn_type n) (drawn_price (drawn_type n) d.rounded)
    go n = elim (Bool-cases (n == 0)) [
      | inl e ↦ rw e (clamped-positive d.rounded)
      | inr e ↦ rw e refl
    ]

order_of-OrderFits : (id : ℕ) (d : Draws) → IsU64 id → InRange d → OrderFits (order_of id d)
order_of-OrderFits id d h r = record {
  id = h;
  price = elim (Bool-cases (d.order_type == 0)) [
    | inl e ↦ rw e (clamped-IsU64 d.rounded r.rounded_fits)
    | inr e ↦ rw e (omega arith)
  ];
  quantity = omega (arith, r.quantity_small);
  side = elim (Bool-cases (d.side == 0)) [ inl e ↦ rw e tt | inr e ↦ rw e tt ];
  order_type = elim (Bool-cases (d.order_type == 0)) [ inl e ↦ rw e tt | inr e ↦ rw e tt ];
}

-- A valid order, whose fields are in the range of their types.
pub record IsGenerated (o : Order) : Type 0 where
  pub valid : IsValid o
  pub fits : OrderFits o

-- A call returns the order of its draws, with the next id.
pub generate_order_lem :
    (d : Draws) (s : OrderSimulator)
    → InRange d
    → s.id_counter + 1 < 2 ^ 64
    → (generate_order d s
        ≡ (returned (order_of s.id_counter d), record s { id_counter = s.id_counter + 1 }))
      × IsGenerated (order_of s.id_counter d)
generate_order_lem d s r h =
    let v = order_of-IsValid s.id_counter d r in
    let e : (s.id_counter + 1) % 2 ^ 64 ≡ s.id_counter + 1 = omega arith in
    (
      rw (
        make_order-fields d.now s.id_counter (drawn_price (drawn_type d.order_type) d.rounded)
            d.quantity (drawn_side d.side) (drawn_type d.order_type) v.priced v.some_quantity,
        e,
      ),
      record { valid = v; fits = order_of-OrderFits s.id_counter d (omega arith) r },
    )

-- The numbers from `first` on.
abbrev pub range : ℕ → ℕ → List ℕ
range first zero = []
range first (suc n) = first ∷ range (suc first) n

module _ (draws : ℕ → Draws) where
  abbrev pub orders_from : ℕ → ℕ → ℕ → List Order
  orders_from zero i id = []
  orders_from (suc n) i id = order_of id (draws i) ∷ orders_from n (suc i) (suc id)

  pub orders_from-ids : (n i id : ℕ) → map (λ o. o.id) (orders_from n i id) ≡ range id n
  orders_from-ids zero i id = refl
  orders_from-ids (suc n) i id = ap (◌∷◌ id) (orders_from-ids n (suc i) (suc id))

  module _ (r : (i : ℕ) → InRange (draws i)) where
    pub orders_from-IsGenerated :
        (n i id : ℕ) → id + n < 2 ^ 64 → All IsGenerated (orders_from n i id)
    orders_from-IsGenerated zero i id h = tt
    orders_from-IsGenerated (suc n) i id h = (
      record {
        valid = order_of-IsValid id (draws i) (r i);
        fits = order_of-OrderFits id (draws i) (omega arith) (r i);
      },
      orders_from-IsGenerated n (suc i) (suc id) (omega arith),
    )

    generate_more_lem :
        (n i : ℕ) (orders : List Order) (s : OrderSimulator)
        → s.id_counter + n < 2 ^ 64
        → generate_more draws n i orders s ≡ (
          returned (orders ++ orders_from n i s.id_counter),
          record s { id_counter = s.id_counter + n },
        )
    unfolding generate_more
    generate_more_lem zero i orders s h =
        rw append-nil (ap (λ k. (returned orders, record s { id_counter = k })) (omega arith))
    generate_more_lem (suc n) i orders s h =
        let o = order_of s.id_counter (draws i) in
        let s' : OrderSimulator = record s { id_counter = s.id_counter + 1 } in
        let e : s.id_counter + 1 ≡ suc s.id_counter = omega arith in
        let f : s.id_counter + 1 + n ≡ s.id_counter + suc n = omega arith in
        rw ((generate_order_lem (draws i) s (r i) (omega arith)).0) (
          generate_more_lem n (suc i) (orders ++ o ∷ []) s' (omega arith)
          ∙ rw (f, e, append_assoc orders (o ∷ []) (orders_from n (suc i) (suc s.id_counter))))

    -- When the draws are in the ranges of their distributions and the ids do not overflow, `n` valid
    -- orders are generated, none of which makes the constructor throw, with consecutive ids from
    -- the counter on.
    pub generate_n_orders_lem :
        (n : ℕ) (s : OrderSimulator)
        → s.id_counter + n < 2 ^ 64
        → (os : List Order) × (generate_n_orders draws n s
            ≡ (returned os, record s { id_counter = s.id_counter + n }))
          × (map (λ o. o.id) os ≡ range s.id_counter n)
          × All IsGenerated os
    unfolding generate_n_orders
    generate_n_orders_lem n s h = (
      orders_from n 0 s.id_counter,
      generate_more_lem n 0 [] s h,
      orders_from-ids n 0 s.id_counter,
      orders_from-IsGenerated n 0 s.id_counter h,
    )
