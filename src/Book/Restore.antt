-- ===== src/Book/Restore.antt =====
-- Booking an order and cancelling its id at once.
use exchange_simulator.Common.{
  ℕ, ◌+◌, ◌≡◌, ◌≢◌, refl, sym, ap, ap₂, ◌∙◌, subst, inl, inr, List, [], ◌∷◌, Option, none, some,
  Bool, true, false, Bool-cases, ltb, gtb, ◌==◌, ==_iff, update, fun_ext, ◌⊎◌, All, All-map,
  returned, arith,
}
use exchange_simulator.Types.{limit, Side, bid, ask, Order}
use exchange_simulator.Book.{
  Node, Level, OrderLocation, OrderBook, update_level, erase_level, level_orders, put_level,
  erase_node, push_back, add_to_side, add_order, cancel_at, cancel_order,
}
use exchange_simulator.Book.Levels.{
  IsLinear, IsSorted, ltb-IsLinear, gtb-IsLinear, absent_before, update_level-put, level_orders-put,
}
use exchange_simulator.Book.Valid.{OrderMap, LevelOk, SideOk, IsValid}
use exchange_simulator.Book.Add.{add_resting}

erase_node-push_back :
    (n : Node) (ns : List Node)
    → All (λ k. k.address ≢ n.address) ns
    → erase_node n.address (push_back n ns) ≡ returned ns
unfolding erase_node
erase_node-push_back n [] h = ground arith
erase_node-push_back n (k ∷ ns) h = ground (arith, h.0, erase_node-push_back n ns h.1)

push_back_some :
    (n : Node) (ns : List Node) → (m : Node) × (rest : List Node) × (push_back n ns ≡ m ∷ rest)
push_back_some n [] = (n, [], refl)
push_back_some n (k ∷ ns) = (k, push_back n ns, refl)

-- A side of a valid book has no node with an address that is still to come.
level_nodes-ne :
    (m : OrderMap) (next : ℕ) (s : Side) (p : ℕ) (ls : List Level)
    → All (LevelOk m next s) ls
    → All (λ k. k.address ≢ next) (level_orders p ls)
unfolding level_orders
level_nodes-ne m next s p [] h = tt
level_nodes-ne m next s p (l ∷ ls) (v, vs) = elim (Bool-cases (l.price == p)) [
  | inl same ↦ rw same (All-map l.orders (λ k w e. omega (arith, w.address_used, e)) v.nodes)
  | inr other ↦ rw other (level_nodes-ne m next s p ls vs)
]

module _ (before : ℕ → ℕ → Bool) (lin : IsLinear before) where
  level_orders-update :
      (p : ℕ) (n : Node) (ls : List Level)
      → IsSorted before ls
      → level_orders p (update_level before p (push_back n) ls) ≡ push_back n (level_orders p ls)
  level_orders-update p n ls s =
      let (k, rest, e) = push_back_some n (level_orders p ls) in
      let own : (p == p) ≡ true = (==_iff p p).1 refl in
      rw (update_level-put before lin p (push_back n) k rest ls s e)
        (level_orders-put before lin p p (k ∷ rest) ls s ∙ rw own (sym e))

  put_own :
      (p : ℕ) (os ns : List Node) (l : Level) (ls : List Level)
      → (l.price == p) ≡ true
      → os ≢ []
      → put_level before p os (record l { orders = ns } ∷ ls) ≡ record l { orders = os } ∷ ls
  unfolding put_level update_level
  put_own p [] ns l ls same h = absurd (h refl)
  put_own p (k ∷ os) ns l ls same h = rw same

  put_other :
      (p : ℕ) (os : List Node) (l : Level) (ls : List Level)
      → (l.price == p) ≡ false
      → before p l.price ≡ false
      → put_level before p os (l ∷ ls) ≡ l ∷ put_level before p os ls
  unfolding put_level update_level erase_level
  put_other p [] l ls other e = rw other
  put_other p (k ∷ os) l ls other e = rw (other, e)

  -- Storing the old list of a level back restores the levels.
  put_level-update :
      (p : ℕ) (n : Node) (ls : List Level)
      → IsSorted before ls
      → All (λ l. l.orders ≢ []) ls
      → put_level before p (level_orders p ls) (update_level before p (push_back n) ls) ≡ ls
  unfolding put_level level_orders update_level erase_level
  put_level-update p n [] s h = ground arith
  put_level-update p n (l ∷ ls) s (h, hs) = elim (Bool-cases (l.price == p)) [
    | inl same ↦ rw same (put_own p l.orders (push_back n l.orders) l ls same h)
    | inr other ↦ elim (Bool-cases (before p l.price)) [
      | inl e ↦
          let own : (p == p) ≡ true = (==_iff p p).1 refl in
          ap (λ os. put_level before p os (update_level before p (push_back n) (l ∷ ls)))
            (absent_before before lin p l ls e s)
          ∙ rw (other, e, own)
      | inr e ↦
          rw (other, e)
            (put_other p (level_orders p ls) l (update_level before p (push_back n) ls) other e
              ∙ ap (◌∷◌ l) (put_level-update p n ls s.1 hs))
    ]
  ]

-- Only the entry of the id and the next address have changed.
abbrev pub restored : ℕ → OrderBook → OrderBook
restored id b = record b {
  order_map = update b.order_map id none;
  next_address = b.next_address + 1;
}

update-update :
    (m : OrderMap) (id : ℕ) (l : Option OrderLocation)
    → update (update m id l) id none ≡ update m id none
update-update m id l = fun_ext λ j. elim (Bool-cases (j == id)) [ inl e ↦ rw e | inr e ↦ rw e ]

cancel_ask-erased :
    (id : ℕ) (loc : OrderLocation) (b : OrderBook) (rest : List Node)
    → erase_node loc.list_position (level_orders loc.price b.asks) ≡ returned rest
    → cancel_at id ask loc b ≡ (
      returned tt,
      record b {
        asks = put_level ltb loc.price rest b.asks;
        order_map = update b.order_map id none;
      },
    )
cancel_ask-erased id loc b rest e = rw (e, cancel_at)

cancel_bid-erased :
    (id : ℕ) (loc : OrderLocation) (b : OrderBook) (rest : List Node)
    → erase_node loc.list_position (level_orders loc.price b.bids) ≡ returned rest
    → cancel_at id bid loc b ≡ (
      returned tt,
      record b {
        bids = put_level gtb loc.price rest b.bids;
        order_map = update b.order_map id none;
      },
    )
cancel_bid-erased id loc b rest e = rw (e, cancel_at)

module _ (before : ℕ → ℕ → Bool) (lin : IsLinear before) (m : OrderMap) (next : ℕ) (s : Side)
    (o : Order) (ls : List Level) (ok : SideOk before m next s ls) where
  abbrev made : Node
  made = record { address = next; order = o }

  made-erased :
      erase_node next (level_orders o.price (update_level before o.price (push_back made) ls))
      ≡ returned (level_orders o.price ls)
  made-erased =
      ap (erase_node next) (level_orders-update before lin o.price made ls ok.sorted)
      ∙ erase_node-push_back made (level_orders o.price ls)
          (level_nodes-ne m next s o.price ls ok.levels)

  made-gone :
      put_level before o.price
        (level_orders o.price ls)
        (update_level before o.price (push_back made) ls)
      ≡ ls
  made-gone =
      put_level-update before lin o.price made ls ok.sorted
        (All-map ls (λ l w. w.not_empty) ok.levels)

module _ (o : Order) (b : OrderBook) (v : IsValid b) where
  abbrev place : Side → OrderLocation
  place s = record { side = s; price = o.price; list_position = b.next_address }

  cancel_ask-restored :
      cancel_at o.id ask (place ask) (add_to_side ask o b) ≡ (returned tt, restored o.id b)
  cancel_ask-restored =
      let ok = v.indexed.asks_ok in
      let old = level_orders o.price b.asks in
      cancel_ask-erased o.id (place ask) (add_to_side ask o b) old
        (made-erased ltb ltb-IsLinear b.order_map b.next_address ask o b.asks ok)
      ∙ ap₂
          (λ ls m.
            (returned tt, record b { asks = ls; order_map = m; next_address = b.next_address + 1 }))
          (made-gone ltb ltb-IsLinear b.order_map b.next_address ask o b.asks ok)
          (update-update b.order_map o.id (some (place ask)))

  cancel_bid-restored :
      cancel_at o.id bid (place bid) (add_to_side bid o b) ≡ (returned tt, restored o.id b)
  cancel_bid-restored =
      let ok = v.indexed.bids_ok in
      let old = level_orders o.price b.bids in
      cancel_bid-erased o.id (place bid) (add_to_side bid o b) old
        (made-erased gtb gtb-IsLinear b.order_map b.next_address bid o b.bids ok)
      ∙ ap₂
          (λ ls m.
            (returned tt, record b { bids = ls; order_map = m; next_address = b.next_address + 1 }))
          (made-gone gtb gtb-IsLinear b.order_map b.next_address bid o b.bids ok)
          (update-update b.order_map o.id (some (place bid)))

  cancel_added :
      (s : Side)
      → (s ≡ bid) ⊎ (s ≡ ask)
      → cancel_order o.id (add_to_side s o b) ≡ (returned tt, restored o.id b)
  unfolding cancel_order
  cancel_added s (inl e) =
      let own : (o.id == o.id) ≡ true = (==_iff o.id o.id).1 refl in
      subst (λ s. cancel_order o.id (add_to_side s o b) ≡ (returned tt, restored o.id b)) (sym e)
        (rw (own, cancel_order) cancel_bid-restored)
  cancel_added s (inr e) =
      let own : (o.id == o.id) ≡ true = (==_iff o.id o.id).1 refl in
      subst (λ s. cancel_order o.id (add_to_side s o b) ≡ (returned tt, restored o.id b)) (sym e)
        (rw (own, cancel_order) cancel_ask-restored)

  -- A limit order is booked on a valid book, and its id is cancelled at once: both return, and all
  -- levels, with their orders, are as before, while the order map has no entry of the id. So if an
  -- order with the same id was resting already, it rests on, and its entry is lost.
  pub add_order-cancel_order :
      o.order_type ≡ limit
      → (o.side ≡ bid) ⊎ (o.side ≡ ask)
      → cancel_order o.id (add_order o b) ≡ (returned tt, restored o.id b)
  add_order-cancel_order e either =
      ap (cancel_order o.id) (add_resting o b e) ∙ cancel_added o.side either
