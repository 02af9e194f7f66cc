-- ===== src/Book/Queue.antt =====
-- The orders of a side in the order of their priority, and what cancelling does to them.
use exchange_simulator.Common.{
  ◌<◌, append_assoc, ap₂, ◌↔◌, All-map₂, ℕ, ◌≡◌, ◌≢◌, refl, sym, ap, ◌∙◌, inl, inr, List, [], ◌∷◌,
  ◌++◌, Bool, true, false, Bool-cases, List-cases, ◌==◌, ==_iff, if◌then◌else◌, arith, All,
}
use exchange_simulator.Types.{Order}
use exchange_simulator.Book.{
  Node, Level, update_level, erase_level, level_orders, put_level, push_back,
}
use exchange_simulator.Book.Levels.{IsLinear, IsSorted, absent_before, after-ne, before-All}
use exchange_simulator.Book.Nodes.{Distinct, without}

-- The orders of a level, and of a side of the book, in the order of their priority.
abbrev pub orders_at : List Node → List Order
orders_at [] = []
orders_at (n ∷ ns) = n.order ∷ orders_at ns

abbrev pub queue : List Level → List Order
queue [] = []
queue (l ∷ ls) = orders_at l.orders ++ queue ls

-- The orders but those with the id.
unfoldable pub drop_id : ℕ → List Order → List Order
drop_id id [] = []
drop_id id (o ∷ q) = if o.id == id then drop_id id q else o ∷ drop_id id q

drop_id-append : (id : ℕ) (q r : List Order) → drop_id id (q ++ r) ≡ drop_id id q ++ drop_id id r
unfolding drop_id
drop_id-append id [] r = refl
drop_id-append id (o ∷ q) r = ground (arith, drop_id-append id q r)

abbrev pub HasNot : ℕ → List Node → Type 0
HasNot id = All (λ n. n.order.id ≢ id)

drop_id-HasNot : (id : ℕ) (ns : List Node) → HasNot id ns → drop_id id (orders_at ns) ≡ orders_at ns
unfolding drop_id
drop_id-HasNot id [] h = refl
drop_id-HasNot id (n ∷ ns) h = ground (arith, h.0, drop_id-HasNot id ns h.1)

pub drop_id-queue-HasNot :
    (id : ℕ) (ls : List Level) → All (λ l. HasNot id l.orders) ls → drop_id id (queue ls) ≡ queue ls
unfolding drop_id
drop_id-queue-HasNot id [] h = refl
drop_id-queue-HasNot id (l ∷ ls) h =
    drop_id-append id (orders_at l.orders) (queue ls)
    ∙ ap₂ ◌++◌ (drop_id-HasNot id l.orders h.0) (drop_id-queue-HasNot id ls h.1)

-- Where the node at an address is the one with the id, erasing the one drops the other.
pub orders_at-without :
    (a id : ℕ) (ns : List Node)
    → All (λ n. (n.address ≡ a) ↔ (n.order.id ≡ id)) ns
    → Distinct ns
    → orders_at (without a ns) ≡ drop_id id (orders_at ns)
unfolding without drop_id
orders_at-without a id [] h d = refl
orders_at-without a id (n ∷ ns) h d = elim (Bool-cases (n.address == a)) [
  | inl same ↦
      let e : n.address ≡ a = (==_iff _ _).0 same in
      rw (same, (==_iff n.order.id id).1 (h.0.0 e))
        (sym (drop_id-HasNot id ns (All-map₂ ns (λ k ne i j. ne (i.1 j ∙ sym e)) d.0 h.1)))
  | inr other ↦ ground (arith, h.0.1, orders_at-without a id ns h.1 d.1)
]

nothing_dropped :
    (id : ℕ) (n : Node) (ns os : List Node)
    → os ≡ []
    → orders_at (n ∷ ns) ≢ drop_id id (orders_at os)
unfolding drop_id
nothing_dropped id n ns [] e h = cc
nothing_dropped id n ns (k ∷ ks) e h = cc

module _ (before : ℕ → ℕ → Bool) (lin : IsLinear before) (p id : ℕ) where
  -- No level but that at price `p` holds an order with the id.
  abbrev pub OnlyAt : List Level → Type 0
  OnlyAt = All (λ l. l.price ≢ p → HasNot id l.orders)

  elsewhere :
      (ls : List Level) → All (λ k. k.price ≢ p) ls → OnlyAt ls → All (λ l. HasNot id l.orders) ls
  elsewhere ls ne h = All-map₂ ls (λ l n f. f n) ne h

  after_level :
      (l : Level) (ls : List Level)
      → l.price ≡ p
      → IsSorted before (l ∷ ls)
      → OnlyAt ls
      → drop_id id (queue ls) ≡ queue ls
  after_level l ls e s h =
      drop_id-queue-HasNot id ls (elsewhere ls (after-ne before lin p ls (rw e at s.0)) h)

  drop_at_head :
      (l : Level) (ls : List Level)
      → drop_id id (queue (l ∷ ls)) ≡ drop_id id (orders_at l.orders) ++ drop_id id (queue ls)
  drop_at_head l ls = drop_id-append id (orders_at l.orders) (queue ls)

  queue-erase :
      (ls : List Level)
      → IsSorted before ls
      → OnlyAt ls
      → drop_id id (orders_at (level_orders p ls)) ≡ []
      → queue (erase_level p ls) ≡ drop_id id (queue ls)
  unfolding level_orders erase_level
  queue-erase [] s h e = unfold drop_id in refl
  queue-erase (l ∷ ls) s h e = elim (Bool-cases (l.price == p)) [
    | inl same ↦ ground (arith, drop_at_head l ls, after_level l ls ((==_iff _ _).0 same) s h.1)
    | inr other ↦ ground (
      arith,
      drop_at_head l ls,
      drop_id-HasNot id l.orders (h.0 (λ i. cc (other, (==_iff l.price p).1 i))),
      queue-erase ls s.1 h.1,
    )
  ]

  queue-update :
      (n : Node) (ns : List Node) (ls : List Level)
      → IsSorted before ls
      → OnlyAt ls
      → orders_at (n ∷ ns) ≡ drop_id id (orders_at (level_orders p ls))
      → queue (update_level before p (λ _. n ∷ ns) ls) ≡ drop_id id (queue ls)
  unfolding level_orders update_level
  queue-update n ns [] s h e = unfold drop_id in cc
  queue-update n ns (l ∷ ls) s h e = elim (Bool-cases (l.price == p)) [
    | inl same ↦ ground (arith, drop_at_head l ls, after_level l ls ((==_iff _ _).0 same) s h.1)
    | inr other ↦ elim (Bool-cases (before p l.price)) [
      | inl b ↦ absurd (nothing_dropped id n ns _ (absent_before before lin p l ls b s) e)
      | inr b ↦ ground (
        arith,
        drop_at_head l ls,
        drop_id-HasNot id l.orders (h.0 (λ i. cc (other, (==_iff l.price p).1 i))),
        queue-update n ns ls s.1 h.1,
      )
    ]
  ]

  -- Storing the list without the order at its level drops the order from the queue.
  pub queue-put :
      (os : List Node) (ls : List Level)
      → IsSorted before ls
      → OnlyAt ls
      → orders_at os ≡ drop_id id (orders_at (level_orders p ls))
      → queue (put_level before p os ls) ≡ drop_id id (queue ls)
  unfolding put_level
  queue-put [] ls s h e = queue-erase ls s h (sym e)
  queue-put (n ∷ ns) ls s h e = queue-update n ns ls s h e

-- The queue with an order put behind all those that go before it: better prices, and older orders
-- at its own price.
unfoldable pub insert_order : (ℕ → ℕ → Bool) → Order → List Order → List Order
insert_order before o [] = o ∷ []
insert_order before o (k ∷ q) =
    if before o.price k.price then o ∷ k ∷ q else k ∷ insert_order before o q

-- A node bears its level's price and some quantity; no level is empty.
abbrev pub IsPricedNode : ℕ → Node → Type 0
IsPricedNode p n = (n.order.price ≡ p) × (0 < n.order.quantity)

abbrev pub IsPriced : List Level → Type 0
IsPriced = All (λ l. (l.orders ≢ []) × All (IsPricedNode l.price) l.orders)

orders_at-push_back :
    (n : Node) (ns : List Node) → orders_at (push_back n ns) ≡ orders_at ns ++ n.order ∷ []
orders_at-push_back n [] = refl
orders_at-push_back n (k ∷ ns) = ap (◌∷◌ k.order) (orders_at-push_back n ns)

module _ (before : ℕ → ℕ → Bool) (lin : IsLinear before) (o : Order) where
  insert_behind :
      (p : ℕ) (ns : List Node) (q : List Order)
      → before o.price p ≡ false
      → All (IsPricedNode p) ns
      → insert_order before o (orders_at ns ++ q) ≡ orders_at ns ++ insert_order before o q
  unfolding insert_order
  insert_behind p [] q h a = refl
  insert_behind p (n ∷ ns) q h a = ground (arith, insert_behind p ns q h a.1)

  insert_first :
      (ls : List Level)
      → All (λ k. before o.price k.price ≡ true) ls
      → IsPriced ls
      → insert_order before o (queue ls) ≡ o ∷ queue ls
  unfolding insert_order
  insert_first [] h a = refl
  insert_first (l ∷ ls) h a = elim (List-cases l.orders) [
    | inl e ↦ absurd (a.0.0 e)
    | inr (n, ns, e) ↦
        let head : All (IsPricedNode l.price) (n ∷ ns) = rw e at a.0.1 in ground (arith, h.0)
  ]

  -- Pushing an order to the list at its price puts it at its place in the queue.
  pub queue-update_level :
      (n : Node) (ls : List Level)
      → n.order ≡ o
      → IsSorted before ls
      → IsPriced ls
      → queue (update_level before o.price (push_back n) ls) ≡ insert_order before o (queue ls)
  unfolding update_level
  queue-update_level n [] i s a = unfold insert_order in ground arith
  queue-update_level n (l ∷ ls) i s a = elim (Bool-cases (l.price == o.price)) [
    | inl same ↦
        let e : l.price ≡ o.price = (==_iff _ _).0 same in
        ground (
          arith,
          orders_at-push_back n l.orders,
          append_assoc (orders_at l.orders) (n.order ∷ []) (queue ls),
          insert_behind l.price l.orders (queue ls) (rw e (lin.irreflexive o.price)) a.0.1,
          insert_first ls (rw e at s.0) a.1,
        )
    | inr other ↦ elim (Bool-cases (before o.price l.price)) [
      | inl h ↦
          ground (arith, insert_first (l ∷ ls) (h, before-All before lin o.price l ls h s.0) a)
      | inr h ↦ ground (
        arith,
        insert_behind l.price l.orders (queue ls) h a.0.1,
        queue-update_level n ls i s.1 a.1,
      )
    ]
  ]
