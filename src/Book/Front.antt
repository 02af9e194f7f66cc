-- ===== src/Book/Front.antt =====
-- The front order of the best level, as `match` changes it: it is taken off, or it is reduced.
use exchange_simulator.Common.{
  ℕ, ◌-◌, ◌≡◌, ◌≢◌, ◌<◌, refl, ◌∙◌, subst, inl, inr, List, [], ◌∷◌, Option, none, some, Bool,
  Bool-cases, ltb, gtb, ◌==◌, update, arith, All, All-map,
}
use exchange_simulator.Types.{Side, bid, ask, unnamed_side}
use exchange_simulator.Book.{Node, Level, OrderLocation, level_orders, put_level}
use exchange_simulator.Book.Nodes.{find_node, without}
use exchange_simulator.Book.Valid.{
  OrderMap, NodeOk, SideOk, side_levels, EntryOk, IsUncrossed, IsIndexed,
}
use exchange_simulator.Book.Remove.{ask-remove, bid-remove}

-- The levels once the orders of the best one have become `ns`.
abbrev pub kept : Level → List Node → List Level → List Level
kept l [] ls = ls
kept l (n ∷ ns) ls = record l { orders = n ∷ ns } ∷ ls

pub put_level-kept :
    (before : ℕ → ℕ → Bool) (l : Level) (ns : List Node) (ls : List Level)
    → put_level before l.price ns (l ∷ ls) ≡ kept l ns ls
unfolding put_level
put_level-kept before l [] ls = ground arith
put_level-kept before l (n ∷ ns) ls = ground arith

-- The level with another list.
abbrev pub holding : Level → List Node → Level
holding l ns = record l { orders = ns }

abbrev pub reduced : ℕ → Node → Node
reduced q n = record n { order = record n.order { quantity = n.order.quantity - q } }

kept-holding :
    (l : Level) (ms ns : List Node) (ls : List Level) → kept (holding l ms) ns ls ≡ kept l ns ls
kept-holding l ms [] ls = refl
kept-holding l ms (n ∷ ns) ls = refl

-- Prices: what holds of the best level's and the others' holds of the levels that are left.
All-kept :
    (R : ℕ → Type 0) (l : Level) (ns : List Node) (ls : List Level)
    → R l.price
    → All (λ k. R k.price) ls
    → All (λ k. R k.price) (kept l ns ls)
All-kept R l [] ls h a = a
All-kept R l (n ∷ ns) ls h a = (h, a)

module _ (l : Level) (n : Node) (rest : List Node) (ls : List Level) where
  find_node-front : find_node n.address (level_orders l.price (holding l (n ∷ rest) ∷ ls)) ≡ some n
  unfolding find_node level_orders
  find_node-front = ground arith

  front-without :
      (before : ℕ → ℕ → Bool)
      → put_level before l.price
          (without n.address (level_orders l.price (holding l (n ∷ rest) ∷ ls)))
          (holding l (n ∷ rest) ∷ ls)
        ≡ kept l rest ls
  unfolding without level_orders
  front-without before = ground (
    arith,
    put_level-kept before (holding l (n ∷ rest)) rest ls,
    kept-holding l (n ∷ rest) rest ls,
  )

  module _ (q : ℕ) (part : q < n.order.quantity) where
    NodeOk-reduced :
        {m : OrderMap} {next p : ℕ} {s : Side}
        → NodeOk m next s p n
        → NodeOk m next s p (reduced q n)
    NodeOk-reduced v = record {
      address_used = v.address_used;
      indexed = v.indexed;
      at_price = v.at_price;
      on_side = v.on_side;
      is_limit_order = v.is_limit_order;
      positive_price = v.positive_price;
      some_quantity = omega arith;
    }

    SideOk-reduced :
        {before : ℕ → ℕ → Bool} {m : OrderMap} {next : ℕ} {s : Side}
        → SideOk before m next s (holding l (n ∷ rest) ∷ ls)
        → SideOk before m next s (holding l (reduced q n ∷ rest) ∷ ls)
    SideOk-reduced v = record {
      levels = (
        record {
          not_empty = λ e. cc;
          nodes = (NodeOk-reduced v.levels.0.nodes.0, v.levels.0.nodes.1);
          distinct = v.levels.0.distinct;
        },
        v.levels.1,
      );
      sorted = v.sorted;
    }

    find_node-reduced :
        (p c : ℕ) (k : Node)
        → find_node c (level_orders p (holding l (n ∷ rest) ∷ ls)) ≡ some k
        → (k' : Node) × (find_node c (level_orders p (holding l (reduced q n ∷ rest) ∷ ls))
            ≡ some k')
          × (k'.order.id ≡ k.order.id)
    unfolding find_node level_orders
    find_node-reduced p c k e = elim (Bool-cases (l.price == p)) [
      | inl same ↦ elim (Bool-cases (n.address == c)) [
        | inl here ↦ (reduced q n, ground arith, ground arith)
        | inr there ↦ (k, ground arith, refl)
      ]
      | inr other ↦ (k, ground arith, refl)
    ]

-- What `match` carries through its loops on the side that it sweeps: `P`, of the levels and the
-- order map.
pub record Faces (P : List Level → OrderMap → Type 0) : Type 0 where
  pub full : (l : Level) (ls : List Level) (m : OrderMap) → P (l ∷ ls) m → l.orders ≢ []
  pub take_front :
      (l : Level) (n : Node) (rest : List Node) (ls : List Level) (m : OrderMap)
      → P (holding l (n ∷ rest) ∷ ls) m
      → P (kept l rest ls) (update m n.order.id none)
  pub reduce_front :
      (l : Level) (n : Node) (rest : List Node) (ls : List Level) (m : OrderMap) (q : ℕ)
      → q < n.order.quantity
      → P (holding l (n ∷ rest) ∷ ls) m
      → P (holding l (reduced q n ∷ rest) ∷ ls) m

-- The book stays valid, and a new id stays new, while the asks are swept.
pub record AskFace (bids : List Level) (next id : ℕ) (asks : List Level) (m : OrderMap)
    : Type 0 where
  pub indexed : IsIndexed bids asks m next
  pub uncrossed : IsUncrossed bids asks
  pub fresh : m id ≡ none

pub record BidFace (asks : List Level) (next id : ℕ) (bids : List Level) (m : OrderMap)
    : Type 0 where
  pub indexed : IsIndexed bids asks m next
  pub uncrossed : IsUncrossed bids asks
  pub fresh : m id ≡ none

module _ (bids asks bids' asks' : List Level) where
  -- Every node is found where it was, perhaps with another quantity.
  abbrev KeepsIds : Side → Type 0
  KeepsIds s =
      (q c : ℕ) (k : Node)
      → find_node c (level_orders q (side_levels s bids asks)) ≡ some k
      → (k' : Node) × (find_node c (level_orders q (side_levels s bids' asks')) ≡ some k')
        × (k'.order.id ≡ k.order.id)

  entries_kept :
      (j : ℕ) (o : Option OrderLocation)
      → ((s : Side) → KeepsIds s)
      → EntryOk bids asks j o
      → EntryOk bids' asks' j o
  entries_kept j none f v = tt
  entries_kept j (some loc) f (k, e, i) =
      let (k', e', i') = f loc.side loc.price loc.list_position k e in (k', e', i' ∙ i)

module _ (bids : List Level) (next id : ℕ) where
  take_ask :
      (l : Level) (n : Node) (rest : List Node) (ls : List Level) (m : OrderMap)
      → AskFace bids next id (holding l (n ∷ rest) ∷ ls) m
      → AskFace bids next id (kept l rest ls) (update m n.order.id none)
  take_ask l n rest ls m v = record {
    indexed =
        subst (λ k. IsIndexed bids k (update m n.order.id none) next)
          (front-without l n rest ls ltb)
          (ask-remove bids (holding l (n ∷ rest) ∷ ls) m next l.price n.address n v.indexed
            (find_node-front l n rest ls));
    uncrossed = All-kept (λ p. All (λ b. b.price < p) bids) l rest ls v.uncrossed.0 v.uncrossed.1;
    fresh = ground (arith, v.fresh);
  }

  reduce_ask :
      (l : Level) (n : Node) (rest : List Node) (ls : List Level) (m : OrderMap) (q : ℕ)
      → q < n.order.quantity
      → AskFace bids next id (holding l (n ∷ rest) ∷ ls) m
      → AskFace bids next id (holding l (reduced q n ∷ rest) ∷ ls) m
  reduce_ask l n rest ls m q h v = record {
    indexed = record {
      bids_ok = v.indexed.bids_ok;
      asks_ok = SideOk-reduced l n rest ls q h v.indexed.asks_ok;
      entries_ok = λ j.
          entries_kept bids (holding l (n ∷ rest) ∷ ls) bids _ j (m j) ids (v.indexed.entries_ok j);
    };
    uncrossed = v.uncrossed;
    fresh = v.fresh;
  }
    where
      ids :
          (s : Side)
          → KeepsIds bids (holding l (n ∷ rest) ∷ ls) bids (holding l (reduced q n ∷ rest) ∷ ls) s
      ids bid p c k e = (k, e, refl)
      ids ask p c k e = find_node-reduced l n rest ls q h p c k e
      ids (unnamed_side _) p c k e = (k, e, refl)

  pub ask-Faces : Faces (AskFace bids next id)
  ask-Faces = record {
    full = λ l ls m v. v.indexed.asks_ok.levels.0.not_empty;
    take_front = take_ask;
    reduce_front = reduce_ask;
  }

module _ (asks : List Level) (next id : ℕ) where
  take_bid :
      (l : Level) (n : Node) (rest : List Node) (ls : List Level) (m : OrderMap)
      → BidFace asks next id (holding l (n ∷ rest) ∷ ls) m
      → BidFace asks next id (kept l rest ls) (update m n.order.id none)
  take_bid l n rest ls m v = record {
    indexed =
        subst (λ k. IsIndexed k asks (update m n.order.id none) next)
          (front-without l n rest ls gtb)
          (bid-remove (holding l (n ∷ rest) ∷ ls) asks m next l.price n.address n v.indexed
            (find_node-front l n rest ls));
    uncrossed = All-map asks (λ a h. All-kept (λ p. p < a.price) l rest ls h.0 h.1) v.uncrossed;
    fresh = ground (arith, v.fresh);
  }

  reduce_bid :
      (l : Level) (n : Node) (rest : List Node) (ls : List Level) (m : OrderMap) (q : ℕ)
      → q < n.order.quantity
      → BidFace asks next id (holding l (n ∷ rest) ∷ ls) m
      → BidFace asks next id (holding l (reduced q n ∷ rest) ∷ ls) m
  reduce_bid l n rest ls m q h v = record {
    indexed = record {
      bids_ok = SideOk-reduced l n rest ls q h v.indexed.bids_ok;
      asks_ok = v.indexed.asks_ok;
      entries_ok = λ j.
          entries_kept (holding l (n ∷ rest) ∷ ls) asks _ asks j (m j) ids (v.indexed.entries_ok j);
    };
    uncrossed = v.uncrossed;
    fresh = v.fresh;
  }
    where
      ids :
          (s : Side)
          → KeepsIds (holding l (n ∷ rest) ∷ ls) asks (holding l (reduced q n ∷ rest) ∷ ls) asks s
      ids ask p c k e = (k, e, refl)
      ids bid p c k e = find_node-reduced l n rest ls q h p c k e
      ids (unnamed_side _) p c k e = (k, e, refl)

  pub bid-Faces : Faces (BidFace asks next id)
  bid-Faces = record {
    full = λ l ls m v. v.indexed.bids_ok.levels.0.not_empty;
    take_front = take_bid;
    reduce_front = reduce_bid;
  }
