-- ===== src/Book/Remove.antt =====
-- Taking one resting order out of the book keeps the rest indexed: for `cancel_order`, and for the
-- maker that `match` fills.
use exchange_simulator.Common.{
  All-map₂, ℕ, ◌≡◌, ◌≢◌, ◌≤◌, sym, ap, ◌∙◌, subst, inl, inr, ◌⊎◌, List, [], ◌∷◌, Option, none, some,
  Bool, Bool-cases, List-cases, ltb, gtb, ◌==◌, ==_iff, update, arith, All, All-map,
}
use native.Mathlib.Nat.{le_refl}
use exchange_simulator.Types.{Side, bid, ask, unnamed_side}
use exchange_simulator.Book.{Node, Level, OrderLocation, level_orders, put_level}
use exchange_simulator.Book.Levels.{
  IsLinear, ltb-IsLinear, gtb-IsLinear, put_level-IsSorted, put_level-All, level_orders-put,
}
use exchange_simulator.Book.Nodes.{
  Distinct, find_node, without, find_node-address, find_node-All, without-All, without-Distinct,
  find_node-without, without-ne,
}
use exchange_simulator.Book.Valid.{
  OrderMap, location, NodeOk, LevelOk, SideOk, side_levels, EntryOk, IsIndexed,
}

-- A node stays right under another map that knows its id as before.
pub NodeOk-map :
    {m m' : OrderMap} {next next' : ℕ} {s : Side} {p : ℕ} {n : Node}
    → m' n.order.id ≡ m n.order.id
    → next ≤ next'
    → NodeOk m next s p n
    → NodeOk m' next' s p n
NodeOk-map e h v = record {
  address_used = omega (arith, v.address_used);
  indexed = e ∙ v.indexed;
  at_price = v.at_price;
  on_side = v.on_side;
  is_limit_order = v.is_limit_order;
  positive_price = v.positive_price;
  some_quantity = v.some_quantity;
}

pub LevelOk-map :
    {m m' : OrderMap} {next next' : ℕ} {s : Side} {l : Level}
    → ((n : Node) → NodeOk m next s l.price n → NodeOk m' next' s l.price n)
    → LevelOk m next s l
    → LevelOk m' next' s l
LevelOk-map {l} f v = record {
  not_empty = v.not_empty;
  nodes = All-map l.orders f v.nodes;
  distinct = v.distinct;
}

pub SideOk-map :
    {before : ℕ → ℕ → Bool} {m m' : OrderMap} {next next' : ℕ} {s : Side} {ls : List Level}
    → ((p : ℕ) (n : Node) → NodeOk m next s p n → NodeOk m' next' s p n)
    → SideOk before m next s ls
    → SideOk before m' next' s ls
SideOk-map {ls} f v = record {
  levels = All-map ls (λ l. LevelOk-map (f l.price)) v.levels;
  sorted = v.sorted;
}

-- What the level at a price holds, if there is one.
pub level_orders-Ok :
    (m : OrderMap) (next : ℕ) (s : Side) (p : ℕ) (ls : List Level)
    → All (LevelOk m next s) ls
    → All (NodeOk m next s p) (level_orders p ls) × Distinct (level_orders p ls)
unfolding level_orders
level_orders-Ok m next s p [] a = (tt, tt)
level_orders-Ok m next s p (l ∷ ls) a = elim (Bool-cases (l.price == p)) [
  | inl same ↦
      let e : l.price ≡ p = (==_iff _ _).0 same in
      rw same (subst (λ q. All (NodeOk m next s q) l.orders) e a.0.nodes, a.0.distinct)
  | inr other ↦ rw other (level_orders-Ok m next s p ls a.1)
]

module _ (m : OrderMap) (next id : ℕ) (loc : OrderLocation) (at : m id ≡ some loc) where
  -- Dropping the entry of `id` does not touch a node at another location.
  NodeOk-drop :
      {s : Side} {p : ℕ} (n : Node)
      → location s p n ≢ loc
      → NodeOk m next s p n
      → NodeOk (update m id none) next s p n
  NodeOk-drop n h v =
      let differs : n.order.id ≢ id = λ e. h (cc (ap m e, at, v.indexed)) in
      NodeOk-map (ground (arith, differs)) (le_refl next) v

  SideOk-drop :
      {before : ℕ → ℕ → Bool} {s : Side} {ls : List Level}
      → s ≢ loc.side
      → SideOk before m next s ls
      → SideOk before (update m id none) next s ls
  SideOk-drop h = SideOk-map (λ p n. NodeOk-drop n (λ e. h (ap (λ (l : OrderLocation). l.side) e)))

module _ (before : ℕ → ℕ → Bool) (lin : IsLinear before) (m : OrderMap) (next : ℕ) (s : Side)
    (p a : ℕ) (ls : List Level) (n : Node) (ok : SideOk before m next s ls)
    (found : find_node a (level_orders p ls) ≡ some n) where
  pub found-Ok : NodeOk m next s p n
  found-Ok =
      find_node-All (NodeOk m next s p) a (level_orders p ls) n found
        (level_orders-Ok m next s p ls ok.levels).0

  pub found-at : m n.order.id ≡ some (record { side = s; price = p; list_position = a })
  found-at = cc (found-Ok.indexed, find_node-address a (level_orders p ls) n found)

  left_nodes : All (NodeOk (update m n.order.id none) next s p) (without a (level_orders p ls))
  left_nodes =
      let os = level_orders p ls in
      let inside = level_orders-Ok m next s p ls ok.levels in
      All-map₂ (without a os)
        (λ k ne v.
          NodeOk-drop m next n.order.id _ found-at k
            (λ e. ne (ap (λ (l : OrderLocation). l.list_position) e)) v)
        (without-ne a os inside.1) (without-All _ a os inside.0)

  new_level :
      (without a (level_orders p ls) ≡ [])
      ⊎ LevelOk
          (update m n.order.id none)
          next
          s
          (record { price = p; orders = without a (level_orders p ls) })
  new_level = elim (List-cases (without a (level_orders p ls))) [
    | inl e ↦ inl e
    | inr (k, ks, e) ↦ inr (record {
      not_empty = λ z. cc (e, z);
      nodes = left_nodes;
      distinct = without-Distinct a _ (level_orders-Ok m next s p ls ok.levels).1;
    })
  ]

  SideOk-remove :
      SideOk before
        (update m n.order.id none)
        next
        s
        (put_level before p (without a (level_orders p ls)) ls)
  SideOk-remove = record {
    levels =
        put_level-All before lin (LevelOk m next s) (LevelOk (update m n.order.id none) next s) p
          (λ k ne v.
            LevelOk-map
              (λ j.
                NodeOk-drop m next n.order.id _ found-at j
                  (λ e. ne (ap (λ (l : OrderLocation). l.price) e)))
              v)
          (without a (level_orders p ls)) ls new_level ok.sorted ok.levels;
    sorted = put_level-IsSorted before lin p _ ls ok.sorted;
  }

  -- Every other node of the side is found where it was.
  find_node-remove :
      (q c : ℕ) (k : Node)
      → find_node c (level_orders q ls) ≡ some k
      → k.order.id ≢ n.order.id
      → find_node c (level_orders q (put_level before p (without a (level_orders p ls)) ls))
        ≡ some k
  find_node-remove q c k e ne = ground (
    arith,
    found,
    level_orders-put before lin p q (without a (level_orders p ls)) ls ok.sorted,
    find_node-without a c (level_orders p ls) (level_orders-Ok m next s p ls ok.levels).1,
  )

-- The entries of the map after a change of the sides that keeps every node but that of `id`.
module _ (bids asks bids' asks' : List Level) (m : OrderMap) (id : ℕ) where
  abbrev KeepsOthers : Side → Type 0
  KeepsOthers s =
      (q c : ℕ) (k : Node)
      → find_node c (level_orders q (side_levels s bids asks)) ≡ some k
      → k.order.id ≢ id
      → find_node c (level_orders q (side_levels s bids' asks')) ≡ some k

  entry_kept :
      (j : ℕ) (o : Option OrderLocation)
      → ((s : Side) → KeepsOthers s)
      → j ≢ id
      → EntryOk bids asks j o
      → EntryOk bids' asks' j o
  entry_kept j none f ne v = tt
  entry_kept j (some loc) f ne (k, e, i) =
      (k, f loc.side loc.price loc.list_position k e (λ h. ne (sym i ∙ h)), i)

  EntryOk-remove :
      ((s : Side) → KeepsOthers s)
      → ((j : ℕ) → EntryOk bids asks j (m j))
      → (j : ℕ) → EntryOk bids' asks' j (update m id none j)
  EntryOk-remove f entries j = elim (Bool-cases (j == id)) [
    | inl same ↦ rw same tt
    | inr other ↦ rw other (entry_kept j (m j) f (λ e. cc (other, (==_iff j id).1 e)) (entries j))
  ]

module _ (bids asks : List Level) (m : OrderMap) (next p a : ℕ) (n : Node)
    (ok : IsIndexed bids asks m next) where
  -- Taking a node out of the asks.
  pub ask-remove :
      find_node a (level_orders p asks) ≡ some n
      → IsIndexed bids
          (put_level ltb p (without a (level_orders p asks)) asks)
          (update m n.order.id none)
          next
  ask-remove found =
      let rest = put_level ltb p (without a (level_orders p asks)) asks in
      record {
        bids_ok =
            SideOk-drop m next n.order.id _
              (found-at ltb ltb-IsLinear m next ask p a asks n ok.asks_ok found) (λ e. cc)
              ok.bids_ok;
        asks_ok = SideOk-remove ltb ltb-IsLinear m next ask p a asks n ok.asks_ok found;
        entries_ok = EntryOk-remove bids asks bids rest m n.order.id kept ok.entries_ok;
      }
    where
      kept :
          (s : Side)
          → KeepsOthers bids asks bids
              (put_level ltb p (without a (level_orders p asks)) asks)
              m
              n.order.id
              s
      kept bid q c k e ne = e
      kept ask q c k e ne =
          find_node-remove ltb ltb-IsLinear m next ask p a asks n ok.asks_ok found q c k e ne
      kept (unnamed_side b) q c k e ne = e

  -- Taking a node out of the bids.
  pub bid-remove :
      find_node a (level_orders p bids) ≡ some n
      → IsIndexed
          (put_level gtb p (without a (level_orders p bids)) bids)
          asks
          (update m n.order.id none)
          next
  bid-remove found =
      let rest = put_level gtb p (without a (level_orders p bids)) bids in
      record {
        bids_ok = SideOk-remove gtb gtb-IsLinear m next bid p a bids n ok.bids_ok found;
        asks_ok =
            SideOk-drop m next n.order.id _
              (found-at gtb gtb-IsLinear m next bid p a bids n ok.bids_ok found) (λ e. cc)
              ok.asks_ok;
        entries_ok = EntryOk-remove bids asks rest asks m n.order.id kept ok.entries_ok;
      }
    where
      kept :
          (s : Side)
          → KeepsOthers bids asks
              (put_level gtb p (without a (level_orders p bids)) bids)
              asks
              m
              n.order.id
              s
      kept ask q c k e ne = e
      kept bid q c k e ne =
          find_node-remove gtb gtb-IsLinear m next bid p a bids n ok.bids_ok found q c k e ne
      kept (unnamed_side b) q c k e ne = e
