-- ===== src/Book/Add.antt =====
-- `OrderBook::add_order` on a valid book.
use exchange_simulator.Common.{
  ℕ, ◌+◌, ◌≡◌, ◌≢◌, ◌<◌, refl, sym, ap, ◌∙◌, inl, inr, List, [], ◌∷◌, Option, none, some, Bool,
  Bool-cases, List-cases, ltb, gtb, ◌==◌, ==_iff, update, arith, All, All-map, All-map₂, All-append,
}
use exchange_simulator.Types.{Side, bid, ask, unnamed_side, limit, Order}
use exchange_simulator.Book.{
  Node, Level, OrderLocation, OrderBook, level_orders, put_level, update_level, push_back,
  add_order, new_node, add_to_side,
}
use exchange_simulator.Book.Levels.{
  IsLinear, ltb-IsLinear, gtb-IsLinear, put_level-All, put_level-IsSorted, level_orders-put,
  update_level-put,
}
use exchange_simulator.Book.Nodes.{
  find_node, push_back-Distinct, find_node-push_back, find_node-address,
}
use exchange_simulator.Book.Valid.{OrderMap, NodeOk, LevelOk, SideOk, side_levels, EntryOk, IsValid}
use exchange_simulator.Book.Remove.{NodeOk-map, LevelOk-map, SideOk-map, level_orders-Ok, found-Ok}
use exchange_simulator.Order.{is_limit}

-- A limit order that may rest on the side: what `Order`'s constructor checks, and the side.
pub record IsResting (s : Side) (o : Order) : Type 0 where
  pub on_side : o.side ≡ s
  pub is_limit_order : o.order_type ≡ limit
  pub positive_price : 0 < o.price
  pub some_quantity : 0 < o.quantity

module _ (m : OrderMap) (next : ℕ) (s : Side) (o : Order) (fresh : m o.id ≡ none) where
  abbrev added : OrderMap
  added = update m o.id (some (record { side = s; price = o.price; list_position = next }))

  -- An entry for a new id does not touch the nodes that are there.
  NodeOk-added : {t : Side} {p : ℕ} (n : Node) → NodeOk m next t p n → NodeOk added (next + 1) t p n
  NodeOk-added n v =
      let differs : n.order.id ≢ o.id = λ e. cc (ap m e, fresh, v.indexed) in
      NodeOk-map (ground (arith, differs)) (omega arith) v

  SideOk-added :
      {before : ℕ → ℕ → Bool} {t : Side} {ls : List Level}
      → SideOk before m next t ls
      → SideOk before added (next + 1) t ls
  SideOk-added = SideOk-map (λ p n. NodeOk-added n)

module _ (before : ℕ → ℕ → Bool) (lin : IsLinear before) (m : OrderMap) (next : ℕ) (s : Side)
    (o : Order) (fresh : m o.id ≡ none) (r : IsResting s o) (ls : List Level)
    (ok : SideOk before m next s ls) where
  abbrev node : Node
  node = record { address = next; order = o }

  abbrev after : List Level
  after = update_level before o.price (push_back node) ls

  node-Ok : NodeOk (added m next s o fresh) (next + 1) s o.price node
  node-Ok = record {
    address_used = omega arith;
    indexed = ground arith;
    at_price = refl;
    on_side = r.on_side;
    is_limit_order = r.is_limit_order;
    positive_price = r.positive_price;
    some_quantity = r.some_quantity;
  }

  others-ne : All (λ k. k.address ≢ next) (level_orders o.price ls)
  others-ne =
      All-map (level_orders o.price ls) (λ k v. omega (arith, v.address_used))
        (level_orders-Ok m next s o.price ls ok.levels).0

  new_level :
      LevelOk
        (added m next s o fresh)
        (next + 1)
        s
        (record { price = o.price; orders = push_back node (level_orders o.price ls) })
  new_level =
      let inside = level_orders-Ok m next s o.price ls ok.levels in
      record {
        not_empty = push_back-ne (level_orders o.price ls);
        nodes =
            All-append _ (level_orders o.price ls) (node ∷ [])
              (All-map (level_orders o.price ls) (λ k v. NodeOk-added m next s o fresh k v)
                inside.0)
              (node-Ok, tt);
        distinct = push_back-Distinct node (level_orders o.price ls) others-ne inside.1;
      }
    where
      push_back-ne : (ns : List Node) → push_back node ns ≢ []
      push_back-ne [] e = cc
      push_back-ne (k ∷ ns) e = cc

  -- The level reached through `map[price]` and pushed to is the level with the longer list.
  after-put : after ≡ put_level before o.price (push_back node (level_orders o.price ls)) ls
  after-put = elim (List-cases (push_back node (level_orders o.price ls))) [
    | inl e ↦ absurd (new_level.not_empty e)
    | inr (k, ks, e) ↦
        rw e (update_level-put before lin o.price (push_back node) k ks ls ok.sorted e)
  ]

  SideOk-add : SideOk before (added m next s o fresh) (next + 1) s after
  SideOk-add = rw after-put (record {
    levels =
        put_level-All before lin (LevelOk m next s) (LevelOk (added m next s o fresh) (next + 1) s)
          o.price (λ k ne v. LevelOk-map (NodeOk-added m next s o fresh) v) _ ls (inr new_level)
          ok.sorted ok.levels;
    sorted = put_level-IsSorted before lin o.price _ ls ok.sorted;
  })

  -- Every node of the side is found where it was.
  find_node-add :
      (q c : ℕ) (k : Node)
      → find_node c (level_orders q ls) ≡ some k
      → find_node c (level_orders q after) ≡ some k
  find_node-add q c k e =
      let in_use = found-Ok before lin m next s q c ls k ok e in
      rw after-put (
        ground (
          arith,
          in_use.address_used,
          find_node-address c (level_orders q ls) k e,
          find_node-push_back c node (level_orders o.price ls) others-ne,
          level_orders-put before lin o.price q (push_back node (level_orders o.price ls)) ls
              ok.sorted,
        ))

  -- And the new one, where its entry says.
  find_node-new : find_node next (level_orders o.price after) ≡ some node
  find_node-new = rw after-put (
      ground (
        arith,
        find_node-push_back next node (level_orders o.price ls) others-ne,
        level_orders-put before lin o.price o.price (push_back node (level_orders o.price ls)) ls
            ok.sorted,
      ))

-- The entries of the map after a change of the sides that keeps every node and adds one.
module _ (bids asks bids' asks' : List Level) where
  abbrev KeepsAll : Side → Type 0
  KeepsAll s =
      (q c : ℕ) (k : Node)
      → find_node c (level_orders q (side_levels s bids asks)) ≡ some k
      → find_node c (level_orders q (side_levels s bids' asks')) ≡ some k

  entry_kept :
      (j : ℕ) (o : Option OrderLocation)
      → ((s : Side) → KeepsAll s)
      → EntryOk bids asks j o
      → EntryOk bids' asks' j o
  entry_kept j none f v = tt
  entry_kept j (some l) f (k, e, i) = (k, f l.side l.price l.list_position k e, i)

  EntryOk-add :
      (m : OrderMap) (id : ℕ) (loc : OrderLocation) (n : Node)
      → find_node loc.list_position (level_orders loc.price (side_levels loc.side bids' asks'))
        ≡ some n
      → n.order.id ≡ id
      → ((s : Side) → KeepsAll s)
      → ((j : ℕ) → EntryOk bids asks j (m j))
      → (j : ℕ) → EntryOk bids' asks' j (update m id (some loc) j)
  EntryOk-add m id loc n found its f entries j = elim (Bool-cases (j == id)) [
    | inl same ↦ rw same (n, found, its ∙ sym ((==_iff j id).0 same))
    | inr other ↦ rw other (entry_kept j (m j) f (entries j))
  ]

-- The condition under which an order may be booked: it does not cross the other side.
abbrev pub Apart : Side → Order → OrderBook → Type 0
Apart bid o b = All (λ a. o.price < a.price) b.asks
Apart ask o b = All (λ l. l.price < o.price) b.bids
Apart (unnamed_side _) o b = Unit

pub add_resting :
    (o : Order) (b : OrderBook) → o.order_type ≡ limit → add_order o b ≡ add_to_side o.side o b
unfolding add_order
add_resting o b e = rw (e, is_limit)

module _ (o : Order) (b : OrderBook) (v : IsValid b) (fresh : b.order_map o.id ≡ none) where
  ask_kept :
      IsResting ask o → (s : Side) → KeepsAll b.bids b.asks b.bids (add_to_side ask o b).asks s
  ask_kept r bid q c k e = e
  ask_kept r ask q c k e =
      find_node-add ltb ltb-IsLinear b.order_map b.next_address ask o fresh r b.asks
        v.indexed.asks_ok q c k e
  ask_kept r (unnamed_side _) q c k e = e

  bid_kept :
      IsResting bid o → (s : Side) → KeepsAll b.bids b.asks (add_to_side bid o b).bids b.asks s
  bid_kept r ask q c k e = e
  bid_kept r bid q c k e =
      find_node-add gtb gtb-IsLinear b.order_map b.next_address bid o fresh r b.bids
        v.indexed.bids_ok q c k e
  bid_kept r (unnamed_side _) q c k e = e

  add_ask-IsValid : IsResting ask o → Apart ask o b → IsValid (add_to_side ask o b)
  add_ask-IsValid r apart =
      let m = b.order_map in
      let next = b.next_address in
      record {
        indexed = record {
          bids_ok = SideOk-added m next ask o fresh v.indexed.bids_ok;
          asks_ok = SideOk-add ltb ltb-IsLinear m next ask o fresh r b.asks v.indexed.asks_ok;
          entries_ok =
              EntryOk-add b.bids b.asks b.bids _ m o.id _ (new_node o b)
                (find_node-new ltb ltb-IsLinear m next ask o fresh r b.asks v.indexed.asks_ok) refl
                (ask_kept r) v.indexed.entries_ok;
        };
        uncrossed = rw (after-put ltb ltb-IsLinear m next ask o fresh r b.asks v.indexed.asks_ok) (
            put_level-All ltb ltb-IsLinear _ (λ a. All (λ l. l.price < a.price) b.bids) o.price
              (λ k _ h. h) _ b.asks (inr apart) v.indexed.asks_ok.sorted v.uncrossed);
      }

  add_bid-IsValid : IsResting bid o → Apart bid o b → IsValid (add_to_side bid o b)
  add_bid-IsValid r apart =
      let m = b.order_map in
      let next = b.next_address in
      record {
        indexed = record {
          bids_ok = SideOk-add gtb gtb-IsLinear m next bid o fresh r b.bids v.indexed.bids_ok;
          asks_ok = SideOk-added m next bid o fresh v.indexed.asks_ok;
          entries_ok =
              EntryOk-add b.bids b.asks _ b.asks m o.id _ (new_node o b)
                (find_node-new gtb gtb-IsLinear m next bid o fresh r b.bids v.indexed.bids_ok) refl
                (bid_kept r) v.indexed.entries_ok;
        };
        uncrossed = rw (after-put gtb gtb-IsLinear m next bid o fresh r b.bids v.indexed.bids_ok) (
            All-map₂ b.asks
              (λ a far h.
                put_level-All gtb gtb-IsLinear _ (λ l. l.price < a.price) o.price (λ k _ h'. h') _
                  b.bids (inr far) v.indexed.bids_ok.sorted h)
              apart v.uncrossed);
      }

-- Booking an order that may rest, does not cross the other side, and has a new id keeps the book
-- valid. On another side than the two, nothing is booked.
pub add_order-IsValid :
    (o : Order) (b : OrderBook)
    → IsValid b
    → b.order_map o.id ≡ none
    → IsResting o.side o
    → Apart o.side o b
    → IsValid (add_order o b)
add_order-IsValid o b v fresh r apart =
    rw (add_resting o b r.is_limit_order) (by_side o.side r apart)
  where
    by_side : (s : Side) → IsResting s o → Apart s o b → IsValid (add_to_side s o b)
    by_side ask r' a = add_ask-IsValid o b v fresh r' a
    by_side bid r' a = add_bid-IsValid o b v fresh r' a
    by_side (unnamed_side _) r' a = v
