-- ===== src/Book/Cancel.antt =====
-- `OrderBook::cancel_order` on a valid book.
use exchange_simulator.Common.{
  ◌↔◌, ℕ, ◌≡◌, ◌≢◌, ◌<◌, refl, sym, ap, subst, inl, inr, ◌⊎◌, List, [], ◌∷◌, none, some, Bool,
  Bool-cases, Option-cases, ltb, gtb, ◌==◌, ==_iff, update, Outcome, returned, threw, arith, All,
  All-map, All-map₂,
}
use exchange_simulator.Types.{Side, bid, ask, unnamed_side}
use exchange_simulator.Book.{
  Node, Level, OrderLocation, OrderBook, level_orders, put_level, cancel_order, cancel_at,
  order_not_found,
}
use exchange_simulator.Book.Levels.{IsLinear, ltb-IsLinear, gtb-IsLinear, put_level-All}
use exchange_simulator.Book.Nodes.{find_node, without, erase_node-without, find_node_unique}
use exchange_simulator.Book.Queue.{
  queue, drop_id, OnlyAt, queue-put, orders_at-without, drop_id-queue-HasNot,
}
use exchange_simulator.Book.Valid.{OrderMap, SideOk, EntryOk, IsValid}
use exchange_simulator.Book.Remove.{level_orders-Ok, found-at, ask-remove, bid-remove}

-- A price that a node is found at is the price of a level.
price-All :
    (R : ℕ → Type 0) (p a : ℕ) (ls : List Level) (n : Node)
    → find_node a (level_orders p ls) ≡ some n
    → All (λ l. R l.price) ls
    → R p
unfolding level_orders find_node
price-All R p a [] n e h = absurd (cc)
price-All R p a (l ∷ ls) n e h = elim (Bool-cases (l.price == p)) [
  | inl same ↦ subst R ((==_iff _ _).0 same) h.0
  | inr other ↦ price-All R p a ls n (rw other at e) h.1
]

module _ (before : ℕ → ℕ → Bool) (lin : IsLinear before) (m : OrderMap) (next : ℕ) (s : Side)
    (p a : ℕ) (ls : List Level) (n : Node) (ok : SideOk before m next s ls)
    (found : find_node a (level_orders p ls) ≡ some n) where
  at : m n.order.id ≡ some (record { side = s; price = p; list_position = a })
  at = found-at before lin m next s p a ls n ok found

  -- The order of the node is the only one with its id on the side.
  only_there : OnlyAt before lin p n.order.id ls
  only_there =
      All-map ls (λ l v ne. All-map l.orders (λ k w e. ne (cc (ap m e, at, w.indexed))) v.nodes)
        ok.levels

  keyed : All (λ k. (k.address ≡ a) ↔ (k.order.id ≡ n.order.id)) (level_orders p ls)
  keyed =
      let inside = level_orders-Ok m next s p ls ok.levels in
      All-map₂ (level_orders p ls)
        (λ k one v.
          ((λ h. ap (λ (j : Node). j.order.id) (one h)), (λ h. cc (ap m h, at, v.indexed))))
        (find_node_unique a (level_orders p ls) n found inside.1) inside.0

  queue-remove :
      queue (put_level before p (without a (level_orders p ls)) ls) ≡ drop_id n.order.id (queue ls)
  queue-remove =
      queue-put before lin p n.order.id (without a (level_orders p ls)) ls ok.sorted only_there (
        orders_at-without a n.order.id (level_orders p ls) keyed
          (level_orders-Ok m next s p ls ok.levels).1)

-- A side that the location does not name has no order with the id.
no_order :
    {before : ℕ → ℕ → Bool} (m : OrderMap) (next id : ℕ) (loc : OrderLocation) (s : Side)
    (ls : List Level)
    → SideOk before m next s ls
    → (m id ≡ none) ⊎ ((m id ≡ some loc) × (s ≢ loc.side))
    → drop_id id (queue ls) ≡ queue ls
no_order m next id loc s ls ok absent = drop_id-queue-HasNot id ls (
    All-map ls (λ l v. All-map l.orders (λ k w e. differs k.order.id w.indexed e) v.nodes)
      ok.levels)
  where
    differs :
        (j : ℕ) {p a : ℕ} → m j ≡ some (record { side = s; price = p; list_position = a }) → j ≢ id
    differs j e h = ground (arith, ap m h)

-- What a successful cancellation leaves.
pub record Cancelled (id : ℕ) (b : OrderBook) (out : Outcome (Unit {0}) × OrderBook) : Type 0 where
  pub returns : out.0 ≡ returned tt
  pub bids_left : queue out.1.bids ≡ drop_id id (queue b.bids)
  pub asks_left : queue out.1.asks ≡ drop_id id (queue b.asks)
  pub forgotten : out.1.order_map ≡ update b.order_map id none
  pub still_valid : IsValid out.1

module _ (b : OrderBook) (loc : OrderLocation) (n : Node) (v : IsValid b) where
  cancel_ask :
      find_node loc.list_position (level_orders loc.price b.asks) ≡ some n
      → Cancelled n.order.id b (cancel_at n.order.id ask loc b)
  cancel_ask found =
      let m = b.order_map in
      let here =
        at ltb ltb-IsLinear m b.next_address ask loc.price loc.list_position b.asks n
          v.indexed.asks_ok found in
      rw (erase_node-without loc.list_position (level_orders loc.price b.asks) n found, cancel_at)
        (record {
          returns = refl;
          bids_left = sym (
              no_order m b.next_address n.order.id _ bid b.bids v.indexed.bids_ok
                (inr (here, λ e. cc)));
          asks_left =
              queue-remove ltb ltb-IsLinear m b.next_address ask loc.price loc.list_position b.asks
                n v.indexed.asks_ok found;
          forgotten = refl;
          still_valid = record {
            indexed =
                ask-remove b.bids b.asks m b.next_address loc.price loc.list_position n v.indexed
                  found;
            uncrossed =
                put_level-All ltb ltb-IsLinear _ (λ a. All (λ l. l.price < a.price) b.bids)
                  loc.price (λ k _ h. h) _ b.asks
                  (inr (
                    price-All (λ q. All (λ l. l.price < q) b.bids) loc.price _ b.asks n found
                      v.uncrossed))
                  v.indexed.asks_ok.sorted v.uncrossed;
          };
        })

  cancel_bid :
      find_node loc.list_position (level_orders loc.price b.bids) ≡ some n
      → Cancelled n.order.id b (cancel_at n.order.id bid loc b)
  cancel_bid found =
      let m = b.order_map in
      let here =
        at gtb gtb-IsLinear m b.next_address bid loc.price loc.list_position b.bids n
          v.indexed.bids_ok found in
      rw (erase_node-without loc.list_position (level_orders loc.price b.bids) n found, cancel_at)
        (record {
          returns = refl;
          bids_left =
              queue-remove gtb gtb-IsLinear m b.next_address bid loc.price loc.list_position b.bids
                n v.indexed.bids_ok found;
          asks_left = sym (
              no_order m b.next_address n.order.id _ ask b.asks v.indexed.asks_ok
                (inr (here, λ e. cc)));
          forgotten = refl;
          still_valid = record {
            indexed =
                bid-remove b.bids b.asks m b.next_address loc.price loc.list_position n v.indexed
                  found;
            uncrossed =
                All-map b.asks
                  (λ a h.
                    put_level-All gtb gtb-IsLinear _ (λ l. l.price < a.price) loc.price
                      (λ k _ h'. h') _ b.bids
                      (inr (price-All (λ q. q < a.price) loc.price _ b.bids n found h))
                      v.indexed.bids_ok.sorted h)
                  v.uncrossed;
          };
        })

cancel_found :
    (id : ℕ) (b : OrderBook) (loc : OrderLocation) (s : Side)
    → loc.side ≡ s
    → IsValid b
    → EntryOk b.bids b.asks id (some loc)
    → Cancelled id b (cancel_at id s loc b)
cancel_found id b loc ask h v (n, found, i) =
    subst (λ j. Cancelled j b (cancel_at j ask loc b)) i (cancel_ask b loc n v (rw h at found))
cancel_found id b loc bid h v (n, found, i) =
    subst (λ j. Cancelled j b (cancel_at j bid loc b)) i (cancel_bid b loc n v (rw h at found))
cancel_found id b loc (unnamed_side c) h v (n, found, i) =
    absurd (unfold find_node level_orders in (let f = rw h at found in cc))

-- On a valid book, cancelling an id that the book knows returns: exactly the order with that id
-- leaves its queue, in place, the id is forgotten and no other, and the book stays valid. An id that
-- the book does not know throws, and the book stays as it was.
pub cancel_order_lem :
    (id : ℕ) (b : OrderBook)
    → IsValid b
    → ((b.order_map id ≡ none) × (cancel_order id b ≡ (threw order_not_found, b)))
      ⊎ Cancelled id b (cancel_order id b)
unfolding cancel_order
cancel_order_lem id b v = elim (Option-cases (b.order_map id)) [
  | inl e ↦ inl (e, rw (e, cancel_order))
  | inr (loc, e) ↦ inr (
      rw (e, cancel_order)
        (cancel_found id b loc loc.side refl v (rw e at (v.indexed.entries_ok id))))
]

-- An id that the book does not know is the id of no resting order.
drop_id-unknown :
    (id : ℕ) (b : OrderBook)
    → IsValid b
    → b.order_map id ≡ none
    → (drop_id id (queue b.bids) ≡ queue b.bids) × (drop_id id (queue b.asks) ≡ queue b.asks)
drop_id-unknown id b v e = (
  no_order b.order_map b.next_address id (record { side = bid; price = 0; list_position = 0 }) bid
      b.bids v.indexed.bids_ok (inl e),
  no_order b.order_map b.next_address id (record { side = bid; price = 0; list_position = 0 }) ask
      b.asks v.indexed.asks_ok (inl e),
)
