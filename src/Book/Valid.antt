-- ===== src/Book/Valid.antt =====
-- The representation invariant of `OrderBook`.
use exchange_simulator.Common.{ℕ, ◌≡◌, ◌≢◌, ◌<◌, List, [], Option, none, some, Bool, ltb, gtb, All}
use exchange_simulator.Types.{Side, bid, ask, unnamed_side, limit}
use exchange_simulator.Book.{Node, Level, OrderLocation, OrderBook, level_orders, empty_book}
use exchange_simulator.Book.Levels.{IsSorted}
use exchange_simulator.Book.Nodes.{Distinct, find_node}

abbrev pub OrderMap : Type 0
OrderMap = ℕ → Option OrderLocation

abbrev pub location : Side → ℕ → Node → OrderLocation
location s p n = record { side = s; price = p; list_position = n.address }

-- A resting order: a limit order of its side and price with some quantity, made before
-- `next_address`, and found by its id in the order map.
pub record NodeOk (m : OrderMap) (next : ℕ) (s : Side) (p : ℕ) (n : Node) : Type 0 where
  pub address_used : n.address < next
  pub indexed : m n.order.id ≡ some (location s p n)
  pub at_price : n.order.price ≡ p
  pub on_side : n.order.side ≡ s
  pub is_limit_order : n.order.order_type ≡ limit
  pub positive_price : 0 < p
  pub some_quantity : 0 < n.order.quantity

pub record LevelOk (m : OrderMap) (next : ℕ) (s : Side) (l : Level) : Type 0 where
  pub not_empty : l.orders ≢ []
  pub nodes : All (NodeOk m next s l.price) l.orders
  pub distinct : Distinct l.orders

pub record SideOk (before : ℕ → ℕ → Bool) (m : OrderMap) (next : ℕ) (s : Side) (ls : List Level)
    : Type 0 where
  pub levels : All (LevelOk m next s) ls
  pub sorted : IsSorted before ls

-- The levels of the side that a location names.
abbrev pub side_levels : Side → List Level → List Level → List Level
side_levels bid bids asks = bids
side_levels ask bids asks = asks
side_levels (unnamed_side _) bids asks = []

-- What the entry of an id in the order map says, if there is one: its iterator points to a node of
-- the level that it names, which holds the order with that id.
abbrev pub EntryOk : List Level → List Level → ℕ → Option OrderLocation → Type 0
EntryOk bids asks id none = Unit
EntryOk bids asks id (some loc) =
    (n : Node) × (find_node loc.list_position
        (level_orders loc.price (side_levels loc.side bids asks))
      ≡ some n)
    × (n.order.id ≡ id)

-- Every price that is bid is below every price that is asked.
abbrev pub IsUncrossed : List Level → List Level → Type 0
IsUncrossed bids = All (λ a. All (λ b. b.price < a.price) bids)

-- Everything but that the best prices do not cross.
pub record IsIndexed (bids asks : List Level) (m : OrderMap) (next : ℕ) : Type 0 where
  pub bids_ok : SideOk gtb m next bid bids
  pub asks_ok : SideOk ltb m next ask asks
  pub entries_ok : (id : ℕ) → EntryOk bids asks id (m id)

pub record IsValid (b : OrderBook) : Type 0 where
  pub indexed : IsIndexed b.bids b.asks b.order_map b.next_address
  pub uncrossed : IsUncrossed b.bids b.asks

pub empty_book-IsValid : IsValid empty_book
empty_book-IsValid = record {
  indexed = record {
    bids_ok = record { levels = tt; sorted = tt };
    asks_ok = record { levels = tt; sorted = tt };
    entries_ok = λ id. tt;
  };
  uncrossed = tt;
}
