-- ===== src/Book/Depth.antt =====
-- `OrderBook::print_depth`: the lines that it writes to its stream, as data. `levels` is an `int`
-- that is not negative (on a negative one `reserve` throws).
use exchange_simulator.Common.{ℕ, zero, suc, ◌+◌, ◌%◌, ◌^◌, List, [], ◌∷◌, ◌++◌, map, reverse}
use exchange_simulator.Book.{Node, Level, OrderBook}

pub data Line : Type 0 where
  title rule : Line
  ask_line bid_line : ℕ → ℕ → Line

-- `total_quantity`, a `uint32_t` that wraps.
unfoldable pub total_from : ℕ → List Node → ℕ
total_from total [] = total
total_from total (n ∷ ns) = total_from ((total + n.order.quantity) % 2 ^ 32) ns

-- One round of the loops over the levels, at most `levels` of them.
unfoldable pub depth_rows : ℕ → List Level → List (ℕ × ℕ)
depth_rows zero ls = []
depth_rows (suc k) [] = []
depth_rows (suc k) (l ∷ ls) = (l.price, total_from 0 l.orders) ∷ depth_rows k ls

abbrev pub ask_row : ℕ × ℕ → Line
ask_row r = ask_line r.0 r.1

abbrev pub bid_row : ℕ × ℕ → Line
bid_row r = bid_line r.0 r.1

unfoldable pub print_depth : ℕ → OrderBook → List Line
unfolding depth_rows total_from
print_depth levels b =
    title
    ∷ (map ask_row (reverse (depth_rows levels b.asks))
        ++ rule ∷ map bid_row (depth_rows levels b.bids))
