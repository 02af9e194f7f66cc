-- ===== src/Tests/Prices.antt =====
-- The prices and the depth of a book of two asks.
use exchange_simulator.Common.{
  ◌≤◌, ◌≡◌, ◌⊎◌, List, [], ◌∷◌, ◌++◌, none, some, map, reverse, take, All,
}
use exchange_simulator.Book.{Level, best_bid, best_ask}
use exchange_simulator.Book.Depth.{title, rule, ask_row, bid_row, print_depth}
use exchange_simulator.Book.Prices.{level_row, print_depth_lem, best_prices}
use exchange_simulator.Tests.Orders.{asks_book, asks_book-IsValid}

print_depth_lem_example :
    print_depth 1 asks_book
    ≡ title
      ∷ (map ask_row (reverse (map level_row (take 1 asks_book.asks)))
          ++ rule ∷ map bid_row (map level_row (take 1 asks_book.bids)))
print_depth_lem_example = print_depth_lem 1 asks_book

best_prices_example :
    (((asks_book.bids ≡ []) × (best_bid asks_book ≡ none))
      ⊎ ((l : Level) × (ls : List Level) × (asks_book.bids ≡ l ∷ ls)
          × (best_bid asks_book ≡ some l.price)
          × All (λ k. k.price ≤ l.price) asks_book.bids))
    × (((asks_book.asks ≡ []) × (best_ask asks_book ≡ none))
        ⊎ ((l : Level) × (ls : List Level) × (asks_book.asks ≡ l ∷ ls)
            × (best_ask asks_book ≡ some l.price)
            × All (λ k. l.price ≤ k.price) asks_book.asks))
best_prices_example = best_prices asks_book asks_book-IsValid
