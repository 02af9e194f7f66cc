-- ===== src/Tests/Orders.antt =====
-- The book and the engine on concrete orders (tests/test_matching_engine.cpp and test_orderbook.cpp).
use exchange_simulator.Common.{
  ℕ, ◌+◌, ◌-◌, ◌^◌, ◌<◌, ◌≤◌, ◌≡◌, refl, ◌⊎◌, [], ◌∷◌, none, some, ltb, gtb, returned, threw, arith,
  All,
}
use exchange_simulator.Types.{Side, bid, ask, limit, market, Order}
use exchange_simulator.Order.{
  make_order, reduce_quantity, bad_limit_price, bad_market_price, zero_quantity,
}
use exchange_simulator.Order.Valid.{PriceFits, IsValid as IsValidOrder, order_with, make_order_lem}
use exchange_simulator.Book.{
  OrderBook, empty_book, best_ask, add_order, cancel_order, order_not_found, update_level,
  put_level, erase_node, level_orders,
}
use exchange_simulator.Book.Depth.{title, rule, ask_line, print_depth}
use exchange_simulator.Book.Queue.{queue}
use exchange_simulator.Book.Valid.{IsValid, empty_book-IsValid}
use exchange_simulator.Book.Add.{Apart, add_order-IsValid}
use exchange_simulator.Book.Cancel.{Cancelled, cancel_order_lem}
use exchange_simulator.Engine.{match, sweep, fill_level, fill_front}
use exchange_simulator.Engine.Executed.{Executed, against_asks, against_bids}
use exchange_simulator.Engine.Refine.{match-bid, match-ask}
use exchange_simulator.Engine.Trades.{
  BuyerTrade, SellerTrade, traded_total, resting_total, OwnTotal, match_bid-trades,
  match_ask-trades,
}
use exchange_simulator.Engine.Validity.{match-IsValid}

abbrev pub clock : ℕ → ℕ
clock i = 1000 + i

abbrev pub order : ℕ → ℕ → ℕ → Side → Order
order id price quantity side = record {
  timestamp = 7;
  id = id;
  price = price;
  quantity = quantity;
  side = side;
  order_type = limit;
}

abbrev pub first_ask : Order
first_ask = order 1 100 10 ask

abbrev pub second_ask : Order
second_ask = order 2 99 5 ask

abbrev taker : Order
taker = order 3 100 8 bid

-- The two asks have been booked, the second at the better price.
abbrev pub asks_book : OrderBook
asks_book = (match clock second_ask (match clock first_ask empty_book []).book []).book

taker_trades :
    (match clock taker asks_book []).trades
    ≡ record { price = 99; buyer_order_id = 3; seller_order_id = 2; quantity = 5; timestamp = 1000 }
      ∷ record {
        price = 100;
        buyer_order_id = 3;
        seller_order_id = 1;
        quantity = 3;
        timestamp = 1001;
      }
      ∷ []
unfolding match sweep fill_level fill_front make_order add_order update_level put_level
    reduce_quantity
taker_trades = refl

depth_after :
    print_depth 5 (match clock taker asks_book []).book ≡ title ∷ ask_line 100 7 ∷ rule ∷ []
unfolding match sweep fill_level fill_front make_order add_order update_level put_level
    reduce_quantity print_depth
depth_after = refl

best_after : best_ask (match clock taker asks_book []).book ≡ some 100
unfolding best_ask match sweep fill_level fill_front make_order add_order update_level put_level
    reduce_quantity
best_after = refl

refused : make_order 7 1 0 5 bid limit ≡ threw bad_limit_price
unfolding make_order
refused = refl

refused_quantity : make_order 7 1 5 0 bid limit ≡ threw zero_quantity
unfolding make_order
refused_quantity = refl

order-IsValid :
    (id price quantity : ℕ) (s : Side)
    → 0 < price
    → 0 < quantity
    → IsValidOrder (order id price quantity s)
order-IsValid id price quantity s h k = record { priced = h; some_quantity = k }

first_book-IsValid : IsValid (match clock first_ask empty_book []).book
first_book-IsValid =
    (match-IsValid clock first_ask empty_book []
      (order-IsValid 1 100 10 ask (omega arith) (omega arith)) empty_book-IsValid refl).1

pub asks_book-IsValid : IsValid asks_book
asks_book-IsValid =
    (match-IsValid clock second_ask _ [] (order-IsValid 2 99 5 ask (omega arith) (omega arith))
      first_book-IsValid fresh).1
  where
    fresh : (match clock first_ask empty_book []).book.order_map 2 ≡ none
    fresh = unfold match sweep make_order add_order in refl

taker-IsValid : IsValidOrder taker
taker-IsValid = order-IsValid 3 100 8 bid (omega arith) (omega arith)

taker_fresh : asks_book.order_map 3 ≡ none
unfolding match sweep make_order add_order
taker_fresh = refl

make_order_lem_example :
    let price : ℕ = 2 ^ 64 - 500 in
    let quantity : ℕ = 100 in
    let out = make_order 7 1 price quantity bid limit in
    ((limit ≡ limit) × (price ≡ 0) × (out ≡ threw bad_limit_price))
    ⊎ ((limit ≡ market) × (0 < price) × (out ≡ threw bad_market_price))
    ⊎ (PriceFits limit price × (quantity ≡ 0) × (out ≡ threw zero_quantity))
    ⊎ (IsValidOrder (order_with 7 1 price quantity bid limit)
        × (out ≡ returned (order_with 7 1 price quantity bid limit)))
make_order_lem_example = make_order_lem 7 1 (2 ^ 64 - 500) 100 bid limit

-- The call of the test RejectLimitNegativePrice in tests/test_order.cpp does not throw.
negative_price :
    make_order 7 1 (2 ^ 64 - 500) 100 bid limit
    ≡ returned (order_with 7 1 (2 ^ 64 - 500) 100 bid limit)
unfolding make_order
negative_price = refl

match-bid_example :
    Executed gtb clock taker
      (λ k. k.bids)
      (λ k. k.asks)
      (against_asks clock taker asks_book)
      asks_book
      []
      (match clock taker asks_book [])
match-bid_example = match-bid clock taker asks_book [] taker-IsValid asks_book-IsValid refl

-- A bid has been booked.
abbrev bids_book : OrderBook
bids_book = (match clock (order 1 100 10 bid) empty_book []).book

abbrev seller : Order
seller = order 4 99 4 ask

bids_book-IsValid : IsValid bids_book
bids_book-IsValid =
    (match-IsValid clock (order 1 100 10 bid) empty_book []
      (order-IsValid 1 100 10 bid (omega arith) (omega arith)) empty_book-IsValid refl).1

seller-IsValid : IsValidOrder seller
seller-IsValid = order-IsValid 4 99 4 ask (omega arith) (omega arith)

match-ask_example :
    Executed ltb clock seller
      (λ k. k.asks)
      (λ k. k.bids)
      (against_bids clock seller bids_book)
      bids_book
      []
      (match clock seller bids_book [])
match-ask_example = match-ask clock seller bids_book [] seller-IsValid bids_book-IsValid refl

match-IsValid_example :
    ((match clock taker asks_book []).result ≡ returned tt)
    × IsValid (match clock taker asks_book []).book
match-IsValid_example =
    match-IsValid clock taker asks_book [] taker-IsValid asks_book-IsValid taker_fresh

match_bid-trades_example :
    let out = match clock taker asks_book [] in
    All (BuyerTrade taker) out.trades
    × (traded_total out.trades ≤ 8)
    × (traded_total out.trades + resting_total (queue out.book.asks)
        ≡ resting_total (queue asks_book.asks))
    × OwnTotal limit
        (resting_total (queue asks_book.bids))
        (resting_total (queue out.book.bids))
        8
        (traded_total out.trades)
match_bid-trades_example =
    match_bid-trades clock taker asks_book taker-IsValid asks_book-IsValid refl

match_ask-trades_example :
    let out = match clock seller bids_book [] in
    All (SellerTrade seller) out.trades
    × (traded_total out.trades ≤ 4)
    × (traded_total out.trades + resting_total (queue out.book.bids)
        ≡ resting_total (queue bids_book.bids))
    × OwnTotal limit
        (resting_total (queue bids_book.asks))
        (resting_total (queue out.book.asks))
        4
        (traded_total out.trades)
match_ask-trades_example =
    match_ask-trades clock seller bids_book seller-IsValid bids_book-IsValid refl

-- Order 2 of the two asks is cancelled.
cancel_order_lem_example :
    ((asks_book.order_map 2 ≡ none)
      × (cancel_order 2 asks_book ≡ (threw order_not_found, asks_book)))
    ⊎ Cancelled 2 asks_book (cancel_order 2 asks_book)
cancel_order_lem_example = cancel_order_lem 2 asks_book asks_book-IsValid

cancel_leaves : best_ask (cancel_order 2 asks_book).1 ≡ some 100
unfolding best_ask match sweep fill_level fill_front make_order add_order update_level put_level
    cancel_order erase_node level_orders
cancel_leaves = refl

add_order-IsValid_example : IsValid (add_order (order 5 98 1 bid) asks_book)
add_order-IsValid_example =
    add_order-IsValid (order 5 98 1 bid) asks_book asks_book-IsValid fresh
      (record {
        on_side = refl;
        is_limit_order = refl;
        positive_price = omega arith;
        some_quantity = omega arith;
      })
      apart
  where
    fresh : asks_book.order_map 5 ≡ none
    fresh = unfold match sweep make_order add_order in refl

    apart : Apart bid (order 5 98 1 bid) asks_book
    apart = unfold match sweep make_order add_order update_level in omega arith
