-- ===== src/Book/Prices.antt =====
-- What the book tells of its prices: the best bid, the best ask, and the printed depth.
use exchange_simulator.Common.{
  ℕ, zero, suc, ◌+◌, ◌%◌, ◌^◌, ◌<◌, ◌≤◌, ◌≡◌, refl, ap, ap₂, ◌∙◌, inl, inr, ◌⊎◌, List, [], ◌∷◌,
  ◌++◌, none, some, true, map, reverse, take, All, All-map, arith, ltb, gtb, List-cases,
}
use exchange_simulator.Book.{Node, Level, OrderBook, best_bid, best_ask}
use exchange_simulator.Book.Valid.{IsValid}
use exchange_simulator.Book.Depth.{
  title, rule, ask_row, bid_row, total_from, depth_rows, print_depth,
}

abbrev pub quantities : List Node → ℕ
quantities [] = 0
quantities (n ∷ ns) = n.order.quantity + quantities ns

-- The price of a level, and all its quantity as a `uint32_t`.
abbrev pub level_row : Level → ℕ × ℕ
level_row l = (l.price, quantities l.orders % 2 ^ 32)

total_from_lem :
    (total : ℕ) (ns : List Node)
    → total < 2 ^ 32
    → total_from total ns ≡ (total + quantities ns) % 2 ^ 32
unfolding total_from
total_from_lem total [] h = omega arith
total_from_lem total (n ∷ ns) h =
    total_from_lem ((total + n.order.quantity) % 2 ^ 32) ns (omega arith) ∙ omega arith

depth_rows_lem :
    (levels : ℕ) (ls : List Level) → depth_rows levels ls ≡ map level_row (take levels ls)
unfolding depth_rows
depth_rows_lem zero ls = refl
depth_rows_lem (suc k) [] = refl
depth_rows_lem (suc k) (l ∷ ls) =
    let total : total_from 0 l.orders ≡ quantities l.orders % 2 ^ 32 =
      total_from_lem 0 l.orders (omega arith) ∙ omega arith in
    ap₂ ◌∷◌ (ap (λ t. (l.price, t)) total) (depth_rows_lem k ls)

-- The printed depth has the first `levels` levels of each side, each with the sum of its quantities
-- modulo 2 ^ 32: the asks from the last of them to the best, and then the bids from the best on.
pub print_depth_lem :
    (levels : ℕ) (b : OrderBook)
    → print_depth levels b
      ≡ title
        ∷ (map ask_row (reverse (map level_row (take levels b.asks)))
            ++ rule ∷ map bid_row (map level_row (take levels b.bids)))
unfolding print_depth
print_depth_lem levels b = rw (depth_rows_lem levels b.asks, depth_rows_lem levels b.bids)

bid_below :
    (p : ℕ) (ls : List Level) → All (λ k. gtb p k.price ≡ true) ls → All (λ k. k.price ≤ p) ls
bid_below p ls = All-map ls (λ k h. ground arith)

ask_above :
    (p : ℕ) (ls : List Level) → All (λ k. ltb p k.price ≡ true) ls → All (λ k. p ≤ k.price) ls
ask_above p ls = All-map ls (λ k h. ground arith)

-- On a valid book, there is no best bid exactly if there is no bid, and otherwise it is the highest
-- price of a level of bids; there is no best ask exactly if there is no ask, and otherwise it is the
-- lowest price of a level of asks.
pub best_prices :
    (b : OrderBook)
    → IsValid b
    → (((b.bids ≡ []) × (best_bid b ≡ none))
        ⊎ ((l : Level) × (ls : List Level) × (b.bids ≡ l ∷ ls)
            × (best_bid b ≡ some l.price)
            × All (λ k. k.price ≤ l.price) b.bids))
      × (((b.asks ≡ []) × (best_ask b ≡ none))
          ⊎ ((l : Level) × (ls : List Level) × (b.asks ≡ l ∷ ls)
              × (best_ask b ≡ some l.price)
              × All (λ k. l.price ≤ k.price) b.asks))
unfolding best_bid best_ask
best_prices b v = (
  elim (List-cases b.bids) [
    | inl e ↦ inl (e, rw e)
    | inr (l, ls, e) ↦
        let s : All (λ k. gtb l.price k.price ≡ true) ls = (rw e at v.indexed.bids_ok.sorted).0 in
        inr (l, ls, e, rw e, rw e (omega arith, bid_below l.price ls s))
  ],
  elim (List-cases b.asks) [
    | inl e ↦ inl (e, rw e)
    | inr (l, ls, e) ↦
        let s : All (λ k. ltb l.price k.price ≡ true) ls = (rw e at v.indexed.asks_ok.sorted).0 in
        inr (l, ls, e, rw e, rw e (omega arith, ask_above l.price ls s))
  ],
)
