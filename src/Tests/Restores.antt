-- ===== src/Tests/Restores.antt =====
-- An order with an id that rests already is booked and cancelled.
use exchange_simulator.Common.{◌≡◌, refl, inr, returned}
use exchange_simulator.Book.{add_order, cancel_order}
use exchange_simulator.Book.Restore.{restored, add_order-cancel_order}
use exchange_simulator.Tests.Orders.{asks_book, asks_book-IsValid, first_ask}

-- The order map has an entry of the id 1 before, and none after.
add_order-cancel_order_example :
    cancel_order 1 (add_order first_ask asks_book) ≡ (returned tt, restored 1 asks_book)
add_order-cancel_order_example =
    add_order-cancel_order first_ask asks_book asks_book-IsValid refl (inr refl)
