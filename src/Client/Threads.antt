-- ===== src/Client/Threads.antt =====
-- What a thread of the client program sends, and what the server finds in it.
use exchange_simulator.Common.{
  ℕ, zero, suc, ◌+◌, ◌*◌, ◌/◌, ◌^◌, ◌<◌, ◌≤◌, ◌≡◌, ◌≢◌, refl, sym, List, ◌++◌, map, subst, ◌==◌,
  returned, arith, All, dec_lt, true, false,
}
use exchange_simulator.Types.{Order}
use exchange_simulator.Simulator.{InRange}
use exchange_simulator.Serializer.Interface.{binary_serializer}
use exchange_simulator.Simulator.Orders.{
  orders_from, orders_from-ids, orders_from-IsGenerated, IsGenerated, range,
}
use exchange_simulator.Client.{
  Client, num_orders, batch_size, run_batches, run, starting_id, new_exchange_client, finished,
  ThreadMeets, run_client_thread,
}
use exchange_simulator.Client.Stream.{order_frames, AllTaken, Sent, run_batches-Sent}

-- The calls succeed, the clock has moved on at the end, and the draws are in their ranges.
pub record GoesWell (m : ThreadMeets) : Type 0 where
  pub has_socket : m.has_socket ≡ true
  pub connected : m.connected ≡ true
  pub draws_ok : (i : ℕ) → InRange (m.draws i)
  pub all_taken : AllTaken m.taken
  pub some_time : 0 < m.milliseconds

-- The orders of a thread.
abbrev pub thread_orders : ℕ → ThreadMeets → List Order
thread_orders thread_id m = orders_from m.draws num_orders 0 ((thread_id + 1) * 100000000)

num_orders_value : num_orders ≡ 1000000
unfolding num_orders
num_orders_value = refl

all_batches : num_orders / batch_size * batch_size ≡ num_orders
unfolding num_orders batch_size
all_batches = omega arith

some_milliseconds : (n : ℕ) → 0 < n → (n == 0) ≡ false
some_milliseconds n h = ground arith

run-sends :
    (m : ThreadMeets) (c : Client)
    → GoesWell m
    → c.simulator.id_counter + num_orders < 2 ^ 64
    → (d : Client) × (run binary_serializer m.draws m.taken m.milliseconds c ≡ returned d)
      × (d.sent ≡ c.sent ++ order_frames (orders_from m.draws num_orders 0 c.simulator.id_counter))
unfolding run
run-sends m c g h =
    let s =
      subst
        (λ n.
          Sent m.draws c n 0 (
            run_batches binary_serializer m.draws m.taken (num_orders / batch_size) batch_size 0 c))
        all_batches
        (run_batches-Sent m.draws m.taken g.draws_ok g.all_taken (num_orders / batch_size)
          batch_size 0 c (subst (λ n. c.simulator.id_counter + n < 2 ^ 64) (sym all_batches) h)) in
    (s.after, rw (s.returns, some_milliseconds m.milliseconds g.some_time), s.bytes)

thread-finished :
    (t id : ℕ) (m : ThreadMeets) (d : Client)
    → GoesWell m
    → starting_id t ≡ returned id
    → run binary_serializer m.draws m.taken m.milliseconds (new_exchange_client id) ≡ returned d
    → run_client_thread t m ≡ finished d
unfolding run_client_thread
thread-finished t id m d g e ends = rw (e, g.has_socket, g.connected, ends)

-- A thread, with a number that `int` can still add 1 to, that meets no failure, and whose sends take
-- whole frames, finishes: it has sent a million valid orders as frames one behind the other, with
-- consecutive ids from its starting id on.
pub run_client_thread_lem :
    (t : ℕ) (m : ThreadMeets)
    → t + 1 < 2 ^ 31
    → GoesWell m
    → (c : Client) × (os : List Order) × (run_client_thread t m ≡ finished c)
      × (c.sent ≡ order_frames os)
      × (map (λ o. o.id) os ≡ range ((t + 1) * 100000000) num_orders)
      × All IsGenerated os
run_client_thread_lem t m h g =
    let id = (t + 1) * 100000000 in
    let e : starting_id t ≡ returned id = ground arith in
    let small : id + num_orders < 2 ^ 64 = omega (arith, num_orders_value) in
    let (d, ends, bytes) = run-sends m (new_exchange_client id) g small in
    (
      d,
      thread_orders t m,
      thread-finished t id m d g e ends,
      bytes,
      orders_from-ids m.draws num_orders 0 id,
      orders_from-IsGenerated m.draws g.draws_ok num_orders 0 id small,
    )

range-All :
    (P : ℕ → Type 0) (first n : ℕ)
    → ((i : ℕ) → first ≤ i → i < first + n → P i)
    → All P (range first n)
range-All P first zero f = tt
range-All P first (suc n) f = (
  f first (omega arith) (omega arith),
  range-All P (suc first) n (λ i a b. f i (omega arith) (omega arith)),
)

-- No order of one thread has the id of an order of another.
abbrev pub Apart : List ℕ → List ℕ → Type 0
Apart is js = All (λ i. All (λ j. i ≢ j) js) is

starts_apart :
    (t u i j n : ℕ)
    → n ≡ 1000000
    → t < u
    → (t + 1) * 100000000 ≤ i
    → i < (t + 1) * 100000000 + n
    → (u + 1) * 100000000 ≤ j
    → i < j
starts_apart t u i j n e h a b c = omega arith

ranges-Apart :
    (t u : ℕ)
    → t ≢ u
    → Apart (range ((t + 1) * 100000000) num_orders) (range ((u + 1) * 100000000) num_orders)
ranges-Apart t u ne = range-All _ ((t + 1) * 100000000) num_orders λ i a b.
    range-All _ ((u + 1) * 100000000) num_orders λ j c d e. elim (dec_lt t u) [
      | yes lt ↦ omega (arith, starts_apart t u i j num_orders num_orders_value lt a b c)
      | no ge ↦
          omega (arith, starts_apart u t j i num_orders num_orders_value (omega (arith, ne)) c d a)
    ]

-- Two threads with different numbers, that `int` can still add 1 to, that meet no failure and whose
-- sends take whole frames: both finish, and no order that one of them has sent has the id of an order
-- that the other has sent.
pub run_client_threads-Apart :
    (t u : ℕ) (m n : ThreadMeets)
    → t + 1 < 2 ^ 31
    → u + 1 < 2 ^ 31
    → t ≢ u
    → GoesWell m
    → GoesWell n
    → (c d : Client) × (os ps : List Order) × (run_client_thread t m ≡ finished c)
      × (run_client_thread u n ≡ finished d)
      × (c.sent ≡ order_frames os)
      × (d.sent ≡ order_frames ps)
      × Apart (map (λ o. o.id) os) (map (λ o. o.id) ps)
run_client_threads-Apart t u m n a b ne g h =
    let (c, os, x, bytes, ids, _) = run_client_thread_lem t m a g in
    let (d, ps, y, bytes', ids', _) = run_client_thread_lem u n b h in
    (c, d, os, ps, x, y, bytes, bytes', rw (ids, ids') (ranges-Apart t u ne))
