-- ===== src/Tests/Clients.antt =====
-- The simulator and the client on concrete draws, and the reading of a message.
use exchange_simulator.Common.{
  ℕ, ◌+◌, ◌*◌, ◌≡◌, refl, List, [], ◌∷◌, ◌++◌, map, true, returned, arith, All,
}
use exchange_simulator.Types.{Order, Message, ask, limit, cancel_order}
use exchange_simulator.Order.{make_order}
use exchange_simulator.Serializer.Frames.{frame}
use exchange_simulator.Simulator.{
  negsuc, Draws, InRange, OrderSimulator, generate_order, generate_n_orders,
}
use exchange_simulator.Simulator.Orders.{IsGenerated, range, generate_n_orders_lem}
use exchange_simulator.Client.{Client, finished, ThreadMeets, run_client_thread, num_orders}
use exchange_simulator.Client.Stream.{order_frames, order_message}
use exchange_simulator.Client.Threads.{
  GoesWell, Apart, run_client_thread_lem, run_client_threads-Apart,
}
use exchange_simulator.Client.Served.{Decodes, run_client_thread-served}
use exchange_simulator.Server.{new_client}
use exchange_simulator.Server.Delivered.{inbound_of}
use exchange_simulator.Server.Repeated.{Position, handle_reads, Stands}
use exchange_simulator.Network.{read_exact}
use exchange_simulator.Network.Exact.{Reads, read_exact_lem}
use exchange_simulator.Tests.Readings.{trickling, one_client, one_client-ReadOk, in_slot_zero}

-- A limit order whose sampled price is not positive.
abbrev draws : ℕ → Draws
draws i = record { side = 1; order_type = 0; rounded = negsuc 3; quantity = 5; now = 70 + i }

draws-InRange : (i : ℕ) → InRange (draws i)
draws-InRange i = record {
  side_small = omega arith;
  type_small = omega arith;
  rounded_fits = omega arith;
  some_quantity = omega arith;
  quantity_small = omega arith;
}

abbrev simulator : OrderSimulator
simulator = record { id_counter = 40; center_price = 1000 }

-- The price is set to 1.
clamped_order : generate_order (draws 0) simulator ≡ (
  returned
      (record { timestamp = 70; id = 40; price = 1; quantity = 5; side = ask; order_type = limit }),
  record { id_counter = 41; center_price = 1000 },
)
unfolding make_order
clamped_order = refl

generate_n_orders_lem_example :
    (os : List Order) × (generate_n_orders draws 3 simulator
      ≡ (returned os, record simulator { id_counter = 40 + 3 }))
    × (map (λ o. o.id) os ≡ range 40 3)
    × All IsGenerated os
generate_n_orders_lem_example = generate_n_orders_lem draws draws-InRange 3 simulator (omega arith)

abbrev meets : ThreadMeets
meets = record {
  has_socket = true;
  connected = true;
  draws = draws;
  taken = λ i. 27;
  milliseconds = 900;
}

meets-GoesWell : GoesWell meets
meets-GoesWell = record {
  has_socket = refl;
  connected = refl;
  draws_ok = draws-InRange;
  all_taken = λ i. omega arith;
  some_time = omega arith;
}

run_client_thread_lem_example :
    (c : Client) × (os : List Order) × (run_client_thread 4 meets ≡ finished c)
    × (c.sent ≡ order_frames os)
    × (map (λ o. o.id) os ≡ range ((4 + 1) * 100000000) num_orders)
    × All IsGenerated os
run_client_thread_lem_example = run_client_thread_lem 4 meets (omega arith) meets-GoesWell

run_client_threads-Apart_example :
    (c d : Client) × (os ps : List Order) × (run_client_thread 0 meets ≡ finished c)
    × (run_client_thread 1 meets ≡ finished d)
    × (c.sent ≡ order_frames os)
    × (d.sent ≡ order_frames ps)
    × Apart (map (λ o. o.id) os) (map (λ o. o.id) ps)
run_client_threads-Apart_example =
    run_client_threads-Apart 0 1 meets meets (omega arith) (omega arith) (omega arith)
      meets-GoesWell meets-GoesWell

-- The client of a thread, when it has finished.
sent_by : Client
sent_by = (run_client_thread_lem 4 meets (omega arith) meets-GoesWell).0

sent_by-finished : run_client_thread 4 meets ≡ finished sent_by
unfolding sent_by
sent_by-finished = (run_client_thread_lem 4 meets (omega arith) meets-GoesWell).2

abbrev start_position : Position (List ℕ)
start_position = record { server = one_client; socket = sent_by.sent; inbound = [] }

run_client_thread-served_example :
    (os : List Order) × (p : Position (List ℕ)) × (handle_reads
        (trickling 6)
        0
        (5 ∷ 0 ∷ 8192 ∷ [])
        start_position
      ≡ returned p)
    × Stands (trickling 6) 0 ([] ++ map (inbound_of 0) (map order_message os)) p
    × (map (λ o. o.id) os ≡ range ((4 + 1) * 100000000) num_orders)
    × All Decodes os
run_client_thread-served_example =
    run_client_thread-served (trickling 6) 0 4 meets sent_by (5 ∷ 0 ∷ 8192 ∷ []) start_position
      (record new_client { active = true }) (omega arith) meets-GoesWell sent_by-finished
      in_slot_zero refl one_client-ReadOk refl refl refl

abbrev cancellation : Message
cancellation = record { type = cancel_order; payload = 1 ∷ 2 ∷ 3 ∷ 4 ∷ [] }

abbrev stream : List ℕ
stream = frame cancellation.type cancellation.payload ++ 9 ∷ 9 ∷ []

read_exact_lem_example :
    Reads
      (trickling 1)
      4
      0
      (0 ∷ 0 ∷ 0 ∷ 0 ∷ [])
      stream
      (read_exact (trickling 1) (0 ∷ 0 ∷ 0 ∷ 0 ∷ []) 4 stream)
read_exact_lem_example = read_exact_lem (trickling 1) 4 (0 ∷ 0 ∷ 0 ∷ 0 ∷ []) stream (omega arith)
