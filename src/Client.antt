-- ===== src/Client.antt =====
-- Class `ExchangeClient`: include/exchange_client.hpp and src/exchange_client.cpp; and the threads of
-- src/client_main.cpp. What the simulator draws, how many bytes each `send` takes, whether the calls
-- of `connect` succeed, and the milliseconds that a run takes are arguments.
pub mod Stream
pub mod Threads
pub mod Served
use exchange_simulator.Common.{
  ℕ, zero, suc, ◌+◌, ◌*◌, ◌/◌, ◌%◌, ◌^◌, List, [], ◌∷◌, ◌++◌, Bool, true, false, ◌==◌, leb,
  if◌then◌else◌, take, codes, Outcome, returned, threw, undefined, stuck, Exception, runtime_error,
  what, ◌>>=◌,
}
use exchange_simulator.Types.{Order}
use exchange_simulator.Serializer.Interface.{Serializer, binary_serializer}
use exchange_simulator.Simulator.{Draws, OrderSimulator, generate_order}

-- `sent` is the bytes that the calls of `send` have taken.
pub record Client : Type 0 where
  pub simulator : OrderSimulator
  pub msg_buffer : List ℕ
  pub sent : List ℕ

abbrev pub no_socket : Exception
no_socket = runtime_error (codes "socket creation failed")

abbrev pub not_connected : Exception
not_connected = runtime_error (codes "failed to connect")

-- Whether `socket` and `connect` succeed.
abbrev pub connect : Bool → Bool → Outcome (Unit {0})
connect false connected = threw no_socket
connect true false = threw not_connected
connect true true = returned tt

-- `msg_buffer_` is cleared and filled, and `send` takes `taken` of its bytes, or all if they are fewer.
abbrev pub send_order : Serializer → ℕ → Outcome Order × OrderSimulator → Client → Outcome Client
send_order k taken (order, simulator) c = do
  o ← order
  buffer ← k.serialize_order o []
  returned
      (record c { simulator = simulator; msg_buffer = buffer; sent = c.sent ++ take taken buffer })

-- These two stay closed, since the loops over them would compute to a million steps.
unfoldable pub num_orders : ℕ
num_orders = 1000000

unfoldable pub batch_size : ℕ
batch_size = 10000

module _ (k : Serializer) (draws : ℕ → Draws) (taken : ℕ → ℕ) where
  -- The inner loop with `n` rounds left, of which the next sends the `i`-th order.
  unfoldable pub run_batch : ℕ → ℕ → Client → Outcome Client
  run_batch zero i c = returned c
  run_batch (suc n) i c = do
    c' ← send_order k (taken i) (generate_order (draws i) c.simulator) c
    run_batch n (suc i) c'

  -- The outer loop with `b` batches of `size` orders left.
  unfoldable pub run_batches : ℕ → ℕ → ℕ → Client → Outcome Client
  unfolding run_batch
  run_batches zero size i c = returned c
  run_batches (suc b) size i c = do c' ← run_batch size i c; run_batches b size (i + size) c'

  -- The rate is a division by the milliseconds.
  unfoldable pub run : ℕ → Client → Outcome Client
  unfolding run_batches
  run ms c = do
    c' ← run_batches (num_orders / batch_size) batch_size 0 c
    if ms == 0 then undefined else returned c'

-- `(thread_id + 1) *100000000ULL`: the sum is one of `int`, and the product one of 64 bits.
abbrev pub starting_id : ℕ → Outcome ℕ
starting_id thread_id =
    if leb (2 ^ 31) (thread_id + 1)
    then undefined
    else returned ((thread_id + 1) * 100000000 % 2 ^ 64)

abbrev pub new_exchange_client : ℕ → Client
new_exchange_client id = record {
  simulator = record { id_counter = id; center_price = 1000 };
  msg_buffer = [];
  sent = [];
}

-- How a thread ends: it has sent its orders, it has reported an exception, or it is undefined.
pub data ThreadEnd : Type 0 where
  finished : Client → ThreadEnd
  reported : List ℕ → ThreadEnd
  broken : ThreadEnd

abbrev pub caught : Outcome Client → ThreadEnd
caught (returned c) = finished c
caught (threw e) = reported (what e)
caught undefined = broken
caught stuck = broken

-- What a thread meets.
pub record ThreadMeets : Type 0 where
  pub has_socket : Bool
  pub connected : Bool
  pub draws : ℕ → Draws
  pub taken : ℕ → ℕ
  pub milliseconds : ℕ

unfoldable pub run_client_thread : ℕ → ThreadMeets → ThreadEnd
unfolding run
run_client_thread thread_id m = caught (do
  id ← starting_id thread_id
  _ ← connect m.has_socket m.connected
  run binary_serializer m.draws m.taken m.milliseconds (new_exchange_client id))
