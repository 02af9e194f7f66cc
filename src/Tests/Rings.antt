-- ===== src/Tests/Rings.antt =====
-- The ring on concrete items (tests/test_ring_buffer.cpp).
use exchange_simulator.Common.{
  ℕ, ◌<◌, ◌≤◌, ◌≡◌, refl, ◌⊎◌, List, [], ◌∷◌, ◌++◌, none, some, true, false, length,
}
use exchange_simulator.Ring.{
  Ring, empty_ring, try_push, try_pop, Threads, start_push, push_access, start_pop,
}
use exchange_simulator.Ring.Calls.{Holds, empty_ring-Holds, try_push_lem, try_pop_lem}
use exchange_simulator.Ring.Interleaved.{
  start_threads, Reached, at_start, push_starts, push_goes, pop_starts, Reached-Holds,
}

-- An empty ring whose counters are about to wrap.
abbrev late_ring : Ring ℕ
late_ring = record (empty_ring 0) { head = 18446744073709551615; tail = 18446744073709551615 }

wraps : (try_push 5 late_ring).1.head ≡ 0
unfolding try_push
wraps = refl

late_pop : (try_pop 0 (try_push 5 late_ring).1).0 ≡ some 5
unfolding try_push try_pop
late_pop = refl

abbrev fresh_ring : Ring ℕ
fresh_ring = empty_ring 0

abbrev no_items : List ℕ
no_items = []

try_push_lem_example :
    ((length no_items ≡ 8192) × (try_push 5 fresh_ring ≡ (false, fresh_ring)))
    ⊎ ((length no_items < 8192)
        × ((try_push 5 fresh_ring).0 ≡ true)
        × Holds 0 (try_push 5 fresh_ring).1 0 (no_items ++ 5 ∷ []))
try_push_lem_example = try_push_lem 0 fresh_ring 0 no_items 5 (empty_ring-Holds 0)

try_pop_lem_example :
    ((no_items ≡ []) × (try_pop 0 fresh_ring ≡ (none, fresh_ring)))
    ⊎ ((a : ℕ) × (rest : List ℕ) × (no_items ≡ a ∷ rest)
        × ((try_pop 0 fresh_ring).0 ≡ some a)
        × Holds 0 (try_pop 0 fresh_ring).1 1 rest)
try_pop_lem_example = try_pop_lem 0 fresh_ring 0 no_items (empty_ring-Holds 0)

-- A push starts, a pop reads the head before the push has stored it, and then the push ends.
abbrev begun : Threads ℕ
begun = start_pop (start_push 5 (start_threads 0))

abbrev written : Threads ℕ
written = (push_access begun.producer begun).0

abbrev pushed : Threads ℕ
pushed = (push_access written.producer written).0

pushed-Reached : Reached 0 pushed (5 ∷ []) []
pushed-Reached = push_goes (push_goes (pop_starts refl (push_starts 5 refl at_start)))

Reached-Holds_example :
    (q : List ℕ) × ((5 ∷ []) ≡ [] ++ q) × (length q ≤ 8192) × ((t : ℕ) × Holds 0 pushed.ring t q)
Reached-Holds_example = Reached-Holds 0 pushed (5 ∷ []) [] pushed-Reached
