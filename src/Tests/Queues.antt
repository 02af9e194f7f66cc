-- ===== src/Tests/Queues.antt =====
-- The queue with a mutex on concrete accesses.
use exchange_simulator.Common.{
  ℕ, ◌≡◌, refl, List, [], ◌∷◌, ◌++◌, Outcome, returned, undefined, arith,
}
use exchange_simulator.SafeQueue.{
  free, idle, SafeQueue, Access, begin_push, finish_push, consume, Moved, accesses,
}
use exchange_simulator.SafeQueue.Counted.{IsCounted, contents}
use exchange_simulator.SafeQueue.Fifo.{accesses-Fifo}

abbrev empty_queue : SafeQueue ℕ
empty_queue = record { queue = []; size = 0; mutex = free; consumers = λ i. idle }

-- A consumer that looks while the second item is being pushed.
abbrev turns : List (Access ℕ)
turns =
    begin_push 5
    ∷ finish_push
    ∷ consume 3
    ∷ begin_push 6
    ∷ consume 3
    ∷ finish_push
    ∷ consume 3
    ∷ consume 3
    ∷ []

abbrev popped_of : Outcome (Moved ℕ) → List ℕ
popped_of (returned m) = m.popped
popped_of _ = []

pops_first : popped_of (accesses turns empty_queue) ≡ 5 ∷ []
unfolding accesses
pops_first = refl

accesses-Fifo_example :
    (m : Moved ℕ) × (accesses turns empty_queue ≡ returned m)
    × IsCounted 3 m.state
    × (contents 3 empty_queue ++ m.pushed ≡ m.popped ++ contents 3 m.state)
accesses-Fifo_example =
    accesses-Fifo 3 turns empty_queue (tt, (tt, (refl, (tt, (refl, (tt, (refl, (refl, tt))))))))
      refl (omega arith)

-- Two consumers that both see the size of one item: the second pops an empty queue.
two_consumers :
    accesses
      (begin_push 5 ∷ finish_push ∷ consume 3 ∷ consume 4 ∷ consume 3 ∷ consume 3 ∷ consume 4 ∷ [])
      empty_queue
    ≡ undefined
unfolding accesses
two_consumers = refl
