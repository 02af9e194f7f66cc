-- ===== src/SafeQueue.antt =====
-- Class template `ThreadSafeQueue`, include/thread_safe_queue.hpp. A call is made of its accesses, so
-- that calls of several threads may interleave: `push` and the second half of `try_pop` hold the
-- mutex, and `try_pop` reads `size_` before it takes it. `size_` is a `size_t` of 64 bits.
pub mod Counted
pub mod Fifo
use exchange_simulator.Common.{
  ℕ, ◌+◌, ◌-◌, ◌%◌, ◌^◌, List, [], ◌∷◌, ◌++◌, ◌==◌, if◌then◌else◌, Outcome, returned, threw,
  undefined, stuck, ◌>>=◌,
}

-- Who holds the mutex: nobody; a producer that has pushed its item; or a consumer that has taken one.
pub data Mutex : Type 0 where
  free pushing : Mutex
  popping : ℕ → Mutex

-- Where a consumer's call stands: none is made; it has seen a size that is not 0; it has taken an item.
pub data Consumer {ℓ} (A : Type ℓ) : Type ℓ where
  idle seen : Consumer A
  taken : A → Consumer A

pub record SafeQueue {ℓ} (A : Type ℓ) : Type ℓ where
  pub queue : List A
  pub size : ℕ
  pub mutex : Mutex
  pub consumers : ℕ → Consumer A

-- The next access of a thread: a call of `push`, the end of the one that holds the mutex, or the next
-- access of a consumer.
pub data Access {ℓ} (A : Type ℓ) : Type ℓ where
  begin_push : A → Access A
  finish_push : Access A
  consume : ℕ → Access A

-- The items that have been pushed and those that have been popped by an access.
pub record Moved {ℓ} (A : Type ℓ) : Type ℓ where
  pub state : SafeQueue A
  pub pushed : List A
  pub popped : List A

module _ {ℓ} {A : Type ℓ} where
  abbrev pub unmoved : SafeQueue A → Moved A
  unmoved s = record { state = s; pushed = []; popped = [] }

  abbrev pub set_consumer : ℕ → Consumer A → SafeQueue A → SafeQueue A
  set_consumer i c s = record s { consumers = λ j. if j == i then c else s.consumers j }

  -- The producer waits while the mutex is held.
  abbrev pub push_item : A → Mutex → SafeQueue A → Moved A
  push_item item free s = record {
    state = record s { queue = s.queue ++ item ∷ []; mutex = pushing };
    pushed = item ∷ [];
    popped = [];
  }
  push_item item _ s = unmoved s

  -- `size_.fetch_add(1)`, and the mutex is released.
  abbrev pub count_item : Mutex → SafeQueue A → SafeQueue A
  count_item pushing s = record s { size = (s.size + 1) % 2 ^ 64; mutex = free }
  count_item _ s = s

  -- `queue_.front()` and `queue_.pop()`, which are undefined on an empty queue.
  abbrev pub take_item : ℕ → List A → SafeQueue A → Outcome (Moved A)
  take_item i [] s = undefined
  take_item i (x ∷ xs) s =
      returned (unmoved (set_consumer i (taken x) (record s { queue = xs; mutex = popping i })))

  -- The consumer waits while the mutex is held.
  abbrev pub lock_and_take : ℕ → Mutex → SafeQueue A → Outcome (Moved A)
  lock_and_take i free s = take_item i s.queue s
  lock_and_take i _ s = returned (unmoved s)

  -- `try_pop` by consumer `i`. It returns an empty optional when the size is 0.
  abbrev pub try_pop_access : ℕ → Consumer A → SafeQueue A → Outcome (Moved A)
  try_pop_access i idle s = returned (unmoved (if s.size == 0 then s else set_consumer i seen s))
  try_pop_access i seen s = lock_and_take i s.mutex s
  try_pop_access i (taken x) s = returned (record {
    state =
        set_consumer i idle (record s { size = (s.size + (2 ^ 64 - 1)) % 2 ^ 64; mutex = free });
    pushed = [];
    popped = x ∷ [];
  })

  abbrev pub access : Access A → SafeQueue A → Outcome (Moved A)
  access (begin_push item) s = returned (push_item item s.mutex s)
  access finish_push s = returned (unmoved (count_item s.mutex s))
  access (consume i) s = try_pop_access i (s.consumers i) s

  -- Accesses one after another.
  unfoldable pub accesses : List (Access A) → SafeQueue A → Outcome (Moved A)
  accesses [] s = returned (unmoved s)
  accesses (a ∷ rest) s = do
    m ← access a s
    n ← accesses rest m.state
    returned
        (record { state = n.state; pushed = m.pushed ++ n.pushed; popped = m.popped ++ n.popped })
