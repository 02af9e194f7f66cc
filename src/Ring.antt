-- ===== src/Ring.antt =====
-- Class template `SPSCRingBuffer`, include/spsc_ring_buffer.hpp, at the capacity 8192 of
-- `DEFAULT_RING_CAPACITY`, which both rings of the program have; `i & (Capacity - 1)` is `i % 8192`.
-- The counters are `size_t`s of 64 bits, which wrap. `d` is the default value that fills the array.
-- A call is made of its atomic accesses, so that a call of the producer may interleave with one of
-- the consumer; each access takes effect at once, as acquire and release order it for the two.
pub mod Slots
pub mod Calls
pub mod Interleaved
use exchange_simulator.Common.{
  ℕ, ◌+◌, ◌-◌, ◌%◌, ◌^◌, List, [], ◌∷◌, Option, none, some, Bool, true, false, ◌==◌, if◌then◌else◌,
  get_or, set, replicate,
}

abbrev pub capacity : ℕ
capacity = 8192

pub record Ring {ℓ} (A : Type ℓ) : Type ℓ where
  pub buffer : List A
  pub head : ℕ
  pub tail : ℕ

-- `head - tail == Capacity`, on `size_t`.
abbrev pub is_full : ℕ → ℕ → Bool
is_full head tail = ((head + 2 ^ 64 - tail) % 2 ^ 64) == capacity

module _ {ℓ} {A : Type ℓ} where
  abbrev pub empty_ring : A → Ring A
  empty_ring d = record { buffer = replicate capacity d; head = 0; tail = 0 }

  -- `buffer_[head & (Capacity - 1)] = std::move(item)`
  abbrev pub write_slot : A → Ring A → Ring A
  write_slot item r = record r { buffer = set r.buffer (r.head % capacity) item }

  -- `head_.store(head + 1)`
  abbrev pub advance_head : Ring A → Ring A
  advance_head r = record r { head = (r.head + 1) % 2 ^ 64 }

  unfoldable pub try_push : A → Ring A → Bool × Ring A
  try_push item r =
      if is_full r.head r.tail then (false, r) else (true, advance_head (write_slot item r))

  -- `std::move(buffer_[tail & (Capacity - 1)])`
  abbrev pub read_slot : A → Ring A → A
  read_slot d r = get_or r.buffer (r.tail % capacity) d

  -- `tail_.store(tail + 1)`
  abbrev pub advance_tail : Ring A → Ring A
  advance_tail r = record r { tail = (r.tail + 1) % 2 ^ 64 }

  unfoldable pub try_pop : A → Ring A → Option A × Ring A
  try_pop d r = if r.tail == r.head then (none, r) else (some (read_slot d r), advance_tail r)

-- Where the producer's call of `try_push` stands: it has read `tail_`, or has written the slot.
pub data Pushing {ℓ} (A : Type ℓ) : Type ℓ where
  no_push : Pushing A
  tail_read : A → ℕ → Pushing A
  slot_written : A → Pushing A

-- Where the consumer's call of `try_pop` stands: it has read `head_`, or has taken the item.
pub data Popping {ℓ} (A : Type ℓ) : Type ℓ where
  no_pop : Popping A
  head_read : ℕ → Popping A
  item_taken : A → Popping A

pub record Threads {ℓ} (A : Type ℓ) : Type ℓ where
  pub ring : Ring A
  pub producer : Pushing A
  pub consumer : Popping A

module _ {ℓ} {A : Type ℓ} where
  -- The producer's next access; its own counter is read by it alone. The list holds the item that
  -- the access has pushed, if it has.
  abbrev pub push_access : Pushing A → Threads A → Threads A × List A
  push_access no_push s = (s, [])
  push_access (tail_read item tail) s =
      if is_full s.ring.head tail
      then (record s { producer = no_push }, [])
      else (record s { ring = write_slot item s.ring; producer = slot_written item }, [])
  push_access (slot_written item) s =
      (record s { ring = advance_head s.ring; producer = no_push }, item ∷ [])

  abbrev pub start_push : A → Threads A → Threads A
  start_push item s = record s { producer = tail_read item s.ring.tail }

  -- The consumer's next access. The list holds the item that it has popped, if it has.
  abbrev pub pop_access : A → Popping A → Threads A → Threads A × List A
  pop_access d no_pop s = (s, [])
  pop_access d (head_read head) s =
      if s.ring.tail == head
      then (record s { consumer = no_pop }, [])
      else (record s { consumer = item_taken (read_slot d s.ring) }, [])
  pop_access d (item_taken item) s =
      (record s { ring = advance_tail s.ring; consumer = no_pop }, item ∷ [])

  abbrev pub start_pop : Threads A → Threads A
  start_pop s = record s { consumer = head_read s.ring.head }
