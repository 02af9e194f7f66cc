-- ===== src/SafeQueue/Counted.antt =====
-- The count of the queue, and what the accesses of a push keep.
use exchange_simulator.Common.{
  ℕ, ◌+◌, ◌%◌, ◌^◌, ◌<◌, ◌≤◌, ◌≡◌, refl, List, [], ◌∷◌, ◌++◌, append-nil, append_assoc, true, false,
  ◌==◌, ==_iff, length, length-append, arith,
}
use exchange_simulator.SafeQueue.{
  Mutex, free, pushing, popping, Consumer, idle, seen, taken, SafeQueue, Access, begin_push,
  finish_push, consume, Moved, unmoved, push_item, count_item,
}

pub own : (c : ℕ) → (c == c) ≡ true
own c = (==_iff c c).1 refl

module _ {ℓ} {A : Type ℓ} (c : ℕ) where
  -- The pops are of the one consumer.
  abbrev pub ByConsumer : Access A → Type 0
  ByConsumer (begin_push item) = Unit
  ByConsumer finish_push = Unit
  ByConsumer (consume i) = i ≡ c

  -- The size, with what the thread that holds the mutex has still to count, is that of the queue.
  abbrev pub SizeFits : Mutex → Consumer A → ℕ → List A → Type 0
  SizeFits free (taken x) size queue = ⊥
  SizeFits free idle size queue = size ≡ length queue
  SizeFits free seen size queue = (size ≡ length queue) × (0 < length queue)
  SizeFits pushing (taken x) size queue = ⊥
  SizeFits pushing idle size queue = size + 1 ≡ length queue
  SizeFits pushing seen size queue = (size + 1 ≡ length queue) × (0 < size)
  SizeFits (popping i) (taken x) size queue = (i ≡ c) × (size ≡ length queue + 1)
  SizeFits (popping i) idle size queue = ⊥
  SizeFits (popping i) seen size queue = ⊥

  abbrev pub IsCounted : SafeQueue A → Type 0
  IsCounted s = SizeFits s.mutex (s.consumers c) s.size s.queue

  -- The items that are in the queue, or that the consumer has taken out and not yet returned.
  abbrev pub in_hand : Consumer A → List A
  in_hand idle = []
  in_hand seen = []
  in_hand (taken x) = x ∷ []

  abbrev pub contents : SafeQueue A → List A
  contents s = in_hand (s.consumers c) ++ s.queue

  -- An access has kept the count, and the order: what was in the queue and has been pushed is what has
  -- been popped and is in the queue.
  pub record Fifo (s : SafeQueue A) (m : Moved A) : Type ℓ where
    pub counted : IsCounted m.state
    pub in_order : contents s ++ m.pushed ≡ m.popped ++ contents m.state
    pub longer : length m.state.queue ≤ length s.queue + 1

  pub unmoved-Fifo : (s : SafeQueue A) → IsCounted s → Fifo s (unmoved s)
  unmoved-Fifo s v = record {
    counted = v;
    in_order = append-nil (contents s);
    longer = omega arith;
  }

  push_fits :
      (d : Consumer A) (size : ℕ) (queue : List A) (item : A)
      → SizeFits free d size queue
      → SizeFits pushing d size (queue ++ item ∷ [])
  push_fits idle size queue item v = omega (arith, v, length-append queue (item ∷ []))
  push_fits seen size queue item (v, p) =
      (omega (arith, v, length-append queue (item ∷ [])), omega arith)
  push_fits (taken x) size queue item v = v

  pub push_item-Fifo :
      (item : A) (s : SafeQueue A) (u : Mutex)
      → SizeFits u (s.consumers c) s.size s.queue
      → IsCounted s
      → Fifo s (push_item item u s)
  push_item-Fifo item s free v w = record {
    counted = push_fits (s.consumers c) s.size s.queue item v;
    in_order = append_assoc (in_hand (s.consumers c)) s.queue (item ∷ []);
    longer = omega (arith, length-append s.queue (item ∷ []));
  }
  push_item-Fifo item s pushing v w = unmoved-Fifo s w
  push_item-Fifo item s (popping i) v w = unmoved-Fifo s w

  count_fits :
      (d : Consumer A) (size : ℕ) (queue : List A)
      → length queue < 2 ^ 64
      → SizeFits pushing d size queue
      → SizeFits free d ((size + 1) % 2 ^ 64) queue
  count_fits idle size queue h v = omega arith
  count_fits seen size queue h (v, p) = (omega arith, omega arith)
  count_fits (taken x) size queue h v = v

  pub count_item-Fifo :
      (s : SafeQueue A) (u : Mutex)
      → length s.queue < 2 ^ 64
      → SizeFits u (s.consumers c) s.size s.queue
      → IsCounted s
      → Fifo s (unmoved (count_item u s))
  count_item-Fifo s pushing h v w = record {
    counted = count_fits (s.consumers c) s.size s.queue h v;
    in_order = append-nil (contents s);
    longer = omega arith;
  }
  count_item-Fifo s free h v w = unmoved-Fifo s w
  count_item-Fifo s (popping i) h v w = unmoved-Fifo s w

  pub seen_fits :
      (u : Mutex) (size : ℕ) (queue : List A)
      → (size == 0) ≡ false
      → SizeFits u idle size queue
      → SizeFits u seen size queue
  seen_fits free size queue e v = (v, ground arith)
  seen_fits pushing size queue e v = (v, ground arith)
  seen_fits (popping i) size queue e v = v
