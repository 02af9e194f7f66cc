-- ===== src/SafeQueue/Fifo.antt =====
-- With one consumer the queue is first in, first out, and never popped when it is empty.
use exchange_simulator.Common.{
  ℕ, ◌+◌, ◌^◌, ◌<◌, ◌≡◌, refl, sym, ap, ◌∙◌, subst, inl, inr, List, [], ◌∷◌, ◌++◌, append-nil,
  append_assoc, Bool-cases, ◌==◌, length, Outcome, returned, arith, All,
}
use exchange_simulator.SafeQueue.{
  Mutex, free, pushing, popping, Consumer, idle, seen, taken, SafeQueue, Access, begin_push,
  finish_push, consume, Moved, unmoved, set_consumer, take_item, lock_and_take, try_pop_access,
  access, accesses,
}
use exchange_simulator.SafeQueue.Counted.{
  ByConsumer, SizeFits, IsCounted, contents, Fifo, unmoved-Fifo, push_item-Fifo, count_item-Fifo,
  seen_fits, own,
}

module _ {ℓ} {A : Type ℓ} (c : ℕ) where
  -- An access ends well, and has kept the count and the order.
  abbrev Stays : SafeQueue A → Outcome (Moved A) → Type ℓ
  Stays s out = (m : Moved A) × (out ≡ returned m) × Fifo c s m

  idle-Stays :
      (s : SafeQueue A) → s.consumers c ≡ idle → IsCounted c s → Stays s (try_pop_access c idle s)
  idle-Stays s e v = elim (Bool-cases (s.size == 0)) [
    | inl none_there ↦ rw none_there (unmoved s, refl, unmoved-Fifo c s v)
    | inr some_there ↦ rw some_there (
      unmoved (set_consumer c seen s),
      refl,
      record {
        counted = rw (own c) (
            seen_fits c s.mutex s.size s.queue some_there
              (subst (λ d. SizeFits c s.mutex d s.size s.queue) e v));
        in_order = rw (own c, e) (append-nil s.queue);
        longer = omega arith;
      },
    )
  ]

  take_item-Stays :
      (s : SafeQueue A) (queue : List A)
      → s.queue ≡ queue
      → s.consumers c ≡ seen
      → SizeFits c free seen s.size queue
      → Stays s (take_item c queue s)
  take_item-Stays s [] q e (v, p) = absurd (omega arith)
  take_item-Stays s (x ∷ xs) q e (v, p) = (
    unmoved (set_consumer c (taken x) (record s { queue = xs; mutex = popping c })),
    refl,
    record {
      counted = rw (own c) (refl, omega arith);
      in_order = rw (own c, e, q) (append-nil (x ∷ xs));
      longer = omega (arith, ap length q);
    },
  )

  seen-Stays :
      (s : SafeQueue A) (u : Mutex)
      → s.consumers c ≡ seen
      → SizeFits c u seen s.size s.queue
      → IsCounted c s
      → Stays s (lock_and_take c u s)
  seen-Stays s free e v w = take_item-Stays s s.queue refl e v
  seen-Stays s pushing e v w = (unmoved s, refl, unmoved-Fifo c s w)
  seen-Stays s (popping i) e v w = (unmoved s, refl, unmoved-Fifo c s w)

  taken-Stays :
      (s : SafeQueue A) (u : Mutex) (x : A)
      → s.consumers c ≡ taken x
      → length s.queue + 1 < 2 ^ 64
      → SizeFits c u (taken x) s.size s.queue
      → Stays s (try_pop_access c (taken x) s)
  taken-Stays s free x e h v = absurd v
  taken-Stays s pushing x e h v = absurd v
  taken-Stays s (popping i) x e h (own_mutex, v) = (
    _,
    refl,
    record {
      counted = rw (own c) (omega arith);
      in_order = rw (own c, e) (append-nil (x ∷ s.queue));
      longer = omega arith;
    },
  )

  pop-Stays :
      (s : SafeQueue A) (d : Consumer A)
      → s.consumers c ≡ d
      → length s.queue + 1 < 2 ^ 64
      → IsCounted c s
      → Stays s (try_pop_access c d s)
  pop-Stays s idle e h v = idle-Stays s e v
  pop-Stays s seen e h v =
      seen-Stays s s.mutex e (subst (λ d. SizeFits c s.mutex d s.size s.queue) e v) v
  pop-Stays s (taken x) e h v =
      taken-Stays s s.mutex x e h (subst (λ d. SizeFits c s.mutex d s.size s.queue) e v)

  access-Stays :
      (a : Access A) (s : SafeQueue A)
      → ByConsumer c a
      → length s.queue + 1 < 2 ^ 64
      → IsCounted c s
      → Stays s (access a s)
  access-Stays (begin_push item) s b h v = (_, refl, push_item-Fifo c item s s.mutex v v)
  access-Stays finish_push s b h v = (_, refl, count_item-Fifo c s s.mutex (omega arith) v v)
  access-Stays (consume i) s b h v =
      subst (λ j. Stays s (access (consume j) s)) (sym b) (pop-Stays s (s.consumers c) refl h v)

  -- Any accesses of any number of producers and of one consumer, in any order, from a queue whose size
  -- is right, and too few to make it overflow. The queue is never popped when it is empty. What the
  -- consumer has popped, with what it has in hand and what is in the queue, is what was there and what
  -- has been pushed, in that order; and the size is right again.
  pub accesses-Fifo :
      (turns : List (Access A)) (s : SafeQueue A)
      → All (ByConsumer c) turns
      → IsCounted c s
      → length s.queue + length turns < 2 ^ 64
      → (m : Moved A) × (accesses turns s ≡ returned m)
        × IsCounted c m.state
        × (contents c s ++ m.pushed ≡ m.popped ++ contents c m.state)
  unfolding accesses
  accesses-Fifo [] s b v h = (unmoved s, refl, v, append-nil (contents c s))
  accesses-Fifo (a ∷ rest) s (b, bs) v h =
      let (m, e, f) = access-Stays a s b (omega arith) v in
      let (n, e', v', g) = accesses-Fifo rest m.state bs f.counted (omega (arith, f.longer)) in
      (
        record { state = n.state; pushed = m.pushed ++ n.pushed; popped = m.popped ++ n.popped },
        rw (e, e'),
        v',
        sym (append_assoc (contents c s) m.pushed n.pushed)
            ∙ ap (λ x. x ++ n.pushed) f.in_order
            ∙ append_assoc m.popped (contents c m.state) n.pushed
            ∙ ap (λ x. m.popped ++ x) g
            ∙ sym (append_assoc m.popped n.popped (contents c n.state)),
      )
