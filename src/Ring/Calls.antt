-- ===== src/Ring/Calls.antt =====
-- The two calls of the ring, one after the other: a bounded queue, whatever the counters' wrap.
use exchange_simulator.Common.{
  ℕ, ◌+◌, ◌%◌, ◌^◌, ◌<◌, ◌≤◌, ◌≡◌, refl, ap, ◌∙◌, inl, inr, ◌⊎◌, List, [], ◌∷◌, ◌++◌, none, some,
  true, false, length, length-append, length-set, length-replicate, get_or, get_or-set_self, arith,
  ◌==◌,
}
use exchange_simulator.Ring.{
  Ring, empty_ring, is_full, write_slot, advance_head, try_push, read_slot, advance_tail, try_pop,
}
use exchange_simulator.Ring.Slots.{HasSlots, HasSlots-set, HasSlots-append}

module _ {ℓ} {A : Type ℓ} (d : A) where
  -- The ring holds the queue; `t` items have been popped in all.
  pub record Holds (r : Ring A) (t : ℕ) (q : List A) : Type ℓ where
    pub slots : length r.buffer ≡ 8192
    pub head_at : r.head ≡ (t + length q) % 2 ^ 64
    pub tail_at : r.tail ≡ t % 2 ^ 64
    pub bounded : length q ≤ 8192
    pub items : HasSlots d r.buffer t q

  pub empty_ring-Holds : Holds (empty_ring d) 0 []
  empty_ring-Holds = record {
    slots = length-replicate 8192 d;
    head_at = refl;
    tail_at = refl;
    bounded = omega arith;
    items = tt;
  }

  -- With an old reading of the tail, a ring that is not full by it has room.
  pub is_full-lem :
      (t' n : ℕ)
      → t' ≤ n
      → n ≤ t' + 8192
      → ((n ≡ t' + 8192) × (is_full (n % 2 ^ 64) (t' % 2 ^ 64) ≡ true))
        ⊎ ((n < t' + 8192) × (is_full (n % 2 ^ 64) (t' % 2 ^ 64) ≡ false))
  is_full-lem t' n lo hi = ground arith

  pub write_slot-Holds :
      (r : Ring A) (t : ℕ) (q : List A) (x : A)
      → Holds r t q
      → length q < 8192
      → Holds (write_slot x r) t q × (get_or (write_slot x r).buffer ((t + length q) % 8192) d ≡ x)
  write_slot-Holds r t q x h room =
      let here : r.head % 8192 ≡ (t + length q) % 8192 = omega (arith, h.head_at) in
      (
        record {
          slots = length-set r.buffer (r.head % 8192) x ∙ h.slots;
          head_at = h.head_at;
          tail_at = h.tail_at;
          bounded = h.bounded;
          items =
              rw here
                (HasSlots-set d r.buffer t (t + length q) q x (omega arith) (omega arith) h.items);
        },
        rw here (get_or-set_self r.buffer ((t + length q) % 8192) x d (omega (arith, h.slots))),
      )

  pub advance_head-Holds :
      (r : Ring A) (t : ℕ) (q : List A) (x : A)
      → Holds r t q
      → length q < 8192
      → get_or r.buffer ((t + length q) % 8192) d ≡ x
      → Holds (advance_head r) t (q ++ x ∷ [])
  advance_head-Holds r t q x h room e = record {
    slots = h.slots;
    head_at = omega (arith, h.head_at, length-append q (x ∷ []));
    tail_at = h.tail_at;
    bounded = omega (arith, length-append q (x ∷ []));
    items = HasSlots-append d r.buffer t (t + length q) q x refl e h.items;
  }

  pub read_slot-Holds :
      (r : Ring A) (t : ℕ) (a : A) (q : List A) → Holds r t (a ∷ q) → read_slot d r ≡ a
  read_slot-Holds r t a q h =
      let here : r.tail % 8192 ≡ t % 8192 = omega (arith, h.tail_at) in rw here (h.items.0)

  pub advance_tail-Holds :
      (r : Ring A) (t : ℕ) (a : A) (q : List A)
      → Holds r t (a ∷ q)
      → Holds (advance_tail r) (t + 1) q
  advance_tail-Holds r t a q h = record {
    slots = h.slots;
    head_at = omega (arith, h.head_at);
    tail_at = omega (arith, h.tail_at);
    bounded = omega (arith, h.bounded);
    items = h.items.1;
  }

  -- A push to a ring of fewer than 8192 items returns true and queues the item; to one of 8192 items
  -- it returns false and changes nothing.
  pub try_push_lem :
      (r : Ring A) (t : ℕ) (q : List A) (x : A)
      → Holds r t q
      → ((length q ≡ 8192) × (try_push x r ≡ (false, r)))
        ⊎ ((length q < 8192) × ((try_push x r).0 ≡ true) × Holds (try_push x r).1 t (q ++ x ∷ []))
  unfolding try_push
  try_push_lem r t q x h =
      elim (is_full-lem t (t + length q) (omega arith) (omega (arith, h.bounded))) [
        | inl (e, f) ↦ inl (omega arith, rw (h.head_at, h.tail_at, f))
        | inr (e, f) ↦
            let room : length q < 8192 = omega arith in
            let (w, here) = write_slot-Holds r t q x h room in
            let full : is_full r.head r.tail ≡ false = rw (h.head_at, h.tail_at) f in
            inr (rw full (room, refl, advance_head-Holds (write_slot x r) t q x w room here))
      ]

  -- A pop takes the oldest item; from an empty ring it takes none and changes nothing.
  pub try_pop_lem :
      (r : Ring A) (t : ℕ) (q : List A)
      → Holds r t q
      → ((q ≡ []) × (try_pop d r ≡ (none, r)))
        ⊎ ((a : A) × (rest : List A) × (q ≡ a ∷ rest)
            × ((try_pop d r).0 ≡ some a)
            × Holds (try_pop d r).1 (t + 1) rest)
  unfolding try_pop
  try_pop_lem r t [] h = inl (refl, ground (arith, h.head_at, h.tail_at))
  try_pop_lem r t (a ∷ q) h =
      let more : (r.tail == r.head) ≡ false = ground (arith, h.head_at, h.tail_at, h.bounded) in
      inr (rw more (a, q, refl, ap some (read_slot-Holds r t a q h), advance_tail-Holds r t a q h))
