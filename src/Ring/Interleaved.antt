-- ===== src/Ring/Interleaved.antt =====
-- One producer and one consumer, each access of either at any time: the ring stays a queue.
use exchange_simulator.Common.{
  ℕ, ◌+◌, ◌%◌, ◌^◌, ◌<◌, ◌≤◌, ◌≡◌, refl, sym, ap, ◌∙◌, inl, inr, List, [], ◌∷◌, ◌++◌, append-nil,
  append_assoc, subst, true, false, Bool-cases, length, length-append, get_or, arith, ◌==◌,
  List-cases,
}
use exchange_simulator.Ring.{
  Ring, empty_ring, is_full, advance_tail, Pushing, no_push, tail_read, slot_written, Popping,
  no_pop, head_read, item_taken, Threads, push_access, start_push, pop_access, start_pop,
}
use exchange_simulator.Ring.Calls.{
  Holds, empty_ring-Holds, is_full-lem, write_slot-Holds, advance_head-Holds, read_slot-Holds,
  advance_tail-Holds,
}

module _ {ℓ} {A : Type ℓ} (d : A) where
  abbrev pub start_threads : Threads A
  start_threads = record { ring = empty_ring d; producer = no_push; consumer = no_pop }

  -- The states that the threads can reach, with the items that have been pushed and popped. A thread
  -- starts a call when it is in none.
  pub data Reached : Threads A → List A → List A → Type ℓ where
    at_start : Reached start_threads [] []
    push_starts :
        {s : Threads A} {xs ys : List A} (item : A)
        → s.producer ≡ no_push
        → Reached s xs ys
        → Reached (start_push item s) xs ys
    push_goes :
        {s : Threads A} {xs ys : List A}
        → Reached s xs ys
        → Reached (push_access s.producer s).0 (xs ++ (push_access s.producer s).1) ys
    pop_starts :
        {s : Threads A} {xs ys : List A}
        → s.consumer ≡ no_pop
        → Reached s xs ys
        → Reached (start_pop s) xs ys
    pop_goes :
        {s : Threads A} {xs ys : List A}
        → Reached s xs ys
        → Reached (pop_access d s.consumer s).0 xs (ys ++ (pop_access d s.consumer s).1)

  -- What the producer in mid-call knows: the tail that it read was the tail once, after its last
  -- push; the slot that it wrote is the free one at the head.
  abbrev PushOk : Ring A → ℕ → List A → Pushing A → Type ℓ
  PushOk r t q no_push = Unit
  PushOk r t q (tail_read item tail) =
      (t' : ℕ) × (tail ≡ t' % 2 ^ 64) × (t' ≤ t) × (t + length q ≤ t' + 8192) × Unit {ℓ}
  PushOk r t q (slot_written item) =
      (length q < 8192) × (get_or r.buffer ((t + length q) % 8192) d ≡ item)

  -- What the consumer in mid-call knows: the head that it read was the head once, after its last pop;
  -- the item that it took is the oldest.
  abbrev PopOk : ℕ → List A → Popping A → Type ℓ
  PopOk t q no_pop = Unit
  PopOk t q (head_read head) = (n : ℕ) × (head ≡ (t + n) % 2 ^ 64) × (n ≤ length q) × Unit {ℓ}
  PopOk t q (item_taken item) = (rest : List A) × (q ≡ item ∷ rest)

  record Good (s : Threads A) (xs ys : List A) (t : ℕ) (q : List A) : Type ℓ where
    holds : Holds d s.ring t q
    push_ok : PushOk s.ring t q s.producer
    pop_ok : PopOk t q s.consumer
    in_order : xs ≡ ys ++ q

  -- A push leaves what the consumer knows true.
  PopOk-push : (t : ℕ) (q : List A) (x : A) (c : Popping A) → PopOk t q c → PopOk t (q ++ x ∷ []) c
  PopOk-push t q x no_pop h = tt
  PopOk-push t q x (head_read head) (n, e, le, _) =
      (n, e, omega (arith, length-append q (x ∷ [])), tt)
  PopOk-push t q x (item_taken item) (rest, e) = (rest ++ x ∷ [], ap (λ k. k ++ x ∷ []) e)

  -- A pop leaves what the producer knows true.
  PushOk-pop :
      (r : Ring A) (t : ℕ) (a : A) (q : List A) (p : Pushing A)
      → PushOk r t (a ∷ q) p
      → PushOk (advance_tail r) (t + 1) q p
  PushOk-pop r t a q no_push h = tt
  PushOk-pop r t a q (tail_read item tail) (t', e, lo, hi, _) =
      (t', e, omega arith, omega arith, tt)
  PushOk-pop r t a q (slot_written item) (room, e) =
      (omega arith, ap (λ k. get_or r.buffer (k % 8192) d) (omega arith) ∙ e)

  push_access-Good :
      (p : Pushing A) (s : Threads A) (xs ys : List A) (t : ℕ) (q : List A)
      → s.producer ≡ p
      → Holds d s.ring t q
      → PushOk s.ring t q p
      → PopOk t q s.consumer
      → xs ≡ ys ++ q
      → (q' : List A) × Good (push_access p s).0 (xs ++ (push_access p s).1) ys t q'
  push_access-Good no_push s xs ys t q e h k c o =
      (q, rw append-nil (record { holds = h; push_ok = rw e tt; pop_ok = c; in_order = o }))
  push_access-Good (tail_read item tail) s xs ys t q e h (t', f, lo, hi, _) c o =
      elim (is_full-lem d t' (t + length q) (omega arith) hi) [
        | inl (_, full) ↦
            let b : is_full s.ring.head tail ≡ true = rw (h.head_at, f) full in
            (q, rw (b, append-nil) (record { holds = h; push_ok = tt; pop_ok = c; in_order = o }))
        | inr (less, room) ↦
            let b : is_full s.ring.head tail ≡ false = rw (h.head_at, f) room in
            let free : length q < 8192 = omega arith in
            let (w, here) = write_slot-Holds d s.ring t q item h free in
            (
              q,
              rw (b, append-nil)
                  (record { holds = w; push_ok = (free, here); pop_ok = c; in_order = o }),
            )
      ]
  push_access-Good (slot_written item) s xs ys t q e h (free, here) c o = (
    q ++ item ∷ [],
    record {
      holds = advance_head-Holds d s.ring t q item h free here;
      push_ok = tt;
      pop_ok = PopOk-push t q item s.consumer c;
      in_order = ap (λ k. k ++ item ∷ []) o ∙ append_assoc ys _ _;
    },
  )

  pop_access-Good :
      (c : Popping A) (s : Threads A) (xs ys : List A) (t : ℕ) (q : List A)
      → s.consumer ≡ c
      → Holds d s.ring t q
      → PushOk s.ring t q s.producer
      → PopOk t q c
      → xs ≡ ys ++ q
      → (t' : ℕ) × (q' : List A) × Good (pop_access d c s).0 xs (ys ++ (pop_access d c s).1) t' q'
  pop_access-Good no_pop s xs ys t q e h k c o =
      (t, q, rw append-nil (record { holds = h; push_ok = k; pop_ok = rw e tt; in_order = o }))
  pop_access-Good (head_read head) s xs ys t q e h k (n, f, le, _) o =
      elim (Bool-cases (s.ring.tail == head)) [
        | inl b ↦ (
          t,
          q,
          rw (b, append-nil) (record { holds = h; push_ok = k; pop_ok = tt; in_order = o }),
        )
        | inr b ↦ elim (List-cases q) [
          | inl z ↦ absurd (ground (arith, h.tail_at, f, ap length z))
          | inr (a, rest, z) ↦ (
            t,
            q,
            rw (b, append-nil)
                (record {
                  holds = h;
                  push_ok = k;
                  pop_ok = (
                    rest,
                    z
                        ∙ ap (λ x. x ∷ rest)
                            (sym
                              (read_slot-Holds d s.ring t a rest (subst (Holds d s.ring t) z h))),
                  );
                  in_order = o;
                }),
          )
        ]
      ]
  pop_access-Good (item_taken item) s xs ys t q e h k (rest, z) o = (
    t + 1,
    rest,
    record {
      holds = advance_tail-Holds d s.ring t item rest (subst (Holds d s.ring t) z h);
      push_ok =
          PushOk-pop s.ring t item rest s.producer (subst (λ r. PushOk s.ring t r s.producer) z k);
      pop_ok = tt;
      in_order = o ∙ ap (λ r. ys ++ r) z ∙ sym (append_assoc ys _ _);
    },
  )

  Reached-Good :
      (s : Threads A) (xs ys : List A) → Reached s xs ys → (t : ℕ) × (q : List A) × Good s xs ys t q
  Reached-Good s xs ys at_start =
      (0, [], record { holds = empty_ring-Holds d; push_ok = tt; pop_ok = tt; in_order = refl })
  Reached-Good s xs ys (push_starts {s = s'} item e r) =
      let (t, q, g) = Reached-Good s' xs ys r in
      (
        t,
        q,
        record {
          holds = g.holds;
          push_ok = (t, g.holds.tail_at, omega arith, omega (arith, g.holds.bounded), tt);
          pop_ok = g.pop_ok;
          in_order = g.in_order;
        },
      )
  Reached-Good s xs ys (push_goes {s = s'} {xs = xs'} r) =
      let (t, q, g) = Reached-Good s' xs' ys r in
      let (q', g') =
        push_access-Good s'.producer s' xs' ys t q refl g.holds g.push_ok g.pop_ok g.in_order in
      (t, q', g')
  Reached-Good s xs ys (pop_starts {s = s'} e r) =
      let (t, q, g) = Reached-Good s' xs ys r in
      (
        t,
        q,
        record {
          holds = g.holds;
          push_ok = g.push_ok;
          pop_ok = (length q, g.holds.head_at, omega arith, tt);
          in_order = g.in_order;
        },
      )
  Reached-Good s xs ys (pop_goes {s = s'} {ys = ys'} r) =
      let (t, q, g) = Reached-Good s' xs ys' r in
      pop_access-Good s'.consumer s' xs ys' t q refl g.holds g.push_ok g.pop_ok g.in_order

  -- However the accesses of one producer and one consumer interleave, the items that have been popped
  -- are the first of those that have been pushed, in their order, and the rest, of at most 8192
  -- items, is what the ring holds.
  pub Reached-Holds :
      (s : Threads A) (xs ys : List A)
      → Reached s xs ys
      → (q : List A) × (xs ≡ ys ++ q) × (length q ≤ 8192) × ((t : ℕ) × Holds d s.ring t q)
  Reached-Holds s xs ys r =
      let (t, q, g) = Reached-Good s xs ys r in (q, g.in_order, g.holds.bounded, (t, g.holds))
