-- ===== src/Client/Stream.antt =====
-- The bytes that a run of the client sends are the frames of its orders.
use exchange_simulator.Common.{
  ℕ, zero, suc, ◌+◌, ◌*◌, ◌%◌, ◌^◌, ◌<◌, ◌≤◌, ◌≡◌, refl, sym, ap, ◌∙◌, List, [], ◌∷◌, ◌++◌,
  append-nil, append_assoc, map, map-append, subst, Outcome, returned, arith, length, length-append,
  take,
}
use exchange_simulator.Types.{Order, Message, new_order}
use exchange_simulator.Memory.{bytes_of, htonl}
use exchange_simulator.Memory.Laws.{length-bytes_of}
use exchange_simulator.Serializer.Interface.{binary_serializer}
use exchange_simulator.Serializer.Frames.{
  frame, order_payload, length-order_payload, serialize_order-frame,
}
use exchange_simulator.Simulator.{Draws, InRange, OrderSimulator, generate_order}
use exchange_simulator.Simulator.Orders.{order_of, orders_from, generate_order_lem}
use exchange_simulator.Server.Delivered.{frames, IsFramed}
use exchange_simulator.Client.{Client, send_order, run_batch, run_batches}

-- The message of an order.
abbrev pub order_message : Order → Message
order_message o = record { type = new_order; payload = order_payload o }

pub order_message-IsFramed : (o : Order) → IsFramed (order_message o)
order_message-IsFramed o = record {
  type_byte = tt;
  few_bytes = omega (arith, length-order_payload o);
}

-- The frames of some orders.
abbrev pub order_frames : List Order → List ℕ
order_frames os = frames (map order_message os)

frame-length : (o : Order) → length (frame new_order (order_payload o)) ≡ 27
frame-length o =
    let n = htonl (length (order_payload o) % 2 ^ 32) in
    omega (
      arith,
      length-append (bytes_of 1 1) (bytes_of 4 n ++ order_payload o),
      length-append (bytes_of 4 n) (order_payload o),
      length-bytes_of 1 1,
      length-bytes_of 4 n,
      length-order_payload o,
    )

take_enough : (n : ℕ) (xs : List ℕ) → length xs ≤ n → take n xs ≡ xs
take_enough zero [] h = refl
take_enough zero (x ∷ xs) h = absurd (omega arith)
take_enough (suc n) [] h = refl
take_enough (suc n) (x ∷ xs) h = ap (◌∷◌ x) (take_enough n xs (omega arith))

frames-append : (ms ns : List Message) → frames (ms ++ ns) ≡ frames ms ++ frames ns
frames-append [] ns = refl
frames-append (m ∷ ms) ns =
    ap (λ k. frame m.type m.payload ++ k) (frames-append ms ns)
    ∙ sym (append_assoc (frame m.type m.payload) (frames ms) (frames ns))

-- The calls of `send` on the blocking socket take every byte of an order's frame.
abbrev pub AllTaken : (ℕ → ℕ) → Type 0
AllTaken taken = (i : ℕ) → 27 ≤ taken i

module _ (draws : ℕ → Draws) where
  orders_from-append :
      (n m i id : ℕ)
      → orders_from draws (n + m) i id
        ≡ orders_from draws n i id ++ orders_from draws m (i + n) (id + n)
  orders_from-append zero m i id =
      let g : 0 + m ≡ m = omega arith in
      let e : i + 0 ≡ i = omega arith in let f : id + 0 ≡ id = omega arith in rw (g, e, f)
  orders_from-append (suc n) m i id =
      let e : suc i + n ≡ i + suc n = omega arith in
      let f : suc id + n ≡ id + suc n = omega arith in
      let g : suc n + m ≡ suc (n + m) = omega arith in
      rw g (ap (◌∷◌ (order_of id (draws i))) (orders_from-append n m (suc i) (suc id) ∙ rw (e, f)))

  -- A client that has sent `n` orders, the first of them the `i`-th, from its state `c`.
  pub record Sent (c : Client) (n i : ℕ) (out : Outcome Client) : Type 0 where
    pub after : Client
    pub returns : out ≡ returned after
    pub counter : after.simulator.id_counter ≡ c.simulator.id_counter + n
    pub bytes : after.sent ≡ c.sent ++ order_frames (orders_from draws n i c.simulator.id_counter)

  Sent-zero : (c : Client) (i : ℕ) → Sent c 0 i (returned c)
  Sent-zero c i = record {
    after = c;
    returns = refl;
    counter = omega arith;
    bytes = sym (append-nil c.sent);
  }

  -- One part after another.
  Sent-trans :
      (c d : Client) (n m i : ℕ) (out : Outcome Client)
      → d.simulator.id_counter ≡ c.simulator.id_counter + n
      → d.sent ≡ c.sent ++ order_frames (orders_from draws n i c.simulator.id_counter)
      → Sent d m (i + n) out
      → Sent c (n + m) i out
  Sent-trans c d n m i out e f s =
      let id = c.simulator.id_counter in
      record {
        after = s.after;
        returns = s.returns;
        counter = omega (arith, e, s.counter);
        bytes =
            s.bytes
            ∙ ap (λ k. d.sent ++ order_frames (orders_from draws m (i + n) k)) e
            ∙ ap (λ k. k ++ order_frames (orders_from draws m (i + n) (id + n))) f
            ∙ append_assoc c.sent (order_frames (orders_from draws n i id))
                (order_frames (orders_from draws m (i + n) (id + n)))
            ∙ ap (λ k. c.sent ++ k)
                (sym (frames-append (map order_message (orders_from draws n i id)) _)
                  ∙ ap frames (
                      sym (
                        map-append order_message (orders_from draws n i id)
                          (orders_from draws m (i + n) (id + n))))
                  ∙ ap order_frames (sym (orders_from-append n m i id)));
      }

  module _ (taken : ℕ → ℕ) (r : (i : ℕ) → InRange (draws i)) (t : AllTaken taken) where
    send_order-Sent :
        (i : ℕ) (c : Client)
        → c.simulator.id_counter + 1 < 2 ^ 64
        → Sent c 1 i
            (send_order binary_serializer (taken i) (generate_order (draws i) c.simulator) c)
    send_order-Sent i c h =
        let o = order_of c.simulator.id_counter (draws i) in
        let bytes = frame new_order (order_payload o) in
        let s : OrderSimulator = record c.simulator { id_counter = c.simulator.id_counter + 1 } in
        let whole : take (taken i) bytes ≡ bytes =
          take_enough (taken i) bytes (omega (arith, t i, frame-length o)) in
        subst (λ g. Sent c 1 i (send_order binary_serializer (taken i) g c))
          (sym (generate_order_lem (draws i) c.simulator (r i) h).0)
          (record {
            after = record c {
              simulator = s;
              msg_buffer = bytes;
              sent = c.sent ++ take (taken i) bytes;
            };
            returns = rw (serialize_order-frame o []);
            counter = refl;
            bytes = ap (λ k. c.sent ++ k) (whole ∙ sym (append-nil bytes));
          })

    run_batch-Sent :
        (n i : ℕ) (c : Client)
        → c.simulator.id_counter + n < 2 ^ 64
        → Sent c n i (run_batch binary_serializer draws taken n i c)
    unfolding run_batch
    run_batch-Sent zero i c h = Sent-zero c i
    run_batch-Sent (suc n) i c h =
        let s = send_order-Sent i c (omega arith) in
        let e : i + 1 ≡ suc i = omega arith in
        let f : 1 + n ≡ suc n = omega arith in
        subst (λ m. Sent c m i (run_batch binary_serializer draws taken (suc n) i c)) f
          (rw s.returns (
            Sent-trans c s.after 1 n i _ s.counter s.bytes
              (rw e (run_batch-Sent n (suc i) s.after (omega (arith, s.counter))))))

    pub run_batches-Sent :
        (b size i : ℕ) (c : Client)
        → c.simulator.id_counter + b * size < 2 ^ 64
        → Sent c (b * size) i (run_batches binary_serializer draws taken b size i c)
    unfolding run_batches
    run_batches-Sent zero size i c h =
        subst (λ n. Sent c n i (returned c)) (omega arith) (Sent-zero c i)
    run_batches-Sent (suc b) size i c h =
        let s = run_batch-Sent size i c (ground arith) in
        let l = run_batches-Sent b size (i + size) s.after (ground (arith, s.counter)) in
        let e : size + b * size ≡ suc b * size = ground arith in
        subst (λ n. Sent c n i (run_batches binary_serializer draws taken (suc b) size i c)) e
          (rw s.returns (Sent-trans c s.after size (b * size) i _ s.counter s.bytes l))
