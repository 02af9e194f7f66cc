-- ===== src/Processor/Soundness.antt =====
-- Requests keep the invariant of the processor, and do not end its thread.
use exchange_simulator.Common.{
  ℕ, suc, ◌≤◌, ◌≡◌, refl, ap, ◌∙◌, inl, inr, List, [], ◌∷◌, Option, none, some, update, ◌==◌,
  Bool-cases, ==_iff, Outcome, returned, threw, Exception, ◌++◌, ◌≢◌, length,
}
use exchange_simulator.Types.{
  Order, new_order, cancel_order as cancel_type, InboundMessage, Message,
}
use exchange_simulator.Book.{OrderLocation}
use exchange_simulator.Book.Valid.{OrderMap}
use exchange_simulator.Engine.{continue}
use exchange_simulator.Engine.Validity.{match-IsValid}
use exchange_simulator.Engine.Entries.{IsSubmapBut, match-IsSubmapBut}
use exchange_simulator.Memory.{load}
use exchange_simulator.Serializer.{deserialize_order, order_size}
use exchange_simulator.Serializer.Decoding.{deserialize_order-IsValid, deserialize_order-answers}
use exchange_simulator.Processor.{Processor, process, run, unknown_message}
use exchange_simulator.Processor.Replies.{process-invalid_order, process-cancel, process-unknown}
use exchange_simulator.Processor.Clients.{HasClient, IsSound, process-new_order}

-- A message that the processor is made for: a new order of enough bytes whose id does not rest in the
-- book, or a cancellation that holds an id.
pub data IsRequest (m : OrderMap) (i : InboundMessage) : Type 0 where
  new_request :
      (id : ℕ)
      → i.type ≡ new_order
      → order_size ≤ length i.payload
      → load 8 0 i.payload ≡ returned id
      → m id ≡ none
      → IsRequest m i
  cancellation : (id : ℕ) → i.type ≡ cancel_type → load 8 0 i.payload ≡ returned id → IsRequest m i

pub record Kept (out : Outcome (Unit {0}) × Processor) : Type 0 where
  pub returns : out.0 ≡ returned tt
  pub sound : IsSound out.1

client_there : (e : Option OrderLocation) (fd : Option ℕ) (k : ℕ) → fd ≡ some k → HasClient e fd
client_there none fd k h = tt
client_there (some loc) fd k h = (k, h)

clients_noted :
    (m m' : OrderMap) (fds : ℕ → Option ℕ) (own fd : ℕ)
    → ((id : ℕ) → HasClient (m id) (fds id))
    → IsSubmapBut own m m'
    → (id : ℕ) → HasClient (m' id) (update fds own (some fd) id)
clients_noted m m' fds own fd h sub id = elim (Bool-cases (id == own)) [
  | inl same ↦ client_there (m' id) _ fd (rw same)
  | inr other ↦ rw other (elim (sub id) [
    | inl e ↦ absurd (cc (other, (==_iff id own).1 e))
    | inr (inl e) ↦ rw e tt
    | inr (inr e) ↦ rw e (h id)
  ])
]

clients_erased :
    (m : OrderMap) (fds : ℕ → Option ℕ) (own : ℕ)
    → ((id : ℕ) → HasClient (m id) (fds id))
    → (id : ℕ) → HasClient (update m own none id) (update fds own none id)
clients_erased m fds own h id = elim (Bool-cases (id == own)) [
  | inl same ↦ rw same tt
  | inr other ↦ rw other (h id)
]

decoded-Kept :
    (clock : ℕ → ℕ) (i : InboundMessage) (p : Processor) (o : Order)
    → i.type ≡ new_order
    → deserialize_order (clock 0) (record { type = new_order; payload = i.payload }) ≡ returned o
    → IsSound p
    → p.orderbook.order_map o.id ≡ none
    → Kept (process clock i p)
decoded-Kept clock i p o t e s fresh =
    let vo =
      (deserialize_order-IsValid (clock 0) (record { type = new_order; payload = i.payload }) o
        e).1 in
    rw (process-new_order clock i p o t e s fresh) (record {
      returns = refl;
      sound = record {
        book_ok = (match-IsValid (λ k. clock (suc k)) o p.orderbook [] vo s.book_ok fresh).1;
        clients_ok =
            clients_noted p.orderbook.order_map _ p.order_to_client_fd o.id i.fd s.clients_ok
              (match-IsSubmapBut (λ k. clock (suc k)) o p.orderbook [] vo);
      };
    })

new_order-Kept :
    (clock : ℕ → ℕ) (i : InboundMessage) (p : Processor) (id : ℕ)
    → IsSound p
    → i.type ≡ new_order
    → order_size ≤ length i.payload
    → load 8 0 i.payload ≡ returned id
    → p.orderbook.order_map id ≡ none
    → Kept (process clock i p)
new_order-Kept clock i p id s t size h fresh =
    let message : Message = record { type = new_order; payload = i.payload } in
    elim (deserialize_order-answers (clock 0) message size) [
      | inl (o, e) ↦
          let (h', _) = deserialize_order-IsValid (clock 0) message o e in
          let same : o.id ≡ id = cc (h, h') in
          decoded-Kept clock i p o t e s (ap p.orderbook.order_map same ∙ fresh)
      | inr (x, e) ↦ rw (process-invalid_order clock i p id x t h e) (record {
        returns = refl;
        sound = record { book_ok = s.book_ok; clients_ok = s.clients_ok };
      })
    ]

cancel-Kept :
    (clock : ℕ → ℕ) (i : InboundMessage) (p : Processor) (id : ℕ)
    → IsSound p
    → i.type ≡ cancel_type
    → load 8 0 i.payload ≡ returned id
    → Kept (process clock i p)
cancel-Kept clock i p id s t h = elim (process-cancel clock i p id t h s.book_ok) [
  | inl (c, e) ↦ rw e (record {
    returns = refl;
    sound = record {
      book_ok = c.still_valid;
      clients_ok = λ j.
          rw (c.forgotten)
            (clients_erased p.orderbook.order_map p.order_to_client_fd id s.clients_ok j);
    };
  })
  | inr (_, e) ↦
      rw e (record {
        returns = refl;
        sound = record { book_ok = s.book_ok; clients_ok = s.clients_ok };
      })
]

request-Kept :
    (clock : ℕ → ℕ) (i : InboundMessage) (p : Processor)
    → IsSound p
    → IsRequest p.orderbook.order_map i
    → Kept (process clock i p)
request-Kept clock i p s (new_request id t size h fresh) =
    new_order-Kept clock i p id s t size h fresh
request-Kept clock i p s (cancellation id t h) = cancel-Kept clock i p id s t h

-- Each message is a request for the book that the ones before it leave.
abbrev pub AreRequests : List (InboundMessage × (ℕ → ℕ)) → Processor → Type 0
AreRequests [] p = Unit
AreRequests ((i, clock) ∷ is) p =
    IsRequest p.orderbook.order_map i × AreRequests is (process clock i p).1

continue-Kept :
    (loop : Processor → Outcome (Unit {0}) × Processor) (out : Outcome (Unit {0}) × Processor)
    → out.0 ≡ returned tt
    → Kept (loop out.1)
    → Kept (continue loop out)
continue-Kept loop (r, p) e k = rw e k

run-Kept :
    (is : List (InboundMessage × (ℕ → ℕ))) (p : Processor)
    → IsSound p
    → AreRequests is p
    → Kept (run is p)
unfolding run
run-Kept [] p s h = record { returns = refl; sound = s }
run-Kept ((i, clock) ∷ is) p s h =
    let k = request-Kept clock i p s h.0 in
    continue-Kept (run is) (process clock i p) k.returns (run-Kept is _ k.sound h.1)

-- From a processor whose book is valid and whose resting orders have known clients, any sequence of
-- requests, of new orders whose ids do not rest in the book when they come and of cancellations that
-- hold an id, is processed without the thread ending, and the book is valid and the clients are known
-- at its end.
pub run-IsSound :
    (is : List (InboundMessage × (ℕ → ℕ))) (p : Processor)
    → IsSound p
    → AreRequests is p
    → ((run is p).0 ≡ returned tt) × IsSound (run is p).1
run-IsSound is p s h = let k = run-Kept is p s h in (k.returns, k.sound)

continue-prefix :
    (loop short : Processor → Outcome (Unit {0}) × Processor) (out : Outcome (Unit {0}) × Processor)
    (e : Exception)
    → out.0 ≡ returned tt
    → loop out.1 ≡ (threw e, (short out.1).1)
    → continue loop out ≡ (threw e, (continue short out).1)
continue-prefix loop short (r, p) e h k = rw h k

run-stops :
    (i : InboundMessage) (clock : ℕ → ℕ) (after : List (InboundMessage × (ℕ → ℕ)))
    → i.type ≢ new_order
    → i.type ≢ cancel_type
    → (before : List (InboundMessage × (ℕ → ℕ))) (p : Processor) → IsSound p
    → AreRequests before p
    → run (before ++ (i, clock) ∷ after) p ≡ (threw unknown_message, (run before p).1)
unfolding run
run-stops i clock after ne ne' [] p s h = rw (process-unknown clock i p ne ne')
run-stops i clock after ne ne' ((j, c) ∷ js) p s h =
    let k = request-Kept c j p s h.0 in
    continue-prefix (run (js ++ (i, clock) ∷ after)) (run js) (process c j p) unknown_message
      k.returns (run-stops i clock after ne ne' js _ k.sound h.1)

-- In a processor whose book is valid and whose resting orders have known clients, some requests, as in
-- `run-IsSound`, come before a message of a type other than a new order or a cancellation, whatever
-- its payload. That message ends the processor's thread by an exception; all requests before it have
-- been processed, and neither it nor any message behind it is answered or changes anything.
pub run-unknown :
    (before : List (InboundMessage × (ℕ → ℕ))) (i : InboundMessage) (clock : ℕ → ℕ)
    (after : List (InboundMessage × (ℕ → ℕ))) (p : Processor)
    → IsSound p
    → AreRequests before p
    → i.type ≢ new_order
    → i.type ≢ cancel_type
    → (run (before ++ (i, clock) ∷ after) p ≡ (threw unknown_message, (run before p).1))
      × ((run before p).0 ≡ returned tt)
      × IsSound (run before p).1
run-unknown before i clock after p s h ne ne' =
    let kept = run-Kept before p s h in
    (run-stops i clock after ne ne' before p s h, kept.returns, kept.sound)
