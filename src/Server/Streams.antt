-- ===== src/Server/Streams.antt =====
-- The bytes that the server still has to send to each client.
use exchange_simulator.Common.{
  ℕ, zero, suc, ◌+◌, ◌<◌, ◌≤◌, ◌≡◌, ◌≢◌, refl, sym, ap, ◌∙◌, inl, inr, List, [], ◌∷◌, ◌++◌,
  append-nil, append_assoc, subst, threw, stuck, true, false, Bool-cases, ltb, leb, ◌==◌, ==_iff,
  length, length-append, length-drop, set, drop, Outcome, returned, undefined, arith, if◌then◌else◌,
}
use exchange_simulator.Types.{OutboundMessage}
use exchange_simulator.Server.{
  ClientState, Server, sent, client_at, cleared, counted, is_empty, after_try_send, try_send,
  after_handle_write, handle_write, enqueue, drain_outbound_queue,
}

-- The bytes of the buffer that have not been sent.
abbrev pub unsent : ClientState → List ℕ
unsent c = drop c.bytes_sent c.write_buffer

-- A connected client in its slot, with the bytes that it is owed.
pub record Owes (s : Server) (fd : ℕ) (bytes : List ℕ) : Type 0 where
  pub client : ClientState
  pub in_slot : client_at fd s.clients ≡ returned client
  pub is_active : client.active ≡ true
  pub counted_right : client.bytes_sent ≤ length client.write_buffer
  pub owed : unsent client ≡ bytes

pub client_at-set_self :
    (cs : List ClientState) (fd : ℕ) (c k : ClientState)
    → client_at fd cs ≡ returned k
    → client_at fd (set cs fd c) ≡ returned c
unfolding client_at
client_at-set_self [] fd c k e = absurd cc
client_at-set_self (x ∷ cs) zero c k e = refl
client_at-set_self (x ∷ cs) (suc fd) c k e = client_at-set_self cs fd c k e

pub client_at-set_ne :
    (cs : List ClientState) (i fd : ℕ) (c : ClientState)
    → i ≢ fd
    → client_at fd (set cs i c) ≡ client_at fd cs
unfolding client_at
client_at-set_ne [] i fd c h = refl
client_at-set_ne (x ∷ cs) zero zero c h = absurd (h refl)
client_at-set_ne (x ∷ cs) zero (suc fd) c h = refl
client_at-set_ne (x ∷ cs) (suc i) zero c h = refl
client_at-set_ne (x ∷ cs) (suc i) (suc fd) c h = client_at-set_ne cs i fd c (λ e. h (ap suc e))

pub client_at-inside :
    (cs : List ClientState) (fd : ℕ) (c : ClientState)
    → client_at fd cs ≡ returned c
    → fd < length cs
unfolding client_at
client_at-inside [] fd c e = absurd cc
client_at-inside (x ∷ cs) zero c e = omega arith
client_at-inside (x ∷ cs) (suc fd) c e = omega (arith, client_at-inside cs fd c e)

drop-append : (n : ℕ) (xs ys : List ℕ) → n ≤ length xs → drop n (xs ++ ys) ≡ drop n xs ++ ys
drop-append zero xs ys h = refl
drop-append (suc n) [] ys h = absurd (omega arith)
drop-append (suc n) (x ∷ xs) ys h = drop-append n xs ys (omega arith)

drop-nil : (n : ℕ) → ◌≡◌ {A = List ℕ} (drop n []) []
drop-nil zero = refl
drop-nil (suc n) = refl

pub drop-drop : (n m : ℕ) (xs : List ℕ) → drop m (drop n xs) ≡ drop (n + m) xs
drop-drop zero m xs = ap (λ k. drop k xs) (omega arith)
drop-drop (suc n) m [] = drop-nil m ∙ sym (drop-nil (suc n + m))
drop-drop (suc n) m (x ∷ xs) =
    let e : suc (n + m) ≡ suc n + m = omega arith in drop-drop n m xs ∙ ap (λ k. drop k (x ∷ xs)) e

drop_over : (n : ℕ) (xs : List ℕ) → length xs ≤ n → drop n xs ≡ []
drop_over zero [] h = refl
drop_over zero (x ∷ xs) h = absurd (omega arith)
drop_over (suc n) [] h = refl
drop_over (suc n) (x ∷ xs) h = drop_over n xs (omega arith)

-- The payloads of the messages to a client, in their order.
abbrev pub bytes_for : ℕ → List OutboundMessage → List ℕ
bytes_for fd [] = []
bytes_for fd (m ∷ ms) = if m.fd == fd then m.payload ++ bytes_for fd ms else bytes_for fd ms

enqueue_self :
    (m : OutboundMessage) (s : Server) (bytes : List ℕ)
    → Owes s m.fd bytes
    → Owes (enqueue m (client_at m.fd s.clients) s) m.fd (bytes ++ m.payload)
enqueue_self m s bytes h =
    let c = h.client in
    rw (h.in_slot, h.is_active)
      (record {
        client = record c { write_buffer = c.write_buffer ++ m.payload; active = true };
        in_slot = client_at-set_self s.clients m.fd _ c h.in_slot;
        is_active = refl;
        counted_right = omega (arith, h.counted_right, length-append c.write_buffer m.payload);
        owed =
            drop-append c.bytes_sent c.write_buffer m.payload h.counted_right
            ∙ ap (λ k. k ++ m.payload) h.owed;
      })

-- A change of another slot.
pub put-Owes :
    (s s' : Server) (i fd : ℕ) (c : ClientState) (bytes : List ℕ)
    → i ≢ fd
    → s'.clients ≡ set s.clients i c
    → Owes s fd bytes
    → Owes s' fd bytes
put-Owes s s' i fd c bytes ne e h = record {
  client = h.client;
  in_slot = rw e (client_at-set_ne s.clients i fd c ne) ∙ h.in_slot;
  is_active = h.is_active;
  counted_right = h.counted_right;
  owed = h.owed;
}

enqueue_other :
    (m : OutboundMessage) (r : Outcome ClientState) (s : Server) (fd : ℕ) (bytes : List ℕ)
    → m.fd ≢ fd
    → Owes s fd bytes
    → Owes (enqueue m r s) fd bytes
enqueue_other m (returned c) s fd bytes ne h = elim (Bool-cases c.active) [
  | inl on ↦ rw on (put-Owes s _ m.fd fd _ bytes ne refl h)
  | inr off ↦ rw off h
]
enqueue_other m (threw x) s fd bytes ne h = h
enqueue_other m undefined s fd bytes ne h = h
enqueue_other m stuck s fd bytes ne h = h

-- The messages that are taken out of the outbound ring: a connected client is owed the payloads of
-- those that are to it, in their order, behind what it was owed.
pub drain_outbound_queue-Owes :
    (ms : List OutboundMessage) (s : Server) (fd : ℕ) (bytes : List ℕ)
    → Owes s fd bytes
    → Owes (drain_outbound_queue ms s) fd (bytes ++ bytes_for fd ms)
unfolding drain_outbound_queue
drain_outbound_queue-Owes [] s fd bytes h = rw append-nil h
drain_outbound_queue-Owes (m ∷ ms) s fd bytes h = elim (Bool-cases (m.fd == fd)) [
  | inl same ↦
      let e : m.fd ≡ fd = (==_iff _ _).0 same in
      let inside : leb (length s.clients) m.fd ≡ false =
        ground (arith, client_at-inside s.clients fd h.client h.in_slot) in
      let own : Owes s m.fd bytes = subst (λ k. Owes s k bytes) (sym e) h in
      rw (same, inside, ← append_assoc bytes m.payload (bytes_for fd ms))
        (drain_outbound_queue-Owes ms _ fd (bytes ++ m.payload) (
          subst (λ k. Owes (enqueue m (client_at m.fd s.clients) s) k (bytes ++ m.payload)) e
            (enqueue_self m s bytes own)))
  | inr other ↦
      let ne : m.fd ≢ fd = λ e. cc (other, (==_iff m.fd fd).1 e) in
      rw other (
        drain_outbound_queue-Owes ms _ fd bytes (elim (Bool-cases (leb (length s.clients) m.fd)) [
          | inl out ↦ rw out h
          | inr inside ↦ rw inside (enqueue_other m (client_at m.fd s.clients) s fd bytes ne h)
        ]))
]

-- The client when some of its bytes have been sent, but not all.
part_sent :
    (n : ℕ) (s s' : Server) (fd : ℕ) (bytes : List ℕ) (h : Owes s fd bytes)
    → s'.clients ≡ set s.clients fd (counted n h.client)
    → n ≤ length bytes
    → Owes s' fd (drop n bytes)
part_sent n s s' fd bytes h e le =
    let c = h.client in
    record {
      client = counted n c;
      in_slot = rw e (client_at-set_self s.clients fd (counted n c) c h.in_slot);
      is_active = h.is_active;
      counted_right =
          omega (arith, h.counted_right, ap length h.owed, length-drop c.bytes_sent c.write_buffer);
      owed = sym (drop-drop c.bytes_sent n c.write_buffer) ∙ ap (drop n) h.owed;
    }

-- The client when the rest of its bytes has been sent.
all_sent :
    (n : ℕ) (s s' : Server) (fd : ℕ) (bytes : List ℕ) (h : Owes s fd bytes)
    → s'.clients ≡ set s.clients fd (cleared h.client)
    → length bytes ≤ n
    → Owes s' fd (drop n bytes)
all_sent n s s' fd bytes h e le =
    let c = h.client in
    record {
      client = cleared c;
      in_slot = rw e (client_at-set_self s.clients fd (cleared c) c h.in_slot);
      is_active = h.is_active;
      counted_right = omega arith;
      owed = sym (drop_over n bytes le);
    }

unsent_length :
    (s : Server) (fd : ℕ) (bytes : List ℕ) (h : Owes s fd bytes)
    → length bytes + h.client.bytes_sent ≡ length h.client.write_buffer
unsent_length s fd bytes h = omega (
  arith,
  h.counted_right,
  ap length h.owed,
  length-drop h.client.bytes_sent h.client.write_buffer,
)

try_send-sent :
    (n : ℕ) (s : Server) (fd : ℕ) (bytes : List ℕ) (h : Owes s fd bytes)
    → n ≤ length bytes
    → Owes (after_try_send fd h.client (sent n) s) fd (drop n bytes)
try_send-sent n s fd bytes h le =
    elim (Bool-cases ((h.client.bytes_sent + n) == length h.client.write_buffer)) [
      | inl all ↦
          rw all (all_sent n s _ fd bytes h refl (ground (arith, unsent_length s fd bytes h)))
      | inr some_left ↦ rw some_left (part_sent n s _ fd bytes h refl le)
    ]

handle_write-sent :
    (n : ℕ) (s : Server) (fd : ℕ) (bytes : List ℕ) (h : Owes s fd bytes)
    → n ≤ length bytes
    → Owes (after_handle_write fd h.client (sent n) s) fd (drop n bytes)
handle_write-sent n s fd bytes h le =
    elim (Bool-cases (ltb (h.client.bytes_sent + n) (length h.client.write_buffer))) [
      | inl some_left ↦ rw some_left (part_sent n s _ fd bytes h refl le)
      | inr all ↦
          rw all (all_sent n s _ fd bytes h refl (ground (arith, unsent_length s fd bytes h)))
    ]

buffer_not_empty :
    (s : Server) (fd n : ℕ) (bytes : List ℕ) (h : Owes s fd bytes)
    → 0 < n
    → n ≤ length bytes
    → is_empty h.client.write_buffer ≡ false
buffer_not_empty s fd n bytes h p le = go h.client.write_buffer refl
  where
    go : (xs : List ℕ) → h.client.write_buffer ≡ xs → is_empty xs ≡ false
    go [] e = absurd (omega (arith, unsent_length s fd bytes h, ap length e))
    go (x ∷ xs) e = refl

-- When `send` takes `n` of the bytes that a connected client is owed, `try_send` and `handle_write`
-- return, and the client is owed the rest, neither more nor less, in order.
pub send-Owes :
    (n : ℕ) (s : Server) (fd : ℕ) (bytes : List ℕ)
    → Owes s fd bytes
    → 0 < n
    → n ≤ length bytes
    → ((s' : Server) × (try_send fd (sent n) s ≡ returned s') × Owes s' fd (drop n bytes))
      × ((s' : Server) × (handle_write fd (sent n) s ≡ returned s') × Owes s' fd (drop n bytes))
unfolding try_send handle_write
send-Owes n s fd bytes h p le = (
  (
    after_try_send fd h.client (sent n) s,
    rw (h.in_slot, h.is_active, buffer_not_empty s fd n bytes h p le),
    try_send-sent n s fd bytes h le,
  ),
  (
    after_handle_write fd h.client (sent n) s,
    rw (h.in_slot, h.is_active),
    handle_write-sent n s fd bytes h le,
  ),
)
