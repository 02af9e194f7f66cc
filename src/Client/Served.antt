-- ===== src/Client/Served.antt =====
-- The client program and the server together: the orders of a thread arrive.
use exchange_simulator.Common.{
  ℕ, ◌+◌, ◌*◌, ◌^◌, ◌<◌, ◌≡◌, sym, ◌∙◌, List, [], ◌∷◌, ◌++◌, map, true, returned, All, All-map,
  length, ◌==◌, ap, subst, refl, arith, false,
}
use exchange_simulator.Types.{Order, new_order}
use exchange_simulator.Serializer.{deserialize_order}
use exchange_simulator.Serializer.Frames.{order_payload, length-order_payload}
use exchange_simulator.Serializer.RoundTrip.{deserialize_order-payload}
use exchange_simulator.Simulator.Orders.{IsGenerated, range}
use exchange_simulator.Socket.{Socket}
use exchange_simulator.Server.{ClientState, header, client_at}
use exchange_simulator.Server.Delivery.{ReadOk}
use exchange_simulator.Server.Delivered.{IsFramed, inbound_of, with_payload}
use exchange_simulator.Server.Repeated.{Position, handle_reads, Stands, handle_reads-frames}
use exchange_simulator.Client.{Client, finished, ThreadMeets, run_client_thread, num_orders}
use exchange_simulator.Client.Stream.{order_message, order_message-IsFramed}
use exchange_simulator.Client.Threads.{GoesWell, run_client_thread_lem}

-- The message decodes to the order, which has the time of its decoding.
abbrev pub Decodes : Order → Type 0
Decodes o =
    (now : ℕ) → deserialize_order now (order_message o) ≡ returned (record o { timestamp = now })

IsGenerated-Decodes : (o : Order) → IsGenerated o → Decodes o
IsGenerated-Decodes o g now = deserialize_order-payload now o new_order g.fits g.valid

map-IsFramed : (os : List Order) → All IsFramed (map order_message os)
map-IsFramed [] = tt
map-IsFramed (o ∷ os) = (order_message-IsFramed o, map-IsFramed os)

with_payload-order_messages :
    (os : List Order) → with_payload (map order_message os) ≡ map order_message os
with_payload-order_messages [] = refl
with_payload-order_messages (o ∷ os) =
    let some_bytes : (length (order_payload o) == 0) ≡ false =
      ground (arith, length-order_payload o) in
    rw some_bytes (ap (λ ms. order_message o ∷ ms) (with_payload-order_messages os))

finished_sent : (a b : Client) → finished a ≡ finished b → a.sent ≡ b.sent
finished_sent a b e = cc

module _ {S : Type 0} (k : Socket S) (fd : ℕ) where
  -- A thread of the client program, with a number that `int` can still add 1 to, meets no failure, its
  -- sends take whole frames, and the server has it as a new client. After any number of calls of
  -- `handle_read`, the messages pushed to the inbound ring are the first ones of those of the thread's
  -- million orders, in their order, and the rest are still to be delivered while the client is
  -- connected, which it is until a `recv` finds that the peer has closed or failed; and each message
  -- decodes to its order, with its id from the thread's own range.
  pub run_client_thread-served :
      (t : ℕ) (m : ThreadMeets) (d : Client) (rooms : List ℕ) (p : Position S) (c : ClientState)
      → t + 1 < 2 ^ 31
      → GoesWell m
      → run_client_thread t m ≡ finished d
      → client_at fd p.server.clients ≡ returned c
      → c.active ≡ true
      → ReadOk c
      → c.read_phase ≡ header
      → c.bytes_read ≡ 0
      → k.pending p.socket ≡ d.sent
      → (os : List Order) × (p' : Position S) × (handle_reads k fd rooms p ≡ returned p')
        × Stands k fd (p.inbound ++ map (inbound_of fd) (map order_message os)) p'
        × (map (λ o. o.id) os ≡ range ((t + 1) * 100000000) num_orders)
        × All Decodes os
  run_client_thread-served t m d rooms p c h g ends e a ok ph z sent =
      let (d', os, ends', bytes, ids, each) = run_client_thread_lem t m h g in
      let stream = sent ∙ finished_sent d d' (sym ends ∙ ends') ∙ bytes in
      let (p', x, st) =
        handle_reads-frames k fd rooms p c (map order_message os) e a ok ph z (map-IsFramed os)
          stream in
      (
        os,
        p',
        x,
        subst (λ ms. Stands k fd (p.inbound ++ map (inbound_of fd) ms) p')
            (with_payload-order_messages os) st,
        ids,
        All-map os IsGenerated-Decodes each,
      )
