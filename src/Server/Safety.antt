-- ===== src/Server/Safety.antt =====
-- The rounds of `run` are never undefined, and keep the invariant of `Watched`.
use exchange_simulator.Common.{
  ℕ, ◌+◌, ◌<◌, ◌≤◌, ◌≡◌, refl, sym, ◌∙◌, subst, inl, inr, List, [], ◌∷◌, some, Bool, true, false,
  Bool-cases, length, length-set, All, All-map, Outcome, returned, threw, undefined, stuck, arith,
}
use exchange_simulator.Engine.{continue}
use exchange_simulator.Socket.{Socket}
use exchange_simulator.Server.{
  Server, SendResult, client_at, handle_write, drain_outbound_queue, flush_pending_writes,
}
use exchange_simulator.Server.Streams.{client_at-inside}
use exchange_simulator.Server.Reading.{handle_read}
use exchange_simulator.Server.ReadLoop.{handle_read_lem}
use exchange_simulator.Server.Rounds.{
  Event, connection, ready, Host, with_server, after_handle_read, Meets, read_ready, write_ready,
  serve_event, serve_events, run_round, run_rounds,
}
use exchange_simulator.Server.Watched.{
  IsWatched, client_there, watched_client, active_watched, put-IsWatched,
}
use exchange_simulator.Server.Flushing.{round_writes-Kept}
use exchange_simulator.Server.Writing.{Kept, handle_write-Kept, disconnect_client-IsWatched}
use exchange_simulator.Server.Flushing.{round_writes-Kept}
use exchange_simulator.Server.Admission.{Grows, Ended, accept_client-Grows}

-- An event is of a descriptor that epoll watches.
abbrev pub EventWatched : Server → Event → Type 0
EventWatched s (connection results) = Unit
EventWatched s (ready fd readable writable room result) = (b : Bool) × (s.watched fd ≡ some b)

-- The slot of an event's descriptor is in range.
abbrev EventInside : ℕ → Event → Type 0
EventInside n (connection results) = Unit
EventInside n (ready fd readable writable room result) = fd < n

watched_inside :
    (s : Server) (fd : ℕ) (b : Bool) → IsWatched s → s.watched fd ≡ some b → fd < length s.clients
watched_inside s fd b v e =
    let (c, at, _, _) = watched_client (s.watched fd) (client_at fd s.clients) (v.slots fd) b e in
    client_at-inside s.clients fd c at

events_inside :
    (s : Server) → IsWatched s → (e : Event) → EventWatched s e → EventInside (length s.clients) e
events_inside s v (connection results) h = tt
events_inside s v (ready fd readable writable room result) (b, e) = watched_inside s fd b v e

module _ {S : Type 0} where
  -- A call ends well or by a failure of `accept`, and keeps the invariant and at least `n` slots.
  abbrev pub Safe : ℕ → Outcome (Unit {0}) × Host S → Type 0
  Safe n (out, h) = Ended out × Grows n h.server

  continue-Safe :
      (n : ℕ) (f : Host S → Outcome (Unit {0}) × Host S) (out : Outcome (Unit {0}) × Host S)
      → Safe n out
      → ((h : Host S) → out ≡ (returned tt, h) → Grows n h.server → Safe n (f h))
      → Safe n (continue f out)
  continue-Safe n f (returned tt, h) (e, g) next = next h refl g
  continue-Safe n f (threw x, h) (e, g) next = (e, g)
  continue-Safe n f (undefined, h) (e, g) next = absurd e
  continue-Safe n f (stuck, h) (e, g) next = absurd e

  with_server-Safe :
      (n : ℕ) (h : Host S) (out : Outcome Server) (f : Host S → Outcome (Unit {0}) × Host S)
      → (k : Kept h.server out) → Safe n (f (record h { server = k.after }))
      → Safe n (with_server h out f)
  with_server-Safe n h out f k safe = subst (λ o. Safe n (with_server h o f)) (sym k.returns) safe

module _ {S : Type 0} (k : Socket S) where
  handle_read-Safe :
      (fd fuel room n : ℕ) (h : Host S)
      → fd < length h.server.clients
      → Grows n h.server
      → length (k.pending (h.sockets fd)) + 1 < fuel
      → Safe n
          (after_handle_read fd h (handle_read k fd fuel (h.sockets fd) h.inbound room h.server))
  unfolding handle_read
  handle_read-Safe fd fuel room n h inside g enough =
      let s = h.server in
      let (c, e) = client_there s.clients fd inside in
      elim (Bool-cases c.active) [
        | inr off ↦ rw (e, off) (tt, g)
        | inl on ↦
            let ((b, w), ok) =
              active_watched (s.watched fd) (client_at fd s.clients) c (g.watched_ok.slots fd) e
                on in
            let out = handle_read_lem k fd fuel room s c (h.sockets fd) h.inbound e on ok enough in
            elim out.ends [
              | inl (x, _) ↦
                  subst (λ o. Safe n (after_handle_read fd h o)) (sym x)
                    (
                      tt,
                      record {
                        watched_ok =
                            put-IsWatched s g.watched_ok fd out.reading.client inside
                              (rw w (out.follows.same_active ∙ on, out.follows.ok));
                        as_long =
                            omega (arith, g.as_long, length-set s.clients fd out.reading.client);
                      },
                    )
              | inr (x, _) ↦
                  subst (λ o. Safe n (after_handle_read fd h o)) (sym x)
                    (
                      tt,
                      record {
                        watched_ok = disconnect_client-IsWatched s g.watched_ok fd inside;
                        as_long = rw length-set g.as_long;
                      },
                    )
            ]
      ]

  read_ready-Safe :
      (fd : ℕ) (readable : Bool) (room n : ℕ) (h : Host S)
      → fd < n
      → Grows n h.server
      → Safe n (read_ready k fd readable room h)
  read_ready-Safe fd true room n h inside g =
      handle_read-Safe fd _ room n h (omega (arith, g.as_long)) g (omega arith)
  read_ready-Safe fd false room n h inside g = (tt, g)

  write_ready-Safe :
      (fd : ℕ) (writable : Bool) (result : SendResult) (n : ℕ) (h : Host S)
      → fd < n
      → Grows n h.server
      → Safe n (write_ready k fd writable result h)
  write_ready-Safe fd true result n h inside g =
      let kept = handle_write-Kept h.server g.watched_ok fd (omega (arith, g.as_long)) result in
      with_server-Safe n h (handle_write fd result h.server) _ kept
        (tt, record { watched_ok = kept.watched_ok; as_long = rw kept.same_length g.as_long })
  write_ready-Safe fd false result n h inside g = (tt, g)

  serve_event-Safe :
      (e : Event) (n : ℕ) (h : Host S)
      → EventInside n e
      → Grows n h.server
      → Safe n (serve_event k e h)
  serve_event-Safe (connection results) n h inside g = accept_client-Grows results n h.server g
  serve_event-Safe (ready fd readable writable room result) n h inside g =
      continue-Safe n _ _ (read_ready-Safe fd readable room n h inside g)
        λ h' e g'. write_ready-Safe fd writable result n h' inside g'

  serve_events-Safe :
      (es : List Event) (n : ℕ) (h : Host S)
      → All (EventInside n) es
      → Grows n h.server
      → Safe n (serve_events k es h)
  unfolding serve_events
  serve_events-Safe [] n h inside g = (tt, g)
  serve_events-Safe (e ∷ es) n h inside g =
      continue-Safe n _ _ (serve_event-Safe e n h inside.0 g)
        λ h' x g'. serve_events-Safe es n h' inside.1 g'

  -- `epoll_wait` returns events of watched descriptors only: those after the writing of the round.
  abbrev pub Polled : Meets → Host S → Type 0
  Polled m h =
      (s : Server)
      → flush_pending_writes m.results (drain_outbound_queue m.outbound h.server) ≡ returned s
      → All (EventWatched s) m.events

  -- The same for each of some rounds, from what the rounds before have left.
  abbrev pub AllPolled : List Meets → Host S → Type 0
  AllPolled [] h = Unit
  AllPolled (m ∷ ms) h =
      Polled m h × ((h' : Host S) → run_round k m h ≡ (returned tt, h') → AllPolled ms h')

  run_round-Safe :
      (m : Meets) (n : ℕ) (h : Host S) → Polled m h → Grows n h.server → Safe n (run_round k m h)
  unfolding run_round
  run_round-Safe m n h polled g =
      let kept = round_writes-Kept m.outbound m.results h.server g.watched_ok in
      let long : n ≤ length kept.after.clients = omega (arith, kept.same_length, g.as_long) in
      let inside =
        All-map m.events (λ e w. events_inside kept.after kept.watched_ok e w)
          (polled kept.after kept.returns) in
      let g' : Grows (length kept.after.clients) kept.after = record {
        watched_ok = kept.watched_ok;
        as_long = omega arith;
      } in
      let (e, g'') =
        serve_events-Safe m.events (length kept.after.clients) (record h { server = kept.after })
          inside g' in
      with_server-Safe n h _ (serve_events k m.events) kept
        (e, record { watched_ok = g''.watched_ok; as_long = omega (arith, long, g''.as_long) })

  pub rounds-Safe :
      (ms : List Meets) (n : ℕ) (h : Host S)
      → AllPolled ms h
      → Grows n h.server
      → Safe n (run_rounds k ms h)
  unfolding run_rounds
  rounds-Safe [] n h polled g = (tt, g)
  rounds-Safe (m ∷ ms) n h polled g =
      continue-Safe n _ _ (run_round-Safe m n h polled.0 g)
        λ h' e g'. rounds-Safe ms n h' (polled.1 h' e) g'

  -- Any rounds of `run`, from a server that keeps the invariant, whose events are of the listening
  -- descriptor or of watched ones, whatever the system calls answer. No slot is accessed that is not
  -- there, nothing is written outside of a client's buffers, and every call ends: the rounds return,
  -- or one of the three exceptions of `accept_client` is thrown. Either way the invariant holds
  -- after them, and there are no fewer slots than before.
  pub run_rounds-Safe :
      (ms : List Meets) (h : Host S)
      → IsWatched h.server
      → AllPolled ms h
      → Safe (length h.server.clients) (run_rounds k ms h)
  run_rounds-Safe ms h v polled =
      rounds-Safe ms (length h.server.clients) h polled
        (record { watched_ok = v; as_long = omega arith })
