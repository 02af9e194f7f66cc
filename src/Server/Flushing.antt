-- ===== src/Server/Flushing.antt =====
-- The writing of a whole round keeps the invariant of `Watched`.
use exchange_simulator.Common.{
  ℕ, ◌+◌, ◌<◌, ◌≡◌, refl, sym, ◌∙◌, subst, inl, inr, List, [], ◌∷◌, ◌++◌, Bool-cases, leb, length,
  length-set, set, All, All-map, All-append, Outcome, returned, threw, undefined, stuck, arith,
}
use exchange_simulator.Types.{OutboundMessage}
use exchange_simulator.Server.{
  ClientState, Server, SendResult, client_at, enqueue, drain_outbound_queue, flush_from,
  flush_pending_writes,
}
use exchange_simulator.Server.Watched.{IsWatched, client_there}
use exchange_simulator.Server.Writing.{writing, writing-IsWatched, Kept, try_send-Kept}

enqueue-IsWatched :
    (m : OutboundMessage) (s : Server)
    → IsWatched s
    → m.fd < length s.clients
    → IsWatched (enqueue m (client_at m.fd s.clients) s)
enqueue-IsWatched m s v h =
    let (c, e) = client_there s.clients m.fd h in
    rw e (elim (Bool-cases c.active) [
      | inr off ↦ rw off v
      | inl on ↦ rw on (
          let w = writing-IsWatched s v m.fd h c e on (c.write_buffer ++ m.payload) c.bytes_sent in
          record {
            slots = w.slots;
            pending_ok =
                All-append
                  (λ fd.
                    fd
                    < length
                        (set s.clients m.fd (writing (c.write_buffer ++ m.payload) c.bytes_sent c)))
                  s.pending_writes (m.fd ∷ []) w.pending_ok
                  (subst (λ k. m.fd < k) (sym (length-set s.clients m.fd _)) h, tt);
          })
    ])

pub drain_outbound_queue-IsWatched :
    (ms : List OutboundMessage) (s : Server) → IsWatched s → IsWatched (drain_outbound_queue ms s)
unfolding drain_outbound_queue
drain_outbound_queue-IsWatched [] s v = v
drain_outbound_queue-IsWatched (m ∷ ms) s v =
    drain_outbound_queue-IsWatched ms _ (elim (Bool-cases (leb (length s.clients) m.fd)) [
      | inl out ↦ rw out v
      | inr inside ↦ rw inside (enqueue-IsWatched m s v (ground arith))
    ])

enqueue-length :
    (m : OutboundMessage) (r : Outcome ClientState) (s : Server)
    → length (enqueue m r s).clients ≡ length s.clients
enqueue-length m (returned c) s = elim (Bool-cases c.active) [
  | inl on ↦ rw on (length-set s.clients m.fd _)
  | inr off ↦ rw off
]
enqueue-length m (threw e) s = refl
enqueue-length m undefined s = refl
enqueue-length m stuck s = refl

drain_outbound_queue-length :
    (ms : List OutboundMessage) (s : Server)
    → length (drain_outbound_queue ms s).clients ≡ length s.clients
unfolding drain_outbound_queue
drain_outbound_queue-length [] s = refl
drain_outbound_queue-length (m ∷ ms) s =
    drain_outbound_queue-length ms _ ∙ elim (Bool-cases (leb (length s.clients) m.fd)) [
      | inl out ↦ rw out
      | inr inside ↦ rw inside (enqueue-length m (client_at m.fd s.clients) s)
    ]

flush_from-Kept :
    (i : ℕ) (results : ℕ → SendResult) (fds : List ℕ) (s : Server)
    → IsWatched s
    → All (λ fd. fd < length s.clients) fds
    → Kept s (flush_from i results fds s)
unfolding flush_from
flush_from-Kept i results [] s v h = record {
  after = s;
  returns = refl;
  watched_ok = v;
  same_length = refl;
}
flush_from-Kept i results (fd ∷ fds) s v (h, hs) =
    let k = try_send-Kept s v fd h (results i) in
    let l =
      flush_from-Kept (i + 1) results fds k.after k.watched_ok
        (All-map fds (λ x p. rw k.same_length p) hs) in
    record {
      after = l.after;
      returns = rw k.returns l.returns;
      watched_ok = l.watched_ok;
      same_length = l.same_length ∙ k.same_length;
    }

flush_pending_writes-Kept :
    (results : ℕ → SendResult) (s : Server) → IsWatched s → Kept s (flush_pending_writes results s)
unfolding flush_pending_writes
flush_pending_writes-Kept results s v =
    let k = flush_from-Kept 0 results s.pending_writes s v v.pending_ok in
    record {
      after = record k.after { pending_writes = [] };
      returns = rw k.returns;
      watched_ok = record { slots = k.watched_ok.slots; pending_ok = tt };
      same_length = k.same_length;
    }

-- The writing of a round keeps the invariant.
pub round_writes-Kept :
    (ms : List OutboundMessage) (results : ℕ → SendResult) (s : Server)
    → IsWatched s
    → Kept s (flush_pending_writes results (drain_outbound_queue ms s))
round_writes-Kept ms results s v =
    let k = flush_pending_writes-Kept results _ (drain_outbound_queue-IsWatched ms s v) in
    record {
      after = k.after;
      returns = k.returns;
      watched_ok = k.watched_ok;
      same_length = k.same_length ∙ drain_outbound_queue-length ms s;
    }
