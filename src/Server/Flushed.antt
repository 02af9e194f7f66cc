-- ===== src/Server/Flushed.antt =====
-- The flushing of the pending descriptors: what each client is still owed.
use exchange_simulator.Common.{
  ℕ, ◌+◌, ◌≡◌, refl, subst, inl, inr, ◌⊎◌, List, [], ◌∷◌, ◌++◌, drop, arith, Outcome, returned,
  threw, undefined, stuck, ◌>>=◌,
}
use exchange_simulator.Types.{OutboundMessage}
use exchange_simulator.Server.{
  Server, SendResult, try_send, flush_from, flush_pending_writes, drain_outbound_queue,
}
use exchange_simulator.Server.Streams.{Owes, bytes_for, drain_outbound_queue-Owes}
use exchange_simulator.Server.Watched.{IsWatched}
use exchange_simulator.Server.Flushing.{round_writes-Kept}
use exchange_simulator.Server.Sending.{
  Gone, Drains, Drains-map, Then, Then-map, OwnFits, taken_at, FailedAt, try_send-Drains,
}

-- A call after another.
chain :
    (P Q : Server → Type 0) (o : Outcome Server) (f : Server → Outcome Server)
    → Then P o
    → ((t : Server) → o ≡ returned t → P t → Then Q (f t))
    → Then Q (o >>= f)
chain P Q (returned t) f p g = g t refl p
chain P Q (threw e) f p g = tt
chain P Q undefined f p g = tt
chain P Q stuck f p g = tt

-- Every send that the loop makes for the client fits what it is still owed then. A result at which no
-- send is made, since the client has nothing to send, stands for none that takes bytes.
abbrev pub AllFit : ℕ → ℕ → (ℕ → SendResult) → List ℕ → Server → Type 0
AllFit fd i results [] s = Unit
AllFit fd i results (j ∷ js) s =
    OwnFits j fd (results i) s
    × ((t : Server) → try_send j (results i) s ≡ returned t → AllFit fd (i + 1) results js t)

-- The bytes that the loop's calls for the client take, of which there is one for each time that it is
-- among the pending descriptors.
abbrev pub taken_for : ℕ → ℕ → (ℕ → SendResult) → List ℕ → ℕ
taken_for fd i results [] = 0
taken_for fd i results (j ∷ js) = taken_at fd j (results i) + taken_for fd (i + 1) results js

-- One of the calls for the client finds that the peer is lost.
abbrev pub AnyFailed : ℕ → ℕ → (ℕ → SendResult) → List ℕ → Type 0
AnyFailed fd i results [] = ⊥
AnyFailed fd i results (j ∷ js) = FailedAt fd j (results i) ⊎ AnyFailed fd (i + 1) results js

flush_from-Drains :
    {F : Type 0} (fd i k : ℕ) (results : ℕ → SendResult) (js : List ℕ) (s : Server) (bytes : List ℕ)
    → AllFit fd i results js s
    → Drains s fd k F bytes
    → Then
        (λ t. Drains t fd (k + taken_for fd i results js) (F ⊎ AnyFailed fd i results js) bytes)
        (flush_from i results js s)
unfolding flush_from
flush_from-Drains fd i k results [] s bytes f h =
    Drains-map s fd k (k + 0) bytes (omega arith) inl h
flush_from-Drains {F} fd i k results (j ∷ js) s bytes (f, fs) h =
    chain (λ t. Drains t fd (k + taken_at fd j (results i)) (F ⊎ FailedAt fd j (results i)) bytes)
      (λ t.
        Drains t fd (k + taken_for fd i results (j ∷ js)) (F ⊎ AnyFailed fd i results (j ∷ js))
          bytes)
      (try_send j (results i) s) (flush_from (i + 1) results js)
      (try_send-Drains s j fd k (results i) bytes f h)
      λ t e p.
        Then-map _ _ (flush_from (i + 1) results js t)
          (λ u.
            Drains-map u fd (k + taken_at fd j (results i) + taken_for fd (i + 1) results js)
              (k + taken_for fd i results (j ∷ js)) bytes (omega arith) reason)
          (flush_from-Drains fd (i + 1) (k + taken_at fd j (results i)) results js t bytes (fs t e)
            p)
  where
    reason :
        (F ⊎ FailedAt fd j (results i)) ⊎ AnyFailed fd (i + 1) results js
        → F ⊎ AnyFailed fd i results (j ∷ js)
    reason (inl (inl x)) = inl x
    reason (inl (inr x)) = inr (inl x)
    reason (inr x) = inr (inr x)

-- The server keeps its invariant, and a connected client is owed some bytes. The messages of the
-- outbound ring are taken out, and the pending descriptors are flushed, with sends that take at least
-- one byte or none, and never more than they are given. The calls return, and the client is owed what
-- it was owed and behind it the payloads of the messages to it, in their order, less the first bytes,
-- as many as the sends for it have taken; or it has been disconnected, and one of the sends for it has
-- found that the peer is lost.
pub flush_pending_writes-Drains :
    (ms : List OutboundMessage) (results : ℕ → SendResult) (s : Server) (fd : ℕ) (bytes : List ℕ)
    → IsWatched s
    → Owes s fd bytes
    → (let t = drain_outbound_queue ms s in AllFit fd 0 results t.pending_writes t)
    → let js = (drain_outbound_queue ms s).pending_writes in
      (s' : Server) × (flush_pending_writes results (drain_outbound_queue ms s) ≡ returned s')
      × IsWatched s'
      × (Owes s' fd (drop (taken_for fd 0 results js) (bytes ++ bytes_for fd ms))
          ⊎ (Gone s' fd × AnyFailed fd 0 results js))
unfolding flush_pending_writes
flush_pending_writes-Drains ms results s fd bytes v h fits =
    let t = drain_outbound_queue ms s in
    let all = bytes ++ bytes_for fd ms in
    let n = taken_for fd 0 results t.pending_writes in
    let F = AnyFailed fd 0 results t.pending_writes in
    let kept = round_writes-Kept ms results s v in
    let owed =
      flush_from-Drains {F = ⊥} fd 0 0 results t.pending_writes t all fits
        (inl (drain_outbound_queue-Owes ms s fd bytes h)) in
    (
      kept.after,
      kept.returns,
      kept.watched_ok,
      subst (λ l. Drains kept.after fd l F all) (omega arith)
          (go (0 + n) F (flush_from 0 results t.pending_writes t) all owed kept.after kept.returns),
    )
  where
    emptied :
        (n : ℕ) (F : Type 0) (t : Server) (all : List ℕ)
        → Drains t fd n (⊥ ⊎ F) all
        → Drains (record t { pending_writes = [] }) fd n F all
    emptied n F t all (inl o) = inl (record {
      client = o.client;
      in_slot = o.in_slot;
      is_active = o.is_active;
      counted_right = o.counted_right;
      owed = o.owed;
    })
    emptied n F t all (inr (g, inl x)) = absurd x
    emptied n F t all (inr (g, inr x)) = inr (g, x)

    go :
        (n : ℕ) (F : Type 0) (o : Outcome Server) (all : List ℕ)
        → Then (λ t. Drains t fd n (⊥ ⊎ F) all) o
        → (s' : Server) → (do t ← o; returned (record t { pending_writes = [] })) ≡ returned s'
        → Drains s' fd n F all
    go n F (returned t) all p s' e = subst (λ u. Drains u fd n F all) (cc) (emptied n F t all p)
    go n F (threw x) all p s' e = absurd cc
    go n F undefined all p s' e = absurd cc
    go n F stuck all p s' e = absurd cc
