-- ===== src/Server/Watched.antt =====
-- The invariant of the server: epoll watches exactly the descriptors of the connected clients, whose
-- reading is within its buffers.
use exchange_simulator.Common.{
  ℕ, zero, suc, ◌<◌, ◌≡◌, ◌≢◌, refl, sym, ap, subst, inl, inr, List, [], ◌∷◌, Option, none, some,
  Bool, true, false, Bool-cases, ◌==◌, ==_iff, update, length, length-set, set, All, Outcome,
  returned, threw, undefined, stuck, arith,
}
use exchange_simulator.Server.{ClientState, Server, client_at, put_client}
use exchange_simulator.Server.Streams.{client_at-set_self, client_at-set_ne}
use exchange_simulator.Server.Delivery.{ReadOk}

-- What epoll's entry for a descriptor says of the slot of `clients_` with its number.
abbrev pub Slot : Option Bool → Outcome ClientState → Type 0
Slot (some b) (returned c) = (c.active ≡ true) × ReadOk c
Slot (some b) r = ⊥
Slot none (returned c) = c.active ≡ false
Slot none undefined = Unit
Slot none r = ⊥

pub record IsWatched (s : Server) : Type 0 where
  pub slots : (fd : ℕ) → Slot (s.watched fd) (client_at fd s.clients)
  pub pending_ok : All (λ fd. fd < length s.clients) s.pending_writes

-- A slot in range is defined.
pub client_there :
    (cs : List ClientState) (fd : ℕ)
    → fd < length cs
    → (c : ClientState) × (client_at fd cs ≡ returned c)
unfolding client_at
client_there [] fd h = absurd (omega arith)
client_there (c ∷ cs) zero h = (c, refl)
client_there (c ∷ cs) (suc fd) h = client_there cs fd (omega arith)

-- A watched descriptor is in range, and its client connected.
pub watched_client :
    (w : Option Bool) (r : Outcome ClientState)
    → Slot w r
    → (b : Bool) → w ≡ some b
    → (c : ClientState) × (r ≡ returned c) × (c.active ≡ true) × ReadOk c
watched_client (some x) (returned c) (a, ok) b e = (c, refl, a, ok)
watched_client (some x) (threw e') h b e = absurd h
watched_client (some x) undefined h b e = absurd h
watched_client (some x) stuck h b e = absurd h
watched_client none r h b e = cc

-- The connected client of a slot is watched.
pub active_watched :
    (w : Option Bool) (r : Outcome ClientState) (c : ClientState)
    → Slot w r
    → r ≡ returned c
    → c.active ≡ true
    → ((b : Bool) × (w ≡ some b)) × ReadOk c
active_watched (some b) (returned c') c (a, ok) e h = ((b, refl), subst ReadOk (cc) ok)
active_watched none (returned c') c a e h = absurd (cc)
active_watched none undefined c a e h = absurd (cc)
active_watched (some b) (threw x) c a e h = absurd a
active_watched (some b) undefined c a e h = absurd a
active_watched (some b) stuck c a e h = absurd a
active_watched none (threw x) c a e h = absurd a
active_watched none stuck c a e h = absurd a

module _ (s : Server) (v : IsWatched s) (fd : ℕ) (c' : ClientState) where
  -- A change of one slot, and of its entry.
  change-Slot :
      (w : Option Bool) (id : ℕ)
      → fd < length s.clients
      → Slot w (returned c')
      → Slot (update s.watched fd w id) (client_at id (set s.clients fd c'))
  change-Slot w id h new = elim (Bool-cases (id == fd)) [
    | inl same ↦
        let e : id ≡ fd = (==_iff id fd).0 same in
        let (c, old) = client_there s.clients fd h in
        rw (same, e, client_at-set_self s.clients fd c' c old) new
    | inr other ↦
        let ne : fd ≢ id = λ e. cc (other, (==_iff id fd).1 (sym e)) in
        rw (other, client_at-set_ne s.clients fd id c' ne) (v.slots id)
  ]

  pub change-IsWatched :
      (s' : Server) (w : Option Bool)
      → fd < length s.clients
      → s'.clients ≡ set s.clients fd c'
      → s'.watched ≡ update s.watched fd w
      → s'.pending_writes ≡ s.pending_writes
      → Slot w (returned c')
      → IsWatched s'
  change-IsWatched s' w h e f g new = record {
    slots = λ id. rw (e, f) (change-Slot w id h new);
    pending_ok = rw (e, g, length-set s.clients fd c') v.pending_ok;
  }

  same_entry : (m : ℕ → Option Bool) (i : ℕ) → (j : ℕ) → update m i (m i) j ≡ m j
  same_entry m i j = elim (Bool-cases (j == i)) [
    | inl same ↦ rw same (ap m (sym ((==_iff j i).0 same)))
    | inr other ↦ rw other
  ]

  -- A change of one slot alone.
  pub put-IsWatched :
      fd < length s.clients → Slot (s.watched fd) (returned c') → IsWatched (put_client fd c' s)
  put-IsWatched h new = record {
    slots = λ id. rw (← same_entry s.watched fd id) (change-Slot (s.watched fd) id h new);
    pending_ok = rw (length-set s.clients fd c') v.pending_ok;
  }
