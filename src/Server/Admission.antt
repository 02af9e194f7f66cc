-- ===== src/Server/Admission.antt =====
-- The accepting of clients keeps the invariant of `Watched`, and never loses a slot.
use exchange_simulator.Common.{
  ℕ, zero, suc, ◌+◌, ◌-◌, ◌*◌, max, ◌<◌, ◌≤◌, ◌≡◌, refl, ap, ◌∙◌, ◌⊎◌, inl, inr, List, [], ◌∷◌,
  ◌++◌, Option, none, some, Bool, true, false, Bool-cases, leb, length, length-append, length-set,
  length-replicate, replicate, All-map, Outcome, returned, threw, undefined, stuck, arith,
  Exception,
}
use exchange_simulator.Server.{ClientState, new_client, Server, client_at}
use exchange_simulator.Server.Delivery.{ReadOk}
use exchange_simulator.Server.Rounds.{
  AcceptResult, accepted, no_more, accept_failed, failed_accept, failed_fcntl, failed_register,
  grown, admit, accept_client,
}
use exchange_simulator.Server.Watched.{Slot, IsWatched, change-IsWatched}

-- A slot past the end that is made new.
pub Slot-replicate :
    (w : Option Bool) (n id : ℕ) → Slot w undefined → Slot w (client_at id (replicate n new_client))
unfolding client_at
Slot-replicate (some b) n id h = absurd h
Slot-replicate none zero id h = tt
Slot-replicate none (suc n) zero h = refl
Slot-replicate none (suc n) (suc id) h = Slot-replicate none n id tt

Slot-append :
    (cs : List ClientState) (w : Option Bool) (n id : ℕ)
    → Slot w (client_at id cs)
    → Slot w (client_at id (cs ++ replicate n new_client))
unfolding client_at
Slot-append [] w n id h = Slot-replicate w n id h
Slot-append (c ∷ cs) w n zero h = h
Slot-append (c ∷ cs) w n (suc id) h = Slot-append cs w n id h

grown-length :
    (fd : ℕ) (cs : List ClientState)
    → (fd < length (grown fd cs)) × (length cs ≤ length (grown fd cs))
grown-length fd cs =
    let n = max (length cs * 2) (fd + 1) - length cs in
    elim (Bool-cases (leb (length cs) fd)) [
      | inl out ↦ rw out (
          let e : length (cs ++ replicate n new_client) ≡ length cs + n =
            length-append cs _ ∙ ap (λ k. length cs + k) (length-replicate n new_client) in
          (ground (arith, e), omega (arith, e)))
      | inr inside ↦ rw inside (ground arith, omega arith)
    ]

grown-IsWatched :
    (fd : ℕ) (s : Server) → IsWatched s → IsWatched (record s { clients = grown fd s.clients })
grown-IsWatched fd s v = record {
  slots = λ id. elim (Bool-cases (leb (length s.clients) fd)) [
    | inl out ↦ rw out (Slot-append s.clients (s.watched id) _ id (v.slots id))
    | inr inside ↦ rw inside (v.slots id)
  ];
  pending_ok =
      All-map s.pending_writes (λ x p. omega (arith, p, (grown-length fd s.clients).1))
        v.pending_ok;
}

-- The invariant, and at least as many slots as there were.
pub record Grows (n : ℕ) (s : Server) : Type 0 where
  pub watched_ok : IsWatched s
  pub as_long : n ≤ length s.clients

admit-Grows : (fd n : ℕ) (s : Server) → Grows n s → Grows n (admit fd s)
admit-Grows fd n s g =
    let t : Server = record s { clients = grown fd s.clients } in
    let c : ClientState = record new_client { active = true } in
    let ok : ReadOk c = record { header_size = refl; phase_ok = omega arith } in
    record {
      watched_ok =
          change-IsWatched t (grown-IsWatched fd s g.watched_ok) fd c (admit fd s) (some false)
            (grown-length fd s.clients).0 refl refl refl (refl, ok);
      as_long =
          omega
            (arith, g.as_long, (grown-length fd s.clients).1, length-set (grown fd s.clients) fd c);
    }

abbrev pub AcceptFailure : Exception → Type 0
AcceptFailure e = (e ≡ failed_accept) ⊎ ((e ≡ failed_fcntl) ⊎ (e ≡ failed_register))

-- A call ends well, or it throws one of the three exceptions of `accept_client`.
abbrev pub Ended : Outcome (Unit {0}) → Type 0
Ended (returned x) = Unit
Ended (threw e) = AcceptFailure e
Ended undefined = ⊥
Ended stuck = ⊥

pub accept_client-Grows :
    (rs : List AcceptResult) (n : ℕ) (s : Server)
    → Grows n s
    → Ended (accept_client rs s).0 × Grows n (accept_client rs s).1
unfolding accept_client
accept_client-Grows [] n s g = (tt, g)
accept_client-Grows (no_more ∷ rs) n s g = (tt, g)
accept_client-Grows (accept_failed ∷ rs) n s g = (inl refl, g)
accept_client-Grows (accepted fd false b ∷ rs) n s g = (inr (inl refl), g)
accept_client-Grows (accepted fd true false ∷ rs) n s g = (inr (inr refl), g)
accept_client-Grows (accepted fd true true ∷ rs) n s g =
    accept_client-Grows rs n (admit fd s) (admit-Grows fd n s g)
