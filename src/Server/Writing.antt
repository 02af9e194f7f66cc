-- ===== src/Server/Writing.antt =====
-- The writing of the server keeps the invariant of `Watched`, and is never undefined.
use exchange_simulator.Common.{
  ℕ, ◌+◌, ◌<◌, ◌≡◌, refl, sym, subst, inl, inr, List, [], none, some, Bool, true, false, Bool-cases,
  ltb, ◌==◌, length, length-set, Outcome, returned, arith,
}
use exchange_simulator.Server.{
  ReadPhase, header, payload, ClientState, new_client, Server, SendResult, sent, nothing,
  would_block, failed, client_at, put_client, set_epoll_write, disconnect_client, is_empty,
  after_try_send, try_send, after_handle_write, handle_write,
}
use exchange_simulator.Server.Delivery.{PhaseOk, ReadOk}
use exchange_simulator.Server.Watched.{
  IsWatched, client_there, active_watched, change-IsWatched, put-IsWatched,
}

-- A state that a client begins with.
new_client-ReadOk : (b : Bool) → ReadOk (record new_client { active = b })
new_client-ReadOk b = record { header_size = refl; phase_ok = omega arith }

-- The reading of a client does not depend on its writing.
abbrev pub writing : List ℕ → ℕ → ClientState → ClientState
writing bytes n c = record c { write_buffer = bytes; bytes_sent = n; active = true }

writing-ReadOk : (bytes : List ℕ) (n : ℕ) (c : ClientState) → ReadOk c → ReadOk (writing bytes n c)
writing-ReadOk bytes n c ok = record {
  header_size = ok.header_size;
  phase_ok = go c.read_phase ok.phase_ok;
}
  where
    go : (p : ReadPhase) → PhaseOk p c → PhaseOk p (writing bytes n c)
    go header h = h
    go payload h = h

module _ (s : Server) (v : IsWatched s) (fd : ℕ) (h : fd < length s.clients) where
  pub disconnect_client-IsWatched : IsWatched (disconnect_client fd s)
  disconnect_client-IsWatched =
      change-IsWatched s v fd new_client (disconnect_client fd s) none h refl refl refl refl

  module _ (c : ClientState) (at : client_at fd s.clients ≡ returned c) (on : c.active ≡ true) where
    old : ((b : Bool) × (s.watched fd ≡ some b)) × ReadOk c
    old = active_watched (s.watched fd) (client_at fd s.clients) c (v.slots fd) at on

    -- A change of what is written to a connected client.
    module _ (bytes : List ℕ) (n : ℕ) where
      pub writing-IsWatched : IsWatched (put_client fd (writing bytes n c) s)
      writing-IsWatched =
          put-IsWatched s v fd (writing bytes n c) h
            (rw old.0.1 (refl, writing-ReadOk bytes n c old.1))

      write_client-IsWatched :
          IsWatched (put_client fd (record c { write_buffer = bytes; bytes_sent = n }) s)
      write_client-IsWatched =
          subst
            (λ b.
              IsWatched
                (put_client fd (record c { write_buffer = bytes; bytes_sent = n; active = b }) s))
            (sym on) writing-IsWatched

      epoll_client-IsWatched :
          (b : Bool)
          → IsWatched (
              set_epoll_write fd b
                (put_client fd (record c { write_buffer = bytes; bytes_sent = n }) s))
      epoll_client-IsWatched b =
          subst
            (λ a. IsWatched (
              set_epoll_write fd b
                (put_client fd (record c { write_buffer = bytes; bytes_sent = n; active = a }) s)))
            (sym on)
            (change-IsWatched s v fd (writing bytes n c) _ (some b) h refl refl refl
              (refl, writing-ReadOk bytes n c old.1))

    pub after_try_send-IsWatched : (r : SendResult) → IsWatched (after_try_send fd c r s)
    after_try_send-IsWatched (sent n) =
        elim (Bool-cases ((c.bytes_sent + n) == length c.write_buffer)) [
          | inl e ↦ rw e (write_client-IsWatched [] 0)
          | inr e ↦ rw e (epoll_client-IsWatched c.write_buffer (c.bytes_sent + n) true)
        ]
    after_try_send-IsWatched nothing = disconnect_client-IsWatched
    after_try_send-IsWatched would_block = v
    after_try_send-IsWatched failed = disconnect_client-IsWatched

    pub after_handle_write-IsWatched : (r : SendResult) → IsWatched (after_handle_write fd c r s)
    after_handle_write-IsWatched (sent n) =
        elim (Bool-cases (ltb (c.bytes_sent + n) (length c.write_buffer))) [
          | inl e ↦ rw e (write_client-IsWatched c.write_buffer (c.bytes_sent + n))
          | inr e ↦ rw e (epoll_client-IsWatched [] 0 false)
        ]
    after_handle_write-IsWatched nothing = disconnect_client-IsWatched
    after_handle_write-IsWatched would_block = v
    after_handle_write-IsWatched failed = disconnect_client-IsWatched

-- A call returns, keeps the invariant, and keeps the number of slots.
pub record Kept (s : Server) (out : Outcome Server) : Type 0 where
  pub after : Server
  pub returns : out ≡ returned after
  pub watched_ok : IsWatched after
  pub same_length : length after.clients ≡ length s.clients

after_try_send-length :
    (fd : ℕ) (c : ClientState) (r : SendResult) (s : Server)
    → length (after_try_send fd c r s).clients ≡ length s.clients
after_try_send-length fd c (sent n) s =
    elim (Bool-cases ((c.bytes_sent + n) == length c.write_buffer)) [
      | inl e ↦ rw e (length-set s.clients fd _)
      | inr e ↦ rw e (length-set s.clients fd _)
    ]
after_try_send-length fd c nothing s = length-set s.clients fd _
after_try_send-length fd c would_block s = refl
after_try_send-length fd c failed s = length-set s.clients fd _

after_handle_write-length :
    (fd : ℕ) (c : ClientState) (r : SendResult) (s : Server)
    → length (after_handle_write fd c r s).clients ≡ length s.clients
after_handle_write-length fd c (sent n) s =
    elim (Bool-cases (ltb (c.bytes_sent + n) (length c.write_buffer))) [
      | inl e ↦ rw e (length-set s.clients fd _)
      | inr e ↦ rw e (length-set s.clients fd _)
    ]
after_handle_write-length fd c nothing s = length-set s.clients fd _
after_handle_write-length fd c would_block s = refl
after_handle_write-length fd c failed s = length-set s.clients fd _

module _ (s : Server) (v : IsWatched s) (fd : ℕ) (h : fd < length s.clients) where
  stays : Kept s (returned s)
  stays = record { after = s; returns = refl; watched_ok = v; same_length = refl }

  pub try_send-Kept : (r : SendResult) → Kept s (try_send fd r s)
  unfolding try_send
  try_send-Kept r =
      let (c, e) = client_there s.clients fd h in
      rw e (elim (Bool-cases c.active) [
        | inr off ↦ rw off stays
        | inl on ↦ rw on (elim (Bool-cases (is_empty c.write_buffer)) [
          | inl none_left ↦ rw none_left stays
          | inr some_left ↦ rw some_left (record {
            after = after_try_send fd c r s;
            returns = refl;
            watched_ok = after_try_send-IsWatched s v fd h c e on r;
            same_length = after_try_send-length fd c r s;
          })
        ])
      ])

  pub handle_write-Kept : (r : SendResult) → Kept s (handle_write fd r s)
  unfolding handle_write
  handle_write-Kept r =
      let (c, e) = client_there s.clients fd h in
      rw e (elim (Bool-cases c.active) [
        | inr off ↦ rw off stays
        | inl on ↦ rw on (record {
          after = after_handle_write fd c r s;
          returns = refl;
          watched_ok = after_handle_write-IsWatched s v fd h c e on r;
          same_length = after_handle_write-length fd c r s;
        })
      ])
