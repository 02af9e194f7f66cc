-- ===== src/Network/Exact.antt =====
-- `read_exact` ends, and what it has read.
use exchange_simulator.Common.{
  ℕ, zero, suc, ◌+◌, ◌-◌, ◌<◌, ◌≤◌, ◌≡◌, refl, sym, ap, ◌∙◌, ◌⊎◌, inl, inr, List, [], ◌∷◌, ◌++◌,
  append-nil, append_assoc, true, false, Bool-cases, ltb, length, length-append, take, Outcome,
  returned, arith,
}
use exchange_simulator.Memory.Laws.{store_inside}
use exchange_simulator.Socket.{
  RecvResult, received, closed, would_block, failed, Socket, IsRecv, LastRecv, IsNothing, last_recv,
}
use exchange_simulator.Network.{Read, after_recv, read_more, read_exact}

module _ {S : Type 0} (k : Socket S) where
  -- The call returns; it has received `bytes`, and if it succeeds then they are the rest of the first
  -- `n` bytes of the buffer, which is as long as before; if it does not, its last `recv`, which asked
  -- for some bytes, has returned none.
  pub record Reads (n total : ℕ) (buffer : List ℕ) (s : S) (out : Outcome (Read (List ℕ) S))
      : Type 0 where
    pub result : Read (List ℕ) S
    pub returns : out ≡ returned result
    pub bytes : List ℕ
    pub drawn : k.pending s ≡ bytes ++ k.pending result.socket
    pub same_length : length result.target ≡ length buffer
    pub ends :
        ((result.success ≡ true)
          × (total + length bytes ≡ n)
          × (take n result.target ≡ take total buffer ++ bytes))
        ⊎ ((result.success ≡ false) × LastRecv k IsNothing result.socket)

  -- The call has not succeeded, and has received nothing more.
  stops :
      (n total : ℕ) (buffer : List ℕ) (s s' : S)
      → k.pending s ≡ k.pending s'
      → LastRecv k IsNothing s'
      → Reads n total buffer s (returned (record { success = false; target = buffer; socket = s' }))
  stops n total buffer s s' e l = record {
    result = record { success = false; target = buffer; socket = s' };
    returns = refl;
    bytes = [];
    drawn = e;
    same_length = refl;
    ends = inr (refl, l);
  }

  after_recv-Reads :
      (n total : ℕ) (buffer : List ℕ) (s s' : S) (more : ℕ → List ℕ → Outcome (Read (List ℕ) S))
      (r : RecvResult)
      → total < n
      → n ≤ length buffer
      → IsRecv (n - total) r (k.pending s) (k.pending s')
      → (IsNothing (n - total) r → LastRecv k IsNothing s')
      → ((total' : ℕ) (buffer' : List ℕ)
          → total < total'
          → total' ≤ n
          → length buffer' ≡ length buffer
          → Reads n total' buffer' s' (more total' buffer'))
      → Reads n total buffer s (after_recv r total buffer s' more)
  after_recv-Reads n total buffer s s' more (received []) h l v q f = absurd (omega (arith, v.0))
  after_recv-Reads n total buffer s s' more (received (x ∷ xs)) h l (a, b, c) q f =
      let (written, e, size, front) = store_inside total (x ∷ xs) buffer (omega arith) in
      let g = f (total + length (x ∷ xs)) written (omega arith) (omega arith) size in
      rw e (record {
        result = g.result;
        returns = g.returns;
        bytes = (x ∷ xs) ++ g.bytes;
        drawn = c ∙ ap (λ p. (x ∷ xs) ++ p) g.drawn ∙ sym (append_assoc (x ∷ xs) g.bytes _);
        same_length = g.same_length ∙ size;
        ends = elim g.ends [
          | inl (good, all, full) ↦ inl (
            good,
            omega (arith, all, length-append (x ∷ xs) g.bytes),
            full ∙ ap (λ p. p ++ g.bytes) front ∙ append_assoc (take total buffer) (x ∷ xs) g.bytes,
          )
          | inr bad ↦ inr bad
        ];
      })
  after_recv-Reads n total buffer s s' more closed h l v q f = stops n total buffer s s' v (q tt)
  after_recv-Reads n total buffer s s' more would_block h l v q f =
      stops n total buffer s s' v (q tt)
  after_recv-Reads n total buffer s s' more failed h l v q f = stops n total buffer s s' v (q tt)

  read_more-Reads :
      (fuel n total : ℕ) (buffer : List ℕ) (s : S)
      → total ≤ n
      → n ≤ length buffer
      → n - total < fuel
      → Reads n total buffer s (read_more k fuel n total buffer s)
  unfolding read_more
  read_more-Reads zero n total buffer s h l enough = absurd (omega arith)
  read_more-Reads (suc fuel) n total buffer s h l enough = elim (Bool-cases (ltb total n)) [
    | inl more ↦
        let less : total < n = ground arith in
        let out = k.recv (n - total) s in
        rw more (
          after_recv-Reads n total buffer s out.1 _ out.0 less l
            (k.recv_lem (n - total) s (omega arith))
            (λ x. last_recv k IsNothing (n - total) s out.0 (omega arith) refl x)
            λ total' buffer' a b c.
              read_more-Reads fuel n total' buffer' out.1 b (omega arith) (omega arith))
    | inr whole ↦
        let e : total ≡ n = ground arith in
        rw whole (record {
          result = record { success = true; target = buffer; socket = s };
          returns = refl;
          bytes = [];
          drawn = refl;
          same_length = refl;
          ends = inl (
            refl,
            omega arith,
            ap (λ m. take m buffer) (sym e) ∙ sym (append-nil (take total buffer)),
          );
        })
  ]

  -- A call of `read_exact` for at most as many bytes as the buffer has ends, and it writes to no
  -- place outside of the buffer. If it returns true then the first `n` bytes of the buffer are the
  -- next `n` bytes of the stream, and no more are taken from it; it returns false only if a `recv` that
  -- asked for some bytes has returned none.
  pub read_exact_lem :
      (n : ℕ) (buffer : List ℕ) (s : S)
      → n ≤ length buffer
      → Reads n 0 buffer s (read_exact k buffer n s)
  read_exact_lem n buffer s l = read_more-Reads (suc n) n 0 buffer s (omega arith) l (omega arith)
