-- ===== src/Server/HeaderBlock.antt =====
-- What the first block of `handle_read`'s loop does: the bytes of a header.
use exchange_simulator.Common.{
  ℕ, ◌+◌, ◌-◌, ◌<◌, ◌≤◌, ◌≡◌, refl, sym, ap, ◌∙◌, subst, inl, inr, List, [], ◌∷◌, ◌++◌, append-nil,
  true, Bool-cases, ltb, ◌==◌, length, length-append, length-take, take, arith, take_front,
}
use exchange_simulator.Memory.{store}
use exchange_simulator.Memory.Laws.{store_inside, length-resize}
use exchange_simulator.Socket.{
  RecvResult, received, closed, would_block, failed, Socket, IsRecv, LastRecv, IsLost, IsPause,
  last_recv,
}
use exchange_simulator.Server.{header, ClientState}
use exchange_simulator.Server.Reading.{
  Reading, header_length, parse_header, header_stored, header_result, header_block,
}
use exchange_simulator.Server.Framing.{whole_header, feed_all, header_fed, feed_all-header}
use exchange_simulator.Server.Delivery.{
  PhaseOk, ReadOk, parser_of, held, unchanged, FlowOk, Drew, header_ok, header_parser, header_held,
}

module _ {S : Type 0} (k : Socket S) (fd : ℕ) where
  parse_header-parser :
      (c : ClientState) → parser_of (parse_header c) ≡ whole_header c.header_buffer
  parse_header-parser c = elim (Bool-cases (header_length c.header_buffer == 0)) [
    | inl e ↦ rw e
    | inr e ↦ let more : ltb 0 (header_length c.header_buffer) ≡ true = ground arith in rw (e, more)
  ]

  parse_header-held : (c : ClientState) → held fd (parse_header c) ≡ []
  parse_header-held c = elim (Bool-cases (header_length c.header_buffer == 0)) [
    | inl e ↦ rw e
    | inr e ↦ let more : ltb 0 (header_length c.header_buffer) ≡ true = ground arith in rw (e, more)
  ]

  parse_header-ReadOk : (c : ClientState) → length c.header_buffer ≡ 5 → ReadOk (parse_header c)
  parse_header-ReadOk c h = record {
    header_size = h;
    phase_ok = elim (Bool-cases (header_length c.header_buffer == 0)) [
      | inl e ↦ rw e (omega arith)
      | inr e ↦ rw e (ground arith, omega arith, length-resize _ c.read_buffer)
    ];
  }

  header_received :
      (xs : List ℕ) (r : Reading S) (s : S)
      → r.client.read_phase ≡ header
      → ReadOk r.client
      → 0 < length xs
      → length xs ≤ 5 - r.client.bytes_read
      → k.pending r.socket ≡ xs ++ k.pending s
      → (length xs < 5 - r.client.bytes_read → LastRecv k IsPause s)
      → FlowOk k fd (Drew k fd r) r (
          header_stored
            (length xs)
            (store r.client.bytes_read xs r.client.header_buffer)
            (record r { socket = s }))
  header_received xs r s e ok some_bytes fit p short =
      let c = r.client in
      let n = c.bytes_read + length xs in
      let below = header_ok k fd c e ok in
      let (buffer, stored, size, read) =
        store_inside c.bytes_read xs c.header_buffer (omega (arith, ok.header_size)) in
      let here : length (take c.bytes_read c.header_buffer) ≡ c.bytes_read =
        length-take c.bytes_read c.header_buffer (omega (arith, ok.header_size)) in
      let fed : feed_all fd xs (parser_of c) ≡ header_fed fd n (take n buffer) =
        ap (feed_all fd xs) (header_parser k fd c e)
        ∙ feed_all-header fd n xs (take c.bytes_read c.header_buffer) some_bytes
            (omega (arith, here)) (omega arith)
        ∙ ap (header_fed fd n) (sym read) in
      let none_held : held fd c ≡ [] = header_held k fd c e in
      let c' : ClientState = record c { header_buffer = buffer; bytes_read = n } in
      rw stored (elim (Bool-cases (ltb n 5)) [
        | inl more ↦ rw more (
          record {
            bytes = xs;
            new = [];
            drawn = p;
            parsed =
                fed
                ∙ rw more (
                    ap (λ q. record { parser = q; messages = [] }) (sym (header_parser k fd c' e)));
            delivered =
                ap (λ q. r.inbound ++ q) (header_held k fd c' e ∙ sym none_held)
                ∙ sym (append-nil _);
            ok = record {
              header_size = size ∙ ok.header_size;
              phase_ok = subst (λ q. PhaseOk q c') (sym e) (ground arith);
            };
            same_active = refl;
          },
          inl (header_held k fd c' e, short (ground arith)),
        )
        | inr whole ↦
            let all : take n buffer ≡ buffer =
              ap (take n) (sym (append-nil buffer))
              ∙ take_front n buffer [] (ground (arith, ok.header_size, size)) in
            rw whole (
              record {
                bytes = xs;
                new = [];
                drawn = p;
                parsed =
                    fed
                    ∙ rw whole (
                        ap (λ q. record { parser = q; messages = [] })
                          (ap whole_header all ∙ sym (parse_header-parser c')));
                delivered =
                    ap (λ q. r.inbound ++ q) (parse_header-held c' ∙ sym none_held)
                    ∙ sym (append-nil _);
                ok = parse_header-ReadOk c' (size ∙ ok.header_size);
                same_active = refl;
              },
              omega (arith, ap length p, length-append xs (k.pending s)),
            )
      ])

  pub header_block-ok :
      (r : Reading S)
      → r.client.read_phase ≡ header
      → ReadOk r.client
      → FlowOk k fd (Drew k fd r) r (header_block k fd header r)
  header_block-ok r e ok =
      by_result (k.recv want r.socket).0 refl (k.recv_lem want r.socket some_asked)
    where
      want : ℕ
      want = 5 - r.client.bytes_read

      some_asked : 0 < want
      some_asked = omega (arith, header_ok k fd r.client e ok)

      s : S
      s = (k.recv want r.socket).1

      by_result :
          (x : RecvResult)
          → (k.recv want r.socket).0 ≡ x
          → IsRecv want x (k.pending r.socket) (k.pending s)
          → FlowOk k fd (Drew k fd r) r (header_result x (record r { socket = s }))
      by_result (received []) q (some_bytes, fit, p) = absurd (omega arith)
      by_result (received (y ∷ ys)) q (some_bytes, fit, p) =
          header_received (y ∷ ys) r s e ok some_bytes fit p
            λ less. last_recv k IsPause want r.socket (received (y ∷ ys)) some_asked q less
      by_result closed q p = (
        unchanged k fd r _ refl refl p ok,
        last_recv k IsLost want r.socket closed some_asked q tt,
      )
      by_result would_block q p = (
        unchanged k fd r _ refl refl p ok,
        inl (
          header_held k fd r.client e,
          last_recv k IsPause want r.socket would_block some_asked q tt,
        ),
      )
      by_result failed q p = (
        unchanged k fd r _ refl refl p ok,
        last_recv k IsLost want r.socket failed some_asked q tt,
      )
