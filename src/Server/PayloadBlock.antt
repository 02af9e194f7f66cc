-- ===== src/Server/PayloadBlock.antt =====
-- What the second block of `handle_read`'s loop does: the bytes of a payload, and the push.
use exchange_simulator.Common.{
  ℕ, zero, suc, ◌+◌, ◌-◌, ◌<◌, ◌≤◌, ◌≡◌, refl, sym, ap, ap₂, ◌∙◌, subst, inl, inr, List, [], ◌∷◌,
  ◌++◌, append-nil, true, false, Bool-cases, ltb, length, length-take, take, arith, take_front,
}
use exchange_simulator.Memory.{store}
use exchange_simulator.Memory.Laws.{store_inside}
use exchange_simulator.Socket.{
  RecvResult, received, closed, would_block, failed, Socket, IsRecv, LastRecv, IsLost, IsPause,
  last_recv,
}
use exchange_simulator.Server.{payload, ClientState}
use exchange_simulator.Server.Reading.{
  Reading, inbound_message, push_message, payload_stored, payload_result, payload_block,
}
use exchange_simulator.Server.Framing.{message_found, feed_all, payload_fed, feed_all-payload}
use exchange_simulator.Server.Delivery.{
  PhaseOk, ReadOk, parser_of, held, Follows, unchanged, FlowOk, FlowOk-trans, AtHeader, payload_ok,
  payload_parser, payload_held,
}

module _ {S : Type 0} (k : Socket S) (fd : ℕ) where
  push_message-ok :
      (room : ℕ) (r : Reading S)
      → r.client.read_phase ≡ payload
      → ReadOk r.client
      → ltb r.client.bytes_read r.client.payload_length ≡ false
      → r.room ≡ room
      → FlowOk k fd (AtHeader k fd) r (push_message fd room r)
  unfolding feed_all
  push_message-ok zero r e ok whole f =
      (unchanged k fd r r refl refl refl ok, inr (f, payload_held k fd r.client e ∙ rw whole))
  push_message-ok (suc room) r e ok whole f = (
    record {
      bytes = [];
      new = [];
      drawn = refl;
      parsed =
          ap (λ q. record { parser = q; messages = [] })
            (payload_parser k fd r.client e ∙ rw whole);
      delivered =
          append-nil _
          ∙ sym (append-nil _ ∙ ap (λ q. r.inbound ++ q) (payload_held k fd r.client e ∙ rw whole));
      ok = record { header_size = ok.header_size; phase_ok = omega arith };
      same_active = refl;
    },
    refl,
  )

  payload_received :
      (xs : List ℕ) (r : Reading S) (s : S)
      → r.client.read_phase ≡ payload
      → ReadOk r.client
      → ltb r.client.bytes_read r.client.payload_length ≡ true
      → 0 < length xs
      → length xs ≤ r.client.payload_length - r.client.bytes_read
      → k.pending r.socket ≡ xs ++ k.pending s
      → (length xs < r.client.payload_length - r.client.bytes_read → LastRecv k IsPause s)
      → FlowOk k fd (AtHeader k fd) r (
          payload_stored fd
            (length xs)
            (store r.client.bytes_read xs r.client.read_buffer)
            (record r { socket = s }))
  payload_received xs r s e ok partial some_bytes fit p short =
      let c = r.client in
      let n = c.bytes_read + length xs in
      let (has_payload, within, sized) = payload_ok k fd c e ok in
      let below : c.bytes_read < c.payload_length = ground arith in
      let (buffer, stored, size, read) = store_inside c.bytes_read xs c.read_buffer (omega arith) in
      let here : length (take c.bytes_read c.read_buffer) ≡ c.bytes_read =
        length-take c.bytes_read c.read_buffer (omega arith) in
      let fed : feed_all fd xs (parser_of c)
          ≡ payload_fed fd c.message_type c.payload_length n (take n buffer) =
        ap (feed_all fd xs) (payload_parser k fd c e ∙ rw partial)
        ∙ feed_all-payload fd c.message_type c.payload_length n xs (take c.bytes_read c.read_buffer)
            some_bytes (omega (arith, here)) (omega arith)
        ∙ ap (payload_fed fd c.message_type c.payload_length n) (sym read) in
      let none_held : held fd c ≡ [] = payload_held k fd c e ∙ rw partial in
      let c' : ClientState = record c { read_buffer = buffer; bytes_read = n } in
      let ok' : ReadOk c' = record {
        header_size = ok.header_size;
        phase_ok = subst (λ q. PhaseOk q c') (sym e) (has_payload, omega arith, size ∙ sized);
      } in
      rw stored (elim (Bool-cases (ltb n c.payload_length)) [
        | inl more ↦ rw more (
          record {
            bytes = xs;
            new = [];
            drawn = p;
            parsed =
                fed
                ∙ rw more (
                    ap (λ q. record { parser = q; messages = [] })
                      (sym (payload_parser k fd c' e ∙ rw more)));
            delivered =
                ap (λ q. r.inbound ++ q) (payload_held k fd c' e ∙ rw more (sym none_held))
                ∙ sym (append-nil _);
            ok = ok';
            same_active = refl;
          },
          inl (payload_held k fd c' e ∙ rw more, short (ground arith)),
        )
        | inr whole ↦
            let all : take n buffer ≡ buffer =
              ap (take n) (sym (append-nil buffer))
              ∙ take_front n buffer [] (ground (arith, size, sized)) in
            let r' : Reading S = record r { client = c'; socket = s } in
            let whole_read : Follows k fd r r' = record {
              bytes = xs;
              new = inbound_message fd c' ∷ [];
              drawn = p;
              parsed =
                  fed
                  ∙ rw whole (
                      ap₂ (λ q m. record { parser = q; messages = m ∷ [] })
                        (sym (payload_parser k fd c' e ∙ rw whole))
                        (ap (message_found fd c.message_type) all));
              delivered =
                  ap (λ q. r.inbound ++ q) (payload_held k fd c' e ∙ rw whole)
                  ∙ ap (λ q. q ++ inbound_message fd c' ∷ [])
                      (sym (append-nil r.inbound) ∙ ap (λ q. r.inbound ++ q) (sym none_held));
              ok = ok';
              same_active = refl;
            } in
            rw whole (
              FlowOk-trans k fd (AtHeader k fd) r r' (push_message fd r.room r') whole_read
                (push_message-ok r.room r' e ok' whole refl))
      ])

  pub payload_block-ok :
      (r : Reading S)
      → r.client.read_phase ≡ payload
      → ReadOk r.client
      → FlowOk k fd (AtHeader k fd) r (payload_block k fd payload r)
  payload_block-ok r e ok = elim (Bool-cases (ltb r.client.bytes_read r.client.payload_length)) [
    | inr whole ↦ rw whole (push_message-ok r.room r e ok whole refl)
    | inl partial ↦ rw partial (
        let some_asked : 0 < want = ground (arith, payload_ok k fd r.client e ok) in
        by_result partial some_asked (k.recv want r.socket).0 refl
          (k.recv_lem want r.socket some_asked))
  ]
    where
      want : ℕ
      want = r.client.payload_length - r.client.bytes_read

      s : S
      s = (k.recv want r.socket).1

      by_result :
          ltb r.client.bytes_read r.client.payload_length ≡ true
          → 0 < want
          → (x : RecvResult) → (k.recv want r.socket).0 ≡ x
          → IsRecv want x (k.pending r.socket) (k.pending s)
          → FlowOk k fd (AtHeader k fd) r (payload_result fd x (record r { socket = s }))
      by_result partial h (received []) q (some_bytes, fit, p) = absurd (omega arith)
      by_result partial h (received (y ∷ ys)) q (some_bytes, fit, p) =
          payload_received (y ∷ ys) r s e ok partial some_bytes fit p
            λ less. last_recv k IsPause want r.socket (received (y ∷ ys)) h q less
      by_result partial h closed q p =
          (unchanged k fd r _ refl refl p ok, last_recv k IsLost want r.socket closed h q tt)
      by_result partial h would_block q p = (
        unchanged k fd r _ refl refl p ok,
        inl (
          payload_held k fd r.client e ∙ rw partial,
          last_recv k IsPause want r.socket would_block h q tt,
        ),
      )
      by_result partial h failed q p =
          (unchanged k fd r _ refl refl p ok, last_recv k IsLost want r.socket failed h q tt)
