-- ===== src/Server/Repeated.antt =====
-- Calls of `handle_read` for one client, one after another: what they deliver of the frames sent.
use exchange_simulator.Common.{
  ℕ, ◌+◌, ◌≡◌, refl, sym, ap, ap₂, ◌∙◌, inl, inr, List, [], ◌∷◌, ◌++◌, append_assoc, map, true,
  false, length, take, All, Outcome, returned, arith, ◌>>=◌,
}
use exchange_simulator.Types.{Message, InboundMessage}
use exchange_simulator.Socket.{Socket, LastRecv, IsLost}
use exchange_simulator.Server.{
  header, ClientState, new_client, Server, client_at, put_client, disconnect_client,
}
use exchange_simulator.Server.Streams.{client_at-set_self}
use exchange_simulator.Server.Reading.{Reading, handle_read}
use exchange_simulator.Server.Framing.{at_header, feed_all, feed_all-append}
use exchange_simulator.Server.Delivery.{
  ReadOk, parser_of, held, Follows, header_parser, header_held,
}
use exchange_simulator.Server.ReadLoop.{start_reading, handle_read_lem}
use exchange_simulator.Server.Delivered.{IsFramed, frames, inbound_of, with_payload, frames-feed}

-- Where a client stands: its slot, its socket, and the messages pushed to the inbound ring so far.
pub record Position (S : Type 0) : Type 0 where
  pub server : Server
  pub socket : S
  pub inbound : List InboundMessage

module _ {S : Type 0} (k : Socket S) (fd : ℕ) where
  abbrev pub one_call : ℕ → Position S → Outcome (Server × Reading S)
  one_call room p =
      handle_read k fd (length (k.pending p.socket) + 2) p.socket p.inbound room p.server

  abbrev pub position : Server × Reading S → Position S
  position (s, r) = record { server = s; socket = r.socket; inbound = r.inbound }

  -- A call for each of some rooms of the ring.
  abbrev pub handle_reads : List ℕ → Position S → Outcome (Position S)
  handle_reads [] p = returned p
  handle_reads (room ∷ rooms) p = do out ← one_call room p; handle_reads rooms (position out)

  -- The messages in the bytes still to come, behind the one that is held back.
  abbrev pub to_deliver : ClientState → S → List InboundMessage
  to_deliver c socket = held fd c ++ (feed_all fd (k.pending socket) (parser_of c)).messages

  -- The pushed messages are the first ones of `total`. While the client is connected, the rest are
  -- those still to be delivered; it is disconnected only by a `recv`, the last one on its socket, that
  -- has found that the peer has closed, or has failed.
  pub data Stands (total : List InboundMessage) (p : Position S) : Type 0 where
    reading :
        (c : ClientState)
        → client_at fd p.server.clients ≡ returned c
        → c.active ≡ true
        → ReadOk c
        → p.inbound ++ to_deliver c p.socket ≡ total
        → Stands total p
    gone :
        (c : ClientState) (rest : List InboundMessage)
        → client_at fd p.server.clients ≡ returned c
        → c.active ≡ false
        → LastRecv k IsLost p.socket
        → p.inbound ++ rest ≡ total
        → Stands total p

  Follows-total :
      (total : List InboundMessage) (r r' : Reading S)
      → Follows k fd r r'
      → r.inbound ++ to_deliver r.client r.socket ≡ total
      → r'.inbound ++ to_deliver r'.client r'.socket ≡ total
  Follows-total total r r' f e =
      let later = (feed_all fd (k.pending r'.socket) (parser_of r'.client)).messages in
      let found : (feed_all fd (k.pending r.socket) (parser_of r.client)).messages
          ≡ f.new ++ later =
        ap (λ b. (feed_all fd b (parser_of r.client)).messages) f.drawn
        ∙ ap (λ x. x.messages)
            (feed_all-append fd f.bytes (k.pending r'.socket) (parser_of r.client))
        ∙ rw f.parsed in
      sym (append_assoc r'.inbound (held fd r'.client) later)
      ∙ ap (λ x. x ++ later) f.delivered
      ∙ append_assoc (r.inbound ++ held fd r.client) f.new later
      ∙ ap (λ x. (r.inbound ++ held fd r.client) ++ x) (sym found)
      ∙ append_assoc r.inbound (held fd r.client) _
      ∙ e

  one_call-Stands :
      (total : List InboundMessage) (room : ℕ) (p : Position S)
      → Stands total p
      → (out : Server × Reading S) × (one_call room p ≡ returned out) × Stands total (position out)
  unfolding handle_read
  one_call-Stands total room p (gone c rest e a l m) =
      let r = start_reading k fd c p.socket p.inbound room in
      ((p.server, r), rw (e, a), gone c rest e a l m)
  one_call-Stands total room p (reading c e a ok m) =
      let s = p.server in
      let out =
        handle_read_lem k fd (length (k.pending p.socket) + 2) room s c p.socket p.inbound e a ok
          (omega arith) in
      let r = out.reading in
      let f = out.follows in
      let m' = Follows-total total (start_reading k fd c p.socket p.inbound room) r f m in
      elim out.ends [
        | inl (x, _) ↦ (
          (put_client fd r.client s, r),
          x,
          reading r.client (client_at-set_self s.clients fd r.client c e) (f.same_active ∙ a) f.ok
              m',
        )
        | inr (x, l) ↦ (
          (disconnect_client fd s, r),
          x,
          gone new_client (to_deliver r.client r.socket)
              (client_at-set_self s.clients fd new_client c e) refl l m',
        )
      ]

  -- Calls end, and keep where the client stands.
  handle_reads-Stands :
      (total : List InboundMessage) (rooms : List ℕ) (p : Position S)
      → Stands total p
      → (p' : Position S) × (handle_reads rooms p ≡ returned p') × Stands total p'
  handle_reads-Stands total [] p st = (p, refl, st)
  handle_reads-Stands total (room ∷ rooms) p st =
      let (out, e, st') = one_call-Stands total room p st in
      let (p', e', st'') = handle_reads-Stands total rooms (position out) st' in
      (p', ap (λ o. o >>= λ out. handle_reads rooms (position out)) e ∙ e', st'')

  pub handle_reads-frames :
      (rooms : List ℕ) (p : Position S) (c : ClientState) (ms : List Message)
      → client_at fd p.server.clients ≡ returned c
      → c.active ≡ true
      → ReadOk c
      → c.read_phase ≡ header
      → c.bytes_read ≡ 0
      → All IsFramed ms
      → k.pending p.socket ≡ frames ms
      → (p' : Position S) × (handle_reads rooms p ≡ returned p')
        × Stands (p.inbound ++ map (inbound_of fd) (with_payload ms)) p'
  handle_reads-frames rooms p c ms e a ok ph z fs sent =
      let begins : parser_of c ≡ at_header [] =
        header_parser k fd c ph ∙ ap (λ n. at_header (take n c.header_buffer)) z in
      let all : to_deliver c p.socket ≡ map (inbound_of fd) (with_payload ms) =
        ap₂ (λ h b. h ++ (feed_all fd b (parser_of c)).messages) (header_held k fd c ph) sent
        ∙ ap (λ q. (feed_all fd (frames ms) q).messages) begins
        ∙ ap (λ x. x.messages) (frames-feed fd ms fs) in
      handle_reads-Stands (p.inbound ++ map (inbound_of fd) (with_payload ms)) rooms p
        (reading c e a ok (ap (λ x. p.inbound ++ x) all))
