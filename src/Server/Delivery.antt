-- ===== src/Server/Delivery.antt =====
-- What one call of `handle_read` does with the bytes that it receives.
use exchange_simulator.Common.{
  ℕ, ◌<◌, ◌≤◌, ◌≡◌, sym, ap, ◌∙◌, subst, ◌⊎◌, List, [], ◌∷◌, ◌++◌, append-nil, append_assoc, ltb,
  if◌then◌else◌, length, take,
}
use exchange_simulator.Types.{InboundMessage}
use exchange_simulator.Socket.{Socket, LastRecv, IsLost, IsPause}
use exchange_simulator.Server.{ReadPhase, header, payload, ClientState}
use exchange_simulator.Server.Reading.{
  Reading, Flow, on, leaves, dropped, broken, spent, inbound_message,
}
use exchange_simulator.Server.Framing.{Parser, at_header, at_payload, feed_all, feed_all-append}

-- Where the reading of a client stands: within the five bytes of a header, or within a payload of
-- some bytes, all of which may be there.
abbrev pub PhaseOk : ReadPhase → ClientState → Type 0
PhaseOk header c = c.bytes_read < 5
PhaseOk payload c =
    (0 < c.payload_length)
    × (c.bytes_read ≤ c.payload_length)
    × (length c.read_buffer ≡ c.payload_length)

pub record ReadOk (c : ClientState) : Type 0 where
  pub header_size : length c.header_buffer ≡ 5
  pub phase_ok : PhaseOk c.read_phase c

-- The parser that a client's state stands for.
abbrev pub parser_in : ReadPhase → ClientState → Parser
parser_in header c = at_header (take c.bytes_read c.header_buffer)
parser_in payload c =
    if ltb c.bytes_read c.payload_length
    then at_payload c.message_type c.payload_length (take c.bytes_read c.read_buffer)
    else at_header []

abbrev pub parser_of : ClientState → Parser
parser_of c = parser_in c.read_phase c

-- A whole message that has found no room in the inbound ring.
abbrev pub held_in : ℕ → ReadPhase → ClientState → List InboundMessage
held_in fd header c = []
held_in fd payload c = if ltb c.bytes_read c.payload_length then [] else inbound_message fd c ∷ []

abbrev pub held : ℕ → ClientState → List InboundMessage
held fd c = held_in fd c.read_phase c

module _ {S : Type 0} (k : Socket S) (fd : ℕ) where
  -- From `r` to `r'`, some bytes have been received, and the messages in them have been pushed to
  -- the ring, behind the one that was held, but for one that is held now.
  pub record Follows (r r' : Reading S) : Type 0 where
    pub bytes : List ℕ
    pub new : List InboundMessage
    pub drawn : k.pending r.socket ≡ bytes ++ k.pending r'.socket
    pub parsed :
        feed_all fd bytes (parser_of r.client)
        ≡ record { parser = parser_of r'.client; messages = new }
    pub delivered : r'.inbound ++ held fd r'.client ≡ (r.inbound ++ held fd r.client) ++ new
    pub ok : ReadOk r'.client
    pub same_active : r'.client.active ≡ r.client.active

  pub Follows-trans : (r s t : Reading S) → Follows r s → Follows s t → Follows r t
  Follows-trans r s t f g = record {
    bytes = f.bytes ++ g.bytes;
    new = f.new ++ g.new;
    drawn = f.drawn ∙ ap (λ x. f.bytes ++ x) g.drawn ∙ sym (append_assoc f.bytes g.bytes _);
    parsed = feed_all-append fd f.bytes g.bytes (parser_of r.client) ∙ rw (f.parsed, g.parsed);
    delivered =
        g.delivered
        ∙ ap (λ x. x ++ g.new) f.delivered
        ∙ append_assoc (r.inbound ++ held fd r.client) f.new g.new;
    ok = g.ok;
    same_active = g.same_active ∙ f.same_active;
  }

  -- No byte is received, and the client and the ring stay as they are.
  pub unchanged :
      (r r' : Reading S)
      → r'.client ≡ r.client
      → r'.inbound ≡ r.inbound
      → k.pending r.socket ≡ k.pending r'.socket
      → ReadOk r.client
      → Follows r r'
  unfolding feed_all
  unchanged r r' e i p ok = record {
    bytes = [];
    new = [];
    drawn = p;
    parsed = rw e;
    delivered = rw (i, e, append-nil);
    ok = rw e ok;
    same_active = rw e;
  }

  -- The call pauses: a `recv` has just found no bytes, or fewer than asked for, and no message is
  -- held back; or the ring has no room, and the whole message at hand is held back.
  abbrev pub Settled : Reading S → Type 0
  Settled r =
      ((held fd r.client ≡ []) × LastRecv k IsPause r.socket)
      ⊎ ((r.room ≡ 0) × (held fd r.client ≡ inbound_message fd r.client ∷ []))

  -- A `recv` has just found that the peer has closed, or has failed.
  abbrev pub Lost : Reading S → Type 0
  Lost r = LastRecv k IsLost r.socket

  -- How a block may end that starts from `r`; `P` is what else holds where it goes on.
  abbrev pub FlowOk : (Reading S → Type 0) → Reading S → Flow S → Type 0
  FlowOk P r (on r') = Follows r r' × P r'
  FlowOk P r (leaves r') = Follows r r' × Settled r'
  FlowOk P r (dropped r') = Follows r r' × Lost r'
  FlowOk P r broken = ⊥
  FlowOk P r spent = ⊥

  -- Fewer bytes are still to come than were.
  abbrev pub Drew : Reading S → Reading S → Type 0
  Drew r r' = length (k.pending r'.socket) < length (k.pending r.socket)

  -- The call's next header begins.
  abbrev pub AtHeader : Reading S → Type 0
  AtHeader r = r.client.read_phase ≡ header

  pub FlowOk-trans :
      (P : Reading S → Type 0) (r s : Reading S) (f : Flow S)
      → Follows r s
      → FlowOk P s f
      → FlowOk P r f
  FlowOk-trans P r s (on t) a (b, p) = (Follows-trans r s t a b, p)
  FlowOk-trans P r s (leaves t) a (b, p) = (Follows-trans r s t a b, p)
  FlowOk-trans P r s (dropped t) a (b, p) = (Follows-trans r s t a b, p)
  FlowOk-trans P r s broken a b = b
  FlowOk-trans P r s spent a b = b

  pub header_ok : (c : ClientState) → c.read_phase ≡ header → ReadOk c → c.bytes_read < 5
  header_ok c e ok = subst (λ p. PhaseOk p c) e ok.phase_ok

  pub header_parser :
      (c : ClientState)
      → c.read_phase ≡ header
      → parser_of c ≡ at_header (take c.bytes_read c.header_buffer)
  header_parser c e = ap (λ p. parser_in p c) e

  pub header_held : (c : ClientState) → c.read_phase ≡ header → held fd c ≡ []
  header_held c e = ap (λ p. held_in fd p c) e

  pub payload_ok : (c : ClientState) → c.read_phase ≡ payload → ReadOk c → PhaseOk payload c
  payload_ok c e ok = subst (λ p. PhaseOk p c) e ok.phase_ok

  pub payload_parser :
      (c : ClientState) → c.read_phase ≡ payload → parser_of c ≡ parser_in payload c
  payload_parser c e = ap (λ p. parser_in p c) e

  pub payload_held : (c : ClientState) → c.read_phase ≡ payload → held fd c ≡ held_in fd payload c
  payload_held c e = ap (λ p. held_in fd p c) e
