-- ===== src/Server/Delivered.antt =====
-- Messages that are written as frames are found in the stream, and delivered as they were sent.
use exchange_simulator.Common.{
  ℕ, ◌%◌, ◌^◌, ◌<◌, ◌≡◌, refl, sym, ap, ◌∙◌, List, [], ◌∷◌, ◌++◌, append_assoc, map, length,
  length-append, take, drop, get_or, ◌==◌, All, arith, true, false, List-cases, inl, inr,
  if◌then◌else◌,
}
use exchange_simulator.Types.{
  IsByte, MessageType, new_order, cancel_order, order_ack, reject, trade, cancel_ack,
  unnamed_message, byte_of_message, message_of_byte, Message, InboundMessage,
}
use exchange_simulator.Memory.{bytes_of, value_of, htonl}
use exchange_simulator.Memory.Laws.{length-bytes_of, value_of-bytes_of, htonl-htonl, htonl-IsU32}
use exchange_simulator.Serializer.Frames.{frame}
use exchange_simulator.Server.Reading.{header_length}
use exchange_simulator.Server.Framing.{
  Parser, at_header, at_payload, whole_header, message_found, feed_all, feed_all-append,
  feed_all-header, feed_all-payload,
}

-- A message type that a byte holds: an enumerator, or a byte that is none.
abbrev pub TypeByte : MessageType → Type 0
TypeByte (unnamed_message b) = (6 < b) × IsByte b
TypeByte _ = Unit

-- A message that a frame can hold, an empty one included.
pub record IsFramed (m : Message) : Type 0 where
  pub type_byte : TypeByte m.type
  pub few_bytes : length m.payload < 2 ^ 32

message_of_byte-byte_of_message :
    (t : MessageType) → TypeByte t → message_of_byte (byte_of_message t % 256) ≡ t
message_of_byte-byte_of_message new_order h = refl
message_of_byte-byte_of_message cancel_order h = refl
message_of_byte-byte_of_message order_ack h = refl
message_of_byte-byte_of_message reject h = refl
message_of_byte-byte_of_message trade h = refl
message_of_byte-byte_of_message cancel_ack h = refl
message_of_byte-byte_of_message (unnamed_message b) h = ground arith

abbrev pub frame_header : MessageType → ℕ → List ℕ
frame_header type n = bytes_of 1 (byte_of_message type) ++ bytes_of 4 (htonl n)

pub length-frame_header : (type : MessageType) (n : ℕ) → length (frame_header type n) ≡ 5
length-frame_header type n = omega (
  arith,
  length-append (bytes_of 1 (byte_of_message type)) (bytes_of 4 (htonl n)),
  length-bytes_of 1 (byte_of_message type),
  length-bytes_of 4 (htonl n),
)

pub frame-split :
    (type : MessageType) (payload : List ℕ)
    → length payload < 2 ^ 32
    → frame type payload ≡ frame_header type (length payload) ++ payload
frame-split type payload few =
    let small : length payload % 2 ^ 32 ≡ length payload = omega arith in
    ap (λ x. bytes_of 1 (byte_of_message type) ++ (bytes_of 4 (htonl x) ++ payload)) small
    ∙ sym (
        append_assoc (bytes_of 1 (byte_of_message type)) (bytes_of 4 (htonl (length payload)))
          payload)

pub frame_header-length :
    (type : MessageType) (n : ℕ) → n < 2 ^ 32 → header_length (frame_header type n) ≡ n
frame_header-length type n h =
    let e : take 4 (drop 1 (frame_header type n)) ≡ bytes_of 4 (htonl n) =
      unfold bytes_of in refl in
    ap (λ x. htonl (value_of x)) e
    ∙ ap htonl (value_of-bytes_of 4 (htonl n) (htonl-IsU32 n))
    ∙ htonl-htonl n h

pub frame_header-type :
    (type : MessageType) (n : ℕ)
    → TypeByte type
    → message_of_byte (get_or (frame_header type n) 0 0) ≡ type
unfolding bytes_of
frame_header-type type n h = message_of_byte-byte_of_message type h

-- The messages as frames, one behind the other.
abbrev pub frames : List Message → List ℕ
frames [] = []
frames (m ∷ ms) = frame m.type m.payload ++ frames ms

-- The messages whose payload is not empty: the server takes no other for a message.
abbrev pub with_payload : List Message → List Message
with_payload [] = []
with_payload (m ∷ ms) = if length m.payload == 0 then with_payload ms else m ∷ with_payload ms

module _ (fd : ℕ) where
  abbrev pub inbound_of : Message → InboundMessage
  inbound_of m = message_found fd m.type m.payload

  -- A frame is its header and its payload.
  frame-feed_split :
      (m : Message)
      → IsFramed m
      → (p : Parser) → whole_header (frame_header m.type (length m.payload)) ≡ p
      → feed_all fd (frame m.type m.payload) (at_header []) ≡ feed_all fd m.payload p
  frame-feed_split m f p e =
      let h = frame_header m.type (length m.payload) in
      let size = length-frame_header m.type (length m.payload) in
      let whole : feed_all fd h (at_header []) ≡ record { parser = p; messages = [] } =
        feed_all-header fd 5 h [] (omega arith) (omega arith) (omega arith)
        ∙ ap (λ p. record { parser = p; messages = [] }) e in
      ap (λ b. feed_all fd b (at_header [])) (frame-split m.type m.payload f.few_bytes)
      ∙ feed_all-append fd h m.payload (at_header [])
      ∙ rw whole

  frame-feed_none :
      (m : Message)
      → IsFramed m
      → m.payload ≡ []
      → feed_all fd (frame m.type m.payload) (at_header [])
        ≡ record { parser = at_header []; messages = [] }
  frame-feed_none m f none =
      let e = frame_header-length m.type (length m.payload) f.few_bytes in
      let z : (length m.payload == 0) ≡ true = ap (λ b. length b == 0) none in
      frame-feed_split m f (at_header []) (rw (e, z))
      ∙ ap (λ b. feed_all fd b (at_header [])) none
      ∙ unfold feed_all in refl

  frame-feed_some :
      (m : Message)
      → IsFramed m
      → (length m.payload == 0) ≡ false
      → feed_all fd (frame m.type m.payload) (at_header [])
        ≡ record { parser = at_header []; messages = inbound_of m ∷ [] }
  frame-feed_some m f more =
      let n = length m.payload in
      let e = frame_header-length m.type n f.few_bytes in
      frame-feed_split m f (at_payload m.type n [])
        (rw (e, more, frame_header-type m.type n f.type_byte))
      ∙ feed_all-payload fd m.type n n m.payload [] (ground arith) (omega arith) (omega arith)
      ∙ ground arith

  -- Frames one behind the other are the messages with a payload in their order, and nothing else.
  pub frames-feed :
      (ms : List Message)
      → All IsFramed ms
      → feed_all fd (frames ms) (at_header [])
        ≡ record { parser = at_header []; messages = map inbound_of (with_payload ms) }
  frames-feed [] f = unfold feed_all in refl
  frames-feed (m ∷ ms) f =
      let joined = feed_all-append fd (frame m.type m.payload) (frames ms) (at_header []) in
      let rest = frames-feed ms f.1 in
      elim (List-cases m.payload) [
        | inl none ↦
            let z : (length m.payload == 0) ≡ true = ap (λ b. length b == 0) none in
            joined ∙ rw (frame-feed_none m f.0 none, rest, z)
        | inr (x, xs, e) ↦
            let more : (length m.payload == 0) ≡ false = ground (arith, ap length e) in
            joined ∙ rw (frame-feed_some m f.0 more, rest, more)
      ]
