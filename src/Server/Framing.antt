-- ===== src/Server/Framing.antt =====
-- The messages in a stream of bytes, read byte by byte: what `handle_read` has to find, however the
-- stream is cut into the pieces that `recv` returns.
use exchange_simulator.Common.{
  ℕ, ◌+◌, ◌<◌, ◌≤◌, ◌≡◌, refl, ap, ◌∙◌, List, [], ◌∷◌, ◌++◌, append_assoc, true, Bool-cases, inl,
  inr, ltb, ◌==◌, if◌then◌else◌, length, length-append, get_or, arith,
}
use exchange_simulator.Types.{MessageType, message_of_byte, InboundMessage}
use exchange_simulator.Server.Reading.{header_length}

-- What is known of the message that is being read.
pub data Parser : Type 0 where
  at_header : List ℕ → Parser
  at_payload : MessageType → ℕ → List ℕ → Parser

-- A whole header: a payload follows, unless its length is 0.
abbrev pub whole_header : List ℕ → Parser
whole_header h =
    if header_length h == 0
    then at_header []
    else at_payload (message_of_byte (get_or h 0 0)) (header_length h) []

-- A parser and the messages that it has found.
pub record Found : Type 0 where
  pub parser : Parser
  pub messages : List InboundMessage

module _ (fd : ℕ) where
  abbrev pub message_found : MessageType → List ℕ → InboundMessage
  message_found type bytes = record { fd = fd; type = type; payload = bytes }

  abbrev pub feed : ℕ → Parser → Found
  feed b (at_header acc) =
      if ltb (length acc + 1) 5
      then record { parser = at_header (acc ++ b ∷ []); messages = [] }
      else record { parser = whole_header (acc ++ b ∷ []); messages = [] }
  feed b (at_payload type n acc) =
      if ltb (length acc + 1) n
      then record { parser = at_payload type n (acc ++ b ∷ []); messages = [] }
      else record { parser = at_header []; messages = message_found type (acc ++ b ∷ []) ∷ [] }

  unfoldable pub feed_all : List ℕ → Parser → Found
  feed_all [] p = record { parser = p; messages = [] }
  feed_all (b ∷ bs) p =
      let first = feed b p in
      let rest = feed_all bs first.parser in
      record { parser = rest.parser; messages = first.messages ++ rest.messages }

  pub feed_all-append :
      (xs ys : List ℕ) (p : Parser)
      → feed_all (xs ++ ys) p ≡ record {
        parser = (feed_all ys (feed_all xs p).parser).parser;
        messages = (feed_all xs p).messages ++ (feed_all ys (feed_all xs p).parser).messages;
      }
  unfolding feed_all
  feed_all-append [] ys p = refl
  feed_all-append (x ∷ xs) ys p = rw (feed_all-append xs ys (feed x p).parser, append_assoc)

  -- The first `n` bytes of a header are there.
  abbrev pub header_fed : ℕ → List ℕ → Found
  header_fed n bytes =
      if ltb n 5
      then record { parser = at_header bytes; messages = [] }
      else record { parser = whole_header bytes; messages = [] }

  -- Some bytes of a header at once.
  pub feed_all-header :
      (n : ℕ) (xs acc : List ℕ)
      → 0 < length xs
      → length acc + length xs ≡ n
      → n ≤ 5
      → feed_all xs (at_header acc) ≡ header_fed n (acc ++ xs)
  unfolding feed_all
  feed_all-header n [] acc p e h = absurd (omega arith)
  feed_all-header n (x ∷ []) acc p e h =
      let e' : length acc + 1 ≡ n = omega arith in
      rw e' (elim (Bool-cases (ltb n 5)) [ inl a ↦ rw a | inr a ↦ rw a ])
  feed_all-header n (x ∷ y ∷ xs) acc p e h =
      let more : ltb (length acc + 1) 5 ≡ true = ground arith in
      rw more (
        feed_all-header n (y ∷ xs) (acc ++ x ∷ []) (omega arith)
          (omega (arith, length-append acc (x ∷ []))) h
        ∙ ap (header_fed n) (append_assoc acc (x ∷ []) (y ∷ xs)))

  -- `n` bytes of a payload of `size` bytes are there.
  abbrev pub payload_fed : MessageType → ℕ → ℕ → List ℕ → Found
  payload_fed type size n bytes =
      if ltb n size
      then record { parser = at_payload type size bytes; messages = [] }
      else record { parser = at_header []; messages = message_found type bytes ∷ [] }

  -- Some bytes of a payload at once.
  pub feed_all-payload :
      (type : MessageType) (size n : ℕ) (xs acc : List ℕ)
      → 0 < length xs
      → length acc + length xs ≡ n
      → n ≤ size
      → feed_all xs (at_payload type size acc) ≡ payload_fed type size n (acc ++ xs)
  unfolding feed_all
  feed_all-payload type size n [] acc p e h = absurd (omega arith)
  feed_all-payload type size n (x ∷ []) acc p e h =
      let e' : length acc + 1 ≡ n = omega arith in
      rw e' (elim (Bool-cases (ltb n size)) [ inl a ↦ rw a | inr a ↦ rw a ])
  feed_all-payload type size n (x ∷ y ∷ xs) acc p e h =
      let more : ltb (length acc + 1) size ≡ true = ground arith in
      rw more (
        feed_all-payload type size n (y ∷ xs) (acc ++ x ∷ []) (omega arith)
          (omega (arith, length-append acc (x ∷ []))) h
        ∙ ap (payload_fed type size n) (append_assoc acc (x ∷ []) (y ∷ xs)))
