-- ===== src/Network.antt =====
-- The two functions of src/network_utils.cpp, read_exact and read_message, over the interface of
-- `recv`. A loop has fuel; a write outside of the buffer is `undefined`.
pub mod Exact
pub mod Frames
use exchange_simulator.Common.{
  ℕ, zero, suc, ◌+◌, ◌-◌, List, [], ◌∷◌, Bool, true, false, ltb, if◌then◌else◌, length, take, drop,
  get_or, replicate, Outcome, returned, threw, undefined, stuck, ◌>>=◌,
}
use exchange_simulator.Types.{Message, message_of_byte}
use exchange_simulator.Memory.{value_of, htonl, resize, store}
use exchange_simulator.Socket.{RecvResult, received, closed, would_block, failed, Socket}

-- A result, with the buffer or message that the function has written to, and the socket.
pub record Read (A S : Type 0) : Type 0 where
  pub success : Bool
  pub target : A
  pub socket : S

module _ {S : Type 0} where
  -- What a round of the loop does with the result of its `recv`; `more` is the rounds after it.
  abbrev pub after_recv :
      RecvResult
      → ℕ
      → List ℕ
      → S
      → (ℕ → List ℕ → Outcome (Read (List ℕ) S))
      → Outcome (Read (List ℕ) S)
  after_recv (received []) total buffer s more =
      returned (record { success = false; target = buffer; socket = s })
  after_recv (received (x ∷ xs)) total buffer s more = do
    written ← store total (x ∷ xs) buffer
    more (total + length (x ∷ xs)) written
  after_recv closed total buffer s more =
      returned (record { success = false; target = buffer; socket = s })
  after_recv would_block total buffer s more =
      returned (record { success = false; target = buffer; socket = s })
  after_recv failed total buffer s more =
      returned (record { success = false; target = buffer; socket = s })

module _ {S : Type 0} (k : Socket S) where
  -- `while(total_read < n)`
  unfoldable pub read_more : ℕ → ℕ → ℕ → List ℕ → S → Outcome (Read (List ℕ) S)
  read_more zero n total buffer s = stuck
  read_more (suc fuel) n total buffer s =
      if ltb total n
      then (let out = k.recv (n - total) s in
          after_recv out.0 total buffer out.1
            λ total' buffer'. read_more fuel n total' buffer' out.1)
      else returned (record { success = true; target = buffer; socket = s })

  -- `n` rounds read `n` bytes, and one more finds the loop's end.
  abbrev pub read_exact : List ℕ → ℕ → S → Outcome (Read (List ℕ) S)
  read_exact buffer n s = read_more (suc n) n 0 buffer s

  -- After the header has been read: the payload.
  abbrev pub read_payload : Message → Read (List ℕ) S → Outcome (Read Message S)
  read_payload message r =
      let type = message_of_byte (get_or r.target 0 0) in
      let payload_length = htonl (value_of (take 4 (drop 1 r.target))) in
      let payload = resize payload_length message.payload in
      if r.success
      then (do
        p ← read_exact payload payload_length r.socket
        returned (record {
          success = p.success;
          target = record { type = type; payload = p.target };
          socket = p.socket;
        }))
      else returned (record { success = false; target = message; socket = r.socket })

  -- The five bytes of `header` are not initialised, and not read before they are written.
  unfoldable pub read_message : List ℕ → Message → S → Outcome (Read Message S)
  unfolding read_more
  read_message header message s = do r ← read_exact header 5 s; read_payload message r
