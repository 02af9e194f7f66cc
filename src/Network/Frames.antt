-- ===== src/Network/Frames.antt =====
-- `read_message` reads the frame of a message.
use exchange_simulator.Common.{ℕ, ◌≡◌, ◌⊎◌, List, true, false}
use exchange_simulator.Types.{Message}
use exchange_simulator.Socket.{Socket, LastRecv, IsNothing}
use exchange_simulator.Network.{Read}

module _ {S : Type 0} (k : Socket S) where
  -- A message has been read, and what is left of the stream is `rest`; or the call has not
  -- succeeded: a `recv`, its last one, that asked for some bytes has returned none.
  abbrev pub GotMessage : Message → List ℕ → Read Message S → Type 0
  GotMessage m rest r =
      ((r.success ≡ true) × (r.target ≡ m) × (k.pending r.socket ≡ rest))
      ⊎ ((r.success ≡ false) × LastRecv k IsNothing r.socket)
