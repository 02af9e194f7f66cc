-- ===== src/Server/Sending.antt =====
-- One call of `try_send`: what each client is still owed.
use exchange_simulator.Common.{
  ℕ, ◌+◌, ◌<◌, ◌≤◌, ◌≡◌, ◌≢◌, refl, sym, ◌∙◌, subst, ◌⊎◌, inl, inr, Bool, List, true, false,
  Bool-cases, not, ◌==◌, ==_iff, if◌then◌else◌, length, set, drop, Outcome, returned, threw,
  undefined, stuck, ◌>>=◌, arith,
}
use exchange_simulator.Server.{
  ClientState, new_client, Server, SendResult, sent, nothing, would_block, failed, client_at,
  is_empty, counted, cleared, disconnect_client, after_try_send, try_send,
}
use exchange_simulator.Server.Streams.{
  Owes, unsent, client_at-set_self, client_at-set_ne, put-Owes, drop-drop, send-Owes,
}

-- `send` takes at least one byte when it takes any, and at most those it is given.
abbrev pub SendFits : SendResult → ClientState → Type 0
SendFits (sent n) c = (0 < n) × (n ≤ length (unsent c))
SendFits r c = Unit

-- The client's slot is free again.
abbrev pub Gone : Server → ℕ → Type 0
Gone s fd = (c : ClientState) × (client_at fd s.clients ≡ returned c) × (c.active ≡ false)

-- How many bytes a call of `send` takes.
abbrev pub taken : SendResult → ℕ
taken (sent n) = n
taken _ = 0

-- The peer is lost.
abbrev pub IsFailed : SendResult → Type 0
IsFailed (sent n) = ⊥
IsFailed nothing = Unit
IsFailed would_block = ⊥
IsFailed failed = Unit

-- The first `k` of the bytes have been sent and the client is owed the rest, or it is gone, for the
-- reason `F`.
abbrev pub Drains : Server → ℕ → ℕ → Type 0 → List ℕ → Type 0
Drains s fd k F bytes = Owes s fd (drop k bytes) ⊎ (Gone s fd × F)

-- What a call for the descriptor `i` with the result `r` takes of the bytes for `fd`.
abbrev pub taken_at : ℕ → ℕ → SendResult → ℕ
taken_at fd i r = if i == fd then taken r else 0

abbrev pub FailedAt : ℕ → ℕ → SendResult → Type 0
FailedAt fd i r = (i ≡ fd) × IsFailed r

pub Drains-map :
    {F G : Type 0} (s : Server) (fd k l : ℕ) (bytes : List ℕ)
    → k ≡ l
    → (F → G)
    → Drains s fd k F bytes
    → Drains s fd l G bytes
Drains-map s fd k l bytes e f (inl o) = inl (subst (λ n. Owes s fd (drop n bytes)) e o)
Drains-map s fd k l bytes e f (inr (g, x)) = inr (g, f x)

-- A change of another slot.
put-Drains :
    {F : Type 0} (s s' : Server) (i fd k : ℕ) (c : ClientState) (bytes : List ℕ)
    → i ≢ fd
    → s'.clients ≡ set s.clients i c
    → Drains s fd k F bytes
    → Drains s' fd k F bytes
put-Drains s s' i fd k c bytes ne e (inl h) = inl (put-Owes s s' i fd c (drop k bytes) ne e h)
put-Drains s s' i fd k c bytes ne e (inr ((d, at, off), x)) =
    inr ((d, rw e (client_at-set_ne s.clients i fd c ne) ∙ at, off), x)

after_try_send-other :
    {F : Type 0} (s : Server) (i fd k : ℕ) (c : ClientState) (r : SendResult) (bytes : List ℕ)
    → i ≢ fd
    → Drains s fd k F bytes
    → Drains (after_try_send i c r s) fd k F bytes
after_try_send-other s i fd k c (sent n) bytes ne h =
    elim (Bool-cases ((c.bytes_sent + n) == length c.write_buffer)) [
      | inl e ↦ rw e (put-Drains s _ i fd k (cleared c) bytes ne refl h)
      | inr e ↦ rw e (put-Drains s _ i fd k (counted n c) bytes ne refl h)
    ]
after_try_send-other s i fd k c nothing bytes ne h =
    put-Drains s _ i fd k new_client bytes ne refl h
after_try_send-other s i fd k c would_block bytes ne h = h
after_try_send-other s i fd k c failed bytes ne h = put-Drains s _ i fd k new_client bytes ne refl h

-- The server that a call returns.
abbrev pub Then : (Server → Type 0) → Outcome Server → Type 0
Then P (returned s) = P s
Then P (threw e) = Unit
Then P undefined = Unit
Then P stuck = Unit

-- The early returns of `try_send`.
guards :
    (P : Server → Type 0) (s t : Server) (on empty : Bool)
    → P s
    → P t
    → Then P (if not on then returned s else if empty then returned s else returned t)
guards P s t false empty p q = p
guards P s t true true p q = p
guards P s t true false p q = q

pub Then-map :
    (P Q : Server → Type 0) (o : Outcome Server) → ((t : Server) → P t → Q t) → Then P o → Then Q o
Then-map P Q (returned t) f p = f t p
Then-map P Q (threw e) f p = tt
Then-map P Q undefined f p = tt
Then-map P Q stuck f p = tt

try_send-other :
    {F : Type 0} (s : Server) (i fd k : ℕ) (r : SendResult) (bytes : List ℕ)
    → i ≢ fd
    → Drains s fd k F bytes
    → Then (λ t. Drains t fd k F bytes) (try_send i r s)
unfolding try_send
try_send-other {F} s i fd k r bytes ne h = go (client_at i s.clients)
  where
    go :
        (o : Outcome ClientState)
        → Then
            (λ t. Drains t fd k F bytes)
            (do
              c ← o
              if not c.active
                  then returned s
                  else if is_empty c.write_buffer
                  then returned s
                  else returned (after_try_send i c r s))
    go (returned c) =
        guards (λ t. Drains t fd k F bytes) s (after_try_send i c r s) c.active
          (is_empty c.write_buffer) h (after_try_send-other s i fd k c r bytes ne h)
    go (threw e) = tt
    go undefined = tt
    go stuck = tt

-- The client itself, whose send fails.
disconnect_client-Gone :
    (s : Server) (fd : ℕ) (bytes : List ℕ) → Owes s fd bytes → Gone (disconnect_client fd s) fd
disconnect_client-Gone s fd bytes h =
    (new_client, client_at-set_self s.clients fd new_client h.client h.in_slot, refl)

try_send-failing :
    {F : Type 0} (s : Server) (fd : ℕ) (r : SendResult) (bytes : List ℕ) (h : Owes s fd bytes)
    → Drains (after_try_send fd h.client r s) fd 0 F bytes
    → Then (λ t. Drains t fd 0 F bytes) (try_send fd r s)
unfolding try_send
try_send-failing {F} s fd r bytes h after = rw h.in_slot (
    guards (λ t. Drains t fd 0 F bytes) s (after_try_send fd h.client r s) h.client.active
      (is_empty h.client.write_buffer) (inl h) after)

try_send-own :
    (s : Server) (fd : ℕ) (r : SendResult) (bytes : List ℕ) (h : Owes s fd bytes)
    → SendFits r h.client
    → Then (λ t. Drains t fd (taken r) (IsFailed r) bytes) (try_send fd r s)
try_send-own s fd (sent n) bytes h (p, le) =
    let (s', e, owes) = (send-Owes n s fd bytes h p (subst (λ b. n ≤ length b) h.owed le)).0 in
    subst (Then (λ t. Drains t fd n ⊥ bytes)) (sym e) (inl owes)
try_send-own s fd nothing bytes h f =
    try_send-failing s fd nothing bytes h (inr (disconnect_client-Gone s fd bytes h, tt))
try_send-own s fd would_block bytes h f = try_send-failing s fd would_block bytes h (inl h)
try_send-own s fd failed bytes h f =
    try_send-failing s fd failed bytes h (inr (disconnect_client-Gone s fd bytes h, tt))

try_send-Gone :
    {F : Type 0} (s : Server) (fd k : ℕ) (r : SendResult) (bytes : List ℕ)
    → Gone s fd
    → F
    → Then (λ t. Drains t fd k F bytes) (try_send fd r s)
unfolding try_send
try_send-Gone s fd k r bytes (c, at, off) x = rw (at, off) (inr ((c, at, off), x))

-- A send for the client `fd` itself, if one is made, fits what it is still owed.
abbrev pub OwnFits : ℕ → ℕ → SendResult → Server → Type 0
OwnFits i fd r s =
    i ≡ fd
    → (c : ClientState) → client_at fd s.clients ≡ returned c
    → c.active ≡ true
    → SendFits r c

try_send-same :
    {F : Type 0} (s : Server) (fd k : ℕ) (r : SendResult) (bytes : List ℕ)
    → OwnFits fd fd r s
    → Drains s fd k F bytes
    → Then (λ t. Drains t fd (k + taken r) (F ⊎ IsFailed r) bytes) (try_send fd r s)
try_send-same s fd k r bytes fits (inr (gone, x)) =
    try_send-Gone s fd (k + taken r) r bytes gone (inl x)
try_send-same {F} s fd k r bytes fits (inl owes) =
    Then-map (λ t. Drains t fd (taken r) (IsFailed r) (drop k bytes))
      (λ t. Drains t fd (k + taken r) (F ⊎ IsFailed r) bytes) (try_send fd r s) later
      (try_send-own s fd r (drop k bytes) owes (fits refl owes.client owes.in_slot owes.is_active))
  where
    later :
        (t : Server)
        → Drains t fd (taken r) (IsFailed r) (drop k bytes)
        → Drains t fd (k + taken r) (F ⊎ IsFailed r) bytes
    later t (inl o) = inl (rw (← drop-drop k (taken r) bytes) o)
    later t (inr (g, x)) = inr (g, inr x)

pub try_send-Drains :
    {F : Type 0} (s : Server) (i fd k : ℕ) (r : SendResult) (bytes : List ℕ)
    → OwnFits i fd r s
    → Drains s fd k F bytes
    → Then (λ t. Drains t fd (k + taken_at fd i r) (F ⊎ FailedAt fd i r) bytes) (try_send i r s)
try_send-Drains {F} s i fd k r bytes fits h = elim (Bool-cases (i == fd)) [
  | inr other ↦
      let zero_taken : k ≡ k + taken_at fd i r = rw other (omega arith) in
      Then-map (λ t. Drains t fd k F bytes) _ (try_send i r s)
        (λ t. Drains-map t fd k (k + taken_at fd i r) bytes zero_taken inl)
        (try_send-other s i fd k r bytes (λ e. cc (other, (==_iff i fd).1 e)) h)
  | inl same ↦
      let e : i ≡ fd = (==_iff i fd).0 same in
      let all_taken : k + taken r ≡ k + taken_at fd i r = rw same in
      Then-map (λ t. Drains t fd (k + taken r) (F ⊎ IsFailed r) bytes) _ (try_send i r s)
        (λ t. Drains-map t fd (k + taken r) (k + taken_at fd i r) bytes all_taken (reason e))
        (subst
          (λ j.
            OwnFits j fd r s
            → Then (λ t. Drains t fd (k + taken r) (F ⊎ IsFailed r) bytes) (try_send j r s))
          (sym e) (λ f. try_send-same s fd k r bytes f h) fits)
]
  where
    reason : i ≡ fd → F ⊎ IsFailed r → F ⊎ FailedAt fd i r
    reason e (inl x) = inl x
    reason e (inr x) = inr (e, x)
