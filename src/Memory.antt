-- ===== src/Memory.antt =====
-- `std::memcpy` between integers and byte buffers, `std::vector::resize`, `htonl` and `ntohl`, on a
-- machine whose integers have their lowest byte first. A buffer is the list of its bytes. An access
-- outside of it is undefined.
pub mod Laws
use exchange_simulator.Common.{
  ℕ, zero, suc, ◌+◌, ◌-◌, ◌*◌, ◌/◌, ◌%◌, List, [], ◌∷◌, ◌++◌, reverse, leb, if◌then◌else◌, length,
  take, drop, replicate, Outcome, returned, undefined, ◌>>=◌,
}

-- The bytes of an integer of `n` bytes in memory.
unfoldable pub bytes_of : ℕ → ℕ → List ℕ
bytes_of zero v = []
bytes_of (suc n) v = (v % 256) ∷ bytes_of n (v / 256)

-- The integer that bytes in memory are.
unfoldable pub value_of : List ℕ → ℕ
value_of [] = 0
value_of (b ∷ bs) = b + 256 * value_of bs

-- Swaps the bytes of a `uint32_t`; `ntohl` is the same function.
unfoldable pub htonl : ℕ → ℕ
unfolding bytes_of value_of
htonl v = value_of (reverse (bytes_of 4 v))

abbrev pub zeros : ℕ → List ℕ
zeros n = replicate n 0

-- `buffer.resize(n)`
unfoldable pub resize : ℕ → List ℕ → List ℕ
resize n buffer =
    if leb n (length buffer) then take n buffer else buffer ++ zeros (n - length buffer)

-- `std::memcpy(buffer.data() + offset, &field, sizeof(field))`
unfoldable pub store : ℕ → List ℕ → List ℕ → Outcome (List ℕ)
store offset field buffer =
    if leb (offset + length field) (length buffer)
    then returned (take offset buffer ++ (field ++ drop (offset + length field) buffer))
    else undefined

-- A row of such copies, each at the offset where the one before it ended.
unfoldable pub store_fields : ℕ → List (List ℕ) → List ℕ → Outcome (List ℕ)
unfolding store
store_fields offset [] buffer = returned buffer
store_fields offset (f ∷ fs) buffer = do
  buffer' ← store offset f buffer
  store_fields (offset + length f) fs buffer'

-- The `n` bytes at `offset`.
unfoldable pub load_bytes : ℕ → ℕ → List ℕ → Outcome (List ℕ)
load_bytes n offset buffer =
    if leb (offset + n) (length buffer) then returned (take n (drop offset buffer)) else undefined

-- `std::memcpy(&field, buffer.data() + offset, n)`
unfoldable pub load : ℕ → ℕ → List ℕ → Outcome ℕ
unfolding load_bytes value_of
load n offset buffer = do bytes ← load_bytes n offset buffer; returned (value_of bytes)
