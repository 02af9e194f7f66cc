-- ===== src/Memory/Laws.antt =====
-- What is stored is read back, and copies made one behind the other fill a buffer in order.
use exchange_simulator.Common.{
  ℕ, zero, suc, ◌+◌, ◌-◌, ◌/◌, ◌^◌, ◌<◌, ◌≤◌, ◌≡◌, refl, ap, take, drop, length-take, length-drop,
  take_front, sym, ◌∙◌, List, [], ◌∷◌, ◌++◌, append-nil, append_assoc, length, length-append,
  length-replicate, drop_past, drop-replicate, take_all, returned, arith, All,
}
use native.Mathlib.Nat.{pow-suc}
use exchange_simulator.Types.{IsByte, IsU32}
use exchange_simulator.Memory.{
  zeros, bytes_of, value_of, htonl, resize, store, store_fields, load_bytes,
}

pub length-bytes_of : (n v : ℕ) → length (bytes_of n v) ≡ n
unfolding bytes_of
length-bytes_of zero v = refl
length-bytes_of (suc n) v = ap suc (length-bytes_of n (v / 256))

-- An integer that fits its width is read back.
pub value_of-bytes_of : (n v : ℕ) → v < 256 ^ n → value_of (bytes_of n v) ≡ v
unfolding bytes_of value_of
value_of-bytes_of zero v h = omega arith
value_of-bytes_of (suc n) v h =
    omega (arith, value_of-bytes_of n (v / 256) (omega (arith, pow-suc 256 n)))

bytes_of-IsByte : (n v : ℕ) → All IsByte (bytes_of n v)
unfolding bytes_of
bytes_of-IsByte zero v = tt
bytes_of-IsByte (suc n) v = (omega arith, bytes_of-IsByte n (v / 256))

-- Swapping the bytes twice gives the number back.
pub htonl-htonl : (v : ℕ) → IsU32 v → htonl (htonl v) ≡ v
unfolding htonl bytes_of value_of
htonl-htonl v h = omega arith

pub htonl-IsU32 : (v : ℕ) → IsU32 (htonl v)
unfolding htonl bytes_of value_of
htonl-IsU32 v = omega arith

-- All fields, one behind the other.
abbrev pub joined : List (List ℕ) → List ℕ
joined [] = []
joined (f ∷ fs) = f ++ joined fs

store-next :
    (done field : List ℕ) (k : ℕ)
    → store (length done) field (done ++ zeros (length field + k))
      ≡ returned ((done ++ field) ++ zeros k)
unfolding store
store-next done field k =
    let room : List ℕ = zeros (length field + k) in
    ground (
      arith,
      length-append done room,
      length-replicate (length field + k) zero,
      take_all done room,
      drop_past (length done + length field) (length field) done room,
      drop-replicate (length field) k (length field + k) zero,
      append_assoc done field (zeros k),
    )

-- Copies that together have the length of the room behind `done` fill it, within bounds.
pub store_fields-joined :
    (done : List ℕ) (fs : List (List ℕ))
    → store_fields (length done) fs (done ++ zeros (length (joined fs)))
      ≡ returned (done ++ joined fs)
unfolding store_fields
store_fields-joined done [] = refl
store_fields-joined done (f ∷ fs) = rw (
  length-append f (joined fs),
  store-next done f (length (joined fs)),
  ← length-append done f,
  store_fields-joined (done ++ f) fs,
  append_assoc,
)

pub resize_more : (buffer : List ℕ) (n : ℕ) → resize (length buffer + n) buffer ≡ buffer ++ zeros n
unfolding resize
resize_more buffer zero =
    let e : length buffer + 0 ≡ length buffer = omega arith in
    rw e (ground (arith, take_all buffer [], append-nil buffer))
resize_more buffer (suc n) =
    let e : length buffer + suc n - length buffer ≡ suc n = omega arith in
    ground (arith, ap zeros e)

-- Reading past a prefix.
pub load_bytes_past :
    (n k : ℕ) (xs ys : List ℕ) → load_bytes n (length xs + k) (xs ++ ys) ≡ load_bytes n k ys
unfolding load_bytes
load_bytes_past n k xs ys = ground (arith, length-append xs ys, drop_past (length xs + k) k xs ys)

pub load_bytes_front : (xs ys : List ℕ) → load_bytes (length xs) 0 (xs ++ ys) ≡ returned xs
unfolding load_bytes
load_bytes_front xs ys = ground (arith, length-append xs ys, take_all xs ys)

-- A copy inside of a buffer: the bytes up to its end are those before it and the copied ones.
pub store_inside :
    (k : ℕ) (xs buffer : List ℕ)
    → k + length xs ≤ length buffer
    → (buffer' : List ℕ) × (store k xs buffer ≡ returned buffer')
      × (length buffer' ≡ length buffer)
      × (take (k + length xs) buffer' ≡ take k buffer ++ xs)
unfolding store
store_inside k xs buffer h =
    let tail = drop (k + length xs) buffer in
    let front = take k buffer ++ xs in
    let before : length (take k buffer) ≡ k = length-take k buffer (omega arith) in
    let size : length front ≡ k + length xs =
      omega (arith, length-append (take k buffer) xs, before) in
    (
      take k buffer ++ (xs ++ tail),
      ground arith,
      omega (
        arith,
        length-append (take k buffer) (xs ++ tail),
        length-append xs tail,
        before,
        length-drop (k + length xs) buffer,
      ),
      ap (take (k + length xs)) (sym (append_assoc (take k buffer) xs tail))
          ∙ take_front (k + length xs) front tail size,
    )

pub length-resize : (n : ℕ) (buffer : List ℕ) → length (resize n buffer) ≡ n
unfolding resize
length-resize n buffer = ground (
  arith,
  length-take n buffer,
  length-append buffer (zeros (n - length buffer)),
  length-replicate (n - length buffer) zero,
)
