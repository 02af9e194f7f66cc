-- ===== src/Serializer/Decoding.antt =====
-- What reading an order out of any bytes can come to.
use exchange_simulator.Common.{
  ℕ, ◌+◌, ◌≤◌, ◌≡◌, refl, ◌⊎◌, inl, inr, List, Outcome, returned, threw, undefined, stuck, ◌>>=◌,
  Exception, length, arith, leb, true, Bool-cases, ◌&&◌, ◌==◌, ltb, take, drop,
}
use exchange_simulator.Types.{
  Side, OrderType, limit, market, unnamed_type, Order, Message, side_of_byte, type_of_byte,
}
use exchange_simulator.Order.{
  make_order, is_limit, is_market, bad_limit_price, bad_market_price, zero_quantity,
}
use exchange_simulator.Order.Valid.{IsValid, make_order-IsValid}
use exchange_simulator.Memory.{load, load_bytes, value_of}
use exchange_simulator.Serializer.{deserialize_order, order_size}

bind_returned {ℓ κ} :
    {A : Type ℓ} {B : Type κ} {b : B} (x : Outcome A) (f : A → Outcome B)
    → (x >>= f) ≡ returned b
    → (a : A) × (x ≡ returned a) × (f a ≡ returned b)
bind_returned (returned a) f e = (a, refl, e)
bind_returned (threw x) f e = absurd (cc)
bind_returned undefined f e = absurd (cc)
bind_returned stuck f e = absurd (cc)

make_order-id :
    (now id price quantity : ℕ) (s : Side) (t : OrderType) (o : Order)
    → make_order now id price quantity s t ≡ returned o
    → o.id ≡ id
unfolding make_order
make_order-id now id price quantity s limit o e = ground arith
make_order-id now id price quantity s market o e = ground arith
make_order-id now id price quantity s (unnamed_type b) o e = ground arith

-- An order that is read is valid, and its id is the first eight bytes.
pub deserialize_order-IsValid :
    (now : ℕ) (message : Message) (o : Order)
    → deserialize_order now message ≡ returned o
    → (load 8 0 message.payload ≡ returned o.id) × IsValid o
unfolding deserialize_order
deserialize_order-IsValid now message o e =
    let (id, e1, k1) = bind_returned (load 8 0 message.payload) _ e in
    let (price, e2, k2) = bind_returned (load 8 8 message.payload) _ k1 in
    let (quantity, e3, k3) = bind_returned (load 4 16 message.payload) _ k2 in
    let (side, e4, k4) = bind_returned (load 1 20 message.payload) _ k3 in
    let (type, e5, k5) = bind_returned (load 1 21 message.payload) _ k4 in
    (
      rw (make_order-id now id price quantity _ _ o k5) e1,
      make_order-IsValid now id price quantity _ _ o k5,
    )

load_inside : (n k : ℕ) (xs : List ℕ) → k + n ≤ length xs → (v : ℕ) × (load n k xs ≡ returned v)
unfolding load load_bytes
load_inside n k xs h = (value_of (take n (drop k xs)), rw (leb_inside (k + n) (length xs) h))
  where
    leb_inside : (a b : ℕ) → a ≤ b → leb a b ≡ true
    leb_inside a b h = ground arith

make_order-answers :
    (now id price quantity : ℕ) (s : Side) (t : OrderType)
    → ((o : Order) × (make_order now id price quantity s t ≡ returned o))
      ⊎ ((x : Exception) × (make_order now id price quantity s t ≡ threw x))
unfolding make_order
make_order-answers now id price quantity s t = elim (Bool-cases (is_limit t && price == 0)) [
  | inl a ↦ inr (bad_limit_price, rw a)
  | inr a ↦ elim (Bool-cases (is_market t && ltb 0 price)) [
    | inl b ↦ inr (bad_market_price, rw (a, b))
    | inr b ↦ elim (Bool-cases (quantity == 0)) [
      | inl c ↦ inr (zero_quantity, rw (a, b, c))
      | inr c ↦ inl (
        record {
          timestamp = now;
          id = id;
          price = price;
          quantity = quantity;
          side = s;
          order_type = t;
        },
        rw (a, b, c),
      )
    ]
  ]
]

-- A payload of enough bytes is read, or refused by the constructor.
pub deserialize_order-answers :
    (now : ℕ) (message : Message)
    → order_size ≤ length message.payload
    → ((o : Order) × (deserialize_order now message ≡ returned o))
      ⊎ ((x : Exception) × (deserialize_order now message ≡ threw x))
unfolding deserialize_order
deserialize_order-answers now message h =
    let (id, e1) = load_inside 8 0 message.payload (omega arith) in
    let (price, e2) = load_inside 8 8 message.payload (omega arith) in
    let (quantity, e3) = load_inside 4 16 message.payload (omega arith) in
    let (side, e4) = load_inside 1 20 message.payload (omega arith) in
    let (type, e5) = load_inside 1 21 message.payload (omega arith) in
    rw (e1, e2, e3, e4, e5)
      (make_order-answers now id price quantity (side_of_byte side) (type_of_byte type))
