-- ===== src/Book/Levels.antt =====
-- The operations on the levels of one side, under any strict linear order of the prices: they keep
-- the levels in order, and each changes the level at its price alone.
use exchange_simulator.Common.{
  subst, ◌⊎◌, ℕ, ◌≡◌, refl, sym, ◌≢◌, inl, inr, List, [], ◌∷◌, Bool, true, false, false, Bool-cases,
  ltb, gtb, ◌==◌, ==_iff, if◌then◌else◌, arith, All, All-map,
}
use exchange_simulator.Book.{Node, Level, update_level, erase_level, level_orders, put_level}

-- What a comparator of `std::map` has to satisfy, with equality of the keys as equivalence.
pub record IsLinear (before : ℕ → ℕ → Bool) : Type 0 where
  pub irreflexive : (a : ℕ) → before a a ≡ false
  pub transitive : (a b c : ℕ) → before a b ≡ true → before b c ≡ true → before a c ≡ true
  pub total : (a b : ℕ) → a ≢ b → before a b ≡ false → before b a ≡ true

ltb_transitive : (a b c : ℕ) → ltb a b ≡ true → ltb b c ≡ true → ltb a c ≡ true
ltb_transitive a b c h k = ground arith

ltb_total : (a b : ℕ) → a ≢ b → ltb a b ≡ false → ltb b a ≡ true
ltb_total a b h k = ground arith

pub ltb-IsLinear : IsLinear ltb
ltb-IsLinear = record {
  irreflexive = λ a. ground arith;
  transitive = ltb_transitive;
  total = ltb_total;
}

pub gtb-IsLinear : IsLinear gtb
gtb-IsLinear = record {
  irreflexive = λ a. ground arith;
  transitive = λ a b c h k. ltb_transitive c b a k h;
  total = λ a b h k. ltb_total b a (λ e. h (sym e)) k;
}

-- The prices of the levels follow one another in the order of the map.
abbrev pub IsSorted : (ℕ → ℕ → Bool) → List Level → Type 0
IsSorted before [] = Unit
IsSorted before (l ∷ ls) = All (λ k. before l.price k.price ≡ true) ls × IsSorted before ls

module _ (before : ℕ → ℕ → Bool) (lin : IsLinear before) where
  -- A price before all others is the price of no level.
  level_orders_absent :
      (p : ℕ) (ls : List Level) → All (λ k. before p k.price ≡ true) ls → level_orders p ls ≡ []
  unfolding level_orders
  level_orders_absent p [] h = refl
  level_orders_absent p (l ∷ ls) h = ground (arith, level_orders_absent p ls h.1, lin.irreflexive p)

  pub before-All :
      (p : ℕ) (l : Level) (ls : List Level)
      → before p l.price ≡ true
      → All (λ k. before l.price k.price ≡ true) ls
      → All (λ k. before p k.price ≡ true) ls
  before-All p l ls h a = All-map ls (λ k. lin.transitive p l.price k.price h) a

  pub absent_before :
      (p : ℕ) (l : Level) (ls : List Level)
      → before p l.price ≡ true
      → IsSorted before (l ∷ ls)
      → level_orders p (l ∷ ls) ≡ []
  absent_before p l ls h s = level_orders_absent p (l ∷ ls) (h, before-All p l ls h s.0)

  -- Reaching a level through `map[price]` and changing its list is storing the changed list.
  pub update_level-put :
      (p : ℕ) (f : List Node → List Node) (n : Node) (ns : List Node) (ls : List Level)
      → IsSorted before ls
      → f (level_orders p ls) ≡ n ∷ ns
      → update_level before p f ls ≡ put_level before p (n ∷ ns) ls
  unfolding update_level level_orders put_level
  update_level-put p f n ns [] s e = ground arith
  update_level-put p f n ns (l ∷ ls) s e = elim (Bool-cases (l.price == p)) [
    | inl same ↦ ground arith
    | inr other ↦ elim (Bool-cases (before p l.price)) [
      | inl h ↦ ground (arith, absent_before p l ls h s)
      | inr h ↦ ground (arith, update_level-put p f n ns ls s.1)
    ]
  ]

  update-All-before :
      (q p : ℕ) (f : List Node → List Node) (ls : List Level)
      → before q p ≡ true
      → All (λ k. before q k.price ≡ true) ls
      → All (λ k. before q k.price ≡ true) (update_level before p f ls)
  unfolding update_level
  update-All-before q p f [] h a = (h, tt)
  update-All-before q p f (l ∷ ls) h a = ground (arith, update-All-before q p f ls h a.1)

  update_level-IsSorted :
      (p : ℕ) (f : List Node → List Node) (ls : List Level)
      → IsSorted before ls
      → IsSorted before (update_level before p f ls)
  unfolding update_level
  update_level-IsSorted p f [] s = (tt, tt)
  update_level-IsSorted p f (l ∷ ls) s = elim (Bool-cases (l.price == p)) [
    | inl same ↦ rw same s
    | inr other ↦ elim (Bool-cases (before p l.price)) [
      | inl h ↦ rw (other, h) ((h, before-All p l ls h s.0), s)
      | inr h ↦
          rw (other, h)
            (
              update-All-before l.price p f ls (lin.total p l.price (ground arith) h) s.0,
              update_level-IsSorted p f ls s.1,
            )
    ]
  ]

  erase-All : (P : Level → Type 0) (p : ℕ) (ls : List Level) → All P ls → All P (erase_level p ls)
  unfolding erase_level
  erase-All P p [] a = tt
  erase-All P p (l ∷ ls) a = elim (Bool-cases (l.price == p)) [
    | inl same ↦ rw same a.1
    | inr other ↦ rw other (a.0, erase-All P p ls a.1)
  ]

  erase_level-IsSorted :
      (p : ℕ) (ls : List Level) → IsSorted before ls → IsSorted before (erase_level p ls)
  unfolding erase_level
  erase_level-IsSorted p [] s = tt
  erase_level-IsSorted p (l ∷ ls) s = elim (Bool-cases (l.price == p)) [
    | inl same ↦ rw same s.1
    | inr other ↦ rw other (erase-All _ p ls s.0, erase_level-IsSorted p ls s.1)
  ]

  pub put_level-IsSorted :
      (p : ℕ) (os : List Node) (ls : List Level)
      → IsSorted before ls
      → IsSorted before (put_level before p os ls)
  unfolding put_level
  put_level-IsSorted p [] ls s = erase_level-IsSorted p ls s
  put_level-IsSorted p (n ∷ ns) ls s = update_level-IsSorted p (λ _. n ∷ ns) ls s

  -- The prices after `p` in the order differ from it.
  pub after-ne :
      (p : ℕ) (ls : List Level) → All (λ k. before p k.price ≡ true) ls → All (λ k. k.price ≢ p) ls
  after-ne p ls a = All-map ls (λ k h e. cc (lin.irreflexive p)) a

  module _ (P Q : Level → Type 0) (p : ℕ) (keep : (k : Level) → k.price ≢ p → P k → Q k) where
    All-ne : (ls : List Level) → All (λ k. k.price ≢ p) ls → All P ls → All Q ls
    All-ne [] h a = tt
    All-ne (l ∷ ls) h a = (keep l h.0 a.0, All-ne ls h.1 a.1)

    All-after :
        (l : Level) (ls : List Level) → l.price ≡ p → IsSorted before (l ∷ ls) → All P ls → All Q ls
    All-after l ls e s a = All-ne ls (after-ne p ls (rw e at s.0)) a

    erase-All-keep : (ls : List Level) → IsSorted before ls → All P ls → All Q (erase_level p ls)
    unfolding erase_level
    erase-All-keep [] s a = tt
    erase-All-keep (l ∷ ls) s a = elim (Bool-cases (l.price == p)) [
      | inl same ↦ rw same (All-after l ls (ground arith) s a.1)
      | inr other ↦ rw other (keep l (ground arith) a.0, erase-All-keep ls s.1 a.1)
    ]

    update-All-keep :
        (os : List Node) (ls : List Level)
        → Q (record { price = p; orders = os })
        → IsSorted before ls
        → All P ls
        → All Q (update_level before p (λ _. os) ls)
    unfolding update_level
    update-All-keep os [] new s a = (new, tt)
    update-All-keep os (l ∷ ls) new s a = elim (Bool-cases (l.price == p)) [
      | inl same ↦
          let e : l.price ≡ p = (==_iff _ _).0 same in
          rw same
            (subst (λ k. Q (record { price = k; orders = os })) (sym e) new, All-after l ls e s a.1)
      | inr other ↦ elim (Bool-cases (before p l.price)) [
        | inl h ↦
            rw (other, h)
              (new, All-ne (l ∷ ls) (after-ne p (l ∷ ls) (h, before-All p l ls h s.0)) a)
        | inr h ↦ rw (other, h) (keep l (ground arith) a.0, update-All-keep os ls new s.1 a.1)
      ]
    ]

    -- Storing a list at price `p`: what holds of the other levels, and of the new one if it is not
    -- empty, holds of all.
    pub put_level-All :
        (os : List Node) (ls : List Level)
        → (os ≡ []) ⊎ Q (record { price = p; orders = os })
        → IsSorted before ls
        → All P ls
        → All Q (put_level before p os ls)
    unfolding put_level
    put_level-All [] ls new s a = erase-All-keep ls s a
    put_level-All (n ∷ ns) ls (inl e) s a = absurd (cc)
    put_level-All (n ∷ ns) ls (inr new) s a = update-All-keep (n ∷ ns) ls new s a

  erase-lookup :
      (p q : ℕ) (ls : List Level)
      → IsSorted before ls
      → level_orders q (erase_level p ls) ≡ (if q == p then [] else level_orders q ls)
  unfolding erase_level level_orders
  erase-lookup p q [] s = ground arith
  erase-lookup p q (l ∷ ls) s =
      ground (arith, erase-lookup p q ls s.1, level_orders_absent l.price ls s.0)

  update-lookup :
      (p q : ℕ) (os : List Node) (ls : List Level)
      → IsSorted before ls
      → level_orders q (update_level before p (λ _. os) ls)
        ≡ (if q == p then os else level_orders q ls)
  unfolding update_level level_orders
  update-lookup p q os [] s = ground arith
  update-lookup p q os (l ∷ ls) s = ground (arith, update-lookup p q os ls s.1)

  -- What `map[price]` finds after a list has been stored.
  pub level_orders-put :
      (p q : ℕ) (os : List Node) (ls : List Level)
      → IsSorted before ls
      → level_orders q (put_level before p os ls) ≡ (if q == p then os else level_orders q ls)
  unfolding put_level
  level_orders-put p q [] ls s = erase-lookup p q ls s
  level_orders-put p q (n ∷ ns) ls s = update-lookup p q (n ∷ ns) ls s
