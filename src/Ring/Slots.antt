-- ===== src/Ring/Slots.antt =====
-- The slots of the ring that hold a queue.
use exchange_simulator.Common.{
  ℕ, ◌+◌, ◌%◌, ◌<◌, ◌≤◌, ◌≡◌, ap, ◌∙◌, List, [], ◌∷◌, ◌++◌, length, get_or, set, get_or-set_ne,
  arith,
}

module _ {ℓ} {A : Type ℓ} (d : A) where
  -- The items of the queue stand in the slots from number `t` on.
  abbrev pub HasSlots : List A → ℕ → List A → Type ℓ
  HasSlots buffer t [] = Unit
  HasSlots buffer t (a ∷ q) = (get_or buffer (t % 8192) d ≡ a) × HasSlots buffer (t + 1) q

  pub HasSlots-set :
      (buffer : List A) (t n : ℕ) (q : List A) (x : A)
      → t + length q ≤ n
      → n < t + 8192
      → HasSlots buffer t q
      → HasSlots (set buffer (n % 8192) x) t q
  HasSlots-set buffer t n [] x lo hi h = tt
  HasSlots-set buffer t n (a ∷ q) x lo hi h = (
    get_or-set_ne buffer (n % 8192) (t % 8192) x d (λ e. omega arith) ∙ h.0,
    HasSlots-set buffer (t + 1) n q x (omega arith) (omega arith) h.1,
  )

  pub HasSlots-append :
      (buffer : List A) (t n : ℕ) (q : List A) (x : A)
      → n ≡ t + length q
      → get_or buffer (n % 8192) d ≡ x
      → HasSlots buffer t q
      → HasSlots buffer t (q ++ x ∷ [])
  HasSlots-append buffer t n [] x e h k =
      (ap (λ j. get_or buffer (j % 8192) d) (omega arith) ∙ h, tt)
  HasSlots-append buffer t n (a ∷ q) x e h k =
      (k.0, HasSlots-append buffer (t + 1) n q x (omega arith) h k.1)
