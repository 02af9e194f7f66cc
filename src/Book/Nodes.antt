-- ===== src/Book/Nodes.antt =====
-- The list of one level: its nodes have different addresses, and an iterator is a node's address.
use exchange_simulator.Common.{
  ◌∙◌, subst, All-append, ℕ, ◌≡◌, ◌≢◌, refl, sym, List, [], ◌∷◌, Option, none, some, ◌==◌,
  if◌then◌else◌, returned, arith, All, Bool-cases, inl, inr, ==_iff, All-map,
}
use exchange_simulator.Book.{Node, push_back, erase_node}

abbrev pub Distinct : List Node → Type 0
Distinct [] = Unit
Distinct (n ∷ ns) = All (λ k. k.address ≢ n.address) ns × Distinct ns

-- The node that an iterator points to.
unfoldable pub find_node : ℕ → List Node → Option Node
find_node a [] = none
find_node a (n ∷ ns) = if n.address == a then some n else find_node a ns

-- The list after the erasure.
unfoldable pub without : ℕ → List Node → List Node
without a [] = []
without a (n ∷ ns) = if n.address == a then ns else n ∷ without a ns

-- An iterator that points into the list can be erased.
pub erase_node-without :
    (a : ℕ) (ns : List Node) (n : Node)
    → find_node a ns ≡ some n
    → erase_node a ns ≡ returned (without a ns)
unfolding erase_node find_node without
erase_node-without a [] n e = cc
erase_node-without a (k ∷ ns) n e = ground (arith, erase_node-without a ns n)

pub find_node-address :
    (a : ℕ) (ns : List Node) (n : Node) → find_node a ns ≡ some n → n.address ≡ a
unfolding find_node
find_node-address a [] n e = cc
find_node-address a (k ∷ ns) n e = ground (arith, find_node-address a ns n)

pub find_node-All :
    (P : Node → Type 0) (a : ℕ) (ns : List Node) (n : Node)
    → find_node a ns ≡ some n
    → All P ns
    → P n
unfolding find_node
find_node-All P a [] n e h = cc
find_node-All P a (k ∷ ns) n e h = elim (Bool-cases (k.address == a)) [
  | inl same ↦ subst P (ground arith) h.0
  | inr other ↦ find_node-All P a ns n (ground arith) h.1
]

pub without-All : (P : Node → Type 0) (a : ℕ) (ns : List Node) → All P ns → All P (without a ns)
unfolding without
without-All P a [] h = tt
without-All P a (k ∷ ns) h = elim (Bool-cases (k.address == a)) [
  | inl same ↦ rw same h.1
  | inr other ↦ rw other (h.0, without-All P a ns h.1)
]

pub without-Distinct : (a : ℕ) (ns : List Node) → Distinct ns → Distinct (without a ns)
unfolding without
without-Distinct a [] h = tt
without-Distinct a (k ∷ ns) h = elim (Bool-cases (k.address == a)) [
  | inl same ↦ rw same h.1
  | inr other ↦ rw other (without-All _ a ns h.0, without-Distinct a ns h.1)
]

find_node-absent : (a : ℕ) (ns : List Node) → All (λ k. k.address ≢ a) ns → find_node a ns ≡ none
unfolding find_node
find_node-absent a [] h = refl
find_node-absent a (k ∷ ns) h = ground (arith, h.0, find_node-absent a ns h.1)

-- The erased address is gone, and every other iterator stays valid.
pub find_node-without :
    (a c : ℕ) (ns : List Node)
    → Distinct ns
    → find_node c (without a ns) ≡ (if c == a then none else find_node c ns)
unfolding find_node without
find_node-without a c [] h = ground arith
find_node-without a c (k ∷ ns) h =
    ground (arith, find_node-without a c ns h.1, find_node-absent k.address ns h.0)

pub without-ne : (a : ℕ) (ns : List Node) → Distinct ns → All (λ k. k.address ≢ a) (without a ns)
unfolding without
without-ne a [] h = tt
without-ne a (k ∷ ns) h = elim (Bool-cases (k.address == a)) [
  | inl same ↦
      let e : k.address ≡ a = (==_iff _ _).0 same in
      rw same (subst (λ b. All (λ j. j.address ≢ b) ns) e h.0)
  | inr other ↦ rw other ((λ e. cc (other, (==_iff k.address a).1 e)), without-ne a ns h.1)
]

pub push_back-Distinct :
    (n : Node) (ns : List Node)
    → All (λ k. k.address ≢ n.address) ns
    → Distinct ns
    → Distinct (push_back n ns)
push_back-Distinct n [] h d = (tt, tt)
push_back-Distinct n (k ∷ ns) h d =
    (All-append _ ns (n ∷ []) d.0 ((λ e. h.0 (sym e)), tt), push_back-Distinct n ns h.1 d.1)

pub find_node-push_back :
    (a : ℕ) (n : Node) (ns : List Node)
    → All (λ k. k.address ≢ n.address) ns
    → find_node a (push_back n ns) ≡ (if a == n.address then some n else find_node a ns)
unfolding find_node
find_node-push_back a n [] h = ground arith
find_node-push_back a n (k ∷ ns) h = ground (arith, h.0, find_node-push_back a n ns h.1)

-- Only one node has the address.
pub find_node_unique :
    (a : ℕ) (ns : List Node) (n : Node)
    → find_node a ns ≡ some n
    → Distinct ns
    → All (λ k. k.address ≡ a → k ≡ n) ns
unfolding find_node
find_node_unique a [] n e d = tt
find_node_unique a (k ∷ ns) n e d = elim (Bool-cases (k.address == a)) [
  | inl same ↦
      let i : k.address ≡ a = (==_iff _ _).0 same in
      ((λ _. ground arith), All-map ns (λ j ne h. absurd (ne (h ∙ sym i))) d.0)
  | inr other ↦
      ((λ h. cc (other, (==_iff k.address a).1 h)), find_node_unique a ns n (rw other at e) d.1)
]
