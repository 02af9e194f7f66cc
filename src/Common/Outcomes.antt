-- ===== src/Common/Outcomes.antt =====
-- How a call of C++ code ends: it returns, it throws, or its behaviour is undefined (such as an
-- access out of bounds). A model's loop that runs out of fuel is `stuck`.
use Prim.Native.Nat.{ℕ}
use mathlib.Core.List.{List}

-- A `std::exception` of one of the two classes that the program throws, with its `what()` text.
pub data Exception : Type 0 where
  invalid_argument : List ℕ → Exception
  runtime_error : List ℕ → Exception

abbrev pub what : Exception → List ℕ
what (invalid_argument text) = text
what (runtime_error text) = text

pub data Outcome {ℓ} (A : Type ℓ) : Type ℓ where
  returned : A → Outcome A
  threw : Exception → Outcome A
  undefined : Outcome A
  stuck : Outcome A

infixl 5 ◌>>=◌
abbrev pub ◌>>=◌ {ℓ κ} : {A : Type ℓ} {B : Type κ} → Outcome A → (A → Outcome B) → Outcome B
returned a >>= f = f a
threw e >>= f = threw e
undefined >>= f = undefined
stuck >>= f = stuck
