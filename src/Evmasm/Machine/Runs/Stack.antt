-- ===== src/Evmasm/Machine/Runs/Stack.antt =====
-- libevmasm/Instruction.h: reading and writing below the top of the stack.
use lity.Prelude.{ℕ, zero, suc, ◌≡◌, refl, ap, List, [], ◌∷◌, some, get_elem?, set, length, arith}

module _ {ℓ} {A : Type ℓ} where
  -- Writing a value where another was, and that one back, leaves the list as it was.
  pub get_elem?-set :
      (s : List A) (k : ℕ) (x y : A) → get_elem? s k ≡ some y → get_elem? (set s k x) k ≡ some x
  get_elem?-set [] k x y e = cc
  get_elem?-set (z ∷ s) zero x y e = refl
  get_elem?-set (z ∷ s) (suc k) x y e = get_elem?-set s k x y e

  pub set-set : (s : List A) (k : ℕ) (x y : A) → get_elem? s k ≡ some y → set (set s k x) k y ≡ s
  set-set [] k x y e = cc
  set-set (z ∷ s) zero x y e = cc
  set-set (z ∷ s) (suc k) x y e = ap (λ l. z ∷ l) (set-set s k x y e)

  pub length-zero : (xs : List A) → length xs ≡ 0 → xs ≡ []
  length-zero [] h = refl
  length-zero (x ∷ xs) h = absurd (omega arith)

  pub length-one : (xs : List A) → length xs ≡ 1 → (v : A) × (xs ≡ v ∷ [])
  length-one [] h = absurd (omega arith)
  length-one (x ∷ []) h = (x, refl)
  length-one (x ∷ y ∷ xs) h = absurd (omega arith)
