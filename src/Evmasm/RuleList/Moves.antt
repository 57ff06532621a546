-- ===== src/Evmasm/RuleList/Moves.antt =====
-- libevmasm/RuleList.h: the rules that move constants to the outside keep the value.
use lity.Prelude.{
  ℕ, ◌+◌, ◌*◌, ◌%◌, ◌≡◌, refl, ap, sym, subst, ◌∙◌, some, List, [], bit_and, bit_or, bit_xor, arith,
}
use lity.Prelude.Modulo.{mul-assoc_mod}
use lity.Prelude.Bits.{bit_and_comm, bit_or_comm, bit_xor_comm}
use lity.Prelude.Bits.Laws.{bit_and_assoc, bit_or_assoc, bit_xor_assoc}
use lity.Evmasm.Opcode
use lity.Evmasm.Opcode.{Instruction}
use lity.Evmasm.Word.{word_mod, unary, binary, unsigned, signed, bitwise, constant_value}
use lity.Evmasm.SimplificationRules.Syntax.{
  Group, Pattern, SimplificationRule, value, evaluate, group_a, group_b, group_x, group_y, op_2,
  constant, a_, x_,
}
use lity.Evmasm.RuleList.Associative.{moving, associative_rules, subtraction_rules}
use lity.Evmasm.RuleList.Sound.{Agree, AllSound, done, ◌also◌}

-- The value of a pattern, as data.
data HasValue (environment : Instruction → ℕ) (d : Group → ℕ) : Pattern → ℕ → Type 0 where
  has_value : {p : Pattern} {v : ℕ} → evaluate environment d p ≡ some v → HasValue environment d p v

module _ (environment : Instruction → ℕ) where
  agree :
      {d : Group → ℕ} {p q : Pattern} {u v : ℕ}
      → HasValue environment d p u
      → HasValue environment d q v
      → u ≡ v
      → Agree (evaluate environment d p) (evaluate environment d q)
  agree (has_value h) (has_value k) e = rw (h, k) e

  group : (d : Group → ℕ) (g : Group) → HasValue environment d (Pattern.matched g) (d g)
  unfolding evaluate
  group d g = has_value refl

  literal : (d : Group → ℕ) (n : ℕ) → HasValue environment d (constant n) n
  unfolding evaluate
  literal d n = has_value refl

  module _ (i : Instruction) (f : ℕ → ℕ → ℕ) (computes : (u v : ℕ) → binary i u v ≡ some (f u v))
      (assoc : (u v t : ℕ) → f (f u v) t ≡ f u (f v t)) (comm : (u v : ℕ) → f u v ≡ f v u) where
    both :
        {d : Group → ℕ} {p q : Pattern} {u v : ℕ}
        → HasValue environment d p u
        → HasValue environment d q v
        → HasValue environment d (op_2 i p q) (f u v)
    unfolding evaluate value constant_value
    both (has_value h) (has_value k) = has_value (rw (h, k) (computes _ _))

    -- The four rules, for (X, A) or (A, X).
    moving-AllSound :
        (xa : Pattern) (rest : List SimplificationRule)
        → ((d : Group → ℕ) → HasValue environment d xa (f (d group_x) (d group_a)))
        → AllSound environment rest
        → AllSound environment (moving i f xa rest)
    moving-AllSound xa rest h hs =
        (λ d w.
          agree (both (h d) (group d group_b)) (both (group d group_x) (literal d _)) (assoc _ _ _))
        also (λ d w.
            agree (both (h d) (group d group_y))
              (both (both (group d group_x) (group d group_y)) (group d group_a))
              (assoc _ _ _ ∙ ap (f (d group_x)) (comm _ _) ∙ sym (assoc _ _ _)))
        also (λ d w.
            agree (both (group d group_b) (h d)) (both (group d group_x) (literal d _))
              (comm _ _ ∙ assoc _ _ _))
        also (λ d w.
            agree (both (group d group_y) (h d))
              (both (both (group d group_y) (group d group_x)) (group d group_a))
              (sym (assoc _ _ _)))
        also hs

    associative_lem : AllSound environment (associative_rules i f)
    unfolding associative_rules
    associative_lem =
        moving-AllSound (op_2 i x_ a_) _ (λ d. both (group d group_x) (group d group_a))
          (moving-AllSound (op_2 i a_ x_) [] swapped done)
      where
        swapped :
            (d : Group → ℕ) → HasValue environment d (op_2 i a_ x_) (f (d group_x) (d group_a))
        swapped d =
            subst (HasValue environment d (op_2 i a_ x_)) (comm _ _)
              (both (group d group_a) (group d group_x))

  pub add-AllSound : AllSound environment (associative_rules Opcode.add (λ u v. (u + v) % word_mod))
  unfolding binary unsigned
  add-AllSound =
      associative_lem Opcode.add (λ u v. (u + v) % word_mod) (λ u v. refl) (λ u v t. omega arith)
        (λ u v. omega arith)

  pub mul-AllSound : AllSound environment (associative_rules Opcode.mul (λ u v. u * v % word_mod))
  unfolding binary unsigned
  mul-AllSound =
      associative_lem Opcode.mul (λ u v. u * v % word_mod) (λ u v. refl) (mul-assoc_mod word_mod)
        (λ u v. grind arith)

  pub and-AllSound : AllSound environment (associative_rules Opcode.and bit_and)
  unfolding binary unsigned bitwise
  and-AllSound = associative_lem Opcode.and bit_and (λ u v. refl) bit_and_assoc bit_and_comm

  pub or-AllSound : AllSound environment (associative_rules Opcode.or bit_or)
  unfolding binary unsigned bitwise
  or-AllSound = associative_lem Opcode.or bit_or (λ u v. refl) bit_or_assoc bit_or_comm

  pub xor-AllSound : AllSound environment (associative_rules Opcode.xor bit_xor)
  unfolding binary unsigned bitwise
  xor-AllSound = associative_lem Opcode.xor bit_xor (λ u v. refl) bit_xor_assoc bit_xor_comm

  pub subtraction_rules-AllSound : AllSound environment subtraction_rules
  unfolding subtraction_rules evaluate value constant_value unary binary unsigned bitwise signed
  subtraction_rules-AllSound =
      (λ d h. let a = h group_a in let b = h group_b in let x = h group_x in ground arith)
      also (λ d h. let a = h group_a in let b = h group_b in let x = h group_x in ground arith)
      also (λ d h. let a = h group_a in let b = h group_b in let x = h group_x in ground arith)
      also (λ d h. let a = h group_a in let b = h group_b in let x = h group_x in ground arith)
      also (λ d h. let a = h group_a in let b = h group_b in let x = h group_x in ground arith)
      also (λ d h. let a = h group_a in let b = h group_b in let x = h group_x in ground arith)
      also (λ d h. let a = h group_a in let b = h group_b in let x = h group_x in ground arith)
      also (λ d h. let a = h group_a in let b = h group_b in let x = h group_x in ground arith)
      also (λ d h. let a = h group_a in let y = h group_y in let x = h group_x in ground arith)
      also (λ d h. let a = h group_a in let y = h group_y in let x = h group_x in ground arith)
      also (λ d h. let a = h group_a in let y = h group_y in let x = h group_x in ground arith)
      also (λ d h. let a = h group_a in let y = h group_y in let x = h group_x in ground arith)
      also done
