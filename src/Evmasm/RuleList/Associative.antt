-- ===== src/Evmasm/RuleList/Associative.antt =====
-- libevmasm/RuleList.h, "Associative operations": constants move to the outside.
use lity.Prelude.{ℕ, ◌+◌, ◌-◌, ◌%◌, false, List, [], ◌∷◌, ltb, if◌then◌else◌}
use lity.Evmasm.Opcode
use lity.Evmasm.Opcode.{Instruction}
use lity.Evmasm.Word.{word_mod}
use lity.Evmasm.SimplificationRules.Syntax.{
  group_a, group_b, Pattern, constant, op_2, SimplificationRule, a_, b_, x_, y_, rule,
}

-- `A.d() - B.d()` on words
abbrev pub minus : ℕ → ℕ → ℕ
minus u v = (u + word_mod - v) % word_mod

abbrev pub plus : ℕ → ℕ → ℕ
plus u v = (u + v) % word_mod

-- A rule whose action computes with the matched constants.
abbrev pub acting : Pattern → (ℕ → ℕ → Pattern) → SimplificationRule
acting p f = record {
  pattern = p;
  action = λ d. f (d group_a) (d group_b);
  removes_non_constants = false;
}

-- The four rules for `xa`, which is (X, A) or (A, X).
abbrev pub moving :
    Instruction → (ℕ → ℕ → ℕ) → Pattern → List SimplificationRule → List SimplificationRule
moving i f xa rest =
    acting (op_2 i xa b_) (λ a b. op_2 i x_ (constant (f a b)))
    ∷ rule (op_2 i xa y_) (op_2 i (op_2 i x_ y_) a_)
    ∷ acting (op_2 i b_ xa) (λ a b. op_2 i x_ (constant (f a b)))
    ∷ rule (op_2 i y_ xa) (op_2 i (op_2 i y_ x_) a_)
    ∷ rest

unfoldable pub associative_rules : Instruction → (ℕ → ℕ → ℕ) → List SimplificationRule
associative_rules i f = moving i f (op_2 i x_ a_) (moving i f (op_2 i a_ x_) [])

-- The constant that is left to add to X, or to subtract from it.
abbrev pub add_or_sub : ℕ → ℕ → Pattern
add_or_sub more less =
    if ltb more less
    then op_2 Opcode.sub x_ (constant (minus less more))
    else op_2 Opcode.add x_ (constant (minus more less))

abbrev pub from_sum : Pattern → List SimplificationRule → List SimplificationRule
from_sum xa rest =
    acting (op_2 Opcode.sub xa b_) (λ a b. add_or_sub a b)
    ∷ acting (op_2 Opcode.sub b_ xa) (λ a b. op_2 Opcode.sub (constant (minus b a)) x_)
    ∷ rest

unfoldable pub subtraction_rules : List SimplificationRule
subtraction_rules = from_sum (op_2 Opcode.add x_ a_) (
    from_sum (op_2 Opcode.add a_ x_) (
      acting (op_2 Opcode.add (op_2 Opcode.sub x_ a_) b_) (λ a b. add_or_sub b a)
      ∷ acting (op_2 Opcode.add b_ (op_2 Opcode.sub x_ a_)) (λ a b. add_or_sub b a)
      ∷ acting (op_2 Opcode.sub (op_2 Opcode.sub x_ a_) b_)
          (λ a b. op_2 Opcode.sub x_ (constant (plus a b)))
      ∷ acting (op_2 Opcode.sub (op_2 Opcode.sub a_ x_) b_)
          (λ a b. op_2 Opcode.sub (constant (minus a b)) x_)
      ∷ rule (op_2 Opcode.sub (op_2 Opcode.add x_ a_) y_)
          (op_2 Opcode.add (op_2 Opcode.sub x_ y_) a_)
      ∷ rule (op_2 Opcode.sub (op_2 Opcode.add a_ x_) y_)
          (op_2 Opcode.add (op_2 Opcode.sub x_ y_) a_)
      ∷ rule (op_2 Opcode.sub x_ (op_2 Opcode.add y_ a_))
          (op_2 Opcode.sub (op_2 Opcode.sub x_ y_) a_)
      ∷ rule (op_2 Opcode.sub x_ (op_2 Opcode.add a_ y_))
          (op_2 Opcode.sub (op_2 Opcode.sub x_ y_) a_)
      ∷ []))
