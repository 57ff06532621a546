-- ===== src/Tests/Rules.antt =====
-- The simplification rules at a concrete expression.
use lity.Prelude.{ℕ, zero, suc, ◌^◌, ◌≡◌, ◌<◌, refl, subst, some, [], ◌∷◌, ok, arith}
use lity.Evmasm.Opcode
use lity.Evmasm.Opcode.{Instruction}
use lity.Evmasm.Word.{constant_value, binary, unsigned}
use lity.Evmasm.Instruction.{instruction_info}
use lity.Evmasm.AssemblyItem.{AssemblyItem, op, push_item, undefined_item}
use lity.Evmasm.SimplificationRules.{
  Expression, no_groups, set_group, find_first_match, first_match, rules_of, matches,
  matches_base_item, match_group,
}
use lity.Evmasm.SimplificationRules.Syntax.{group_x, constant, op_2, x_, rule, evaluate, value}
use lity.Evmasm.SimplificationRules.Meaning.{IsMeaning, Consistent, group_data}
use lity.Evmasm.RuleList.{
  simplification_rule_list, part_1, part_2, known_constant_rules, self_rules, logic_rules,
  power_rules, address_rules, negation_rules,
}
use lity.Evmasm.RuleList.Constants.{constant_rules}
use lity.Evmasm.RuleList.Associative.{associative_rules, subtraction_rules}
use lity.Evmasm.RuleList.FirstMatch.{find_first_match-value}

-- The class 0 is the constant 0; of the others nothing is known.
abbrev classes : ℕ → Expression
classes zero = record { id = 0; item = some (push_item 0); arguments = []; sequence_number = 0 }
classes (suc n) = record {
  id = suc n;
  item = some (record (op 0) { type = undefined_item });
  arguments = [];
  sequence_number = 0;
}

abbrev values : ℕ → ℕ
values zero = 0
values (suc n) = 7

abbrev no_environment : Instruction → ℕ
no_environment i = 0

-- ADD of the class 1 and the constant 0
abbrev sum : Expression
sum = record { id = 100; item = some (op Opcode.add); arguments = 1 ∷ 0 ∷ []; sequence_number = 0 }

classes-Consistent : Consistent no_environment classes values
classes-Consistent zero = (
  refl,
  record { of_push = λ it o t. ground arith; of_operation = λ it o t. absurd (ground arith) },
)
classes-Consistent (suc n) = (
  refl,
  record {
    of_push = λ it o t. absurd (ground arith);
    of_operation = λ it o t. absurd (ground arith);
  },
)

values-lt : (a : ℕ) → values a < 2 ^ 256
values-lt zero = omega arith
values-lt (suc n) = omega arith

sum_value :
    (it : AssemblyItem)
    → op Opcode.add ≡ it
    → (2 ≡ (instruction_info it.instruction).args)
      × ((v : ℕ) → value no_environment it.instruction (7 ∷ 0 ∷ []) ≡ some v → 7 ≡ v)
unfolding instruction_info value constant_value binary unsigned
sum_value it e =
    subst
      (λ (t : AssemblyItem).
        (2 ≡ (instruction_info t.instruction).args)
        × ((v : ℕ) → value no_environment t.instruction (7 ∷ 0 ∷ []) ≡ some v → 7 ≡ v))
      e (refl, λ v h. ground arith)

sum-IsMeaning : IsMeaning no_environment values sum 7
sum-IsMeaning = record {
  of_push = λ it o t. absurd (ground arith);
  of_operation = λ it o t. sum_value it (ground arith);
}

first_rule :
    find_first_match classes simplification_rule_list sum
    ≡ ok (some (rule (op_2 Opcode.add x_ (constant 0)) x_, set_group group_x (classes 1) no_groups))
unfolding find_first_match first_match rules_of matches matches_base_item match_group
    simplification_rule_list part_1 part_2 known_constant_rules self_rules logic_rules power_rules
    address_rules negation_rules constant_rules associative_rules subtraction_rules
first_rule = refl

find_first_match-value_example :
    evaluate no_environment (group_data values (set_group group_x (classes 1) no_groups)) x_
    ≡ some 7
find_first_match-value_example =
    find_first_match-value no_environment classes values sum 7
      (rule (op_2 Opcode.add x_ (constant 0)) x_) (set_group group_x (classes 1) no_groups)
      (λ i. omega arith) classes-Consistent values-lt sum-IsMeaning first_rule
