-- ===== src/Evmasm/RuleList/Constants.antt =====
-- libevmasm/RuleList.h, "arithmetic on constants": a rule for each instruction of two constants, of one
-- and of three, the value being that of `constant_value`.
use lity.Prelude.{ℕ, ◌*◌, ◌%◌, false, List, [], ◌∷◌, Option, none, some}
use lity.Evmasm.Opcode
use lity.Evmasm.Opcode.{Instruction}
use lity.Evmasm.Word.{unary, binary, ternary, word_mod}
use lity.Evmasm.SimplificationRules.Syntax.{
  group_a, group_b, group_c, constant, matched, op_1, op_2, op_3, SimplificationRule,
}

abbrev or_zero : Option ℕ → ℕ
or_zero none = 0
or_zero (some v) = v

abbrev pub of_one : Instruction → SimplificationRule
of_one i = record {
  pattern = op_1 i (matched group_a);
  action = λ d. constant (or_zero (unary i (d group_a)));
  removes_non_constants = false;
}

abbrev pub of_two : Instruction → SimplificationRule
of_two i = record {
  pattern = op_2 i (matched group_a) (matched group_b);
  action = λ d. constant (or_zero (binary i (d group_a) (d group_b)));
  removes_non_constants = false;
}

abbrev pub of_three : Instruction → SimplificationRule
of_three i = record {
  pattern = op_3 i (matched group_a) (matched group_b) (matched group_c);
  action = λ d. constant (or_zero (ternary i (d group_a) (d group_b) (d group_c)));
  removes_non_constants = false;
}

-- The second rule of MULMOD, which leaves the modulus out.
abbrev pub product_rule : SimplificationRule
product_rule = record {
  pattern = op_3 Opcode.mulmod (matched group_a) (matched group_b) (matched group_c);
  action = λ d. constant (d group_a * d group_b % word_mod);
  removes_non_constants = false;
}

unfoldable pub constant_rules : List SimplificationRule
constant_rules =
    of_two Opcode.add
    ∷ of_two Opcode.mul
    ∷ of_two Opcode.sub
    ∷ of_two Opcode.div
    ∷ of_two Opcode.sdiv
    ∷ of_two Opcode.modulo
    ∷ of_two Opcode.smod
    ∷ of_two Opcode.exp
    ∷ of_one Opcode.not
    ∷ of_two Opcode.lt
    ∷ of_two Opcode.gt
    ∷ of_two Opcode.slt
    ∷ of_two Opcode.sgt
    ∷ of_two Opcode.eq
    ∷ of_one Opcode.iszero
    ∷ of_two Opcode.and
    ∷ of_two Opcode.or
    ∷ of_two Opcode.xor
    ∷ of_two Opcode.byte
    ∷ of_three Opcode.addmod
    ∷ of_three Opcode.mulmod
    ∷ product_rule
    ∷ of_two Opcode.signextend
    ∷ of_two Opcode.shl
    ∷ of_two Opcode.shr
    ∷ []
