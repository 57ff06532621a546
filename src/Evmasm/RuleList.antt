-- ===== src/Evmasm/RuleList.antt =====
-- libevmasm/RuleList.h: the simplification rules.
pub mod Constants
pub mod Associative
pub mod Words
pub mod Sound
pub mod Logic
pub mod Moves
pub mod FirstMatch
use lity.Prelude.{
  ℕ, zero, suc, ◌+◌, ◌-◌, ◌*◌, ◌%◌, ◌^◌, bit_and, bit_or, bit_xor, true, false, List, [], ◌∷◌, ◌++◌,
  ltb, if◌then◌else◌,
}
use lity.Evmasm.Opcode
use lity.Evmasm.Opcode.{Instruction}
use lity.Evmasm.Word.{word_mod, max_word}
use lity.Evmasm.SimplificationRules.Syntax.{
  constant, op_0, op_1, op_2, SimplificationRule, a_, b_, x_, y_, rule, removing,
}
use Constants.{constant_rules}
use Associative.{associative_rules, subtraction_rules}

-- "invariants involving known constants"
unfoldable pub known_constant_rules : List SimplificationRule
known_constant_rules =
    rule (op_2 Opcode.add x_ (constant 0)) x_
    ∷ rule (op_2 Opcode.add (constant 0) x_) x_
    ∷ rule (op_2 Opcode.sub x_ (constant 0)) x_
    ∷ removing (op_2 Opcode.mul x_ (constant 0)) (constant 0)
    ∷ removing (op_2 Opcode.mul (constant 0) x_) (constant 0)
    ∷ rule (op_2 Opcode.mul x_ (constant 1)) x_
    ∷ rule (op_2 Opcode.mul (constant 1) x_) x_
    ∷ rule (op_2 Opcode.mul x_ (constant max_word)) (op_2 Opcode.sub (constant 0) x_)
    ∷ rule (op_2 Opcode.mul (constant max_word) x_) (op_2 Opcode.sub (constant 0) x_)
    ∷ removing (op_2 Opcode.div x_ (constant 0)) (constant 0)
    ∷ removing (op_2 Opcode.div (constant 0) x_) (constant 0)
    ∷ rule (op_2 Opcode.div x_ (constant 1)) x_
    ∷ removing (op_2 Opcode.sdiv x_ (constant 0)) (constant 0)
    ∷ removing (op_2 Opcode.sdiv (constant 0) x_) (constant 0)
    ∷ rule (op_2 Opcode.sdiv x_ (constant 1)) x_
    ∷ rule (op_2 Opcode.and x_ (constant max_word)) x_
    ∷ rule (op_2 Opcode.and (constant max_word) x_) x_
    ∷ removing (op_2 Opcode.and x_ (constant 0)) (constant 0)
    ∷ removing (op_2 Opcode.and (constant 0) x_) (constant 0)
    ∷ rule (op_2 Opcode.or x_ (constant 0)) x_
    ∷ rule (op_2 Opcode.or (constant 0) x_) x_
    ∷ removing (op_2 Opcode.or x_ (constant max_word)) (constant max_word)
    ∷ removing (op_2 Opcode.or (constant max_word) x_) (constant max_word)
    ∷ rule (op_2 Opcode.xor x_ (constant 0)) x_
    ∷ rule (op_2 Opcode.xor (constant 0) x_) x_
    ∷ removing (op_2 Opcode.modulo x_ (constant 0)) (constant 0)
    ∷ removing (op_2 Opcode.modulo (constant 0) x_) (constant 0)
    ∷ rule (op_2 Opcode.eq x_ (constant 0)) (op_1 Opcode.iszero x_)
    ∷ rule (op_2 Opcode.eq (constant 0) x_) (op_1 Opcode.iszero x_)
    ∷ []

-- "operations involving an expression and itself"
unfoldable pub self_rules : List SimplificationRule
self_rules =
    removing (op_2 Opcode.and x_ x_) x_
    ∷ removing (op_2 Opcode.or x_ x_) x_
    ∷ removing (op_2 Opcode.xor x_ x_) (constant 0)
    ∷ removing (op_2 Opcode.sub x_ x_) (constant 0)
    ∷ removing (op_2 Opcode.eq x_ x_) (constant 1)
    ∷ removing (op_2 Opcode.lt x_ x_) (constant 0)
    ∷ removing (op_2 Opcode.slt x_ x_) (constant 0)
    ∷ removing (op_2 Opcode.gt x_ x_) (constant 0)
    ∷ removing (op_2 Opcode.sgt x_ x_) (constant 0)
    ∷ removing (op_2 Opcode.modulo x_ x_) (constant 0)
    ∷ []

-- "logical instruction combinations"
unfoldable pub logic_rules : List SimplificationRule
logic_rules =
    rule (op_1 Opcode.not (op_1 Opcode.not x_)) x_
    ∷ removing (op_2 Opcode.xor x_ (op_2 Opcode.xor x_ y_)) y_
    ∷ removing (op_2 Opcode.xor x_ (op_2 Opcode.xor y_ x_)) y_
    ∷ removing (op_2 Opcode.xor (op_2 Opcode.xor x_ y_) x_) y_
    ∷ removing (op_2 Opcode.xor (op_2 Opcode.xor y_ x_) x_) y_
    ∷ removing (op_2 Opcode.or x_ (op_2 Opcode.and x_ y_)) x_
    ∷ removing (op_2 Opcode.or x_ (op_2 Opcode.and y_ x_)) x_
    ∷ removing (op_2 Opcode.or (op_2 Opcode.and x_ y_) x_) x_
    ∷ removing (op_2 Opcode.or (op_2 Opcode.and y_ x_) x_) x_
    ∷ removing (op_2 Opcode.and x_ (op_2 Opcode.or x_ y_)) x_
    ∷ removing (op_2 Opcode.and x_ (op_2 Opcode.or y_ x_)) x_
    ∷ removing (op_2 Opcode.and (op_2 Opcode.or x_ y_) x_) x_
    ∷ removing (op_2 Opcode.and (op_2 Opcode.or y_ x_) x_) x_
    ∷ removing (op_2 Opcode.and x_ (op_1 Opcode.not x_)) (constant 0)
    ∷ removing (op_2 Opcode.and (op_1 Opcode.not x_) x_) (constant 0)
    ∷ removing (op_2 Opcode.or x_ (op_1 Opcode.not x_)) (constant max_word)
    ∷ removing (op_2 Opcode.or (op_1 Opcode.not x_) x_) (constant max_word)
    ∷ []

-- "Replace MOD X, <power-of-two> with AND X, <power-of-two> - 1": of n powers, from 2 ^ i.
unfoldable pub power_rules : ℕ → ℕ → List SimplificationRule
power_rules zero i = []
power_rules (suc n) i =
    rule (op_2 Opcode.modulo x_ (constant (2 ^ i))) (op_2 Opcode.and x_ (constant (2 ^ i - 1)))
    ∷ power_rules n (suc i)

-- An address has 160 bits.
unfoldable pub address_rules : List Instruction → List SimplificationRule
address_rules [] = []
address_rules (i ∷ is) =
    rule (op_2 Opcode.and (op_0 i) (constant (2 ^ 160 - 1))) (op_0 i)
    ∷ rule (op_2 Opcode.and (constant (2 ^ 160 - 1)) (op_0 i)) (op_0 i)
    ∷ address_rules is

-- "Double negation of opcodes with boolean result"
unfoldable pub negation_rules : List Instruction → List SimplificationRule
negation_rules [] =
    rule (op_1 Opcode.iszero (op_1 Opcode.iszero (op_1 Opcode.iszero x_))) (op_1 Opcode.iszero x_)
    ∷ rule (op_1 Opcode.iszero (op_2 Opcode.xor x_ y_)) (op_2 Opcode.eq x_ y_)
    ∷ []
negation_rules (i ∷ is) =
    rule (op_1 Opcode.iszero (op_1 Opcode.iszero (op_2 i x_ y_))) (op_2 i x_ y_) ∷ negation_rules is

abbrev pub boolean_ops : List Instruction
boolean_ops = Opcode.eq ∷ Opcode.lt ∷ Opcode.slt ∷ Opcode.gt ∷ Opcode.sgt ∷ []

abbrev pub address_ops : List Instruction
address_ops = Opcode.address ∷ Opcode.caller ∷ Opcode.origin ∷ Opcode.coinbase ∷ []

-- `simplificationRuleListPart1`
unfoldable pub part_1 : List SimplificationRule
unfolding constant_rules known_constant_rules self_rules logic_rules
part_1 = constant_rules ++ known_constant_rules ++ self_rules ++ logic_rules

-- `simplificationRuleListPart2`
unfoldable pub part_2 : List SimplificationRule
unfolding power_rules address_rules negation_rules associative_rules subtraction_rules
part_2 =
    power_rules 256 0
    ++ address_rules address_ops
    ++ negation_rules boolean_ops
    ++ associative_rules Opcode.add (λ u v. (u + v) % word_mod)
    ++ associative_rules Opcode.mul (λ u v. u * v % word_mod)
    ++ associative_rules Opcode.and bit_and
    ++ associative_rules Opcode.or bit_or
    ++ associative_rules Opcode.xor bit_xor
    ++ subtraction_rules

unfoldable pub simplification_rule_list : List SimplificationRule
unfolding part_1 part_2
simplification_rule_list = part_1 ++ part_2
