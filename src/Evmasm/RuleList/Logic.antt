-- ===== src/Evmasm/RuleList/Logic.antt =====
-- libevmasm/RuleList.h: the rules of an expression and itself, of logical combinations, powers of two,
-- addresses and negations keep the value.
use lity.Prelude.{ℕ, zero, suc, ◌-◌, ◌^◌, ◌<◌, ◌≡◌, ap, sym, ◌∙◌, bit_and, bit_or, bit_xor, arith}
use lity.Prelude.Bits.{ones, bit_and_comm, bit_or_comm, bit_xor_comm}
use lity.Prelude.Bits.Laws.{
  bit_and_self, bit_or_self, bit_xor_self, bit_xor_cancel, bit_or-bit_and, bit_and-bit_or,
  bit_and-ones, ones-pow, pow_pos,
}
use native.Mathlib.Nat.{mod_self}
use lity.Evmasm.Opcode
use lity.Evmasm.Opcode.{Instruction}
use lity.Evmasm.Word.{u2s, unary, binary, unsigned, signed, bitwise, constant_value}
use lity.Evmasm.SimplificationRules.Syntax.{
  value, evaluate, group_x, group_y, op_2, constant, x_, rule,
}
use lity.Evmasm.RuleList.{
  self_rules, logic_rules, power_rules, address_rules, negation_rules, address_ops, boolean_ops,
}
use lity.Evmasm.RuleList.Words.{and_complement, or_complement, bit_xor-zero_test}
use lity.Evmasm.RuleList.Sound.{Sound, AllSound, done, ◌also◌}

module _ (environment : Instruction → ℕ) where
  pub self_rules-AllSound : AllSound environment self_rules
  unfolding self_rules evaluate value constant_value unary binary unsigned bitwise signed u2s
  self_rules-AllSound =
      (λ d h. bit_and_self (d group_x))
      also (λ d h. bit_or_self (d group_x))
      also (λ d h. bit_xor_self (d group_x))
      also (λ d h. let w = h group_x in omega arith)
      also (λ d h. ground arith)
      also (λ d h. ground arith)
      also (λ d h. ground arith)
      also (λ d h. ground arith)
      also (λ d h. ground arith)
      also (λ d h. let z = mod_self (d group_x) in ground arith)
      also done

  xor_again : (x y : ℕ) → bit_xor x (bit_xor y x) ≡ y
  xor_again x y = ap (bit_xor x) (bit_xor_comm y x) ∙ bit_xor_cancel x y

  pub logic_rules-AllSound : AllSound environment logic_rules
  unfolding logic_rules evaluate value constant_value unary binary unsigned bitwise signed
  logic_rules-AllSound =
      (λ d h. let w = h group_x in omega arith)
      also (λ d h. bit_xor_cancel (d group_x) (d group_y))
      also (λ d h. xor_again (d group_x) (d group_y))
      also (λ d h. bit_xor_comm _ (d group_x) ∙ bit_xor_cancel (d group_x) (d group_y))
      also (λ d h. bit_xor_comm _ (d group_x) ∙ xor_again (d group_x) (d group_y))
      also (λ d h. bit_or-bit_and (d group_x) (d group_y))
      also (λ d h.
          ap (bit_or (d group_x)) (bit_and_comm (d group_y) (d group_x))
          ∙ bit_or-bit_and (d group_x) (d group_y))
      also (λ d h. bit_or_comm _ (d group_x) ∙ bit_or-bit_and (d group_x) (d group_y))
      also (λ d h.
          bit_or_comm _ (d group_x)
          ∙ ap (bit_or (d group_x)) (bit_and_comm (d group_y) (d group_x))
          ∙ bit_or-bit_and (d group_x) (d group_y))
      also (λ d h. bit_and-bit_or (d group_x) (d group_y))
      also (λ d h.
          ap (bit_and (d group_x)) (bit_or_comm (d group_y) (d group_x))
          ∙ bit_and-bit_or (d group_x) (d group_y))
      also (λ d h. bit_and_comm _ (d group_x) ∙ bit_and-bit_or (d group_x) (d group_y))
      also (λ d h.
          bit_and_comm _ (d group_x)
          ∙ ap (bit_and (d group_x)) (bit_or_comm (d group_y) (d group_x))
          ∙ bit_and-bit_or (d group_x) (d group_y))
      also (λ d h. and_complement (d group_x) (h group_x))
      also (λ d h. bit_and_comm _ (d group_x) ∙ and_complement (d group_x) (h group_x))
      also (λ d h. or_complement (d group_x) (h group_x))
      also (λ d h. bit_or_comm _ (d group_x) ∙ or_complement (d group_x) (h group_x))
      also done

  power :
      (i : ℕ)
      → Sound environment (
          rule
            (op_2 Opcode.modulo x_ (constant (2 ^ i)))
            (op_2 Opcode.and x_ (constant (2 ^ i - 1))))
  unfolding evaluate value constant_value unary binary unsigned bitwise signed
  power i d h =
      let pos = pow_pos i in
      let e = ap (bit_and (d group_x)) (sym (ones-pow i)) ∙ bit_and-ones i (d group_x) in
      ground arith

  pub power_rules-AllSound : (n i : ℕ) → AllSound environment (power_rules n i)
  unfolding power_rules
  power_rules-AllSound zero i = done
  power_rules-AllSound (suc n) i = power i also power_rules-AllSound n (suc i)

  pub negation_rules-AllSound : AllSound environment (negation_rules boolean_ops)
  unfolding negation_rules evaluate value constant_value unary binary unsigned bitwise signed u2s
  negation_rules-AllSound =
      (λ d h. ground arith)
      also (λ d h. ground arith)
      also (λ d h. ground arith)
      also (λ d h. ground arith)
      also (λ d h. ground arith)
      also (λ d h. ground arith)
      also (λ d h. let e = bit_xor-zero_test (d group_x) (d group_y) in ground arith)
      also done

  address :
      (i : Instruction)
      → (w : environment i < 2 ^ 160) → bit_and (environment i) (2 ^ 160 - 1) ≡ environment i
  unfolding ones
  address i w = bit_and-ones 160 (environment i) ∙ omega arith

  pub address_rules-AllSound :
      ((i : Instruction) → environment i < 2 ^ 160)
      → AllSound environment (address_rules address_ops)
  unfolding address_rules evaluate value constant_value unary binary unsigned bitwise signed
  address_rules-AllSound w =
      (λ d h. address Opcode.address (w _))
      also (λ d h. bit_and_comm _ (environment Opcode.address) ∙ address Opcode.address (w _))
      also (λ d h. address Opcode.caller (w _))
      also (λ d h. bit_and_comm _ (environment Opcode.caller) ∙ address Opcode.caller (w _))
      also (λ d h. address Opcode.origin (w _))
      also (λ d h. bit_and_comm _ (environment Opcode.origin) ∙ address Opcode.origin (w _))
      also (λ d h. address Opcode.coinbase (w _))
      also (λ d h. bit_and_comm _ (environment Opcode.coinbase) ∙ address Opcode.coinbase (w _))
      also done
