-- ===== src/Evmasm/SimplificationRules/Syntax.antt =====
-- libevmasm/SimplificationRules.h and SimplificationRule.h: the patterns of the rules. A pattern is a
-- constant, one of the match groups A, B, C (constants), X, Y (anything), or an instruction that is
-- applied to patterns.
use lity.Prelude.{
  ℕ, Bool, Option, none, some, true, false, List, [], ◌∷◌, ◌==◌, ◌||◌, if◌then◌else◌,
}
use lity.Evmasm.Opcode
use lity.Evmasm.Opcode.{Instruction}
use lity.Evmasm.Word.{constant_value}

-- The match groups 1 to 5 of the constructor of `Rules`.
pub data Group : Type 0 where
  group_a group_b group_c group_x group_y : Group

mutual
  pub data Pattern : Type 0 where
    constant : ℕ → Pattern
    matched : Group → Pattern
    apply : Instruction → Patterns → Pattern

  pub data Patterns : Type 0 where
    nil : Patterns
    cons : Pattern → Patterns → Patterns

abbrev pub op_0 : Instruction → Pattern
op_0 i = apply i nil

abbrev pub op_1 : Instruction → Pattern → Pattern
op_1 i p = apply i (cons p nil)

abbrev pub op_2 : Instruction → Pattern → Pattern → Pattern
op_2 i p q = apply i (cons p (cons q nil))

abbrev pub op_3 : Instruction → Pattern → Pattern → Pattern → Pattern
op_3 i p q r = apply i (cons p (cons q (cons r nil)))

-- The parameter is the value of a match group, `d()` in the source.
pub record SimplificationRule : Type 0 where
  pub pattern : Pattern
  pub action : (Group → ℕ) → Pattern
  pub removes_non_constants : Bool

abbrev pub a_ : Pattern
a_ = matched group_a

abbrev pub b_ : Pattern
b_ = matched group_b

abbrev pub x_ : Pattern
x_ = matched group_x

abbrev pub y_ : Pattern
y_ = matched group_y

abbrev pub rule : Pattern → Pattern → SimplificationRule
rule p q = record { pattern = p; action = λ d. q; removes_non_constants = false }

abbrev pub removing : Pattern → Pattern → SimplificationRule
removing p q = record { pattern = p; action = λ d. q; removes_non_constants = true }

-- What an instruction computes from its operands, where that is known: from constants, or from the
-- environment of the call.
unfoldable pub value : (Instruction → ℕ) → Instruction → List ℕ → Option ℕ
value environment i [] =
    if i == Opcode.address || i == Opcode.caller || i == Opcode.origin || i == Opcode.coinbase
    then some (environment i)
    else none
value environment i (v ∷ vs) = constant_value i (v ∷ vs)

abbrev of_values : (Instruction → ℕ) → Instruction → Option (List ℕ) → Option ℕ
of_values environment i none = none
of_values environment i (some vs) = value environment i vs

abbrev pub push_value : Option ℕ → Option (List ℕ) → Option (List ℕ)
push_value (some v) (some vs) = some (v ∷ vs)
push_value _ _ = none

-- The value of a pattern, the match groups having theirs.
unfoldable mutual
  pub evaluate : (Instruction → ℕ) → (Group → ℕ) → Pattern → Option ℕ
  evaluate environment d (constant n) = some n
  evaluate environment d (matched g) = some (d g)
  evaluate environment d (apply i ps) = of_values environment i (evaluate_all environment d ps)

  pub evaluate_all : (Instruction → ℕ) → (Group → ℕ) → Patterns → Option (List ℕ)
  evaluate_all environment d nil = some []
  evaluate_all environment d (cons p ps) =
      push_value (evaluate environment d p) (evaluate_all environment d ps)
