-- ===== src/Evmasm/RuleList/Sound.antt =====
-- libevmasm/RuleList.h: when a rule keeps the value, and the rules with known constants.
use lity.Prelude.{ℕ, ◌^◌, ◌<◌, ◌≡◌, refl, ◌∙◌, Option, some, List, [], ◌∷◌, ◌++◌, arith}
use lity.Prelude.Bits.{bit_and_comm, bit_or_comm, bit_xor_comm}
use lity.Prelude.Bits.Laws.{bit_and_zero, bit_or_zero, bit_xor_zero}
use lity.Evmasm.Opcode.{Instruction}
use lity.Evmasm.Word.{
  max_word, u2s, s2u, div_ℤ, unary, binary, ternary, unsigned, signed, bitwise, constant_value,
}
use lity.Evmasm.SimplificationRules.Syntax.{Group, SimplificationRule, value, evaluate, group_x}
use lity.Evmasm.RuleList.{known_constant_rules}
use lity.Evmasm.RuleList.Constants.{constant_rules}
use lity.Evmasm.RuleList.Words.{and_max, or_max}

-- Both are known, and the same.
abbrev pub Agree : Option ℕ → Option ℕ → Type 0
Agree (some u) (some v) = u ≡ v
Agree _ _ = ⊥

-- Pattern and action have the same value, whatever words the match groups have.
abbrev pub Sound : (Instruction → ℕ) → SimplificationRule → Type 0
Sound environment r =
    (d : Group → ℕ)
    → ((g : Group) → d g < 2 ^ 256)
    → Agree (evaluate environment d r.pattern) (evaluate environment d (r.action d))

-- Every rule is sound, or stands behind one with the same pattern, so that it is never the first.
infixr 5 ◌also◌
pub data AllSound (environment : Instruction → ℕ) : List SimplificationRule → Type 0 where
  done : AllSound environment []
  ◌also◌ :
      {r : SimplificationRule} {rs : List SimplificationRule}
      → Sound environment r
      → AllSound environment rs
      → AllSound environment (r ∷ rs)
  behind :
      {r q : SimplificationRule} {rs : List SimplificationRule}
      → q.pattern ≡ r.pattern
      → Sound environment r
      → AllSound environment rs
      → AllSound environment (r ∷ q ∷ rs)

pub append-AllSound :
    (environment : Instruction → ℕ) (rs qs : List SimplificationRule)
    → AllSound environment rs
    → AllSound environment qs
    → AllSound environment (rs ++ qs)
append-AllSound environment [] qs done k = k
append-AllSound environment (r ∷ rs) qs (h also hs) k =
    h also append-AllSound environment rs qs hs k
append-AllSound environment (r ∷ q ∷ rs) qs (behind e h hs) k =
    behind e h (append-AllSound environment rs qs hs k)

pub constant_rules-AllSound : (environment : Instruction → ℕ) → AllSound environment constant_rules
unfolding constant_rules evaluate value constant_value unary binary ternary unsigned bitwise signed
constant_rules-AllSound environment =
    (λ d h. refl)
    also (λ d h. refl)
    also (λ d h. refl)
    also (λ d h. refl)
    also (λ d h. refl)
    also (λ d h. refl)
    also (λ d h. refl)
    also (λ d h. refl)
    also (λ d h. refl)
    also (λ d h. refl)
    also (λ d h. refl)
    also (λ d h. refl)
    also (λ d h. refl)
    also (λ d h. refl)
    also (λ d h. refl)
    also (λ d h. refl)
    also (λ d h. refl)
    also (λ d h. refl)
    also (λ d h. refl)
    also (λ d h. refl)
    also behind refl (λ d h. refl) ((λ d h. refl) also (λ d h. refl) also (λ d h. refl) also done)

pub known_constant_rules-AllSound :
    (environment : Instruction → ℕ) → AllSound environment known_constant_rules
unfolding known_constant_rules evaluate value constant_value unary binary unsigned bitwise signed
    u2s s2u div_ℤ
known_constant_rules-AllSound environment =
    (λ d h. let w = h group_x in (omega arith))
    also (λ d h. let w = h group_x in (omega arith))
    also (λ d h. let w = h group_x in (omega arith))
    also (λ d h. let w = h group_x in (omega arith))
    also (λ d h. let w = h group_x in (omega arith))
    also (λ d h. let w = h group_x in (omega arith))
    also (λ d h. let w = h group_x in (omega arith))
    also (λ d h. let w = h group_x in (omega arith))
    also (λ d h. let w = h group_x in (omega arith))
    also (λ d h. let w = h group_x in refl)
    also (λ d h. let w = h group_x in (ground arith))
    also (λ d h. let w = h group_x in (omega arith))
    also (λ d h. let w = h group_x in refl)
    also (λ d h. let w = h group_x in (ground arith))
    also (λ d h. let w = h group_x in (ground arith))
    also (λ d h. let w = h group_x in and_max (d group_x) w)
    also (λ d h. let w = h group_x in bit_and_comm max_word (d group_x) ∙ and_max (d group_x) w)
    also (λ d h. let w = h group_x in bit_and_zero (d group_x))
    also (λ d h. let w = h group_x in bit_and_comm 0 (d group_x) ∙ bit_and_zero (d group_x))
    also (λ d h. let w = h group_x in bit_or_zero (d group_x))
    also (λ d h. let w = h group_x in bit_or_comm 0 (d group_x) ∙ bit_or_zero (d group_x))
    also (λ d h. let w = h group_x in or_max (d group_x) w)
    also (λ d h. let w = h group_x in bit_or_comm max_word (d group_x) ∙ or_max (d group_x) w)
    also (λ d h. let w = h group_x in bit_xor_zero (d group_x))
    also (λ d h. let w = h group_x in bit_xor_comm 0 (d group_x) ∙ bit_xor_zero (d group_x))
    also (λ d h. let w = h group_x in refl)
    also (λ d h. let w = h group_x in (ground arith))
    also (λ d h. let w = h group_x in refl)
    also (λ d h. let w = h group_x in (ground arith))
    also done
