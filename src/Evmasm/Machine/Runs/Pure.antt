-- ===== src/Evmasm/Machine/Runs/Pure.antt =====
-- libevmasm/Instruction.h: instructions without side effects, and those of two operands whose value is
-- known.

use lity.Prelude.{
  ℕ, ◌≡◌, refl, ◌∙◌, Bool, true, false, not, ◌&&◌, Option, none, some, List, [], ◌∷◌, ◌==◌,
  if◌then◌else◌, arith,
}
use lity.Evmasm.Opcode
use lity.Evmasm.Opcode.{Instruction}
use lity.Evmasm.Word.{constant_value}
use lity.Evmasm.Instruction.{
  instruction_info, invalid_info, is_dup_instruction, is_swap_instruction,
}
use lity.Evmasm.Instruction.Table.{InstructionInfo, instruction_table}
use lity.Evmasm.Instruction.Entries.{every, every-instruction_info}
use lity.Evmasm.Machine.{Machine, ends, outputs, pure, execute}
use lity.Evmasm.Machine.Runs.Stack.{length-one}

-- No instruction of the table that gives one result without side effects is treated in a way of its
-- own by the machine.
plain : Instruction → InstructionInfo → Bool
plain i entry =
    if entry.ret == 1 && not entry.side_effects
    then not (is_dup_instruction i)
      && not (is_swap_instruction i)
      && not (i == Opcode.jump)
      && not (i == Opcode.jumpi)
      && not (ends i)
    else true

plain_table : every plain instruction_table ≡ true
unfolding every plain instruction_table is_dup_instruction is_swap_instruction ends
plain_table = refl

plain_invalid : (i : Instruction) → plain i (invalid_info i) ≡ true
unfolding plain invalid_info
plain_invalid i = refl

module _ (m : Machine) where
  open m use {World, Final}

  pub execute-pure :
      (i : Instruction) (w : World) (s : List ℕ)
      → (instruction_info i).ret ≡ 1
      → (instruction_info i).side_effects ≡ false
      → execute m i w s ≡ pure m i w s
  unfolding execute plain
  execute-pure i w s r e =
      let h = every-instruction_info plain i plain_table (plain_invalid i) in ground arith

  pub outputs-one :
      (i : Instruction) (w : World) (xs : List ℕ)
      → (instruction_info i).ret ≡ 1
      → (v : ℕ) × (outputs m i w xs ≡ v ∷ [])
  unfolding outputs
  outputs-one i w xs r = chosen (constant_value i xs)
    where
      chosen :
          (o : Option ℕ) → (v : ℕ) × (elim o [ none ↦ m.results i w xs | some v ↦ v ∷ [] ] ≡ v ∷ [])
      chosen none = length-one (m.results i w xs) (m.length-results i w xs ∙ r)
      chosen (some v) = (v, refl)
