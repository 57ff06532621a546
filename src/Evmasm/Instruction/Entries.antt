-- ===== src/Evmasm/Instruction/Entries.antt =====
-- libevmasm/Instruction.cpp: facts that hold of every entry of the table.
use lity.Prelude.{
  ◌≡◌, Bool, true, some, List, [], ◌∷◌, ◌&&◌, ◌==◌, arith, Bool-cases, inl, inr, subst,
  Option-cases,
}
use lity.Evmasm.Opcode.{Instruction}
use lity.Evmasm.Instruction.{find_info, instruction_info, invalid_info}
use lity.Evmasm.Instruction.Table.{InstructionInfo, instruction_table}

-- A test that every entry passes.
unfoldable pub every :
    (Instruction → InstructionInfo → Bool) → List (Instruction × InstructionInfo) → Bool
every p [] = true
every p ((key, entry) ∷ table) = p key entry && every p table

every-find_info :
    (p : Instruction → InstructionInfo → Bool) (table : List (Instruction × InstructionInfo))
    (i : Instruction) (entry : InstructionInfo)
    → every p table ≡ true
    → find_info i table ≡ some entry
    → p i entry ≡ true
unfolding every find_info
every-find_info p [] i entry h e = cc
every-find_info p ((key, found) ∷ table) i entry h e = elim (Bool-cases (key == i)) [
  | inl same ↦
      let k : key ≡ i = ground arith in
      let f : found ≡ entry = ground arith in
      let t : p key found ≡ true = ground arith in
      subst (λ x. p i x ≡ true) f (subst (λ x. p x found ≡ true) k t)
  | inr other ↦ every-find_info p table i entry (ground arith) (ground arith)
]

-- A test that every entry and the entry of an invalid instruction pass holds of every instruction.
pub every-instruction_info :
    (p : Instruction → InstructionInfo → Bool) (i : Instruction)
    → every p instruction_table ≡ true
    → p i (invalid_info i) ≡ true
    → p i (instruction_info i) ≡ true
unfolding instruction_info
every-instruction_info p i h k = elim (Option-cases (find_info i instruction_table)) [
  | inl e ↦ rw (e, instruction_info) k
  | inr (entry, e) ↦ rw (e, instruction_info) (every-find_info p instruction_table i entry h e)
]
