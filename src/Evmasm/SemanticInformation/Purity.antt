-- ===== src/Evmasm/SemanticInformation/Purity.antt =====
-- libevmasm/SemanticInformation.cpp: how the predicates on instructions depend on each other.
use lity.Prelude.{
  ◌<◌, ◌≡◌, ◌⊎◌, refl, Bool, true, false, ◌&&◌, ◌||◌, not, ◌==◌, everywhere, everywhere_sound,
  arith,
}
use lity.Evmasm.Opcode
use lity.Evmasm.Opcode.{Instruction}
use lity.Evmasm.Instruction.{instruction_info, is_dup_instruction, is_swap_instruction}
use lity.Evmasm.AssemblyItem.{op}
use lity.Evmasm.SemanticInformation.{
  is_dup, is_swap, movable, invalidates_memory, invalidates_storage, invalid_in_view_functions,
  is_deterministic, breaks_cse_analysis_block, alters_control_flow,
}

-- A movable instruction has no effect and always the same result.
moves_safely : Instruction → Bool
moves_safely i =
    not (movable i)
    || (not (instruction_info i).side_effects
        && is_deterministic (op i)
        && not (alters_control_flow (op i))
        && not (invalidates_memory i)
        && not (invalidates_storage i)
        && not (invalid_in_view_functions i))

-- What may stand inside a block that common subexpression elimination reads.
stays_in_block : Bool → Instruction → Bool
stays_in_block msize i =
    breaks_cse_analysis_block (op i) msize
    || (not (alters_control_flow (op i))
        && (not (invalidates_memory i) || i == Opcode.mstore)
        && (not (invalidates_storage i) || i == Opcode.sstore)
        && (not (instruction_info i).side_effects
            || i == Opcode.mstore
            || i == Opcode.sstore
            || i == Opcode.mload
            || i == Opcode.keccak256))

stays_in_block_table : (msize : Bool) → everywhere (stays_in_block msize) 256 ≡ true
unfolding everywhere stays_in_block breaks_cse_analysis_block is_dup is_swap invalidates_memory
    invalidates_storage alters_control_flow is_dup_instruction is_swap_instruction instruction_info
stays_in_block_table true = refl
stays_in_block_table false = refl

-- An instruction that does not break a block does not alter the control flow, does not invalidate
-- memory unless it is MSTORE, nor storage unless it is SSTORE.
pub breaks_cse_analysis_block-safe :
    (i : Instruction) (msize : Bool)
    → i < 256
    → breaks_cse_analysis_block (op i) msize ≡ false
    → (alters_control_flow (op i) ≡ false)
      × ((invalidates_memory i ≡ false) ⊎ (i ≡ Opcode.mstore))
      × ((invalidates_storage i ≡ false) ⊎ (i ≡ Opcode.sstore))
unfolding stays_in_block
breaks_cse_analysis_block-safe i msize b h =
    let t = everywhere_sound (stays_in_block msize) 256 i b (stays_in_block_table msize) in
    (ground arith, ground arith, ground arith)
