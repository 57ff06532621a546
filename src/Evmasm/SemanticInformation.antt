-- ===== src/Evmasm/SemanticInformation.antt =====
-- libevmasm/SemanticInformation.cpp: what the optimisers ask of items and instructions.
pub mod Purity
use lity.Prelude.{ℕ, Bool, true, false, List, [], ◌∷◌, ◌&&◌, ◌||◌, not, ltb, ◌==◌, if◌then◌else◌}
use lity.Evmasm.Opcode
use lity.Evmasm.Opcode.{Instruction}
use lity.Evmasm.Instruction.{instruction_info, is_dup_instruction, is_swap_instruction}
use lity.Evmasm.AssemblyItem.{
  AssemblyItem, operation, tag, undefined_item, push_deploy_time_address, type_eq, op, item_eq,
}

-- The cases of a `switch` that share a result.
abbrev pub one_of : List Instruction → Instruction → Bool
one_of [] i = false
one_of (x ∷ xs) i = i == x || one_of xs i

unfoldable pub is_dup : AssemblyItem → Bool
is_dup it = if type_eq it.type operation then is_dup_instruction it.instruction else false

unfoldable pub is_swap : AssemblyItem → Bool
is_swap it = if type_eq it.type operation then is_swap_instruction it.instruction else false

unfoldable pub breaks_cse_analysis_block : AssemblyItem → Bool → Bool
unfolding is_dup is_swap
breaks_cse_analysis_block it msize_important =
    if type_eq it.type undefined_item
      || type_eq it.type tag
      || type_eq it.type push_deploy_time_address
    then true
    else (if not (type_eq it.type operation)
        then false
        else (if is_swap it || is_dup it
            then false
            else (if it.instruction == Opcode.gas || it.instruction == Opcode.pc
                then true
                else (if it.instruction == Opcode.msize
                    then true
                    else (if it.instruction == Opcode.sstore
                        then false
                        else (if it.instruction == Opcode.mstore
                            then false
                            else (if not msize_important
                                  && (it.instruction == Opcode.mload
                                      || it.instruction == Opcode.keccak256)
                                then false
                                else (instruction_info it.instruction).side_effects
                                  || ltb 2 (instruction_info it.instruction).args)))))))

unfoldable pub is_commutative_operation : AssemblyItem → Bool
is_commutative_operation it =
    if not (type_eq it.type operation)
    then false
    else one_of (Opcode.add ∷ Opcode.mul ∷ Opcode.eq ∷ Opcode.and ∷ Opcode.or ∷ Opcode.xor ∷ [])
        it.instruction

unfoldable pub is_jump_instruction : AssemblyItem → Bool
unfolding item_eq
is_jump_instruction it = item_eq it (op Opcode.jump) || item_eq it (op Opcode.jumpi)

unfoldable pub alters_control_flow : AssemblyItem → Bool
alters_control_flow it =
    if not (type_eq it.type operation)
    then false
    else one_of
        (Opcode.jump ∷ Opcode.jumpi ∷ Opcode.return ∷ Opcode.selfdestruct ∷ Opcode.stop
          ∷ Opcode.invalid ∷ Opcode.revert ∷ [])
        it.instruction

unfoldable pub is_deterministic : AssemblyItem → Bool
is_deterministic it =
    if not (type_eq it.type operation)
    then true
    else not (
        one_of
          (Opcode.call ∷ Opcode.callcode ∷ Opcode.delegatecall ∷ Opcode.staticcall ∷ Opcode.create
            ∷ Opcode.gas ∷ Opcode.pc ∷ Opcode.msize ∷ Opcode.balance ∷ Opcode.extcodesize
            ∷ Opcode.extcodehash ∷ Opcode.returndatacopy ∷ Opcode.returndatasize ∷ [])
          it.instruction)

unfoldable pub movable : Instruction → Bool
movable i =
    if is_dup_instruction i || is_swap_instruction i
    then false
    else (if (instruction_info i).side_effects
        then false
        else not (
            one_of
              (Opcode.keccak256 ∷ Opcode.balance ∷ Opcode.extcodesize ∷ Opcode.extcodehash
                ∷ Opcode.returndatasize ∷ Opcode.sload ∷ Opcode.pc ∷ Opcode.msize ∷ Opcode.gas ∷ [])
              i))

unfoldable pub invalidates_memory : Instruction → Bool
invalidates_memory i =
    one_of
      (Opcode.calldatacopy ∷ Opcode.codecopy ∷ Opcode.extcodecopy ∷ Opcode.returndatacopy
        ∷ Opcode.mstore ∷ Opcode.mstore8 ∷ Opcode.call ∷ Opcode.callcode ∷ Opcode.delegatecall
        ∷ Opcode.staticcall ∷ [])
      i

unfoldable pub invalidates_storage : Instruction → Bool
invalidates_storage i =
    one_of
      (Opcode.call ∷ Opcode.callcode ∷ Opcode.delegatecall ∷ Opcode.create ∷ Opcode.sstore ∷ []) i

unfoldable pub invalid_in_view_functions : Instruction → Bool
invalid_in_view_functions i =
    one_of
      (Opcode.sstore ∷ Opcode.jump ∷ Opcode.jumpi ∷ Opcode.log0 ∷ Opcode.log1 ∷ Opcode.log2
        ∷ Opcode.log3 ∷ Opcode.log4 ∷ Opcode.create ∷ Opcode.call ∷ Opcode.callcode
        ∷ Opcode.delegatecall ∷ Opcode.selfdestruct ∷ [])
      i

unfoldable pub invalid_in_pure_functions : Instruction → Bool
unfolding invalid_in_view_functions
invalid_in_pure_functions i =
    if one_of
      (Opcode.address ∷ Opcode.balance ∷ Opcode.origin ∷ Opcode.caller ∷ Opcode.callvalue
        ∷ Opcode.gas ∷ Opcode.gasprice ∷ Opcode.extcodesize ∷ Opcode.extcodecopy
        ∷ Opcode.extcodehash ∷ Opcode.blockhash ∷ Opcode.coinbase ∷ Opcode.timestamp ∷ Opcode.number
        ∷ Opcode.difficulty ∷ Opcode.gaslimit ∷ Opcode.staticcall ∷ Opcode.sload ∷ [])
      i
    then true
    else invalid_in_view_functions i
