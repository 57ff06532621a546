-- ===== src/Evmasm/Instruction.antt =====
-- libevmasm/Instruction.h and .cpp: what is known of an instruction by its byte: its family, its
-- number within the family, and its entry in the table.
pub mod Table
pub mod Family
pub mod Entries
pub mod Decode
use Prim.Native.String
use lity.Prelude.{
  ℕ, zero, suc, ◌+◌, ◌-◌, ◌/◌, ◌%◌, String, Bool, true, false, Option, none, some, List, [], ◌∷◌,
  ◌&&◌, leb, ltb, ◌==◌, if◌then◌else◌, Result, ok, ◌>>◌, assert_throw, invalid_opcode,
}
use lity.Evmasm.Opcode
use lity.Evmasm.Opcode.{Instruction}
use Table.{InstructionInfo, Tier, info, instruction_table}

-- `isPushInstruction`, and likewise for the other families
unfoldable pub is_push_instruction : Instruction → Bool
is_push_instruction inst = leb Opcode.push1 inst && leb inst Opcode.push32

unfoldable pub is_dup_instruction : Instruction → Bool
is_dup_instruction inst = leb Opcode.dup1 inst && leb inst Opcode.dup16

unfoldable pub is_swap_instruction : Instruction → Bool
is_swap_instruction inst = leb Opcode.swap1 inst && leb inst Opcode.swap16

unfoldable pub is_log_instruction : Instruction → Bool
is_log_instruction inst = leb Opcode.log0 inst && leb inst Opcode.log4

-- `unsigned` arithmetic, which wraps below 0
abbrev unsigned_sub : ℕ → ℕ → ℕ
unsigned_sub a b = (a + 0x1_0000_0000 - b) % 0x1_0000_0000

unfoldable pub get_push_number : Instruction → ℕ
get_push_number inst = (unsigned_sub inst Opcode.push1 + 1) % 0x1_0000_0000

unfoldable pub get_dup_number : Instruction → ℕ
get_dup_number inst = (unsigned_sub inst Opcode.dup1 + 1) % 0x1_0000_0000

unfoldable pub get_swap_number : Instruction → ℕ
get_swap_number inst = (unsigned_sub inst Opcode.swap1 + 1) % 0x1_0000_0000

unfoldable pub get_log_number : Instruction → ℕ
get_log_number inst = unsigned_sub inst Opcode.log0

unfoldable pub push_instruction : ℕ → Result Instruction
push_instruction number = do
  assert_throw (leb 1 number && leb number 32) invalid_opcode
  ok (Opcode.push1 + number - 1)

unfoldable pub dup_instruction : ℕ → Result Instruction
dup_instruction number = do
  assert_throw (leb 1 number && leb number 16) invalid_opcode
  ok (Opcode.dup1 + number - 1)

unfoldable pub swap_instruction : ℕ → Result Instruction
swap_instruction number = do
  assert_throw (leb 1 number && leb number 16) invalid_opcode
  ok (Opcode.swap1 + number - 1)

unfoldable pub log_instruction : ℕ → Result Instruction
log_instruction number = do assert_throw (leb number 4) invalid_opcode; ok (Opcode.log0 + number)

-- `c_instructionInfo.at`: a map finds the entry of a key, or none.
unfoldable pub find_info :
    Instruction → List (Instruction × InstructionInfo) → Option InstructionInfo
find_info inst [] = none
find_info inst ((key, entry) ∷ table) = if key == inst then some entry else find_info inst table

-- The decimal digits of a byte, for the name of an invalid instruction.
abbrev digit : ℕ → String
digit n = String.slice "0123456789" n (n + 1)

abbrev to_string : ℕ → String
to_string n =
    let ones = digit (n % 10) in
    let tens = digit (n / 10 % 10) in
    let hundreds = digit (n / 100 % 10) in
    if ltb n 10
    then ones
    else (if ltb n 100 then String.◌++◌ tens ones else String.◌++◌ hundreds (String.◌++◌ tens ones))

unfoldable pub invalid_info : Instruction → InstructionInfo
invalid_info inst =
    info (String.◌++◌ "<INVALID_INSTRUCTION: " (String.◌++◌ (to_string inst) ">")) 0 0 0 false
      Tier.invalid

abbrev or_invalid : Instruction → Option InstructionInfo → InstructionInfo
or_invalid inst none = invalid_info inst
or_invalid inst (some entry) = entry

unfoldable pub instruction_info : Instruction → InstructionInfo
unfolding find_info invalid_info instruction_table
instruction_info inst = or_invalid inst (find_info inst instruction_table)

abbrev is_some {ℓ} : {A : Type ℓ} → Option A → Bool
is_some none = false
is_some (some _) = true

unfoldable pub is_valid_instruction : Instruction → Bool
unfolding find_info instruction_table
is_valid_instruction inst = is_some (find_info inst instruction_table)
