-- ===== src/Evmasm/Opcode/Byte.antt =====
-- libevmasm/Instruction.h: the type of an instruction.
use lity.Prelude.{ℕ}

-- `enum class Instruction: uint8_t`: a scoped enum over `uint8_t` can hold every byte, so an
-- instruction is a number below 256, and each enumerator is a constant.
abbrev pub Instruction : Type 0
Instruction = ℕ
