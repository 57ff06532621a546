-- ===== src/Evmasm/Opcode/Push.antt =====
-- libevmasm/Instruction.h, enum Instruction: the enumerators from PUSH1 to PUSH32.
use lity.Evmasm.Opcode.Byte.{Instruction}

abbrev pub push1 : Instruction
push1 = 0x60

abbrev pub push2 : Instruction
push2 = 0x61

abbrev pub push3 : Instruction
push3 = 0x62

abbrev pub push4 : Instruction
push4 = 0x63

abbrev pub push5 : Instruction
push5 = 0x64

abbrev pub push6 : Instruction
push6 = 0x65

abbrev pub push7 : Instruction
push7 = 0x66

abbrev pub push8 : Instruction
push8 = 0x67

abbrev pub push9 : Instruction
push9 = 0x68

abbrev pub push10 : Instruction
push10 = 0x69

abbrev pub push11 : Instruction
push11 = 0x6a

abbrev pub push12 : Instruction
push12 = 0x6b

abbrev pub push13 : Instruction
push13 = 0x6c

abbrev pub push14 : Instruction
push14 = 0x6d

abbrev pub push15 : Instruction
push15 = 0x6e

abbrev pub push16 : Instruction
push16 = 0x6f

abbrev pub push17 : Instruction
push17 = 0x70

abbrev pub push18 : Instruction
push18 = 0x71

abbrev pub push19 : Instruction
push19 = 0x72

abbrev pub push20 : Instruction
push20 = 0x73

abbrev pub push21 : Instruction
push21 = 0x74

abbrev pub push22 : Instruction
push22 = 0x75

abbrev pub push23 : Instruction
push23 = 0x76

abbrev pub push24 : Instruction
push24 = 0x77

abbrev pub push25 : Instruction
push25 = 0x78

abbrev pub push26 : Instruction
push26 = 0x79

abbrev pub push27 : Instruction
push27 = 0x7a

abbrev pub push28 : Instruction
push28 = 0x7b

abbrev pub push29 : Instruction
push29 = 0x7c

abbrev pub push30 : Instruction
push30 = 0x7d

abbrev pub push31 : Instruction
push31 = 0x7e

abbrev pub push32 : Instruction
push32 = 0x7f
