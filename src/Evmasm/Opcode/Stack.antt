-- ===== src/Evmasm/Opcode/Stack.antt =====
-- libevmasm/Instruction.h, enum Instruction: the enumerators of the DUP, SWAP and LOG families.
use lity.Evmasm.Opcode.Byte.{Instruction}

abbrev pub dup1 : Instruction
dup1 = 0x80

abbrev pub dup2 : Instruction
dup2 = 0x81

abbrev pub dup3 : Instruction
dup3 = 0x82

abbrev pub dup4 : Instruction
dup4 = 0x83

abbrev pub dup5 : Instruction
dup5 = 0x84

abbrev pub dup6 : Instruction
dup6 = 0x85

abbrev pub dup7 : Instruction
dup7 = 0x86

abbrev pub dup8 : Instruction
dup8 = 0x87

abbrev pub dup9 : Instruction
dup9 = 0x88

abbrev pub dup10 : Instruction
dup10 = 0x89

abbrev pub dup11 : Instruction
dup11 = 0x8a

abbrev pub dup12 : Instruction
dup12 = 0x8b

abbrev pub dup13 : Instruction
dup13 = 0x8c

abbrev pub dup14 : Instruction
dup14 = 0x8d

abbrev pub dup15 : Instruction
dup15 = 0x8e

abbrev pub dup16 : Instruction
dup16 = 0x8f

abbrev pub swap1 : Instruction
swap1 = 0x90

abbrev pub swap2 : Instruction
swap2 = 0x91

abbrev pub swap3 : Instruction
swap3 = 0x92

abbrev pub swap4 : Instruction
swap4 = 0x93

abbrev pub swap5 : Instruction
swap5 = 0x94

abbrev pub swap6 : Instruction
swap6 = 0x95

abbrev pub swap7 : Instruction
swap7 = 0x96

abbrev pub swap8 : Instruction
swap8 = 0x97

abbrev pub swap9 : Instruction
swap9 = 0x98

abbrev pub swap10 : Instruction
swap10 = 0x99

abbrev pub swap11 : Instruction
swap11 = 0x9a

abbrev pub swap12 : Instruction
swap12 = 0x9b

abbrev pub swap13 : Instruction
swap13 = 0x9c

abbrev pub swap14 : Instruction
swap14 = 0x9d

abbrev pub swap15 : Instruction
swap15 = 0x9e

abbrev pub swap16 : Instruction
swap16 = 0x9f

abbrev pub log0 : Instruction
log0 = 0xa0

abbrev pub log1 : Instruction
log1 = 0xa1

abbrev pub log2 : Instruction
log2 = 0xa2

abbrev pub log3 : Instruction
log3 = 0xa3

abbrev pub log4 : Instruction
log4 = 0xa4
