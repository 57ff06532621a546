-- ===== src/Evmasm/Opcode/System.antt =====
-- libevmasm/Instruction.h, enum Instruction: the enumerators from JUMPTO to SELFDESTRUCT.
use lity.Evmasm.Opcode.Byte.{Instruction}

abbrev pub jumpto : Instruction
jumpto = 0xb0

abbrev pub jumpif : Instruction
jumpif = 0xb1

abbrev pub jumpv : Instruction
jumpv = 0xb2

abbrev pub jumpsub : Instruction
jumpsub = 0xb3

abbrev pub jumpsubv : Instruction
jumpsubv = 0xb4

abbrev pub beginsub : Instruction
beginsub = 0xb5

abbrev pub begindata : Instruction
begindata = 0xb6

abbrev pub returnsub : Instruction
returnsub = 0xb7

abbrev pub putlocal : Instruction
putlocal = 0xb8

abbrev pub getlocal : Instruction
getlocal = 0xb9

abbrev pub create : Instruction
create = 0xf0

abbrev pub call : Instruction
call = 0xf1

abbrev pub callcode : Instruction
callcode = 0xf2

abbrev pub return : Instruction
return = 0xf3

abbrev pub delegatecall : Instruction
delegatecall = 0xf4

abbrev pub eni : Instruction
eni = 0xf5

abbrev pub isvalidator : Instruction
isvalidator = 0xf6

abbrev pub freegas : Instruction
freegas = 0xf8

abbrev pub rand : Instruction
rand = 0xf9

abbrev pub staticcall : Instruction
staticcall = 0xfa

abbrev pub revert : Instruction
revert = 0xfd

abbrev pub invalid : Instruction
invalid = 0xfe

abbrev pub selfdestruct : Instruction
selfdestruct = 0xff
