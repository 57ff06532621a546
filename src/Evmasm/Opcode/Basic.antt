-- ===== src/Evmasm/Opcode/Basic.antt =====
-- libevmasm/Instruction.h, enum Instruction: the enumerators from STOP to JUMPDEST.
use lity.Evmasm.Opcode.Byte.{Instruction}

abbrev pub stop : Instruction
stop = 0x00

abbrev pub add : Instruction
add = 0x01

abbrev pub mul : Instruction
mul = 0x02

abbrev pub sub : Instruction
sub = 0x03

abbrev pub div : Instruction
div = 0x04

abbrev pub sdiv : Instruction
sdiv = 0x05

abbrev pub modulo : Instruction
modulo = 0x06

abbrev pub smod : Instruction
smod = 0x07

abbrev pub addmod : Instruction
addmod = 0x08

abbrev pub mulmod : Instruction
mulmod = 0x09

abbrev pub exp : Instruction
exp = 0x0a

abbrev pub signextend : Instruction
signextend = 0x0b

abbrev pub lt : Instruction
lt = 0x10

abbrev pub gt : Instruction
gt = 0x11

abbrev pub slt : Instruction
slt = 0x12

abbrev pub sgt : Instruction
sgt = 0x13

abbrev pub eq : Instruction
eq = 0x14

abbrev pub iszero : Instruction
iszero = 0x15

abbrev pub and : Instruction
and = 0x16

abbrev pub or : Instruction
or = 0x17

abbrev pub xor : Instruction
xor = 0x18

abbrev pub not : Instruction
not = 0x19

abbrev pub byte : Instruction
byte = 0x1a

abbrev pub shl : Instruction
shl = 0x1b

abbrev pub shr : Instruction
shr = 0x1c

abbrev pub sar : Instruction
sar = 0x1d

abbrev pub keccak256 : Instruction
keccak256 = 0x20

abbrev pub fmul : Instruction
fmul = 0x2a

abbrev pub sfmul : Instruction
sfmul = 0x2b

abbrev pub fdiv : Instruction
fdiv = 0x2c

abbrev pub sfdiv : Instruction
sfdiv = 0x2d

abbrev pub address : Instruction
address = 0x30

abbrev pub balance : Instruction
balance = 0x31

abbrev pub origin : Instruction
origin = 0x32

abbrev pub caller : Instruction
caller = 0x33

abbrev pub callvalue : Instruction
callvalue = 0x34

abbrev pub calldataload : Instruction
calldataload = 0x35

abbrev pub calldatasize : Instruction
calldatasize = 0x36

abbrev pub calldatacopy : Instruction
calldatacopy = 0x37

abbrev pub codesize : Instruction
codesize = 0x38

abbrev pub codecopy : Instruction
codecopy = 0x39

abbrev pub gasprice : Instruction
gasprice = 0x3a

abbrev pub extcodesize : Instruction
extcodesize = 0x3b

abbrev pub extcodecopy : Instruction
extcodecopy = 0x3c

abbrev pub returndatasize : Instruction
returndatasize = 0x3d

abbrev pub returndatacopy : Instruction
returndatacopy = 0x3e

abbrev pub extcodehash : Instruction
extcodehash = 0x3f

abbrev pub blockhash : Instruction
blockhash = 0x40

abbrev pub coinbase : Instruction
coinbase = 0x41

abbrev pub timestamp : Instruction
timestamp = 0x42

abbrev pub number : Instruction
number = 0x43

abbrev pub difficulty : Instruction
difficulty = 0x44

abbrev pub gaslimit : Instruction
gaslimit = 0x45

abbrev pub pop : Instruction
pop = 0x50

abbrev pub mload : Instruction
mload = 0x51

abbrev pub mstore : Instruction
mstore = 0x52

abbrev pub mstore8 : Instruction
mstore8 = 0x53

abbrev pub sload : Instruction
sload = 0x54

abbrev pub sstore : Instruction
sstore = 0x55

abbrev pub jump : Instruction
jump = 0x56

abbrev pub jumpi : Instruction
jumpi = 0x57

abbrev pub pc : Instruction
pc = 0x58

abbrev pub msize : Instruction
msize = 0x59

abbrev pub gas : Instruction
gas = 0x5a

abbrev pub jumpdest : Instruction
jumpdest = 0x5b
