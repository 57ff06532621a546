-- ===== src/Evmasm/Instruction/Table.antt =====
-- libevmasm/Instruction.cpp: the table `c_instructionInfo`.
use lity.Prelude.{ℕ, String, Bool, true, false, List, [], ◌∷◌}
use lity.Evmasm.Opcode
use lity.Evmasm.Opcode.{Instruction}

-- `enum class Tier`
pub data Tier : Type 0 where
  zero base very_low low mid high ext ext_code balance special invalid : Tier

-- `struct InstructionInfo`
pub record InstructionInfo : Type 0 where
  pub name : String
  pub additional : ℕ
  pub args : ℕ
  pub ret : ℕ
  pub side_effects : Bool
  pub gas_price_tier : Tier

abbrev pub info : String → ℕ → ℕ → ℕ → Bool → Tier → InstructionInfo
info name additional args ret side_effects tier = record {
  name = name;
  additional = additional;
  args = args;
  ret = ret;
  side_effects = side_effects;
  gas_price_tier = tier;
}

-- the table `c_instructionInfo`, in the source's order
unfoldable pub instruction_table : List (Instruction × InstructionInfo)
instruction_table =
    (Opcode.stop, info "STOP" 0 0 0 true Tier.zero)
    ∷ (Opcode.add, info "ADD" 0 2 1 false Tier.very_low)
    ∷ (Opcode.sub, info "SUB" 0 2 1 false Tier.very_low)
    ∷ (Opcode.mul, info "MUL" 0 2 1 false Tier.low)
    ∷ (Opcode.div, info "DIV" 0 2 1 false Tier.low)
    ∷ (Opcode.sdiv, info "SDIV" 0 2 1 false Tier.low)
    ∷ (Opcode.modulo, info "MOD" 0 2 1 false Tier.low)
    ∷ (Opcode.smod, info "SMOD" 0 2 1 false Tier.low)
    ∷ (Opcode.exp, info "EXP" 0 2 1 false Tier.special)
    ∷ (Opcode.not, info "NOT" 0 1 1 false Tier.very_low)
    ∷ (Opcode.lt, info "LT" 0 2 1 false Tier.very_low)
    ∷ (Opcode.gt, info "GT" 0 2 1 false Tier.very_low)
    ∷ (Opcode.slt, info "SLT" 0 2 1 false Tier.very_low)
    ∷ (Opcode.sgt, info "SGT" 0 2 1 false Tier.very_low)
    ∷ (Opcode.eq, info "EQ" 0 2 1 false Tier.very_low)
    ∷ (Opcode.iszero, info "ISZERO" 0 1 1 false Tier.very_low)
    ∷ (Opcode.and, info "AND" 0 2 1 false Tier.very_low)
    ∷ (Opcode.or, info "OR" 0 2 1 false Tier.very_low)
    ∷ (Opcode.xor, info "XOR" 0 2 1 false Tier.very_low)
    ∷ (Opcode.byte, info "BYTE" 0 2 1 false Tier.very_low)
    ∷ (Opcode.shl, info "SHL" 0 2 1 false Tier.very_low)
    ∷ (Opcode.shr, info "SHR" 0 2 1 false Tier.very_low)
    ∷ (Opcode.sar, info "SAR" 0 2 1 false Tier.very_low)
    ∷ (Opcode.addmod, info "ADDMOD" 0 3 1 false Tier.mid)
    ∷ (Opcode.mulmod, info "MULMOD" 0 3 1 false Tier.mid)
    ∷ (Opcode.signextend, info "SIGNEXTEND" 0 2 1 false Tier.low)
    ∷ (Opcode.keccak256, info "KECCAK256" 0 2 1 true Tier.special)
    ∷ (Opcode.fmul, info "FMUL" 0 3 1 false Tier.mid)
    ∷ (Opcode.sfmul, info "SFMUL" 0 3 1 false Tier.mid)
    ∷ (Opcode.fdiv, info "FDIV" 0 3 1 false Tier.mid)
    ∷ (Opcode.sfdiv, info "SFDIV" 0 3 1 false Tier.mid)
    ∷ (Opcode.eni, info "ENI" 0 3 1 true Tier.special)
    ∷ (Opcode.isvalidator, info "ISVALIDATOR" 0 1 1 false Tier.very_low)
    ∷ (Opcode.rand, info "RAND" 0 0 1 true Tier.low)
    ∷ (Opcode.freegas, info "FREEGAS" 0 0 0 false Tier.very_low)
    ∷ (Opcode.address, info "ADDRESS" 0 0 1 false Tier.base)
    ∷ (Opcode.balance, info "BALANCE" 0 1 1 false Tier.balance)
    ∷ (Opcode.origin, info "ORIGIN" 0 0 1 false Tier.base)
    ∷ (Opcode.caller, info "CALLER" 0 0 1 false Tier.base)
    ∷ (Opcode.callvalue, info "CALLVALUE" 0 0 1 false Tier.base)
    ∷ (Opcode.calldataload, info "CALLDATALOAD" 0 1 1 false Tier.very_low)
    ∷ (Opcode.calldatasize, info "CALLDATASIZE" 0 0 1 false Tier.base)
    ∷ (Opcode.calldatacopy, info "CALLDATACOPY" 0 3 0 true Tier.very_low)
    ∷ (Opcode.codesize, info "CODESIZE" 0 0 1 false Tier.base)
    ∷ (Opcode.codecopy, info "CODECOPY" 0 3 0 true Tier.very_low)
    ∷ (Opcode.gasprice, info "GASPRICE" 0 0 1 false Tier.base)
    ∷ (Opcode.extcodesize, info "EXTCODESIZE" 0 1 1 false Tier.ext_code)
    ∷ (Opcode.extcodecopy, info "EXTCODECOPY" 0 4 0 true Tier.ext_code)
    ∷ (Opcode.returndatasize, info "RETURNDATASIZE" 0 0 1 false Tier.base)
    ∷ (Opcode.returndatacopy, info "RETURNDATACOPY" 0 3 0 true Tier.very_low)
    ∷ (Opcode.extcodehash, info "EXTCODEHASH" 0 1 1 false Tier.balance)
    ∷ (Opcode.blockhash, info "BLOCKHASH" 0 1 1 false Tier.ext)
    ∷ (Opcode.coinbase, info "COINBASE" 0 0 1 false Tier.base)
    ∷ (Opcode.timestamp, info "TIMESTAMP" 0 0 1 false Tier.base)
    ∷ (Opcode.number, info "NUMBER" 0 0 1 false Tier.base)
    ∷ (Opcode.difficulty, info "DIFFICULTY" 0 0 1 false Tier.base)
    ∷ (Opcode.gaslimit, info "GASLIMIT" 0 0 1 false Tier.base)
    ∷ (Opcode.pop, info "POP" 0 1 0 false Tier.base)
    ∷ (Opcode.mload, info "MLOAD" 0 1 1 true Tier.very_low)
    ∷ (Opcode.mstore, info "MSTORE" 0 2 0 true Tier.very_low)
    ∷ (Opcode.mstore8, info "MSTORE8" 0 2 0 true Tier.very_low)
    ∷ (Opcode.sload, info "SLOAD" 0 1 1 false Tier.special)
    ∷ (Opcode.sstore, info "SSTORE" 0 2 0 true Tier.special)
    ∷ (Opcode.jump, info "JUMP" 0 1 0 true Tier.mid)
    ∷ (Opcode.jumpi, info "JUMPI" 0 2 0 true Tier.high)
    ∷ (Opcode.pc, info "PC" 0 0 1 false Tier.base)
    ∷ (Opcode.msize, info "MSIZE" 0 0 1 false Tier.base)
    ∷ (Opcode.gas, info "GAS" 0 0 1 false Tier.base)
    ∷ (Opcode.jumpdest, info "JUMPDEST" 0 0 0 true Tier.special)
    ∷ (Opcode.push1, info "PUSH1" 1 0 1 false Tier.very_low)
    ∷ (Opcode.push2, info "PUSH2" 2 0 1 false Tier.very_low)
    ∷ (Opcode.push3, info "PUSH3" 3 0 1 false Tier.very_low)
    ∷ (Opcode.push4, info "PUSH4" 4 0 1 false Tier.very_low)
    ∷ (Opcode.push5, info "PUSH5" 5 0 1 false Tier.very_low)
    ∷ (Opcode.push6, info "PUSH6" 6 0 1 false Tier.very_low)
    ∷ (Opcode.push7, info "PUSH7" 7 0 1 false Tier.very_low)
    ∷ (Opcode.push8, info "PUSH8" 8 0 1 false Tier.very_low)
    ∷ (Opcode.push9, info "PUSH9" 9 0 1 false Tier.very_low)
    ∷ (Opcode.push10, info "PUSH10" 10 0 1 false Tier.very_low)
    ∷ (Opcode.push11, info "PUSH11" 11 0 1 false Tier.very_low)
    ∷ (Opcode.push12, info "PUSH12" 12 0 1 false Tier.very_low)
    ∷ (Opcode.push13, info "PUSH13" 13 0 1 false Tier.very_low)
    ∷ (Opcode.push14, info "PUSH14" 14 0 1 false Tier.very_low)
    ∷ (Opcode.push15, info "PUSH15" 15 0 1 false Tier.very_low)
    ∷ (Opcode.push16, info "PUSH16" 16 0 1 false Tier.very_low)
    ∷ (Opcode.push17, info "PUSH17" 17 0 1 false Tier.very_low)
    ∷ (Opcode.push18, info "PUSH18" 18 0 1 false Tier.very_low)
    ∷ (Opcode.push19, info "PUSH19" 19 0 1 false Tier.very_low)
    ∷ (Opcode.push20, info "PUSH20" 20 0 1 false Tier.very_low)
    ∷ (Opcode.push21, info "PUSH21" 21 0 1 false Tier.very_low)
    ∷ (Opcode.push22, info "PUSH22" 22 0 1 false Tier.very_low)
    ∷ (Opcode.push23, info "PUSH23" 23 0 1 false Tier.very_low)
    ∷ (Opcode.push24, info "PUSH24" 24 0 1 false Tier.very_low)
    ∷ (Opcode.push25, info "PUSH25" 25 0 1 false Tier.very_low)
    ∷ (Opcode.push26, info "PUSH26" 26 0 1 false Tier.very_low)
    ∷ (Opcode.push27, info "PUSH27" 27 0 1 false Tier.very_low)
    ∷ (Opcode.push28, info "PUSH28" 28 0 1 false Tier.very_low)
    ∷ (Opcode.push29, info "PUSH29" 29 0 1 false Tier.very_low)
    ∷ (Opcode.push30, info "PUSH30" 30 0 1 false Tier.very_low)
    ∷ (Opcode.push31, info "PUSH31" 31 0 1 false Tier.very_low)
    ∷ (Opcode.push32, info "PUSH32" 32 0 1 false Tier.very_low)
    ∷ (Opcode.dup1, info "DUP1" 0 1 2 false Tier.very_low)
    ∷ (Opcode.dup2, info "DUP2" 0 2 3 false Tier.very_low)
    ∷ (Opcode.dup3, info "DUP3" 0 3 4 false Tier.very_low)
    ∷ (Opcode.dup4, info "DUP4" 0 4 5 false Tier.very_low)
    ∷ (Opcode.dup5, info "DUP5" 0 5 6 false Tier.very_low)
    ∷ (Opcode.dup6, info "DUP6" 0 6 7 false Tier.very_low)
    ∷ (Opcode.dup7, info "DUP7" 0 7 8 false Tier.very_low)
    ∷ (Opcode.dup8, info "DUP8" 0 8 9 false Tier.very_low)
    ∷ (Opcode.dup9, info "DUP9" 0 9 10 false Tier.very_low)
    ∷ (Opcode.dup10, info "DUP10" 0 10 11 false Tier.very_low)
    ∷ (Opcode.dup11, info "DUP11" 0 11 12 false Tier.very_low)
    ∷ (Opcode.dup12, info "DUP12" 0 12 13 false Tier.very_low)
    ∷ (Opcode.dup13, info "DUP13" 0 13 14 false Tier.very_low)
    ∷ (Opcode.dup14, info "DUP14" 0 14 15 false Tier.very_low)
    ∷ (Opcode.dup15, info "DUP15" 0 15 16 false Tier.very_low)
    ∷ (Opcode.dup16, info "DUP16" 0 16 17 false Tier.very_low)
    ∷ (Opcode.swap1, info "SWAP1" 0 2 2 false Tier.very_low)
    ∷ (Opcode.swap2, info "SWAP2" 0 3 3 false Tier.very_low)
    ∷ (Opcode.swap3, info "SWAP3" 0 4 4 false Tier.very_low)
    ∷ (Opcode.swap4, info "SWAP4" 0 5 5 false Tier.very_low)
    ∷ (Opcode.swap5, info "SWAP5" 0 6 6 false Tier.very_low)
    ∷ (Opcode.swap6, info "SWAP6" 0 7 7 false Tier.very_low)
    ∷ (Opcode.swap7, info "SWAP7" 0 8 8 false Tier.very_low)
    ∷ (Opcode.swap8, info "SWAP8" 0 9 9 false Tier.very_low)
    ∷ (Opcode.swap9, info "SWAP9" 0 10 10 false Tier.very_low)
    ∷ (Opcode.swap10, info "SWAP10" 0 11 11 false Tier.very_low)
    ∷ (Opcode.swap11, info "SWAP11" 0 12 12 false Tier.very_low)
    ∷ (Opcode.swap12, info "SWAP12" 0 13 13 false Tier.very_low)
    ∷ (Opcode.swap13, info "SWAP13" 0 14 14 false Tier.very_low)
    ∷ (Opcode.swap14, info "SWAP14" 0 15 15 false Tier.very_low)
    ∷ (Opcode.swap15, info "SWAP15" 0 16 16 false Tier.very_low)
    ∷ (Opcode.swap16, info "SWAP16" 0 17 17 false Tier.very_low)
    ∷ (Opcode.log0, info "LOG0" 0 2 0 true Tier.special)
    ∷ (Opcode.log1, info "LOG1" 0 3 0 true Tier.special)
    ∷ (Opcode.log2, info "LOG2" 0 4 0 true Tier.special)
    ∷ (Opcode.log3, info "LOG3" 0 5 0 true Tier.special)
    ∷ (Opcode.log4, info "LOG4" 0 6 0 true Tier.special)
    ∷ (Opcode.create, info "CREATE" 0 3 1 true Tier.special)
    ∷ (Opcode.call, info "CALL" 0 7 1 true Tier.special)
    ∷ (Opcode.callcode, info "CALLCODE" 0 7 1 true Tier.special)
    ∷ (Opcode.return, info "RETURN" 0 2 0 true Tier.zero)
    ∷ (Opcode.delegatecall, info "DELEGATECALL" 0 6 1 true Tier.special)
    ∷ (Opcode.staticcall, info "STATICCALL" 0 6 1 true Tier.special)
    ∷ (Opcode.revert, info "REVERT" 0 2 0 true Tier.zero)
    ∷ (Opcode.invalid, info "INVALID" 0 0 0 true Tier.zero)
    ∷ (Opcode.selfdestruct, info "SELFDESTRUCT" 0 1 0 true Tier.special)
    ∷ []
