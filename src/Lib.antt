-- ===== src/Lib.antt =====
-- A model of the Lity compiler, from the assembly level up, and the theorems that make it correct.
-- libdevcore has the helpers that all parts share. libevmasm takes a program as a list of assembly
-- items, rewrites it by optimisers that work on that list or on classes of expressions, and lays it out
-- as bytes for the virtual machine. libyul rewrites programs of expressions and statements before they
-- become assembly. libsolidity reads the language, and its types say which conversions and operators a
-- program may use and where its state variables lie in storage.
--
-- The parts, from the bottom up:
--   Prelude: names of the libraries that all parts share; Boolean tests, lists, bits, integers over the
--     native numbers, products modulo a number, and results of code that throws.
--   Devcore/CommonData (libdevcore/CommonData.h): `bytesRequired`, `toBigEndian`, `fromBigEndian`,
--     `toCompactBigEndian`. Devcore/Hex (libdevcore/CommonData.h, CommonData.cpp): `toHex`, `fromHex`.
--     Devcore/StringUtils (libdevcore/StringUtils.h, StringUtils.cpp): the distance of two strings, the
--     names that are offered in place of another, joined lists. Devcore/Utf8 (libdevcore/UTF8.cpp): the
--     validation of UTF-8, against the table of the Unicode standard in Utf8/Table.
--   Evmasm/Opcode (libevmasm/Instruction.h): the enumerators, each a byte. Evmasm/Instruction
--     (libevmasm/Instruction.h, Instruction.cpp): the families PUSH, DUP, SWAP and LOG, the table
--     `c_instructionInfo`, its lookup, and `eachInstruction`, with as many rounds as bytes for fuel.
--   Evmasm/SourceLocation, Evmasm/AssemblyItem (libevmasm/SourceLocation.h, AssemblyItem.h,
--     AssemblyItem.cpp): an item with its type, data or instruction, tags of other sub-assemblies,
--     sizes, equality and order, stack effects.
--   Evmasm/SemanticInformation (libevmasm/SemanticInformation.cpp): all predicates on items.
--   Evmasm/Word (libevmasm/RuleList.h, libdevcore/Common.h): what instructions compute from constants.
--   Evmasm/Machine: what items do, as the table and the enumerators' comments say. It is the
--     specification against which optimisers are proved; nothing of it translates code.
--   Evmasm/PeepholeOptimiser (libevmasm/PeepholeOptimiser.cpp): the eleven methods, how they apply, the
--     loop, and the test that accepts its result. Methods holds the methods; Windows, Rewrites, Rounds,
--     Dests, Positions and Simulation lead to the theorems of Correct.
--   Evmasm/JumpdestRemover (libevmasm/JumpdestRemover.cpp).
--   Evmasm/GasMeter (libevmasm/GasMeter.h, GasMeter.cpp): the gas of a tier. Evmasm/ConstantOptimiser
--     (libevmasm/ConstantOptimiser.h, ConstantOptimiser.cpp): `ComputeMethod`, its search for code that
--     computes a constant, and its check of that code.
--   Evmasm/SimplificationRules (libevmasm/SimplificationRules.cpp, SimplificationRules.h): patterns,
--     matching against classes of expressions, the first rule that matches. Evmasm/RuleList
--     (libevmasm/RuleList.h): all rules of the list, in its order.
--   Yul/Expression (libsolidity/inlineasm/AsmData.h): expressions. Yul/SyntacticalEquality
--     (libyul/optimiser/SyntacticalEquality.cpp), Yul/Movable (Semantics.cpp there), Yul/Substitution
--     (Substitution.cpp, ASTCopier.cpp) and Yul/NameDispenser (NameDispenser.cpp). Yul/Evaluation says
--     what expressions compute; it is a specification and translates no code.
--   Yul/Statement (libsolidity/inlineasm/AsmData.h): statements and blocks; Statement/Total sums over
--     them, for what a step keeps. The walks over them are those of libyul/optimiser/ASTWalker.cpp:
--     Yul/NameCollector and Yul/ReferencesCounter (NameCollector.cpp), Yul/Metrics (Metrics.cpp),
--     Yul/BlockFlattener, Yul/FunctionHoister (with Utilities.cpp), Yul/FunctionGrouper, Yul/MainFunction
--     and Yul/UnusedPruner, each after the file of its name.
--   Solidity/Token (libsolidity/parsing/Token.h, Token.cpp): the numbers of the operators, their classes
--     and precedences. Solidity/StorageOffsets (libsolidity/ast/Types.cpp, `StorageOffsets`): places in
--     storage, for types of which the size is known. Solidity/ElementaryType (libsolidity/ast/Types.h,
--     Types.cpp): integers, fixed point numbers, addresses, booleans and fixed bytes; Conversions and
--     Operators hold the operations, and Layout places members of these types in storage.
--   Tests: runs at concrete inputs.
--
-- Choices. An `Instruction` is its byte, a natural number, and the theorems over the table ask for a
-- number below 256. A `u256` is a natural number; where code wraps, `% 2 ^ 256` is written out, and where
-- the data of an item must be a word this is a hypothesis. A `size_t` has 64 bits. An assertion that
-- throws is an error result with the exception's type. The state of the peephole optimiser is the list
-- of the items from its index on; its loop has the number of items as fuel, and every round leaves
-- fewer. The loop of `bytesRequired` has the number as fuel, and the recursion of `findRepresentation` one
-- more than the value. The scan of UTF-8 has one more than the bytes as fuel, and the search for a fresh
-- name two more than the used names. The pruner runs on a fuel that is more than the steps of the program.
-- Walks over a program throw on statements of loose assembly; here they do so at the start. A table whose size is a product of lengths is a list, and an access
-- outside of it gives no result. A match group is a function from its number;
-- a pattern matches by recursion on the pattern, so that no fuel is needed.
--
-- The machine runs items and not bytes: a tag stands for an address that is a parameter, at most
-- 2 ^ 32 - 1 and the same before and after the optimiser; gas, the program counter and the size of the
-- code are not modelled, so that a program that reads them is outside of the theorem. What instructions
-- other than those of `constant_value` compute, and what they do to memory, storage and the outside, is a
-- parameter of the machine.
--
-- Not modelled: names and text of instructions and items, the cache of the value that a push computes,
-- the rest of libevmasm (other methods for constants, common subexpressions, blocks, gas of states, the
-- assembler's output), the steps of libyul that follow values and its code generation, other types, the scanner, the parser,
-- the analysis and the code generation of libsolidity, and liblll. The size of each of these asks for a
-- model of its own; those that stand next to what is here come first.
pub mod Prelude
pub mod Devcore
pub mod Evmasm
pub mod Solidity
pub mod Yul
mod Tests
