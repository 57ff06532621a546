-- ===== src/Evmasm.antt =====
-- libevmasm: instructions, assembly items and the optimisers over them.
pub mod Opcode
pub mod Instruction
pub mod Word
pub mod SimplificationRules
pub mod RuleList
pub mod SourceLocation
pub mod AssemblyItem
pub mod Machine
pub mod SemanticInformation
pub mod PeepholeOptimiser
pub mod JumpdestRemover
pub mod GasMeter
pub mod ConstantOptimiser
