-- ===== src/Yul.antt =====
-- libyul: the expressions of Yul, and parts of its optimiser.
pub mod Expression
pub mod SyntacticalEquality
pub mod Evaluation
pub mod Movable
pub mod Substitution
pub mod NameDispenser
pub mod Statement
pub mod NameCollector
pub mod Metrics
pub mod BlockFlattener
pub mod FunctionHoister
pub mod FunctionGrouper
pub mod MainFunction
pub mod ReferencesCounter
pub mod UnusedPruner
