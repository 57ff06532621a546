-- ===== src/Tests.antt =====
-- Runs of the model at concrete inputs, and the theorems at inputs that meet their hypotheses.
mod Instructions
mod Peephole
mod Rules
mod Data
mod Constants
mod Text
mod Types
mod Yul
mod Statements
