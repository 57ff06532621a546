-- ===== src/Evmasm/Machine/Runs.antt =====
-- libevmasm/Instruction.h: what the machine does at the items that the optimisers look for.
pub mod Stack
pub mod Known
pub mod Pure
pub mod Refined
pub mod Straight
