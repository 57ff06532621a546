-- ===== src/Evmasm/PeepholeOptimiser/Windows.antt =====
-- libevmasm/PeepholeOptimiser.cpp: what a method writes may take the place of its window.
pub mod Drop
pub mod Swaps
pub mod Masks
pub mod Tagless
