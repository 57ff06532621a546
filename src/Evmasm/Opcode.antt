-- ===== src/Evmasm/Opcode.antt =====
-- libevmasm/Instruction.h: the byte values of the enum `Instruction`, in four children by range.
pub mod Byte
pub mod Basic
pub mod Push
pub mod Stack
pub mod System
pub use Byte.*
pub use Basic.*
pub use Push.*
pub use Stack.*
pub use System.*
