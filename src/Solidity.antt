-- ===== src/Solidity.antt =====
-- libsolidity: the types of the language, and where their values lie in storage.
pub mod Token
pub mod StorageOffsets
pub mod ElementaryType
