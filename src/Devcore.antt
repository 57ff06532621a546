-- ===== src/Devcore.antt =====
-- libdevcore: helpers on bytes and numbers that the other parts share.
pub mod CommonData
pub mod Hex
pub mod StringUtils
pub mod Utf8
