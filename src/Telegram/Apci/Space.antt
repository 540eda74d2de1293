-- ===== src/Telegram/Apci/Space.antt =====
-- The six bits of an APDU that the transport layer fills.
pub mod Octet
pub mod Basic
pub mod User
pub mod Property
pub mod Group
pub mod Whole
