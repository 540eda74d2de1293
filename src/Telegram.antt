-- ===== src/Telegram.antt =====
-- xknx/telegram: addresses, transport and application control information.
pub mod Tpci
pub mod Address
pub mod Filter
pub mod Apci
pub mod Record
