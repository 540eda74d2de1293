-- ===== src/Secure.antt =====
-- xknx/secure: KNX Data Secure.
pub mod Asdu
pub mod Primitives
pub mod Protection
pub mod DataSecure
