-- ===== src/Telegram/Apci/RoundTrip.antt =====
-- Every service is read back from the octets that it is written as.
pub mod Octets
pub mod Basic
pub mod Memory
pub mod UserMemory
pub mod Coupler
pub mod Key
pub mod PropertyExt
pub mod PropertyDescription
pub mod PropertyValue
pub mod Network
pub mod GroupProperty
pub mod Serial
pub mod Special
pub mod Domain
pub mod Validity
pub mod Whole
