-- ===== src/Telegram/Apci.antt =====
-- xknx/telegram/apci.py: application layer services.
pub mod Pack
pub mod Services
pub mod Basic
pub mod Memory
pub mod UserMemory
pub mod Coupler
pub mod Key
pub mod PropertyExt
pub mod PropertyDescription
pub mod PropertyValue
pub mod Network
pub mod GroupProperty
pub mod Serial
pub mod Special
pub mod Dispatch
pub mod Methods
pub mod RoundTrip
pub mod Space
mod Tests
