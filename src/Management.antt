-- ===== src/Management.antt =====
-- xknx/management: point to point connections to devices.
pub mod Connection
pub mod Requests
pub mod Dispatch
mod Tests
