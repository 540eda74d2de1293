-- ===== src/Cemi.antt =====
-- xknx/cemi: the frames that carry a telegram.
pub mod LinkData
pub mod Telegrams
pub mod Property
pub mod Frame
mod Tests
pub mod Handler
