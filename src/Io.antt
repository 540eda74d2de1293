-- ===== src/Io.antt =====
-- xknx/io: the secure transports.
pub mod Notify
pub mod Timer
