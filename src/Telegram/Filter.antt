-- ===== src/Telegram/Filter.antt =====
-- xknx/telegram/address_filter.py: filtering addresses by patterns. `fnmatch` of the Python library
-- is an argument; text is ASCII.
mod Patterns
pub mod Ranges
pub mod Exact
mod Tests
pub use Patterns.{Range, AddressFilter}
unfoldable pub use Patterns.{range, level_filter, address_filter, match_digit, match}
