-- ===== src/Telegram/Address.antt =====
-- xknx/telegram/address.py: individual, group and internal group addresses. Text is ASCII, as the
-- codes of its characters; the class variable `address_format` is an argument.
mod Forms
pub mod Parts
pub mod Print
pub mod Internal
mod Tests
pub use Forms.{
  IndividualAddress, GroupAddress, InternalGroupAddress, Addressable, int_arg, str_arg,
  individual_arg, group_arg, internal_arg, other_arg, DeviceGroupAddress, group, internal,
  GroupAddressType, free, short, long,
}
unfoldable pub use Forms.{
  individual_address, group_address, internal_group_address, parse_device_group_address,
  individual_from_knx, group_from_knx, individual_to_knx, group_to_knx, area, main, line,
  group_main, group_middle, group_sub, individual_str, group_str,
}
