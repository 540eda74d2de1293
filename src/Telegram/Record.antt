-- ===== src/Telegram/Record.antt =====
-- xknx/telegram/telegram.py: the telegram and the transport service that it has by default. What
-- is set from outside later (decoded_data, data_secure) and is not compared is left out.
use xknx.Prelude.{Option, none, some, ◌==◌, if◌then◌else◌}
use xknx.Telegram.Address.{IndividualAddress, GroupAddress, InternalGroupAddress}
use xknx.Telegram.Apci.Services.{Apci}
use xknx.Telegram.Tpci.{Tpci, t_data_broadcast, t_data_group, t_data_individual}

pub data TelegramDirection : Type 0 where
  incoming outgoing : TelegramDirection

pub data TelegramAddress : Type 0 where
  group_target : GroupAddress → TelegramAddress
  individual_target : IndividualAddress → TelegramAddress
  internal_target : InternalGroupAddress → TelegramAddress

pub record TelegramRecord : Type 0 where
  pub destination_address : TelegramAddress
  pub direction : TelegramDirection
  pub payload : Option Apci
  pub source_address : IndividualAddress
  pub tpci : Tpci

unfoldable pub default_tpci : TelegramAddress → Tpci
default_tpci (group_target a) = if a.raw == 0 then t_data_broadcast else t_data_group
default_tpci (individual_target a) = t_data_individual
default_tpci (internal_target a) = t_data_group

abbrev given_tpci : Option Tpci → TelegramAddress → Tpci
given_tpci (some t) a = t
given_tpci none a = default_tpci a

-- The constructor with `__post_init__`.
unfoldable pub telegram_of :
    TelegramAddress
    → TelegramDirection
    → Option Apci
    → IndividualAddress
    → Option Tpci
    → TelegramRecord
telegram_of destination direction payload source tpci = record {
  destination_address = destination;
  direction = direction;
  payload = payload;
  source_address = source;
  tpci = given_tpci tpci destination;
}
