-- ===== src/Cemi/Telegrams.antt =====
-- xknx/cemi/cemi_frame.py: CEMILData from a telegram, and the telegram of CEMILData.
use xknx.Prelude.{
  ℕ, ◌<◌, ◌≡◌, ◌/◌, ◌%◌, ◌==◌, not, ◌>>=◌, refl, true, Bytes, Option, none, some, bit_or, Result,
  ok, err, arith, type_error,
}
use xknx.Cemi.LinkData.{Destination, to_group, to_individual, CemiLData, to_knx, from_knx, is_zero}
use xknx.Cemi.LinkData.RoundTrip.{IsSendable, Carries, to_knx-IsSendable, raw_of, is_group, sent}
use xknx.Telegram.Address.{IndividualAddress}
use xknx.Telegram.Apci.Services.{Apci}
use xknx.Telegram.Record.{
  TelegramAddress, TelegramRecord, group_target, individual_target, internal_target, outgoing,
  telegram_of,
}
use xknx.Telegram.Tpci.{Tpci, t_data_broadcast, control}
use xknx.Telegram.Tpci.RoundTrip.{IsFor, HasSequence}

-- A standard frame that is not repeated, to the bus, with six hops.
abbrev default_flags : ℕ
default_flags = bit_or (bit_or (bit_or 0x8000 0x2000) 0x1000) 0x0060

-- The lowest priority, but that of the system for a broadcast.
abbrev group_priority : Tpci → ℕ
group_priority t_data_broadcast = 0x0000
group_priority _ = 0x0C00

abbrev or_source : Option IndividualAddress → IndividualAddress → IndividualAddress
or_source none a = a
or_source (some b) a = b

abbrev destination_flags : TelegramAddress → Tpci → Result (ℕ × Destination)
destination_flags (group_target a) t =
    ok (bit_or (bit_or default_flags 0x0080) (group_priority t), to_group a)
destination_flags (individual_target a) t = ok (default_flags, to_individual a)
destination_flags (internal_target a) t = err type_error

abbrev link_data_of : TelegramRecord → Option IndividualAddress → ℕ → Destination → CemiLData
link_data_of telegram src_addr flags dst = record {
  flags = flags;
  src_addr = or_source src_addr telegram.source_address;
  dst_addr = dst;
  tpci = telegram.tpci;
  payload = telegram.payload;
}

unfoldable pub init_from_telegram : TelegramRecord → Option IndividualAddress → Result CemiLData
init_from_telegram telegram src_addr = do
  (flags, dst) ← destination_flags telegram.destination_address telegram.tpci
  ok (link_data_of telegram src_addr flags dst)

abbrev pub target_of : Destination → TelegramAddress
target_of (to_group a) = group_target a
target_of (to_individual a) = individual_target a

unfoldable pub telegram : CemiLData → TelegramRecord
unfolding telegram_of
telegram d = telegram_of (target_of d.dst_addr) outgoing d.payload d.src_addr (some d.tpci)

-- A telegram for the bus: its service is one for the destination, the addresses and the number fit,
-- and it has a payload exactly when the service is no control service.
pub record IsForBus (dst : Destination) (src : IndividualAddress) (t : Tpci) (x : Option Apci)
    : Type 0 where
  pub source_fits : src.raw < 65536
  pub target_fits : raw_of dst < 65536
  pub service : IsFor t (is_group dst) (is_zero dst)
  pub number : HasSequence t
  pub carries : Carries (control t) x

-- The frame that a telegram is sent in, and the telegram that is read from it.
abbrev pub Survives : TelegramRecord → Option IndividualAddress → Type 0
Survives r src_addr =
    (d : CemiLData) × (raw : Bytes) × (read : CemiLData) × (init_from_telegram r src_addr ≡ ok d)
    × (to_knx d ≡ ok raw)
    × (from_knx raw ≡ ok read)
    × (telegram read
        ≡ (record r { source_address = or_source src_addr r.source_address; direction = outgoing }))

abbrev group_flags : Tpci → ℕ
group_flags t = bit_or (bit_or default_flags 0x0080) (group_priority t)

group_flags_lem :
    (t : Tpci)
    → (group_flags t < 65536)
      × (group_flags t % 16 ≡ 0)
      × (not (group_flags t / 128 % 2 == 0) ≡ true)
group_flags_lem t_data_broadcast = (omega arith, refl, refl)
group_flags_lem _ = (omega arith, refl, refl)

-- Sending from a record whose destination is known.
survives_lem :
    (r : TelegramRecord) (src_addr : Option IndividualAddress) (d : CemiLData)
    → init_from_telegram r src_addr ≡ ok d
    → IsSendable d
    → telegram (sent d)
      ≡ (record r { source_address = or_source src_addr r.source_address; direction = outgoing })
    → Survives r src_addr
survives_lem r src_addr d e s same =
    let (raw, written, read, _) = to_knx-IsSendable d s in (d, raw, sent d, e, written, read, same)

-- A telegram for the bus, whatever its destination, is made into link layer data, written as a frame
-- and read from it as link layer data, whose telegram is the same, outgoing, from the source address
-- that was given for it or else from its own.
pub init_from_telegram-Survives :
    (r : TelegramRecord) (src_addr : Option IndividualAddress) (dst : Destination)
    → r.destination_address ≡ target_of dst
    → IsForBus dst (or_source src_addr r.source_address) r.tpci r.payload
    → Survives r src_addr
unfolding init_from_telegram telegram telegram_of
init_from_telegram-Survives r src_addr (to_group a) e h =
    let flags = group_flags_lem r.tpci in
    survives_lem r src_addr (link_data_of r src_addr (group_flags r.tpci) (to_group a)) (rw e refl)
      (record {
        flags_fit = flags.0;
        standard_format = flags.1;
        kind = flags.2;
        source_fits = h.source_fits;
        target_fits = h.target_fits;
        service = h.service;
        number = h.number;
        carries = h.carries;
      })
      (ground arith)
init_from_telegram-Survives r src_addr (to_individual a) e h =
    survives_lem r src_addr (link_data_of r src_addr default_flags (to_individual a)) (rw e refl)
      (record {
        flags_fit = omega arith;
        standard_format = refl;
        kind = refl;
        source_fits = h.source_fits;
        target_fits = h.target_fits;
        service = h.service;
        number = h.number;
        carries = h.carries;
      })
      (ground arith)
