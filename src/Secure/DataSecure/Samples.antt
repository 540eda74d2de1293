-- ===== src/Secure/DataSecure/Samples.antt =====
-- A cipher that keeps what its library promises, and a state with one group and one sender.
use xknx.Prelude.{
  ℕ, suc, ◌%◌, ◌≡◌, refl, ap, ◌==◌, ◌&&◌, if◌then◌else◌, [], ◌∷◌, Bytes, length, some, Result, ok,
  err, value_error,
}
use xknx.Secure.Primitives.{Cipher, IsCipher}
use xknx.Secure.DataSecure.{DataSecure}
use xknx.Cemi.LinkData.{CemiLData, to_group}
use xknx.Telegram.Apci.Services.{group_value_write, dpt_binary}
use xknx.Telegram.Tpci.{t_data_group}

-- Octets change places in pairs.
abbrev swap : Bytes → Bytes
swap [] = []
swap (a ∷ []) = a ∷ []
swap (a ∷ b ∷ text) = b ∷ a ∷ swap text

length-swap : (text : Bytes) → length (swap text) ≡ length text
length-swap [] = refl
length-swap (a ∷ []) = refl
length-swap (a ∷ b ∷ text) = ap (λ n. suc (suc n)) (length-swap text)

swap-swap : (text : Bytes) → swap (swap text) ≡ text
swap-swap [] = refl
swap-swap (a ∷ []) = refl
swap-swap (a ∷ b ∷ text) = ap (λ t. a ∷ b ∷ t) (swap-swap text)

abbrev swapped : Bytes → Bytes → Bytes → Result Bytes
swapped key first_block text =
    if length key == 16 && length first_block == 16 then ok (swap text) else err value_error

abbrev pub sample : Cipher
sample = record {
  cbc = λ key text. if length key == 16 && length text % 16 == 0 then ok text else err value_error;
  encrypt = swapped;
  decrypt = swapped;
}

pub sample-IsCipher : IsCipher sample
sample-IsCipher = record {
  cbc_accepts = λ key text h k. (text, rw (h, k) refl, refl);
  encrypt_accepts = λ key first_block text h k.
      (swap text, rw (h, k) refl, length-swap text, rw (h, k, swap-swap text) refl);
}

abbrev pub group_key : Bytes
group_key = 1 ∷ 2 ∷ 3 ∷ 4 ∷ 5 ∷ 6 ∷ 7 ∷ 8 ∷ 9 ∷ 10 ∷ 11 ∷ 12 ∷ 13 ∷ 14 ∷ 15 ∷ 16 ∷ []

abbrev pub station : ℕ → DataSecure
station n = record {
  group_key_table = (0x0A03, group_key) ∷ [];
  individual_address_table = (0x1203, 40) ∷ [];
  sequence_number_sending = n;
}

abbrev pub switch_on : CemiLData
switch_on = record {
  flags = 0xBCE0;
  src_addr = record { raw = 0x1203 };
  dst_addr = to_group (record { raw = 0x0A03 });
  tpci = t_data_group;
  payload = some (group_value_write (dpt_binary 1));
}
