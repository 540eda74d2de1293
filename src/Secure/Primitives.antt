-- ===== src/Secure/Primitives.antt =====
-- xknx/secure/security_primitives.py and util.py: message codes and encryption over the AES modes of
-- the cryptography library, which are a parameter.
use xknx.Prelude.{
  ℕ, ◌-◌, ◌%◌, ◌≡◌, ◌==◌, if◌then◌else◌, [], ◌∷◌, ◌++◌, Bytes, length, take, drop, to_bytes, Result,
  ok, ◌>>=◌, zero, suc,
}

-- AES in the CBC mode with a vector of zeros, and in the counter mode with a first block. A stream of
-- the counter mode that gets its input in two pieces returns the output for both together.
pub record Cipher : Type 0 where
  pub cbc : (key text : Bytes) → Result Bytes
  pub encrypt : (key first_block text : Bytes) → Result Bytes
  pub decrypt : (key first_block text : Bytes) → Result Bytes

-- What the library documents: a key of 16 octets and data of whole blocks, or a first block of 16
-- octets, are accepted, the output is as long as the input, and decryption inverts encryption.
pub record IsCipher (c : Cipher) : Type 0 where
  pub cbc_accepts :
      (key text : Bytes)
      → length key ≡ 16
      → length text % 16 ≡ 0
      → (out : Bytes) × (c.cbc key text ≡ ok out) × (length out ≡ length text)
  pub encrypt_accepts :
      (key first_block text : Bytes)
      → length key ≡ 16
      → length first_block ≡ 16
      → (out : Bytes) × (c.encrypt key first_block text ≡ ok out)
        × (length out ≡ length text)
        × (c.decrypt key first_block out ≡ ok text)

abbrev pub zeros : ℕ → Bytes
zeros zero = []
zeros (suc n) = 0 ∷ zeros n

unfoldable pub byte_pad : Bytes → ℕ → Bytes
byte_pad text block_size =
    if length text % block_size == 0
    then text
    else text ++ zeros (block_size - length text % block_size)

unfoldable pub calculate_message_authentication_code_cbc :
    Cipher → (key additional_data payload block_0 : Bytes) → Result Bytes
unfolding byte_pad
calculate_message_authentication_code_cbc c key additional_data payload block_0 = do
  n ← to_bytes 2 (length additional_data)
  y_blocks ← c.cbc key (byte_pad (block_0 ++ (n ++ (additional_data ++ payload))) 16)
  ok (drop (length y_blocks - 16) y_blocks)

-- The code is the first part of the stream: the payload and the code.
unfoldable pub decrypt_ctr : Cipher → (key counter_0 mac payload : Bytes) → Result (Bytes × Bytes)
decrypt_ctr c key counter_0 mac payload = do
  out ← c.decrypt key counter_0 (mac ++ payload)
  ok (drop (length mac) out, take (length mac) out)

unfoldable pub encrypt_data_ctr :
    Cipher → (key counter_0 mac_cbc payload : Bytes) → Result (Bytes × Bytes)
encrypt_data_ctr c key counter_0 mac_cbc payload = do
  out ← c.encrypt key counter_0 (mac_cbc ++ payload)
  ok (drop (length mac_cbc) out, take (length mac_cbc) out)
