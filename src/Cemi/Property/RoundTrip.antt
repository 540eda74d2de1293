-- ===== src/Cemi/Property/RoundTrip.antt =====
-- The device management services are read back.
use xknx.Prelude.{
  ℕ, ◌+◌, ◌*◌, ◌/◌, ◌%◌, ◌<◌, ◌≤◌, ◌≡◌, refl, true, [], ◌∷◌, ◌++◌, Bytes, length, Option, none,
  some, Result, ok, err, arith, could_not_parse_cemi,
}
use xknx.Cemi.Property.{
  MPropInfo, CemiErrorCode, unspecified, error_value, error_of, is_object_type, info_from_knx,
  info_to_knx, ReadRequest, PropertyData, WriteResponse, read_request_from_knx, read_request_to_knx,
  read_response_from_knx, property_data_to_knx, write_request_from_knx, write_response_from_knx,
  write_response_to_knx,
}

-- The fields fit, and the object type is known.
pub record FitsInfo (i : MPropInfo) : Type 0 where
  pub known : is_object_type i.object_type ≡ true
  pub instance_fits : i.object_instance < 256
  pub property_fits : i.property_id < 256
  pub number_fits : i.number_of_elements < 16
  pub start_fits : i.start_index < 4096

-- A property is written in six octets and read back from them.
pub info_octets :
    (i : MPropInfo)
    → FitsInfo i
    → (a b c d e f : ℕ) × (info_to_knx i ≡ ok (a ∷ b ∷ c ∷ d ∷ e ∷ f ∷ []))
      × (info_from_knx (a ∷ b ∷ c ∷ d ∷ e ∷ f ∷ []) ≡ ok i)
unfolding info_to_knx info_from_knx
info_octets i h = (
  i.object_type / 256,
  i.object_type % 256,
  i.object_instance,
  i.property_id,
  (i.number_of_elements * 4096 + i.start_index) / 256,
  (i.number_of_elements * 4096 + i.start_index) % 256,
  ground arith,
  ground arith,
)

-- Every error code is read back from its number.
pub error_of-error_value : (c : CemiErrorCode) → error_of (error_value c) ≡ ok c
unfolding error_of error_value
error_of-error_value unspecified = refl
error_of-error_value _ = refl

-- Octets that are written, read as the same, and counted.
abbrev pub Reads {ℓ} : {A : Type ℓ} → Result Bytes → (Bytes → Result A) → A → ℕ → Type ℓ
Reads written read d n = (raw : Bytes) × (written ≡ ok raw) × (read raw ≡ ok d) × (length raw ≡ n)

pub read_request_lem :
    (d : ReadRequest)
    → FitsInfo d.property_info
    → Reads (read_request_to_knx d) read_request_from_knx d 6
unfolding read_request_to_knx read_request_from_knx
read_request_lem d h =
    let (a, b, c, e, f, g, written, read) = info_octets d.property_info h in
    (a ∷ b ∷ c ∷ e ∷ f ∷ g ∷ [], written, rw read refl, refl)

-- An error, which the number 0 of elements tells, has one octet.
pub read_response_lem :
    (d : PropertyData)
    → FitsInfo d.property_info
    → 1 ≤ length d.payload
    → (d.property_info.number_of_elements ≡ 0 → length d.payload ≡ 1)
    → Reads (property_data_to_knx d) read_response_from_knx d (6 + length d.payload)
unfolding property_data_to_knx read_response_from_knx
read_response_lem d h k l =
    let (a, b, c, e, f, g, written, read) = info_octets d.property_info h in
    ((a ∷ b ∷ c ∷ e ∷ f ∷ g ∷ []) ++ d.payload, rw written refl, ground (arith, read), omega arith)

pub write_request_lem :
    (d : PropertyData)
    → FitsInfo d.property_info
    → 1 ≤ length d.payload
    → Reads (property_data_to_knx d) write_request_from_knx d (6 + length d.payload)
unfolding property_data_to_knx write_request_from_knx
write_request_lem d h k =
    let (a, b, c, e, f, g, written, read) = info_octets d.property_info h in
    ((a ∷ b ∷ c ∷ e ∷ f ∷ g ∷ []) ++ d.payload, rw written refl, ground (arith, read), omega arith)

-- An error code where there are no elements, but not the code that is 0, and none elsewhere.
abbrev pub FitsError : ℕ → Option CemiErrorCode → Type 0
FitsError n none = 1 ≤ n
FitsError n (some c) = (n ≡ 0) × (1 ≤ error_value c)

abbrev pub error_octets : Option CemiErrorCode → ℕ
error_octets none = 0
error_octets (some c) = 1

abbrev response : MPropInfo → Option CemiErrorCode → WriteResponse
response i o = record { property_info = i; error_code = o }

response_lem :
    (i : MPropInfo) (o : Option CemiErrorCode)
    → FitsInfo i
    → FitsError i.number_of_elements o
    → Reads
        (write_response_to_knx (response i o))
        write_response_from_knx
        (response i o)
        (6 + error_octets o)
unfolding write_response_to_knx write_response_from_knx
response_lem i none h k =
    let (a, b, c, e, f, g, written, read) = info_octets i h in
    (a ∷ b ∷ c ∷ e ∷ f ∷ g ∷ [], rw written refl, ground (arith, read), refl)
response_lem i (some x) h k =
    let (a, b, c, e, f, g, written, read) = info_octets i h in
    (
      a ∷ b ∷ c ∷ e ∷ f ∷ g ∷ error_value x ∷ [],
      rw written (ground arith),
      ground (arith, read, error_of-error_value x),
      refl,
    )

pub write_response_lem :
    (d : WriteResponse)
    → FitsInfo d.property_info
    → FitsError d.property_info.number_of_elements d.error_code
    → Reads (write_response_to_knx d) write_response_from_knx d (6 + error_octets d.error_code)
write_response_lem d h k = response_lem d.property_info d.error_code h k

-- A write response without elements whose error is the unspecified one is written without its error
-- code: the octets are the six of its property and nothing else, the same as without an error, and
-- they are refused when they are read.
pub write_response_to_knx-unspecified :
    (d : WriteResponse)
    → FitsInfo d.property_info
    → d.property_info.number_of_elements ≡ 0
    → d.error_code ≡ some unspecified
    → (raw : Bytes) × (info_to_knx d.property_info ≡ ok raw)
      × (length raw ≡ 6)
      × (write_response_to_knx d ≡ ok raw)
      × (write_response_to_knx (record d { error_code = none }) ≡ ok raw)
      × (write_response_from_knx raw ≡ err could_not_parse_cemi)
unfolding write_response_to_knx write_response_from_knx error_value
write_response_to_knx-unspecified d h k e =
    let (a, b, c, x, f, g, written, read) = info_octets d.property_info h in
    (
      a ∷ b ∷ c ∷ x ∷ f ∷ g ∷ [],
      written,
      refl,
      rw (written, e) refl,
      rw written refl,
      ground (arith, read, k),
    )
