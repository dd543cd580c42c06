-- ===== src/TypedValue.antt =====
-- components/hacan/protocol_typed_value.h and .cpp: four bytes with a data type.
use esphome_hacan.Base.{
  ℕ, zero, suc, ◌-◌, Bool, true, false, ◌&&◌, ◌||◌, not, Bytes4, ltb, ◌==◌, if◌then◌else◌, ◌<<<◌,
  bit_and, bit_or, u32,
}
use esphome_hacan.Types.{DataType, data_type_code}

pub record TypedValue : Type 0 where
  pub type : ℕ
  pub bytes : Bytes4

pub data ValueError : Type 0 where
  none unknown_data_type invalid_boolean non_zero_unused_bytes signaling_nan : ValueError

abbrev is : ℕ → DataType → Bool
is t d = t == data_type_code d

-- The `switch` of `value_width`; 0xFF is what it returns below the switch.
value_width : ℕ → ℕ
value_width t =
    if is t DataType.null || is t DataType.invalid
    then 0
    else if is t DataType.bool || is t DataType.uint8 || is t DataType.int8 || is t DataType.enum8
    then 1
    else if is t DataType.uint16 || is t DataType.int16
    then 2
    else if is t DataType.uint32
        || is t DataType.int32
        || is t DataType.float32
        || is t DataType.fixed16_16
        || is t DataType.bitset32
    then 4
    else 0xff

is_signaling_nan : Bytes4 → Bool
is_signaling_nan b =
    let bits = bit_or (bit_or (bit_or b.v0 (b.v1 <<< 8)) (b.v2 <<< 16)) (u32 (b.v3 <<< 24)) in
    let exponent_is_all_ones = bit_and bits 0x7f80_0000 == 0x7f80_0000 in
    let has_payload = not (bit_and bits 0x007f_ffff == 0) in
    let quiet_bit_is_clear = bit_and bits 0x0040_0000 == 0 in
    exponent_is_all_ones && has_payload && quiet_bit_is_clear

byte : Bytes4 → ℕ → ℕ
byte b zero = b.v0
byte b (suc zero) = b.v1
byte b (suc (suc zero)) = b.v2
byte b (suc (suc (suc n))) = b.v3

-- The loop from `index` to the end of the array, `left` bytes; true if it met a byte not zero.
unused_byte_set : Bytes4 → ℕ → ℕ → Bool
unused_byte_set b zero index = false
unused_byte_set b (suc left) index = not (byte b index == 0) || unused_byte_set b left (suc index)

unfoldable pub validate : TypedValue → ValueError
unfolding value_width is_signaling_nan byte unused_byte_set
validate v =
    let width = value_width v.type in
    if width == 0xff
    then unknown_data_type
    else if is v.type DataType.bool && ltb 1 v.bytes.v0
    then invalid_boolean
    else if unused_byte_set v.bytes (4 - width) width
    then non_zero_unused_bytes
    else if is v.type DataType.float32 && is_signaling_nan v.bytes
    then signaling_nan
    else none

-- `value.validate() == ValueError::kNone`.
unfoldable pub is_valid : TypedValue → Bool
unfolding validate
is_valid v = elim (validate v) [ none ↦ true | _ ↦ false ]
