-- ===== src/FrameCodec.antt =====
-- components/hacan/protocol_frame_codec.h and .cpp: raw CAN frames and protocol frames.
pub mod RoundTrip
pub mod Errors
use esphome_hacan.Base.{
  ℕ, Bool, true, false, not, Result, ok, err, Bytes8, leb, ◌==◌, if◌then◌else◌, none, some,
}
use esphome_hacan.Types.{MessageKind, kind_code, kind_of_code}
use esphome_hacan.CanIdentifier.{CanIdentifier, from_raw, to_raw}
use esphome_hacan.WirePayload.{WirePayload, FrameValidationError, validate}

-- protocol_raw_can_frame.h
pub record RawCanFrame : Type 0 where
  pub can_id : ℕ
  pub extended : Bool
  pub dlc : ℕ
  pub bytes : Bytes8

-- protocol_protocol_frame.h
pub record ProtocolFrame : Type 0 where
  pub identifier : CanIdentifier
  pub payload : WirePayload

pub data DecodeError : Type 0 where
  not_extended invalid_dlc invalid_identifier unknown_kind invalid_priority : DecodeError
  invalid_addressing invalid_payload : DecodeError

pub data EncodeError : Type 0 where
  invalid_frame : EncodeError

-- The tests of `decode_payload` after `validate`, in their order.
unfoldable pub after_validate :
    FrameValidationError → ProtocolFrame → Result DecodeError ProtocolFrame
after_validate FrameValidationError.invalid_priority frame = err DecodeError.invalid_priority
after_validate FrameValidationError.invalid_addressing frame = err DecodeError.invalid_addressing
after_validate FrameValidationError.invalid_payload frame = err DecodeError.invalid_payload
after_validate FrameValidationError.none frame = ok frame

unfoldable pub decode_payload :
    MessageKind → CanIdentifier → Bytes8 → Result DecodeError ProtocolFrame
decode_payload kind id bytes =
    let payload : WirePayload = record { kind = kind; bytes = bytes } in
    after_validate (validate payload id) (record { identifier = id; payload = payload })

-- The `switch` over the enumerators, and what stands below it.
unfoldable pub decode_known : CanIdentifier → Bytes8 → Result DecodeError ProtocolFrame
decode_known id bytes = elim (kind_of_code id.kind) [
  | some kind ↦ decode_payload kind id bytes
  | none ↦ err DecodeError.unknown_kind
]

unfoldable pub known_kind : ℕ → Bool
known_kind kind = leb kind (kind_code MessageKind.entity_resolve)

unfoldable pub decode : RawCanFrame → Result DecodeError ProtocolFrame
decode raw =
    if not raw.extended
    then err DecodeError.not_extended
    else if not (raw.dlc == 8)
    then err DecodeError.invalid_dlc
    else elim (from_raw raw.can_id) [
      | none ↦ err DecodeError.invalid_identifier
      | some id ↦
          if not (known_kind id.kind)
          then err DecodeError.unknown_kind
          else decode_known id raw.bytes
    ]

-- Anything but `kNone` from `validate` is an invalid frame.
unfoldable pub encode : ProtocolFrame → Result EncodeError RawCanFrame
encode frame = elim (validate frame.payload frame.identifier) [
  | FrameValidationError.none ↦ ok (record {
    can_id = to_raw frame.identifier;
    extended = true;
    dlc = 8;
    bytes = frame.payload.bytes;
  })
  | _ ↦ err EncodeError.invalid_frame
]
