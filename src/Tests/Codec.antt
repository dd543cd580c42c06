-- ===== src/Tests/Codec.antt =====
-- The codec on the frames of components/hacan/protocol/tests/test_frame_codec.cpp.
use esphome_hacan.Base.{
  ◌/◌, ◌%◌, ◌^◌, ◌<◌, ◌≤◌, ◌≢◌, ◌≡◌, ◌↔◌, refl, true, false, some, ok, err, arith, Bytes8,
}
use esphome_hacan.Types.{priority_code, Priority, MessageKind, kind_of_code}
use esphome_hacan.CanIdentifier.{CanIdentifier, from_raw, to_raw, identifier_mask}
use esphome_hacan.Esphome.Log.{log_frame, log_frame-decode}
use esphome_hacan.CanIdentifier.RoundTrip.{IsInRange, from_raw_iff, to_raw_priority_lt}
use esphome_hacan.WirePayload.{validate, priority, valid_identifier, valid_bytes}
use esphome_hacan.WirePayload.Addressing.{valid_identifier_iff, Allows, to_all}
use esphome_hacan.FrameCodec.{
  RawCanFrame, ProtocolFrame, DecodeError, decode, encode, decode_known, decode_payload,
  after_validate, known_kind,
}
use esphome_hacan.FrameCodec.RoundTrip.{Carries, decode_ok_iff, decode_iff_encode}
use esphome_hacan.FrameCodec.Errors.{decode_errors}

-- An entity claim of node 0x12A: entity 0x01010001 at endpoint 1.
abbrev claim_id : CanIdentifier
claim_id = record {
  priority = Priority.management;
  kind = 0x14;
  destination = 0x1ff;
  source = 0x12a;
  hop = 0;
}

abbrev claim_bytes : Bytes8
claim_bytes = record {
  b0 = 0x21;
  b1 = 0x01;
  b2 = 0x01;
  b3 = 0x00;
  b4 = 0x01;
  b5 = 0x01;
  b6 = 0x00;
  b7 = 0x00;
}

abbrev claim_raw : RawCanFrame
claim_raw = record { can_id = 0x129ff950; extended = true; dlc = 8; bytes = claim_bytes }

abbrev claim_frame : ProtocolFrame
claim_frame = record {
  identifier = claim_id;
  payload = record { kind = MessageKind.entity_claim; bytes = claim_bytes };
}

abbrev ack_id : CanIdentifier
ack_id = record { priority = Priority.control; kind = 0x0d; destination = 2; source = 1; hop = 0 }

claim_id-raw : to_raw claim_id ≡ 0x129ff950
unfolding to_raw
claim_id-raw = refl

claim_decodes : decode claim_raw ≡ ok claim_frame
unfolding decode decode_known decode_payload after_validate known_kind kind_of_code from_raw
    validate valid_identifier priority valid_bytes
claim_decodes = refl

claim_encodes : encode claim_frame ≡ ok claim_raw
unfolding encode to_raw validate valid_identifier priority valid_bytes
claim_encodes = refl

log_frame-decode_example :
    let line = log_frame claim_raw in
    (line.priority ≡ priority_code claim_id.priority)
    × (line.kind ≡ claim_id.kind)
    × (line.destination ≡ claim_id.destination)
    × (line.source ≡ claim_id.source)
    × (line.hop ≡ claim_id.hop)
    × (line.bytes ≡ claim_bytes)
log_frame-decode_example = log_frame-decode claim_raw claim_frame claim_decodes

standard_frame : decode (record claim_raw { extended = false }) ≡ err DecodeError.not_extended
unfolding decode
standard_frame = refl

from_raw_claim : from_raw 0x129ff950 ≡ some claim_id
unfolding from_raw
from_raw_claim = refl

from_raw_iff_example :
    (from_raw 0x129ff950 ≡ some claim_id) ↔ (IsInRange claim_id × (to_raw claim_id ≡ 0x129ff950))
from_raw_iff_example = from_raw_iff 0x129ff950 claim_id

to_raw_priority_lt_example : to_raw ack_id < to_raw claim_id
to_raw_priority_lt_example =
    to_raw_priority_lt ack_id claim_id (omega arith) (omega arith) (omega arith)

valid_identifier_iff_example :
    (valid_identifier MessageKind.entity_claim claim_id ≡ true)
    ↔ ((Priority.management ≡ priority MessageKind.entity_claim) × Allows to_all 0x12a 0x1ff)
valid_identifier_iff_example = valid_identifier_iff MessageKind.entity_claim claim_id

decode_ok_iff_example : (decode claim_raw ≡ ok claim_frame) ↔ Carries claim_raw claim_frame
decode_ok_iff_example = decode_ok_iff claim_raw claim_frame

decode_iff_encode_example :
    (decode claim_raw ≡ ok claim_frame)
    ↔ (IsInRange claim_frame.identifier × (encode claim_frame ≡ ok claim_raw))
decode_iff_encode_example = decode_iff_encode claim_raw claim_frame

-- A kind without an enumerator.
abbrev unknown_raw : RawCanFrame
unknown_raw = record claim_raw { can_id = 0x13fff008 }

decode_errors_example :
    ((decode unknown_raw ≡ err DecodeError.not_extended) ↔ (unknown_raw.extended ≡ false))
    × ((decode unknown_raw ≡ err DecodeError.invalid_dlc)
        ↔ ((unknown_raw.extended ≡ true) × (unknown_raw.dlc ≢ 8)))
    × ((decode unknown_raw ≡ err DecodeError.invalid_identifier) ↔ (
        ((unknown_raw.extended ≡ true) × (unknown_raw.dlc ≡ 8))
        × (identifier_mask < unknown_raw.can_id)))
    × ((decode unknown_raw ≡ err DecodeError.unknown_kind) ↔ (
        ((unknown_raw.extended ≡ true) × (unknown_raw.dlc ≡ 8))
        × (unknown_raw.can_id ≤ identifier_mask)
        × (0x15 < unknown_raw.can_id / 2 ^ 21 % 32)))
decode_errors_example = decode_errors unknown_raw
