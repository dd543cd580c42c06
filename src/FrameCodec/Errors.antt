-- ===== src/FrameCodec/Errors.antt =====
-- Which error `FrameCodec::decode` gives, in terms of the raw frame alone.
use esphome_hacan.Base.{
  ℕ, ◌≡◌, ◌↔◌, ◌/◌, ◌%◌, ◌^◌, ◌<◌, ◌≤◌, ◌≢◌, true, false, some, none, inl, inr, err, arith,
  and_mask, Option-cases,
}
use esphome_hacan.Types.{kind_of_code-ne-none}
use esphome_hacan.CanIdentifier.{CanIdentifier, from_raw, identifier_mask}
use esphome_hacan.FrameCodec.{
  RawCanFrame, DecodeError, decode, decode_known, decode_payload, after_validate, known_kind,
}

-- The kind field of the identifier.
abbrev raw_kind : RawCanFrame → ℕ
raw_kind raw = raw.can_id / 2 ^ 21 % 32

-- The stages of `decode`, in their order; each holds where the earlier ones passed.
abbrev IsClassical : RawCanFrame → Type 0
IsClassical raw = (raw.extended ≡ true) × (raw.dlc ≡ 8)

abbrev HasKnownKind : RawCanFrame → Type 0
HasKnownKind raw = IsClassical raw × (raw.can_id ≤ identifier_mask) × (raw_kind raw ≤ 0x15)

from_raw_kind :
    (raw : ℕ) {id : CanIdentifier}
    → from_raw raw ≡ some id
    → (raw ≤ identifier_mask) × (id.kind ≡ raw / 2 ^ 21 % 32)
unfolding from_raw
from_raw_kind raw e = ground (arith, and_mask 5 (raw / 2 ^ 21))

from_raw_none : (raw : ℕ) → from_raw raw ≡ none → identifier_mask < raw
unfolding from_raw
from_raw_none raw e = ground arith

-- With a known kind the payload decides: no earlier error is left.
decode_known_error :
    (id : CanIdentifier) (raw : RawCanFrame) (e : DecodeError)
    → id.kind ≤ 0x15
    → decode_known id raw.bytes ≡ err e
    → (e ≢ DecodeError.not_extended)
      × (e ≢ DecodeError.invalid_dlc)
      × (e ≢ DecodeError.invalid_identifier)
      × (e ≢ DecodeError.unknown_kind)
unfolding decode_known decode_payload after_validate
decode_known_error id raw e h d = ground (arith, kind_of_code-ne-none id.kind)

-- The frame's format decides first, then the identifier's range, then its kind: `decode` gives each
-- of these errors exactly when the checks above it pass and its own fails. The remaining errors
-- are given to frames of a known kind only.
pub decode_errors :
    (raw : RawCanFrame)
    → ((decode raw ≡ err DecodeError.not_extended) ↔ (raw.extended ≡ false))
      × ((decode raw ≡ err DecodeError.invalid_dlc) ↔ ((raw.extended ≡ true) × (raw.dlc ≢ 8)))
      × ((decode raw ≡ err DecodeError.invalid_identifier)
          ↔ (IsClassical raw × (identifier_mask < raw.can_id)))
      × ((decode raw ≡ err DecodeError.unknown_kind)
          ↔ (IsClassical raw × (raw.can_id ≤ identifier_mask) × (0x15 < raw_kind raw)))
unfolding decode known_kind
decode_errors raw = elim (Option-cases (from_raw raw.can_id)) [
  | inl missing ↦ ground (arith, from_raw_none raw.can_id)
  | inr (id, found) ↦ ground (
    arith,
    from_raw_kind raw.can_id found,
    decode_known_error id raw DecodeError.not_extended,
    decode_known_error id raw DecodeError.invalid_dlc,
    decode_known_error id raw DecodeError.invalid_identifier,
    decode_known_error id raw DecodeError.unknown_kind,
  )
]
