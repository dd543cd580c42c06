-- ===== src/FrameCodec/RoundTrip.antt =====
-- What `FrameCodec::decode` accepts, and that `encode` undoes it.
use esphome_hacan.Base.{◌≡◌, refl, ◌↔◌, true, some, ok, arith, Option-cases, inl, inr}
use esphome_hacan.Types.{MessageKind, kind_code, kind_of_code-kind_code}
use esphome_hacan.CanIdentifier.{CanIdentifier, from_raw}
use esphome_hacan.CanIdentifier.RoundTrip.{
  from_raw-IsInRange, IsInRange, from_raw-to_raw, to_raw-from_raw,
}
use esphome_hacan.WirePayload.{FrameValidationError, validate}
use esphome_hacan.FrameCodec.{
  RawCanFrame, ProtocolFrame, decode, decode_known, decode_payload, after_validate, encode,
  known_kind,
}

-- The checks passed on a frame.
abbrev pub IsValid : ProtocolFrame → Type 0
IsValid f = validate f.payload f.identifier ≡ FrameValidationError.none

-- The payload is the alternative that the identifier names, so `std::get` finds it.
pub IsValid-kind : (f : ProtocolFrame) → IsValid f → f.identifier.kind ≡ kind_code f.payload.kind
unfolding validate
IsValid-kind f v = ground arith

-- A raw frame carries a protocol frame: extended, of eight bytes, with that identifier and payload.
pub record Carries (raw : RawCanFrame) (f : ProtocolFrame) : Type 0 where
  pub extended : raw.extended ≡ true
  pub eight : raw.dlc ≡ 8
  pub identifier : from_raw raw.can_id ≡ some f.identifier
  pub bytes : raw.bytes ≡ f.payload.bytes
  pub valid : IsValid f

known_kind-kind_code : (k : MessageKind) → known_kind (kind_code k) ≡ true
unfolding known_kind
known_kind-kind_code MessageKind.protocol_error = refl
known_kind-kind_code _ = refl

decode_known_ok :
    (id : CanIdentifier) (raw : RawCanFrame) {f : ProtocolFrame}
    → decode_known id raw.bytes ≡ ok f
    → (id ≡ f.identifier) × (raw.bytes ≡ f.payload.bytes) × IsValid f
unfolding decode_known decode_payload after_validate
decode_known_ok id raw e = ground arith

decode_known_valid :
    (f : ProtocolFrame) → IsValid f → decode_known f.identifier f.payload.bytes ≡ ok f
unfolding decode_known decode_payload after_validate
decode_known_valid f v = ground (arith, IsValid-kind f v, kind_of_code-kind_code f.payload.kind)

-- `decode` gives a protocol frame exactly for the raw frames that carry it.
pub decode_ok_iff : (raw : RawCanFrame) (f : ProtocolFrame) → (decode raw ≡ ok f) ↔ Carries raw f
decode_ok_iff raw f = (accepted, complete)
  where
    accepted : decode raw ≡ ok f → Carries raw f
    accepted e =
        unfold decode in
        elim (Option-cases (from_raw raw.can_id)) [
          | inl missing ↦ ground arith
          | inr (id, found) ↦ ground (arith, decode_known_ok id raw {f = f})
        ]

    complete : Carries raw f → decode raw ≡ ok f
    complete c =
        unfold decode in
        ground (
          arith,
          c.extended,
          decode_known_valid f c.valid,
          known_kind-kind_code f.payload.kind,
          IsValid-kind f c.valid,
        )

-- Encoding a decoded frame gives the raw frame back, bit for bit.
pub encode-decode : (raw : RawCanFrame) {f : ProtocolFrame} → decode raw ≡ ok f → encode f ≡ ok raw
unfolding encode
encode-decode raw {f} e =
    let c = (decode_ok_iff raw f).0 e in ground (arith, to_raw-from_raw raw.can_id c.identifier)

-- Decoding an encoded frame gives the frame back.
pub decode-encode :
    (f : ProtocolFrame) {raw : RawCanFrame}
    → IsInRange f.identifier
    → encode f ≡ ok raw
    → decode raw ≡ ok f
decode-encode f {raw} h e = (decode_ok_iff raw f).1 carried
  where
    carried : Carries raw f
    carried = unfold encode in ground (arith, from_raw-to_raw f.identifier h)

-- A raw frame decodes to a protocol frame exactly if the frame's identifier fields fit their bits
-- and it is encoded as that raw frame.
pub decode_iff_encode :
    (raw : RawCanFrame) (f : ProtocolFrame)
    → (decode raw ≡ ok f) ↔ (IsInRange f.identifier × (encode f ≡ ok raw))
decode_iff_encode raw f = (
  λ e. (from_raw-IsInRange raw.can_id ((decode_ok_iff raw f).0 e).identifier, encode-decode raw e),
  λ h. decode-encode f h.0 h.1,
)
