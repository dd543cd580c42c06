-- ===== src/Esphome/Log.antt =====
-- components/hacan/hacan.cpp: what `log_frame` and `dump_config` put into the log. The text around
-- the values, and the UID that `dump_config` copies out, are not modelled.
use esphome_hacan.Base.{
  ℕ, ◌+◌, ◌<◌, ◌≡◌, ◌∙◌, Bool, ok, Option, none, some, List, [], ◌∷◌, arith, Bytes8, u8, bit_and,
  ◌>>>◌, length, count_filled, and_mask,
}
use esphome_hacan.Types.{priority_code}
use esphome_hacan.CanIdentifier.{from_raw}
use esphome_hacan.CanIdentifier.RoundTrip.{priority_code-priority_of_code}
use esphome_hacan.FrameCodec.{RawCanFrame, ProtocolFrame, decode}
use esphome_hacan.FrameCodec.RoundTrip.{decode_ok_iff, Carries}
use esphome_hacan.Esphome.Framework.{Framework}
use esphome_hacan.Esphome.Board.{load}
use esphome_hacan.Esphome.System.{Board}

-- The values of a line that `log_frame` writes, but the two words it is given.
pub record FrameLine : Type 0 where
  pub can_id : ℕ
  pub extended : Bool
  pub dlc : ℕ
  pub priority : ℕ
  pub kind : ℕ
  pub destination : ℕ
  pub source : ℕ
  pub hop : ℕ
  pub bytes : Bytes8

unfoldable pub log_frame : RawCanFrame → FrameLine
log_frame frame = record {
  can_id = frame.can_id;
  extended = frame.extended;
  dlc = frame.dlc;
  priority = bit_and (frame.can_id >>> 26) 0x07;
  kind = bit_and (frame.can_id >>> 21) 0x1f;
  destination = bit_and (frame.can_id >>> 12) 0x1ff;
  source = bit_and (frame.can_id >>> 3) 0x1ff;
  hop = bit_and frame.can_id 0x07;
  bytes = frame.bytes;
}

-- The values that `dump_config` writes.
pub record ConfigLines : Type 0 where
  pub commissioned : Option ℕ
  pub endpoints : ℕ
  pub state_listeners : ℕ
  pub rx_frames : ℕ
  pub tx_frames : ℕ
  pub malformed_frames : ℕ

-- The loops `for (… : slots) count += slot.has_value();` on a `uint8_t`.
unfoldable pub count_from {ℓ} : {A : Type ℓ} → ℕ → List (Option A) → ℕ
count_from count [] = count
count_from count (none ∷ slots) = count_from count slots
count_from count (some a ∷ slots) = count_from (u8 (count + 1)) slots

unfoldable pub dump_config : {X : Type 0} → Framework X → Board X → ConfigLines
dump_config fw b = record {
  commissioned = load fw b.world;
  endpoints = count_from 0 b.component.owned_endpoints;
  state_listeners = count_from 0 b.component.state_listeners;
  rx_frames = b.component.rx_frames;
  tx_frames = b.world.tx_frames;
  malformed_frames = b.component.malformed_frames;
}

-- The line of a received frame that decodes names the fields of the frame that the runtime gets.
pub log_frame-decode :
    (raw : RawCanFrame) (frame : ProtocolFrame)
    → decode raw ≡ ok frame
    → let line = log_frame raw in
      let id = frame.identifier in
      (line.priority ≡ priority_code id.priority)
      × (line.kind ≡ id.kind)
      × (line.destination ≡ id.destination)
      × (line.source ≡ id.source)
      × (line.hop ≡ id.hop)
      × (line.bytes ≡ frame.payload.bytes)
unfolding log_frame from_raw
log_frame-decode raw frame e =
    let carried : Carries raw frame = (decode_ok_iff raw frame).0 e in
    let code = bit_and (raw.can_id >>> 26) 0x07 in
    ground (
      arith,
      carried.identifier,
      carried.bytes,
      priority_code-priority_of_code code (omega (arith, and_mask 3 (raw.can_id >>> 26))),
    )

count_from-count_filled {ℓ} :
    {A : Type ℓ} (count : ℕ) (slots : List (Option A))
    → count + length slots < 256
    → count_from count slots ≡ count + count_filled slots
unfolding count_from
count_from-count_filled count [] h = omega arith
count_from-count_filled count (none ∷ slots) h = count_from-count_filled count slots (omega arith)
count_from-count_filled count (some a ∷ slots) h =
    ground (arith, count_from-count_filled (u8 (count + 1)) slots)

-- The counts that are logged are those of the configured entries, where the arrays have the sixteen
-- slots of the code or any other number below 256.
dump_config_counts :
    {X : Type 0} (fw : Framework X) (b : Board X)
    → length b.component.owned_endpoints < 256
    → length b.component.state_listeners < 256
    → let lines = dump_config fw b in
      (lines.endpoints ≡ count_filled b.component.owned_endpoints)
      × (lines.state_listeners ≡ count_filled b.component.state_listeners)
unfolding dump_config
dump_config_counts fw b few_endpoints few_listeners = (
  count_from-count_filled 0 b.component.owned_endpoints (omega arith) ∙ omega arith,
  count_from-count_filled 0 b.component.state_listeners (omega arith) ∙ omega arith,
)
