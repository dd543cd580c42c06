-- ===== src/Payload/Value.antt =====
-- The helpers that protocol_state.cpp, protocol_event.cpp and protocol_command.cpp each declare.
use esphome_hacan.Base.{ℕ, Bool, not, ◌&&◌, ◌==◌, Bytes8}
use esphome_hacan.TypedValue.{TypedValue}

unfoldable pub valid_endpoint : ℕ → Bool
valid_endpoint endpoint = not (endpoint == 0) && not (endpoint == 0xff)

-- `write_value` over the bytes that `encode` set before.
unfoldable pub write_value : Bytes8 → TypedValue → Bytes8
write_value bytes value = record bytes {
  b2 = value.type;
  b4 = value.bytes.v0;
  b5 = value.bytes.v1;
  b6 = value.bytes.v2;
  b7 = value.bytes.v3;
}
