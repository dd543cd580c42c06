-- ===== src/Payload/EntityResolve.antt =====
-- components/hacan/protocol_entities.cpp, `EntityResolvePayload`.
use esphome_hacan.Base.{ℕ, ltb, ◌==◌, ◌||◌, if◌then◌else◌, Option, none, some, u8, ◌>>>◌, Bytes8}
use esphome_hacan.Payload.EntityClaim.{write_u32_le}

pub record EntityResolvePayload : Type 0 where
  pub transaction : ℕ
  pub entity : ℕ
  pub window_ms : ℕ

unfoldable pub create : ℕ → ℕ → ℕ → Option EntityResolvePayload
create transaction entity window_ms =
    if entity == 0 || ltb window_ms 1000 || ltb 10000 window_ms
    then none
    else some (record { transaction = transaction; entity = entity; window_ms = window_ms })

-- `write_u16_le(bytes, 6, value)`
unfoldable pub write_u16_le : Bytes8 → ℕ → Bytes8
write_u16_le bytes value = record bytes { b6 = u8 value; b7 = u8 (value >>> 8) }

unfoldable pub encode : EntityResolvePayload → Bytes8
unfolding write_u32_le write_u16_le
encode p =
    let bytes : Bytes8 = record {
      b0 = p.transaction;
      b1 = 0;
      b2 = 0;
      b3 = 0;
      b4 = 0;
      b5 = 0;
      b6 = 0;
      b7 = 0;
    } in
    write_u16_le (write_u32_le bytes p.entity) p.window_ms
