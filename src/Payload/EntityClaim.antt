-- ===== src/Payload/EntityClaim.antt =====
-- components/hacan/protocol_entities.cpp, `EntityClaimPayload`.
use esphome_hacan.Base.{ℕ, ◌==◌, ◌||◌, if◌then◌else◌, Option, none, some, u8, ◌>>>◌, Bytes8}

pub record EntityClaimPayload : Type 0 where
  pub sequence : ℕ
  pub endpoint : ℕ
  pub entity : ℕ

unfoldable pub create : ℕ → ℕ → ℕ → Option EntityClaimPayload
create sequence endpoint entity =
    if endpoint == 0 || endpoint == 0xff || entity == 0
    then none
    else some (record { sequence = sequence; endpoint = endpoint; entity = entity })

-- `write_u32_le(bytes, 2, value)`
unfoldable pub write_u32_le : Bytes8 → ℕ → Bytes8
write_u32_le bytes value = record bytes {
  b2 = u8 value;
  b3 = u8 (value >>> 8);
  b4 = u8 (value >>> 16);
  b5 = u8 (value >>> 24);
}

unfoldable pub encode : EntityClaimPayload → Bytes8
unfolding write_u32_le
encode p =
    let bytes : Bytes8 = record {
      b0 = p.sequence;
      b1 = p.endpoint;
      b2 = 0;
      b3 = 0;
      b4 = 0;
      b5 = 0;
      b6 = 0;
      b7 = 0;
    } in
    write_u32_le bytes p.entity
