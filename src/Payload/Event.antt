-- ===== src/Payload/Event.antt =====
-- components/hacan/protocol_event.cpp.
use esphome_hacan.Base.{ℕ, not, ◌||◌, ◌==◌, if◌then◌else◌, Option, none, some, bit_and, Bytes8}
use esphome_hacan.TypedValue.{TypedValue, is_valid}
use esphome_hacan.Payload.Value.{valid_endpoint, write_value}

pub record EventPayload : Type 0 where
  pub sequence : ℕ
  pub endpoint : ℕ
  pub value : TypedValue
  pub flags : ℕ

unfoldable pub create : ℕ → ℕ → TypedValue → ℕ → Option EventPayload
unfolding valid_endpoint
create sequence endpoint value flags =
    if not (valid_endpoint endpoint) || not (is_valid value) || not (bit_and flags 0xfc == 0)
    then none
    else some (record { sequence = sequence; endpoint = endpoint; value = value; flags = flags })

unfoldable pub encode : EventPayload → Bytes8
unfolding write_value
encode p =
    let bytes : Bytes8 = record {
      b0 = p.sequence;
      b1 = p.endpoint;
      b2 = 0;
      b3 = p.flags;
      b4 = 0;
      b5 = 0;
      b6 = 0;
      b7 = 0;
    } in
    write_value bytes p.value
