-- ===== src/Payload/Heartbeat.antt =====
-- components/hacan/protocol_lifecycle.cpp. `condition` is the bit set of a `NodeCondition`.
use esphome_hacan.Base.{
  ℕ, not, ltb, ◌==◌, ◌||◌, ◌&&◌, if◌then◌else◌, Option, none, some, bit_and, u8, ◌>>>◌, Bytes8,
}

pub record HeartbeatPayload : Type 0 where
  pub sequence : ℕ
  pub condition : ℕ
  pub boot_token : ℕ
  pub tx_queue_load : ℕ

unfoldable pub create : ℕ → ℕ → ℕ → ℕ → Option HeartbeatPayload
create sequence condition boot_token tx_queue_load =
    if boot_token == 0
      || not (bit_and condition 0xe0 == 0)
      || (ltb 100 tx_queue_load && not (tx_queue_load == 0xff))
    then none
    else some (record {
      sequence = sequence;
      condition = condition;
      boot_token = boot_token;
      tx_queue_load = tx_queue_load;
    })

unfoldable pub encode : HeartbeatPayload → Bytes8
encode p = record {
  b0 = p.sequence;
  b1 = p.condition;
  b2 = u8 p.boot_token;
  b3 = u8 (p.boot_token >>> 8);
  b4 = u8 (p.boot_token >>> 16);
  b5 = u8 (p.boot_token >>> 24);
  b6 = p.tx_queue_load;
  b7 = 0;
}
