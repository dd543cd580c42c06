-- ===== src/Payload/Ack.antt =====
-- components/hacan/protocol_ack.cpp. The kind and the status are the codes of the objects passed.
use esphome_hacan.Base.{ℕ, ltb, if◌then◌else◌, Option, none, some, u8, ◌>>>◌, Bytes8}

pub record AckPayload : Type 0 where
  pub transaction : ℕ
  pub endpoint : ℕ
  pub original_kind : ℕ
  pub status : ℕ
  pub detail : ℕ

unfoldable pub create : ℕ → ℕ → ℕ → ℕ → ℕ → Option AckPayload
create transaction endpoint original_kind status detail =
    if ltb 7 status
    then none
    else some (record {
      transaction = transaction;
      endpoint = endpoint;
      original_kind = original_kind;
      status = status;
      detail = detail;
    })

unfoldable pub encode : AckPayload → Bytes8
encode p = record {
  b0 = p.transaction;
  b1 = p.endpoint;
  b2 = p.original_kind;
  b3 = p.status;
  b4 = u8 p.detail;
  b5 = u8 (p.detail >>> 8);
  b6 = u8 (p.detail >>> 16);
  b7 = u8 (p.detail >>> 24);
}
