-- ===== src/CanIdentifier.antt =====
-- components/hacan/protocol_can_identifier.h and .cpp: the 29-bit identifier.
-- `kind` is the code of a `MessageKind` object, which may have no enumerator.
pub mod RoundTrip
use esphome_hacan.Base.{
  ℕ, Option, none, some, Bool, ◌||◌, ltb, if◌then◌else◌, ◌<<<◌, ◌>>>◌, bit_and, bit_or, u32,
}
use esphome_hacan.Types.{Priority, priority_code, priority_of_code}

pub record CanIdentifier : Type 0 where
  pub priority : Priority
  pub kind : ℕ
  pub destination : ℕ
  pub source : ℕ
  pub hop : ℕ

abbrev pub identifier_mask : ℕ
identifier_mask = 0x1fff_ffff

abbrev pub address_mask : ℕ
address_mask = 0x01ff

abbrev pub hop_mask : ℕ
hop_mask = 0x07

unfoldable pub create : Priority → ℕ → ℕ → ℕ → ℕ → Option CanIdentifier
create priority kind destination source hop =
    if ltb address_mask destination || ltb address_mask source || ltb hop_mask hop
    then none
    else some (record {
      priority = priority;
      kind = kind;
      destination = destination;
      source = source;
      hop = hop;
    })

unfoldable pub from_raw : ℕ → Option CanIdentifier
from_raw raw =
    if ltb identifier_mask raw
    then none
    else some (record {
      priority = priority_of_code (bit_and (raw >>> 26) 0x07);
      kind = bit_and (raw >>> 21) 0x1f;
      destination = bit_and (raw >>> 12) address_mask;
      source = bit_and (raw >>> 3) address_mask;
      hop = bit_and raw hop_mask;
    })

unfoldable pub to_raw : CanIdentifier → ℕ
to_raw id =
    bit_or
      (bit_or
        (bit_or (bit_or (u32 (priority_code id.priority <<< 26)) (u32 (id.kind <<< 21)))
          (u32 (id.destination <<< 12)))
        (u32 (id.source <<< 3)))
      id.hop
