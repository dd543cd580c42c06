-- ===== src/Runtime/Duplicates.antt =====
-- The table of the commands that the runtime has seen.
use esphome_hacan.Base.{
  ℕ, Bool, ◌&&◌, Option, none, some, List, [], ◌∷◌, leb, ◌==◌, find_slot, fill_slot, replace_slot,
}
use esphome_hacan.Types.{Status}
use esphome_hacan.FrameCodec.{ProtocolFrame}
use esphome_hacan.Runtime.Node.{Node, Duplicate}
use esphome_hacan.Runtime.Directory.{elapsed}

abbrev pub duplicate_window_ms : ℕ
duplicate_window_ms = 2000

-- The record is of this source, endpoint, transaction and kind.
abbrev pub same_command : ProtocolFrame → Duplicate → Bool
same_command frame r =
    r.source == frame.identifier.source
    && r.endpoint == frame.payload.bytes.b1
    && r.transaction == frame.payload.bytes.b0
    && r.kind == frame.identifier.kind

abbrev pub is_recent : ℕ → Duplicate → Bool
is_recent now r = leb (elapsed now r.seen_ms) duplicate_window_ms

abbrev pub new_record : ProtocolFrame → ℕ → Duplicate
new_record frame now = record {
  source = frame.identifier.source;
  endpoint = frame.payload.bytes.b1;
  transaction = frame.payload.bytes.b0;
  kind = frame.identifier.kind;
  seen_ms = now;
  status = Status.unsupported;
}

-- `duplicates_[0] = …`
abbrev pub overwrite_first : Duplicate → List (Option Duplicate) → List (Option Duplicate)
overwrite_first r [] = []
overwrite_first r (slot ∷ slots) = some r ∷ slots

-- The two loops and the overwrite below them.
unfoldable pub record_command : Duplicate → List (Option Duplicate) → List (Option Duplicate)
record_command r slots = elim (fill_slot r slots) [
  | some filled ↦ filled
  | none ↦ overwrite_first r slots
]

-- `is_duplicate`: the status of the earlier command if there is one, and the node with the new
-- record if not.
unfoldable pub is_duplicate : ProtocolFrame → ℕ → Node → Node × Option Status
is_duplicate frame now n =
    elim (find_slot (λ r. same_command frame r && is_recent now r) n.duplicates) [
      | some r ↦ (n, some r.status)
      | none ↦ (record n { duplicates = record_command (new_record frame now) n.duplicates }, none)
    ]

unfoldable pub set_duplicate_status : ProtocolFrame → Status → Node → Node
set_duplicate_status frame status n = record n {
  duplicates =
      replace_slot (same_command frame) (λ r. some (record r { status = status })) n.duplicates;
}
