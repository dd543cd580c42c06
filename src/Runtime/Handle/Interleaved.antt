-- ===== src/Runtime/Handle/Interleaved.antt =====
-- What the runs of other commands do to the record of a command.
use esphome_hacan.Base.{
  ℕ, suc, ◌≤◌, ◌<◌, ◌≡◌, inl, inr, Bool, true, false, ◌&&◌, Option, some, none, List, [], ◌∷◌,
  arith, Option-cases, find_slot, fill_slot, room, room-fill_slot, room-replace_slot,
  find_slot-fill_slot_other, find_slot-replace_slot_other,
}
use esphome_hacan.FrameCodec.{ProtocolFrame}
use esphome_hacan.Runtime.Env.{Env}
use esphome_hacan.Runtime.Node.{Sys, Duplicate}
use esphome_hacan.Runtime.Directory.{elapsed}
use esphome_hacan.Runtime.Duplicates.{
  same_command, is_recent, new_record, record_command, duplicate_window_ms,
}
use esphome_hacan.Runtime.Handle.{run_command}
use esphome_hacan.Runtime.Handle.AtMostOnce.{
  done_record, recorded, same_command-new_record, narrower_none, run_command-repeats,
  run_command-duplicates,
}

-- What a retry at the time looks for.
abbrev pub retry_finds : ProtocolFrame → ℕ → Duplicate → Bool
retry_finds frame later r = same_command frame r && is_recent later r

-- The commands have different sources, endpoints, transactions or kinds.
abbrev pub Differs : ProtocolFrame → ProtocolFrame → Type 0
Differs frame other = same_command frame (new_record other 0) ≡ false

abbrev pub AllDifferent : ProtocolFrame → List (ProtocolFrame × ℕ) → Type 0
AllDifferent frame [] = Unit
AllDifferent frame ((other, at) ∷ others) = Differs frame other × AllDifferent frame others

apart :
    (frame other : ProtocolFrame) (later : ℕ) (r : Duplicate)
    → Differs frame other
    → same_command other r ≡ true
    → retry_finds frame later r ≡ false
apart frame other later r d h = ground arith

record_command-fill_slot :
    (r : Duplicate) (slots filled : List (Option Duplicate))
    → fill_slot r slots ≡ some filled
    → record_command r slots ≡ filled
unfolding record_command
record_command-fill_slot r slots filled e = ground arith

-- The table keeps the record of a command when another one is noted in a table with room.
record_command_other :
    (frame other : ProtocolFrame) (at later : ℕ) (r : Duplicate) (slots : List (Option Duplicate))
    → Differs frame other
    → 0 < room slots
    → find_slot (retry_finds frame later) slots ≡ some r
    → (find_slot (retry_finds frame later) (record_command (new_record other at) slots) ≡ some r)
      × (suc (room (record_command (new_record other at) slots)) ≡ room slots)
record_command_other frame other at later r slots d h f =
    let (filled, e, less) = room-fill_slot (new_record other at) slots h in
    rw (record_command-fill_slot (new_record other at) slots filled e) (
      find_slot-fill_slot_other (retry_finds frame later) (new_record other at) r slots filled f e
          (apart frame other later (new_record other at) d (same_command-new_record other at)),
      less,
    )

module _ {W : Type 0} (env : Env W) where
  pub run_command_other :
      (frame other : ProtocolFrame) (at later : ℕ) (r : Duplicate) (s : Sys W)
      → Differs frame other
      → 0 < room s.node.duplicates
      → find_slot (retry_finds frame later) s.node.duplicates ≡ some r
      → let done = (run_command env other at s).1 in
        (find_slot (retry_finds frame later) done.node.duplicates ≡ some r)
        × (room s.node.duplicates ≤ suc (room done.node.duplicates))
  run_command_other frame other at later r s d h f =
      elim (Option-cases
        (find_slot (λ x. same_command other x && is_recent at x) s.node.duplicates)) [
          | inl fresh ↦
              let (found, less) =
                record_command_other frame other at later r s.node.duplicates d h f in
              let noted = record_command (new_record other at) s.node.duplicates in
              let status = (run_command env other at s).0 in
              rw (run_command-duplicates env other at s fresh) (
                find_slot-replace_slot_other (retry_finds frame later) (same_command other)
                    (λ x. record x { status = status }) r noted (λ x. apart frame other later x d)
                    (λ x k. apart frame other later (record x { status = status }) d k) found,
                ground (
                  arith,
                  less,
                  room-replace_slot (same_command other) (λ x. record x { status = status }) noted,
                ),
              )
          | inr (old, known) ↦ rw (run_command-repeats env other at s old known) (f, omega arith)
        ]

  -- The first run leaves its record, and takes one empty slot.
  pub run_command_first :
      (frame : ProtocolFrame) (now later : ℕ) (s : Sys W)
      → find_slot (same_command frame) s.node.duplicates ≡ none
      → 0 < room s.node.duplicates
      → elapsed later now ≤ duplicate_window_ms
      → let (status, done) = run_command env frame now s in
        (find_slot (retry_finds frame later) done.node.duplicates
          ≡ some (done_record frame now status))
        × (suc (room done.node.duplicates) ≡ room s.node.duplicates)
  run_command_first frame now later s fresh h recent =
      let status = (run_command env frame now s).0 in
      let slots = s.node.duplicates in
      let (filled, e, less) = room-fill_slot (new_record frame now) slots h in
      rw (run_command-duplicates env frame now s (narrower_none frame now slots fresh)) (
        recorded frame now later status slots (λ empty. ground (arith, empty)) fresh recent,
        ground (
          arith,
          less,
          record_command-fill_slot (new_record frame now) slots filled e,
          room-replace_slot (same_command frame) (λ x. record x { status = status })
              (record_command (new_record frame now) slots),
        ),
      )
