-- ===== src/Runtime/Handle/Forgotten.antt =====
-- What the table of commands forgets once all of its slots are taken.
use esphome_hacan.Base.{
  ℕ, ◌≡◌, Option, some, none, List, ◌∷◌, arith, find_slot, replace_slot, room, fill_slot-full,
}
use esphome_hacan.FrameCodec.{ProtocolFrame}
use esphome_hacan.Runtime.Handle.{typed_value}
use esphome_hacan.Runtime.Env.{Env}
use esphome_hacan.Runtime.Node.{Sys, Duplicate}
use esphome_hacan.Runtime.Registry.{endpoint_handler}
use esphome_hacan.Runtime.Duplicates.{
  same_command, new_record, record_command, set_duplicate_status,
}
use esphome_hacan.Runtime.Handle.{run_command, execute, react}
use esphome_hacan.Runtime.Handle.AtMostOnce.{
  done_record, narrower_none, run_command-executes, run_command-duplicates, settled-execute,
  handlers-of_settled,
}
use esphome_hacan.Runtime.Handle.Interleaved.{Differs}

record_command-full :
    (r x : Duplicate) (slots : List (Option Duplicate))
    → room slots ≡ 0
    → record_command r (some x ∷ slots) ≡ some r ∷ slots
unfolding record_command
record_command-full r x slots full = ground (arith, fill_slot-full r (some x ∷ slots) full)

module _ {W : Type 0} (env : Env W) (frame : ProtocolFrame) (now : ℕ) (s : Sys W) where
  -- A command that a full table does not know takes the first slot, whatever is in it.
  run_command-full :
      (x : Duplicate) (slots : List (Option Duplicate))
      → s.node.duplicates ≡ some x ∷ slots
      → room slots ≡ 0
      → find_slot (same_command frame) (some x ∷ slots) ≡ none
      → let (status, done) = run_command env frame now s in
        done.node.duplicates ≡ some (done_record frame now status) ∷ slots
  unfolding replace_slot
  run_command-full x slots e full unknown = ground (
    arith,
    e,
    run_command-duplicates env frame now s
        (simp e (narrower_none frame now (some x ∷ slots) unknown)),
    record_command-full (new_record frame now) x slots full,
  )

  -- It leaves the registered handlers.
  run_command-handlers :
      find_slot (same_command frame) s.node.duplicates ≡ none
      → (run_command env frame now s).1.node.endpoint_handlers ≡ s.node.endpoint_handlers
  unfolding set_duplicate_status
  run_command-handlers unknown = ground (
    arith,
    run_command-executes env frame now s (narrower_none frame now s.node.duplicates unknown),
    handlers-of_settled _ _ (
        settled-execute env frame.payload.bytes (record s {
          node = record (s.node) {
            duplicates = record_command (new_record frame now) s.node.duplicates;
          };
        })),
  )

  -- It goes to the handler, if its endpoint has one.
  run_command-answers :
      (h : ℕ)
      → find_slot (same_command frame) s.node.duplicates ≡ none
      → endpoint_handler env frame.payload.bytes.b1 s.node ≡ some h
      → let (status, reaction) = env.command h (typed_value frame.payload.bytes) s.world in
        let (answer, done) = run_command env frame now s in
        (answer ≡ status) × (done.world ≡ reaction.world)
  unfolding execute react endpoint_handler
  run_command-answers h unknown e = ground (
    arith,
    e,
    run_command-executes env frame now s (narrower_none frame now s.node.duplicates unknown),
  )

-- All slots of the table are taken, and by other commands than these two. Then a command runs, one
-- with another key runs, and a copy of the first, at whatever time, goes to the handler again.
pub forgotten_command_runs :
    {W : Type 0} (env : Env W) (frame other : ProtocolFrame) (now at later : ℕ) (s : Sys W)
    (x : Duplicate) (slots : List (Option Duplicate)) (h : ℕ)
    → s.node.duplicates ≡ some x ∷ slots
    → room slots ≡ 0
    → find_slot (same_command frame) (some x ∷ slots) ≡ none
    → find_slot (same_command other) (some x ∷ slots) ≡ none
    → Differs frame other
    → endpoint_handler env frame.payload.bytes.b1 s.node ≡ some h
    → let before = (run_command env other at (run_command env frame now s).1).1 in
      let (status, reaction) = env.command h (typed_value frame.payload.bytes) before.world in
      let (answer, done) = run_command env frame later before in
      (answer ≡ status) × (done.world ≡ reaction.world)
unfolding endpoint_handler find_slot
forgotten_command_runs env frame other now at later s x slots h e full unknown other_unknown d f =
    let (status, first) = run_command env frame now s in
    let (other_status, second) = run_command env other at first in
    let taken = run_command-full env frame now s x slots e full unknown in
    let still_unknown : find_slot (same_command other) (some (done_record frame now status) ∷ slots)
        ≡ none =
      ground (arith, other_unknown, d) in
    let retaken =
      run_command-full env other at first (done_record frame now status) slots taken full
        still_unknown in
    run_command-answers env frame later second h (ground (arith, retaken, unknown, d)) (
      ground (
        arith,
        f,
        run_command-handlers env frame now s (simp e unknown),
        run_command-handlers env other at first (simp taken still_unknown),
      ))
