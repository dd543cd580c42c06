-- ===== src/Runtime/Allocated/Handling.antt =====
-- A received frame leaves the allocated addresses allocated.
use esphome_hacan.Base.{ℕ, ◌&&◌, inl, inr, arith, Option-cases, Result-cases, find_slot}
use esphome_hacan.FrameCodec.{RawCanFrame, ProtocolFrame, decode}
use esphome_hacan.Runtime.Env.{Env}
use esphome_hacan.Runtime.Node.{Sys}
use esphome_hacan.Runtime.Settled.{settled-acknowledge}
use esphome_hacan.Runtime.Directory.{withdraw_address}
use esphome_hacan.Runtime.Duplicates.{set_duplicate_status, same_command, is_recent}
use esphome_hacan.Runtime.Handle.{take_address, run_command, handle_command, handle, receive}
use esphome_hacan.Runtime.Handle.AtMostOnce.{
  settled-execute, run_command-executes, run_command-repeats,
}
use esphome_hacan.Runtime.Handle.Keeps.{Keeps, handle-keeps}
use esphome_hacan.Runtime.Allocated.{Taken, Taken-of_settled}

Taken-Keeps : (j : ℕ) → Keeps (Taken j)
unfolding withdraw_address take_address
Taken-Keeps j = record {
  sends = λ m n. Taken-of_settled m n;
  hears = λ n seen last_seen taken. taken;
  marks = λ n source taken. ground (arith, taken);
  learns = λ n entities taken. taken;
  withdraws = λ n taken. taken;
  takes = λ n assigned now taken. ground (arith, taken);
  defers = λ n pending taken. taken;
}

module _ {W : Type 0} (env : Env W) (j : ℕ) where
  run_command-Taken :
      (frame : ProtocolFrame) (now : ℕ) (s : Sys W)
      → Taken j s.node
      → Taken j (run_command env frame now s).1.node
  unfolding set_duplicate_status
  run_command-Taken frame now s taken =
      elim (Option-cases
        (find_slot (λ r. same_command frame r && is_recent now r) s.node.duplicates)) [
          | inl e ↦
              simp (run_command-executes env frame now s e)
                (Taken-of_settled _ _ (settled-execute env frame.payload.bytes _) taken)
          | inr (r, e) ↦ simp (run_command-repeats env frame now s r e) taken
        ]

  handle_command-Taken :
      (frame : ProtocolFrame) (now : ℕ) (s : Sys W)
      → Taken j s.node
      → Taken j (handle_command env frame now s).node
  unfolding handle_command
  handle_command-Taken frame now s taken =
      let (status, done) = run_command env frame now s in
      let still = run_command-Taken frame now s taken in
      ground (
        arith,
        still,
        Taken-of_settled _ done.node (settled-acknowledge frame status done.node) still,
      )

  handle-Taken :
      (frame : ProtocolFrame) (now : ℕ) (s : Sys W)
      → Taken j s.node
      → Taken j (handle env frame now s).node
  handle-Taken frame now s =
      handle-keeps env (Taken-Keeps j) frame now s
        λ kind taken. handle_command-Taken frame now _ taken

  pub receive-Taken :
      (raw : RawCanFrame) (now : ℕ) (s : Sys W)
      → Taken j s.node
      → Taken j (receive env raw now s).node
  unfolding receive
  receive-Taken raw now s taken = elim (Result-cases (decode raw)) [
    | inl (frame, e) ↦ simp (e, receive) (handle-Taken frame now s taken)
    | inr (x, e) ↦ simp (e, receive) taken
  ]
