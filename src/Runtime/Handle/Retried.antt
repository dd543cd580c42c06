-- ===== src/Runtime/Handle/Retried.antt =====
-- A retried command on a node that receives other frames in between.
use esphome_hacan.Base.{ℕ, ◌==◌, not, List, [], ◌∷◌, bit_and, if◌then◌else◌}
use esphome_hacan.Types.{Status}
use esphome_hacan.FrameCodec.{ProtocolFrame}
use esphome_hacan.Runtime.Env.{Env}
use esphome_hacan.Runtime.Node.{Node, Sys}
use esphome_hacan.Runtime.Send.{acknowledge}
use esphome_hacan.Runtime.Handle.{note_source, handle}
use esphome_hacan.Runtime.Handle.Keeps.{Keeps}

module _ {W : Type 0} (env : Env W) where
  -- The frames, each at its time, are handled one after another.
  abbrev pub handle_all : List (ProtocolFrame × ℕ) → Sys W → Sys W
  handle_all [] s = s
  handle_all ((frame, now) ∷ frames) s = handle_all frames (handle env frame now s)

  -- The system that a frame from the node at the address has been noted in.
  abbrev pub noted : ProtocolFrame → ℕ → Sys W → Sys W
  noted frame now s = record s { node = note_source frame.identifier.source now s.node }

  -- A node answers a command that asks for it with the status.
  abbrev pub answered : ProtocolFrame → Status → Sys W → Sys W
  answered frame status s =
      if not (bit_and frame.payload.bytes.b3 1 == 0)
      then record s { node = acknowledge frame status s.node }
      else s
