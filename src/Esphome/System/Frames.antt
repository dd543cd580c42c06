-- ===== src/Esphome/System/Frames.antt =====
-- Frames between boards: what one transmits, the other receives.
use mathlib.Core.Path.{fun_ext}
use esphome_hacan.Base.{
  ℕ, Bool, false, not, ◌||◌, ◌≡◌, ◌⊎◌, ◌==◌, refl, ap, ◌∙◌, inl, inr, List, length, ok, arith,
  Result-cases, Bool-cases,
}
use esphome_hacan.CanIdentifier.RoundTrip.{IsInRange}
use esphome_hacan.FrameCodec.{RawCanFrame, ProtocolFrame, decode, encode}
use esphome_hacan.FrameCodec.RoundTrip.{Carries, decode_ok_iff, decode-encode}
use esphome_hacan.Runtime.Env.{Env}
use esphome_hacan.Runtime.Node.{Sys}
use esphome_hacan.Runtime.Handle.{receive, handle}
use esphome_hacan.Esphome.Framework.{Framework}
use esphome_hacan.Esphome.Board.{World, frame_data, transmit}
use esphome_hacan.Esphome.System.{
  Board, raw_frame, with_runtime, count_malformed, count_received, on_frame,
}

receive-ok :
    {W : Type 0} (env : Env W) (raw : RawCanFrame) (f : ProtocolFrame) (now : ℕ) (s : Sys W)
    → decode raw ≡ ok f
    → receive env raw now s ≡ handle env f now s
unfolding receive
receive-ok env raw f now s e = simp (e, receive) refl

module _ {X : Type 0} (fw : Framework X) where
  on_frame-ok :
      (id : ℕ) (extended : Bool) (received : List ℕ) (b : Board X) (f : ProtocolFrame)
      → length received ≡ 8
      → decode (raw_frame id extended received) ≡ ok f
      → on_frame fw id extended false received b
        ≡ with_runtime fw (λ env s. handle env f (fw.millis b.world.rest) s) (count_received b)
  unfolding on_frame
  on_frame-ok id extended received b f eight e =
      ground (arith, e)
      ∙ ap (λ change. with_runtime fw change (count_received b))
          (fun_ext λ env.
            fun_ext
              λ s. receive-ok env (raw_frame id extended received) f (fw.millis b.world.rest) s e)

  on_frame-err :
      (id : ℕ) (extended remote : Bool) (received : List ℕ) (b : Board X)
      → ((f : ProtocolFrame)
          → remote ≡ false
          → length received ≡ 8
          → ¬ Carries (raw_frame id extended received) f)
      → on_frame fw id extended remote received b ≡ count_malformed b
  unfolding on_frame
  on_frame-err id extended remote received b none_carried =
      elim (Bool-cases (remote || not (length received == 8))) [
        | inl dropped ↦ ground arith
        | inr data_frame ↦ elim (Result-cases (decode (raw_frame id extended received))) [
          | inl (f, e) ↦ absurd (
              none_carried f (ground arith) (ground arith)
                ((decode_ok_iff (raw_frame id extended received) f).0 e))
          | inr (x, e) ↦ ground arith
        ]
      ]

-- A frame from the bus is handled by the runtime exactly if it is a data frame of eight bytes that
-- carries a protocol frame of a kind with an enumerator, and then counted as received. Any other
-- frame changes nothing but the count of malformed frames.
pub on_frame_decided :
    {X : Type 0} (fw : Framework X) (id : ℕ) (extended remote : Bool) (received : List ℕ)
    (b : Board X)
    → ((f : ProtocolFrame) × (remote ≡ false)
        × (length received ≡ 8)
        × Carries (raw_frame id extended received) f
        × (on_frame fw id extended remote received b
            ≡ with_runtime fw
                (λ env s. handle env f (fw.millis b.world.rest) s)
                (count_received b)))
      ⊎ (((f : ProtocolFrame)
            → remote ≡ false
            → length received ≡ 8
            → ¬ Carries (raw_frame id extended received) f)
          × (on_frame fw id extended remote received b ≡ count_malformed b))
on_frame_decided fw id extended remote received b =
    elim (Bool-cases (remote || not (length received == 8))) [
      | inl dropped ↦
          let nothing : (f : ProtocolFrame)
              → remote ≡ false
              → length received ≡ 8
              → ¬ Carries (raw_frame id extended received) f =
            λ f r l c. ground arith in
          inr (nothing, on_frame-err fw id extended remote received b nothing)
      | inr data_frame ↦ elim (Result-cases (decode (raw_frame id extended received))) [
        | inl (f, e) ↦ inl (
          f,
          ground arith,
          ground arith,
          (decode_ok_iff (raw_frame id extended received) f).0 e,
          ap (λ r. on_frame fw id extended r received b) {x = remote} {y = false} (ground arith)
              ∙ on_frame-ok fw id extended received b f (ground arith) e,
        )
        | inr (x, e) ↦
            let nothing : (f : ProtocolFrame)
                → remote ≡ false
                → length received ≡ 8
                → ¬ Carries (raw_frame id extended received) f =
              λ f r l c. ground (arith, (decode_ok_iff (raw_frame id extended received) f).1 c) in
            inr (nothing, on_frame-err fw id extended remote received b nothing)
      ]
    ]

-- What a board sends on its CAN bus for an encoded frame, in range, is an identifier and eight bytes
-- with which the callback of another board makes that board's runtime handle the frame.
pub on_frame-transmit :
    {X Y : Type 0} (from : Framework X) (to : Framework Y) (f : ProtocolFrame) {raw : RawCanFrame}
    (w : World X) (b : Board Y)
    → IsInRange f.identifier
    → encode f ≡ ok raw
    → let sent = frame_data raw.bytes in
      let result = from.send_data raw.can_id raw.extended sent w.rest in
      ((transmit from raw w).1 ≡ result.1)
      × ((transmit from raw w).0.rest ≡ result.0)
      × (on_frame to raw.can_id raw.extended false sent b
          ≡ with_runtime to (λ env s. handle env f (to.millis b.world.rest) s) (count_received b))
unfolding transmit
on_frame-transmit from to f {raw} w b range e =
    let c = (decode_ok_iff raw f).0 (decode-encode f range e) in
    let arrived : Carries (raw_frame raw.can_id raw.extended (frame_data raw.bytes)) f = record {
      extended = c.extended;
      eight = refl;
      identifier = c.identifier;
      bytes = c.bytes;
      valid = c.valid;
    } in
    (
      refl,
      refl,
      on_frame-ok to raw.can_id raw.extended (frame_data raw.bytes) b f refl
          ((decode_ok_iff _ f).1 arrived),
    )
