-- ===== src/Runtime/Transmit/Pending.antt =====
-- Where a state goes in its queue.
use esphome_hacan.Base.{
  ℕ, zero, suc, ◌+◌, ◌<◌, ◌≡◌, ◌⊎◌, refl, ap, ◌∙◌, inl, inr, true, some, List, [], ◌∷◌, ◌++◌, arith,
  get_or, set, take, length, Bool-cases, Option-cases,
}
use esphome_hacan.Types.{MessageKind, kind_code}
use esphome_hacan.FrameCodec.{RawCanFrame, ProtocolFrame}
use esphome_hacan.Runtime.Node.{Node}
use esphome_hacan.Runtime.Queue.{blank_frame}
use esphome_hacan.Runtime.Queue.Fifo.{IsWellFormed, waiting, length-waiting, waiting-add}
use esphome_hacan.Runtime.Transmit.{same_state_source, coalesce_from, enqueue_state, add_to}

take-set_before :
    {A : Type 0} (c i : ℕ) (xs : List A) (v : A) → i < c → take c (set xs i v) ≡ set (take c xs) i v
take-set_before zero i xs v h = absurd (omega arith)
take-set_before (suc c) i [] v h = refl
take-set_before (suc c) zero (x ∷ xs) v h = refl
take-set_before (suc c) (suc i) (x ∷ xs) v h = ap (◌∷◌ x) (take-set_before c i xs v (omega arith))

get_or-take :
    {A : Type 0} (c i : ℕ) (xs : List A) (d : A) → i < c → get_or (take c xs) i d ≡ get_or xs i d
get_or-take zero i xs d h = absurd (omega arith)
get_or-take (suc c) i [] d h = refl
get_or-take (suc c) zero (x ∷ xs) d h = refl
get_or-take (suc c) (suc i) (x ∷ xs) d h = get_or-take c i xs d (omega arith)

-- A pending state that the loop finds is replaced where it is.
coalesce_from-replaces :
    (left index : ℕ) (frame : ProtocolFrame) (raw : RawCanFrame) (slots replaced : List RawCanFrame)
    → coalesce_from left index frame raw slots ≡ some replaced
    → (i : ℕ) × (i < index + left)
      × (same_state_source frame (get_or slots i blank_frame) ≡ true)
      × (replaced ≡ set slots i raw)
unfolding coalesce_from
coalesce_from-replaces zero index frame raw slots replaced e = cc
coalesce_from-replaces (suc left) index frame raw slots replaced e =
    elim (Bool-cases (same_state_source frame (get_or slots index blank_frame))) [
      | inl here ↦ (index, omega arith, here, ground (arith, here, e))
      | inr there ↦
          let (i, lt, same, put) =
            coalesce_from-replaces left (suc index) frame raw slots replaced
              (ground (arith, there, e)) in
          (i, omega arith, same, put)
    ]

-- The frame takes the place of a waiting state of its source, destination and endpoint, or the last
-- place.
abbrev pub Joins : ProtocolFrame → RawCanFrame → List RawCanFrame → List RawCanFrame → Type 0
Joins frame raw before after =
    ((i : ℕ) × (i < length before)
      × (same_state_source frame (get_or before i blank_frame) ≡ true)
      × (after ≡ set before i raw))
    ⊎ (after ≡ before ++ raw ∷ [])

pub enqueue_state-Joins :
    (frame : ProtocolFrame) (raw : RawCanFrame) (n : Node)
    → IsWellFormed n.state_queue
    → frame.identifier.kind ≡ kind_code MessageKind.state
    → (enqueue_state frame raw n).1 ≡ true
    → Joins frame raw (waiting n.state_queue) (waiting (enqueue_state frame raw n).0.state_queue)
unfolding enqueue_state add_to
enqueue_state-Joins frame raw n formed kind accepted =
    let q = n.state_queue in
    elim (Option-cases (coalesce_from q.count 0 frame raw q.slots)) [
      | inl absent ↦ elim (waiting-add raw q formed) [
        | inl (room, took, joined) ↦ simp (kind, absent) (inr joined)
        | inr (full, refused, kept) ↦ absurd (ground (arith, kind, absent, refused, accepted))
      ]
      | inr (slots, found) ↦
          let (i, lt, same, put) = coalesce_from-replaces q.count 0 frame raw q.slots slots found in
          let bound : i < q.count = omega (arith, lt) in
          let within : i < length (waiting q) = omega (arith, length-waiting q formed) in
          let about : same_state_source frame (get_or (waiting q) i blank_frame) ≡ true =
            ap (same_state_source frame) (get_or-take q.count i q.slots blank_frame bound) ∙ same in
          simp (kind, found)
            (inl (
              i,
              within,
              about,
              ap (take q.count) put ∙ take-set_before q.count i q.slots raw bound,
            ))
    ]
