-- ===== src/Runtime/Queue/Fifo.antt =====
-- The queue in its array is a first-in first-out list of at most eight frames.
use mathlib.Core.List.{append_assoc, append-nil}
use esphome_hacan.Base.{
  ℕ, zero, suc, ◌+◌, ◌-◌, ◌≤◌, ◌<◌, ◌≡◌, ◌⊎◌, inl, inr, refl, ◌∙◌, true, false, some, none, List,
  [], ◌∷◌, ◌++◌, arith, length, take, drop, set, get_or, length-set, length-take, take-set,
  drop-set, drop-suc, drop-get_or, Bool-cases, ◌==◌,
}
use esphome_hacan.FrameCodec.{RawCanFrame}
use esphome_hacan.Runtime.Queue.{FrameQueue, add, take_head, shift_down, blank_frame, capacity}

pub record IsWellFormed (q : FrameQueue) : Type 0 where
  pub eight_slots : length q.slots ≡ capacity
  pub count_fits : q.count ≤ capacity

-- The frames that wait, oldest first.
abbrev pub waiting : FrameQueue → List RawCanFrame
waiting q = take q.count q.slots

pub length-waiting : (q : FrameQueue) → IsWellFormed q → length (waiting q) ≡ q.count
length-waiting q h = omega (arith, length-take {0} q.count q.slots)

length-shift_down :
    (left p : ℕ) (slots : List RawCanFrame) → length (shift_down left p slots) ≡ length slots
unfolding shift_down
length-shift_down zero p slots = refl
length-shift_down (suc left) p slots =
    length-shift_down left (suc p) _ ∙ length-set slots p (get_or slots (suc p) blank_frame)

take-shift_down :
    (left p : ℕ) (slots : List RawCanFrame)
    → p + left < length slots
    → take (p + left) (shift_down left p slots) ≡ take p slots ++ take left (drop (suc p) slots)
unfolding shift_down
take-shift_down zero p slots h = ground (arith, append-nil (take p slots))
take-shift_down (suc left) p slots h =
    let next = get_or slots (suc p) blank_frame in
    let moved = set slots p next in
    ground (
      arith,
      take-shift_down left (suc p) moved,
      length-set slots p next,
      take-set p slots next,
      drop-set p slots next,
      drop-suc (suc p) moved,
      drop-suc (suc p) slots,
      drop-suc p moved,
      drop-get_or (suc p) slots blank_frame,
      append_assoc (take p slots) (next ∷ []) (take left (drop (suc (suc p)) slots)),
    )

pub add-IsWellFormed :
    (raw : RawCanFrame) (q : FrameQueue) → IsWellFormed q → IsWellFormed (add raw q).0
unfolding add
add-IsWellFormed raw q h = ground (arith, length-set q.slots q.count raw)

-- A frame is added at the end while there is room; a full queue refuses it and stays as it was.
pub waiting-add :
    (raw : RawCanFrame) (q : FrameQueue)
    → IsWellFormed q
    → ((q.count < capacity)
        × ((add raw q).1 ≡ true)
        × (waiting (add raw q).0 ≡ waiting q ++ raw ∷ []))
      ⊎ ((q.count ≡ capacity) × ((add raw q).1 ≡ false) × ((add raw q).0 ≡ q))
unfolding add
waiting-add raw q h = ground (arith, take-set q.count q.slots raw)

take-cons :
    (c : ℕ) (slots : List RawCanFrame)
    → c < length slots
    → take (suc c) slots ≡ get_or slots 0 blank_frame ∷ take c (drop 1 slots)
take-cons c [] h = absurd (omega arith)
take-cons c (x ∷ slots) h = refl

popped :
    (c : ℕ) (slots : List RawCanFrame)
    → c < length slots
    → take (suc c) slots ≡ get_or slots 0 blank_frame ∷ take c (shift_down c 0 slots)
popped c slots h = ground (arith, take-cons c slots, take-shift_down c 0 slots)

-- What `drain_one` takes from a queue: nothing if none waits, and otherwise the oldest frame, with
-- the others left in their order.
pub waiting-take_head :
    (q : FrameQueue)
    → IsWellFormed q
    → ((waiting q ≡ []) × (take_head q ≡ none))
      ⊎ ((frame : RawCanFrame) × (rest : FrameQueue) × (take_head q ≡ some (frame, rest))
          × (waiting q ≡ frame ∷ waiting rest)
          × IsWellFormed rest)
unfolding take_head
waiting-take_head q h = elim (Bool-cases (q.count == 0)) [
  | inl none_left ↦ inl (ground arith, ground arith)
  | inr some_left ↦
      let rest : FrameQueue = record {
        slots = shift_down (q.count - 1) 0 q.slots;
        count = q.count - 1;
      } in
      inr (
        get_or q.slots 0 blank_frame,
        rest,
        ground arith,
        ground (arith, popped (q.count - 1) q.slots),
        record {
          eight_slots = omega (arith, length-shift_down (q.count - 1) 0 q.slots);
          count_fits = omega arith;
        },
      )
]
