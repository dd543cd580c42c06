-- ===== src/Runtime/Queue.antt =====
-- One transmit queue: an array of eight raw frames and a count. The entries from the count on are
-- never read.
pub mod Fifo
use esphome_hacan.Base.{
  ℕ, zero, suc, ◌+◌, ◌-◌, Bool, true, false, Option, none, some, List, ◌==◌, if◌then◌else◌, get_or,
  set, replicate, u8,
}
use esphome_hacan.FrameCodec.{RawCanFrame}

abbrev pub capacity : ℕ
capacity = 8

pub record FrameQueue : Type 0 where
  pub slots : List RawCanFrame
  pub count : ℕ

-- `RawCanFrame` with every field zero.
abbrev pub blank_frame : RawCanFrame
blank_frame = record {
  can_id = 0;
  extended = false;
  dlc = 0;
  bytes = record { b0 = 0; b1 = 0; b2 = 0; b3 = 0; b4 = 0; b5 = 0; b6 = 0; b7 = 0 };
}

abbrev pub empty : FrameQueue
empty = record { slots = replicate capacity blank_frame; count = 0 }

-- The lambda `add` of `enqueue`.
unfoldable pub add : RawCanFrame → FrameQueue → FrameQueue × Bool
add raw q =
    if q.count == capacity
    then (q, false)
    else (record { slots = set q.slots q.count raw; count = u8 (q.count + 1) }, true)

-- `for (i = 1; i < count; ++i) queue[i - 1] = queue[i];` with `left` rounds to go, at `i = suc p`.
unfoldable pub shift_down : ℕ → ℕ → List RawCanFrame → List RawCanFrame
shift_down zero p slots = slots
shift_down (suc left) p slots =
    shift_down left (suc p) (set slots p (get_or slots (suc p) blank_frame))

-- The lambda `drain` of `drain_one`, up to the transmission: the head, and the queue without it.
unfoldable pub take_head : FrameQueue → Option (RawCanFrame × FrameQueue)
unfolding shift_down
take_head q =
    if q.count == 0
    then none
    else some (
      get_or q.slots 0 blank_frame,
      record { slots = shift_down (q.count - 1) 0 q.slots; count = q.count - 1 },
    )
