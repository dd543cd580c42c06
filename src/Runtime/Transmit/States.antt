-- ===== src/Runtime/Transmit/States.antt =====
-- The states that wait: `enqueue` keeps one for each source, destination and endpoint.
use esphome_hacan.Base.{
  ℕ, zero, suc, ◌+◌, ◌≤◌, Bool, true, false, ◌&&◌, ◌≡◌, ◌==◌, refl, ap, sym, subst, ◌∙◌, inl, inr,
  Option, none, some, List, [], ◌∷◌, ◌++◌, arith, ok, err, length, take, drop, get_or, set,
  find_slot, drop-get_or, Distinct, Option-cases, Result-cases, Bool-cases, if◌then◌else◌,
}
use esphome_hacan.Types.{MessageKind, kind_code}
use esphome_hacan.FrameCodec.{RawCanFrame, ProtocolFrame, decode}
use esphome_hacan.Runtime.Queue.{FrameQueue, blank_frame}
use esphome_hacan.Runtime.Queue.Fifo.{waiting}
use esphome_hacan.Runtime.Node.{Node}
use esphome_hacan.Runtime.Transmit.Backlog.{QueuesFit}
use esphome_hacan.Runtime.Transmit.{same_state_source, coalesce_from}

-- What a state is about.
pub record StateKey : Type 0 where
  pub source : ℕ
  pub destination : ℕ
  pub endpoint : ℕ

abbrev pub same_key : StateKey → StateKey → Bool
same_key j k = j.source == k.source && j.destination == k.destination && j.endpoint == k.endpoint

abbrev pub key_of : ProtocolFrame → StateKey
key_of f = record {
  source = f.identifier.source;
  destination = f.identifier.destination;
  endpoint = f.payload.bytes.b1;
}

-- What a raw frame is about, if it carries a state.
abbrev pub frame_key : ProtocolFrame → Option StateKey
frame_key f = if f.identifier.kind == kind_code MessageKind.state then some (key_of f) else none

abbrev pub state_key : RawCanFrame → Option StateKey
state_key raw = elim (decode raw) [ err e ↦ none | ok f ↦ frame_key f ]

abbrev pub keys : List RawCanFrame → List (Option StateKey)
keys [] = []
keys (raw ∷ rest) = state_key raw ∷ keys rest

-- No two waiting frames are states of one source, destination and endpoint.
abbrev pub StatesDiffer : FrameQueue → Type 0
StatesDiffer q = Distinct same_key (keys (waiting q))

pub same_key-symmetric : (j k : StateKey) → same_key j k ≡ same_key k j
same_key-symmetric j k = ground arith

abbrev is_key : StateKey → Option StateKey → Bool
is_key k none = false
is_key k (some j) = same_key k j

same_key_eq : (j k : StateKey) → same_key k j ≡ true → j ≡ k
same_key_eq j k e = ground arith

is_key-some : (k : StateKey) (j : Option StateKey) → is_key k j ≡ true → j ≡ some k
is_key-some k none e = cc
is_key-some k (some j) e = ap (λ i. some i) (same_key_eq j k e)

same_state_source-key :
    (frame : ProtocolFrame) (pending : RawCanFrame)
    → same_state_source frame pending ≡ is_key (key_of frame) (state_key pending)
unfolding same_state_source
same_state_source-key frame pending = elim (Result-cases (decode pending)) [
  | inl (p, e) ↦ ground (arith, e)
  | inr (x, e) ↦ ground (arith, e)
]

keys-set :
    (slots : List RawCanFrame) (i : ℕ) (raw : RawCanFrame)
    → state_key raw ≡ state_key (get_or slots i blank_frame)
    → keys (set slots i raw) ≡ keys slots
keys-set [] i raw e = refl
keys-set (x ∷ slots) zero raw e = ap (λ k. k ∷ keys slots) e
keys-set (x ∷ slots) (suc i) raw e = ap (λ l. state_key x ∷ l) (keys-set slots i raw e)

pub keys-take : (n : ℕ) (slots : List RawCanFrame) → keys (take n slots) ≡ take n (keys slots)
keys-take zero slots = refl
keys-take (suc n) [] = refl
keys-take (suc n) (x ∷ slots) = ap (λ l. state_key x ∷ l) (keys-take n slots)

pub keys-append :
    (xs : List RawCanFrame) (raw : RawCanFrame)
    → keys (xs ++ raw ∷ []) ≡ keys xs ++ state_key raw ∷ []
keys-append [] raw = refl
keys-append (x ∷ xs) raw = ap (λ l. state_key x ∷ l) (keys-append xs raw)

-- A replaced frame is about the same as the new one.
pub keys-coalesce_from :
    (left index : ℕ) (frame : ProtocolFrame) (raw : RawCanFrame) (slots slots' : List RawCanFrame)
    → state_key raw ≡ some (key_of frame)
    → coalesce_from left index frame raw slots ≡ some slots'
    → keys slots' ≡ keys slots
unfolding coalesce_from
keys-coalesce_from zero index frame raw slots slots' k e = ground arith
keys-coalesce_from (suc left) index frame raw slots slots' k e =
    let pending = get_or slots index blank_frame in
    elim (Bool-cases (same_state_source frame pending)) [
      | inl same ↦
          let about : state_key pending ≡ some (key_of frame) =
            is_key-some (key_of frame) (state_key pending)
              (sym (same_state_source-key frame pending) ∙ same) in
          let put : set slots index raw ≡ slots' = ground (arith, same, e) in
          subst (λ l. keys l ≡ keys slots) put (keys-set slots index raw (k ∙ sym about))
      | inr other ↦
          keys-coalesce_from left (suc index) frame raw slots slots' k (ground (arith, other, e))
    ]

-- If nothing is replaced, the new state is about something else than every frame looked at.
pub coalesce_from-none :
    (left index : ℕ) (frame : ProtocolFrame) (raw : RawCanFrame) (slots : List RawCanFrame)
    → index + left ≤ length slots
    → coalesce_from left index frame raw slots ≡ none
    → find_slot (same_key (key_of frame)) (keys (take left (drop index slots))) ≡ none
unfolding coalesce_from find_slot
coalesce_from-none zero index frame raw slots h e = refl
coalesce_from-none (suc left) index frame raw slots h e =
    let pending = get_or slots index blank_frame in
    let passed : (same_state_source frame pending ≡ false)
        × (coalesce_from left (suc index) frame raw slots ≡ none) =
      ground arith in
    let rest = coalesce_from-none left (suc index) frame raw slots (omega arith) passed.1 in
    let apart = sym (same_state_source-key frame pending) ∙ passed.0 in
    simp (drop-get_or index slots blank_frame (omega arith))
      (elim (Option-cases (state_key pending)) [
        | inl other ↦ simp other rest
        | inr (j, about) ↦ ground (arith, about, apart, rest)
      ])

-- What the runtime keeps of its queues.
abbrev pub QueuesHold : Node → Type 0
QueuesHold n = QueuesFit n × StatesDiffer n.state_queue
