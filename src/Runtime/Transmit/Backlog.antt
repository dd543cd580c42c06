-- ===== src/Runtime/Transmit/Backlog.antt =====
-- The five queues as one list of frames, the most urgent first and the oldest first among equals.
use esphome_hacan.Base.{
  Bool, true, false, ◌≡◌, ◌⊎◌, inl, inr, refl, sym, subst, some, none, List, [], ◌∷◌, ◌++◌, arith,
}
use esphome_hacan.FrameCodec.{RawCanFrame}
use esphome_hacan.Runtime.Env.{Env}
use esphome_hacan.Runtime.Queue.{FrameQueue, take_head}
use esphome_hacan.Runtime.Queue.Fifo.{IsWellFormed, waiting, waiting-take_head}
use esphome_hacan.Runtime.Node.{Node, Sys}
use esphome_hacan.Runtime.Transmit.{
  QueueName, queue, with_queue, drain, drain_first, drain_one, by_urgency,
}

-- All frames that wait in the node.
abbrev pub backlog : Node → List RawCanFrame
backlog n =
    waiting n.control_queue
    ++ waiting n.event_queue
    ++ waiting n.state_queue
    ++ waiting n.management_queue
    ++ waiting n.diagnostic_queue

abbrev pub QueuesFit : Node → Type 0
QueuesFit n =
    IsWellFormed n.control_queue
    × IsWellFormed n.event_queue
    × IsWellFormed n.state_queue
    × IsWellFormed n.management_queue
    × IsWellFormed n.diagnostic_queue

pub queue-IsWellFormed : (name : QueueName) (n : Node) → QueuesFit n → IsWellFormed (queue name n)
queue-IsWellFormed QueueName.control n (c, e, s, m, d) = c
queue-IsWellFormed QueueName.event n (c, e, s, m, d) = e
queue-IsWellFormed QueueName.state n (c, e, s, m, d) = s
queue-IsWellFormed QueueName.management n (c, e, s, m, d) = m
queue-IsWellFormed QueueName.diagnostic n (c, e, s, m, d) = d

pub with_queue-QueuesFit :
    (name : QueueName) (q : FrameQueue) (n : Node)
    → QueuesFit n
    → IsWellFormed q
    → QueuesFit (with_queue name q n)
with_queue-QueuesFit QueueName.control q n (c, e, s, m, d) ok = (ok, e, s, m, d)
with_queue-QueuesFit QueueName.event q n (c, e, s, m, d) ok = (c, ok, s, m, d)
with_queue-QueuesFit QueueName.state q n (c, e, s, m, d) ok = (c, e, ok, m, d)
with_queue-QueuesFit QueueName.management q n (c, e, s, m, d) ok = (c, e, s, ok, d)
with_queue-QueuesFit QueueName.diagnostic q n (c, e, s, m, d) ok = (c, e, s, m, ok)

module _ {W : Type 0} (env : Env W) where
  drain-idle :
      (name : QueueName) (s : Sys W)
      → take_head (queue name s.node) ≡ none
      → drain env name s ≡ (s, false)
  unfolding drain
  drain-idle name s e = ground arith

  -- The system after a frame was taken from a queue and sent.
  abbrev sent_from : QueueName → FrameQueue → RawCanFrame → Sys W → Sys W
  sent_from name rest frame s = record {
    node = with_queue name rest s.node;
    world = (env.transmit frame s.world).0;
  }

  drain-sends :
      (name : QueueName) (s : Sys W) (frame : RawCanFrame) (rest : FrameQueue)
      → (env.transmit frame s.world).1 ≡ true
      → take_head (queue name s.node) ≡ some (frame, rest)
      → drain env name s ≡ (sent_from name rest frame s, true)
  unfolding drain
  drain-sends name s frame rest accepted e = ground arith

  drain_first-idle :
      (name : QueueName) (names : List QueueName) (s : Sys W)
      → take_head (queue name s.node) ≡ none
      → drain_first env (name ∷ names) s ≡ drain_first env names s
  unfolding drain_first
  drain_first-idle name names s e = ground (arith, drain-idle name s e)

  drain_first-sends :
      (name : QueueName) (names : List QueueName) (s : Sys W) (frame : RawCanFrame)
      (rest : FrameQueue)
      → (env.transmit frame s.world).1 ≡ true
      → take_head (queue name s.node) ≡ some (frame, rest)
      → drain_first env (name ∷ names) s ≡ (sent_from name rest frame s, true)
  unfolding drain_first
  drain_first-sends name names s frame rest accepted e =
      ground (arith, drain-sends name s frame rest accepted e)

  -- What `drain_one` does if a frame waits: the first frame of the backlog is sent, the others stay.
  pub record IsServed (s : Sys W) (r : Sys W × Bool) : Type 0 where
    pub frame : RawCanFrame
    pub taken : backlog s.node ≡ frame ∷ backlog r.0.node
    pub sent : r ≡ (record { node = r.0.node; world = (env.transmit frame s.world).0 }, true)
    pub fits : QueuesFit r.0.node

  served :
      (s : Sys W) (r : Sys W × Bool) (name : QueueName) (frame : RawCanFrame) (rest : FrameQueue)
      → QueuesFit s.node
      → IsWellFormed rest
      → r ≡ (sent_from name rest frame s, true)
      → backlog s.node ≡ frame ∷ backlog (with_queue name rest s.node)
      → IsServed s r
  served s r name frame rest fit ok e taken = record {
    frame = frame;
    taken = simp e taken;
    sent = simp e refl;
    fits = simp e (with_queue-QueuesFit name rest s.node fit ok);
  }

  drain_first-nil : (s : Sys W) → drain_first env [] s ≡ (s, false)
  unfolding drain_first
  drain_first-nil s = refl

  drain_one_lem : (s : Sys W) → drain_one env s ≡ drain_first env (by_urgency env) s
  unfolding drain_one
  drain_one_lem s = refl

  abbrev Serves : Sys W → Sys W × Bool → Type 0
  Serves s r = ((backlog s.node ≡ []) × (r ≡ (s, false))) ⊎ IsServed s r

  -- One queue of the chain, if the queues before it are empty: what comes after it, or its frame.
  drain_first-Serves :
      (name : QueueName) (names : List QueueName) (s : Sys W)
      → QueuesFit s.node
      → ((frame : RawCanFrame) → (env.transmit frame s.world).1 ≡ true)
      → ((frame : RawCanFrame) (rest : FrameQueue)
          → waiting (queue name s.node) ≡ frame ∷ waiting rest
          → backlog s.node ≡ frame ∷ backlog (with_queue name rest s.node))
      → (waiting (queue name s.node) ≡ [] → Serves s (drain_first env names s))
      → Serves s (drain_first env (name ∷ names) s)
  drain_first-Serves name names s fit accepts first later =
      elim (waiting-take_head (queue name s.node) (queue-IsWellFormed name s.node fit)) [
        | inl (w, e) ↦ simp (drain_first-idle name names s e) (later w)
        | inr (frame, rest, e, w, formed) ↦ inr (
            served s (drain_first env (name ∷ names) s) name frame rest fit formed
              (drain_first-sends name names s frame rest (accepts frame) e) (first frame rest w))
      ]

  -- With well-formed queues and a transmitter that takes the frame, the five queues act as one list:
  -- nothing is sent if it is empty, and otherwise its first frame leaves the list and is sent, so
  -- the oldest of the most urgent frames. The queues stay well formed.
  pub drain_one-backlog :
      (s : Sys W)
      → QueuesFit s.node
      → ((frame : RawCanFrame) → (env.transmit frame s.world).1 ≡ true)
      → ((backlog s.node ≡ []) × (drain_one env s ≡ (s, false))) ⊎ IsServed s (drain_one env s)
  drain_one-backlog s fit accepts =
      let step = λ (name : QueueName) (names : List QueueName).
        drain_first-Serves name names s fit accepts in
      subst (Serves s) (sym (drain_one_lem s)) (
        step QueueName.control _ (λ f r w. simp w refl)
          λ w0.
            step QueueName.event _ (λ f r w. simp (w0, w) refl)
              λ w1.
                step QueueName.state _ (λ f r w. simp (w0, w1, w) refl)
                  λ w2.
                    step QueueName.management _ (λ f r w. simp (w0, w1, w2, w) refl)
                      λ w3.
                        step QueueName.diagnostic _ (λ f r w. simp (w0, w1, w2, w3, w) refl)
                          λ w4. inl (simp (w0, w1, w2, w3, w4) refl, drain_first-nil s))
