-- ===== src/Runtime/Publish.antt =====
-- `publish_state` and `publish_event`, which also handlers and listeners call.
use esphome_hacan.Base.{ℕ, Bool, false, not, ◌||◌, none, some, List, [], ◌∷◌, ◌==◌, if◌then◌else◌}
use esphome_hacan.Types.{Priority, MessageKind, kind_code}
use esphome_hacan.TypedValue.{TypedValue}
use esphome_hacan.CanIdentifier.{create}
use esphome_hacan.Payload.State
use esphome_hacan.Payload.Event
use esphome_hacan.Runtime.Env.{Publication}
use esphome_hacan.Runtime.Node.{Node}
use esphome_hacan.Runtime.Registry.{owns_endpoint}
use esphome_hacan.Runtime.Transmit.{enqueue}
use esphome_hacan.Runtime.Send.{next_sequence}

unfoldable pub publish_state : ℕ → TypedValue → ℕ → Node → Node × Bool
publish_state endpoint value quality n = elim n.address [
  | none ↦ (n, false)
  | some address ↦
      if not (owns_endpoint endpoint n)
      then (n, false)
      else let n' = next_sequence n in
        elim (State.create n.sequence endpoint value quality) [
          | none ↦ (n', false)
          | some p ↦
              elim (create Priority.state_query (kind_code MessageKind.state) 0x1ff address 0) [
                | none ↦ (n', false)
                | some id ↦
                    enqueue
                      (record {
                        identifier = id;
                        payload = record { kind = MessageKind.state; bytes = State.encode p };
                      })
                      n'
              ]
        ]
]

unfoldable pub publish_event : ℕ → TypedValue → ℕ → Node → Node × Bool
publish_event endpoint value flags n = elim n.address [
  | none ↦ (n, false)
  | some address ↦
      if not (owns_endpoint endpoint n) || not (flags == 0)
      then (n, false)
      else let n' = next_sequence n in
        elim (Event.create n.sequence endpoint value flags) [
          | none ↦ (n', false)
          | some p ↦ elim (create Priority.event (kind_code MessageKind.event) 0x1ff address 0) [
            | none ↦ (n', false)
            | some id ↦
                enqueue
                  (record {
                    identifier = id;
                    payload = record { kind = MessageKind.event; bytes = Event.encode p };
                  })
                  n'
          ]
        ]
]

-- The publications of a handler or listener, in order, their results ignored.
unfoldable pub publish : List Publication → Node → Node
publish [] n = n
publish (Publication.state endpoint value quality ∷ rest) n =
    publish rest (publish_state endpoint value quality n).0
publish (Publication.event endpoint value flags ∷ rest) n =
    publish rest (publish_event endpoint value flags n).0
