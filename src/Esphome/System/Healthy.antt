-- ===== src/Esphome/System/Healthy.antt =====
-- What every call of the runtime keeps, through the loops of the setup and what devices publish.
use esphome_hacan.Base.{ℕ, ◌≡◌, refl, inl, inr, Option, some, none, List, [], ◌∷◌, Bool-cases}
use esphome_hacan.Runtime.Env.{Env, Publication}
use esphome_hacan.Runtime.Node.{Node, Sys}
use esphome_hacan.Runtime.Publish.{publish}
use esphome_hacan.Runtime.Transmit.States.{QueuesHold}
use esphome_hacan.Runtime.Fits.{publish-QueuesHold, publish_event-QueuesHold}
use esphome_hacan.Runtime.Settled.{settled-publish, settled-publish_event}
use esphome_hacan.Runtime.Sound.{IsSound, IsSound-of_settled}
use esphome_hacan.Runtime.Sound.Registering.{call-IsSound}
use esphome_hacan.Runtime.Reachable.{Call, call, call-QueuesHold}
use esphome_hacan.Types.{DataType}
use esphome_hacan.Esphome.Framework.{byte_value}
use esphome_hacan.Esphome.Component.{HacanComponent, OwnedEndpoint}
use esphome_hacan.Esphome.System.{
  PublishEventAction, publish_all, publish_button_event, play, register_handler, register_endpoints,
  register_state_listeners, register_event_listeners,
}

abbrev pub IsHealthy : Node → Type 0
IsHealthy n = QueuesHold n × IsSound n

module _ {W : Type 0} (env : Env W) where
  pub call-IsHealthy : (c : Call) (s : Sys W) → IsHealthy s.node → IsHealthy (call env c s).node
  call-IsHealthy c s h = (call-QueuesHold env c s h.0, call-IsSound env c s h.1)

  register_handler-IsHealthy :
      (handler : Option ℕ) (w : W) (n : Node)
      → IsHealthy n
      → IsHealthy (register_handler env handler n)
  unfolding register_handler call
  register_handler-IsHealthy none w n h = h
  register_handler-IsHealthy (some handler) w n h =
      call-IsHealthy (Call.add_endpoint handler) (record { node = n; world = w }) h

  pub register_endpoints-IsHealthy :
      (slots : List (Option OwnedEndpoint)) (w : W) (n : Node)
      → IsHealthy n
      → IsHealthy (register_endpoints env slots n)
  unfolding register_endpoints call
  register_endpoints-IsHealthy [] w n h = h
  register_endpoints-IsHealthy (none ∷ slots) w n h = register_endpoints-IsHealthy slots w n h
  register_endpoints-IsHealthy (some o ∷ slots) w n h = register_endpoints-IsHealthy slots w _ (
      register_handler-IsHealthy o.handler w _
        (call-IsHealthy (Call.own_entity o.entity o.endpoint) (record { node = n; world = w }) h))

  pub register_state_listeners-IsHealthy :
      (slots : List (Option ℕ)) (w : W) (n : Node)
      → IsHealthy n
      → IsHealthy (register_state_listeners env slots n)
  unfolding register_state_listeners call
  register_state_listeners-IsHealthy [] w n h = h
  register_state_listeners-IsHealthy (none ∷ slots) w n h =
      register_state_listeners-IsHealthy slots w n h
  register_state_listeners-IsHealthy (some listener ∷ slots) w n h =
      register_state_listeners-IsHealthy slots w _
        (call-IsHealthy (Call.add_state_listener listener) (record { node = n; world = w }) h)

  pub register_event_listeners-IsHealthy :
      (slots : List (Option ℕ)) (w : W) (n : Node)
      → IsHealthy n
      → IsHealthy (register_event_listeners env slots n)
  unfolding register_event_listeners call
  register_event_listeners-IsHealthy [] w n h = h
  register_event_listeners-IsHealthy (none ∷ slots) w n h =
      register_event_listeners-IsHealthy slots w n h
  register_event_listeners-IsHealthy (some listener ∷ slots) w n h =
      register_event_listeners-IsHealthy slots w _
        (call-IsHealthy (Call.add_event_listener listener) (record { node = n; world = w }) h)

publish-IsHealthy :
    (publications : List Publication) (n : Node) → IsHealthy n → IsHealthy (publish publications n)
publish-IsHealthy publications n h = (
  publish-QueuesHold publications n h.0,
  IsSound-of_settled _ n (settled-publish publications n) h.1,
)

-- The component has a runtime, whose state is well formed.
abbrev pub RunsHealthy : HacanComponent → Type 0
RunsHealthy c = (n : Node) × (c.runtime ≡ some n) × IsHealthy n

pub publish_all-RunsHealthy :
    (publications : List Publication) (c : HacanComponent)
    → RunsHealthy c
    → RunsHealthy (publish_all publications c)
unfolding publish_all
publish_all-RunsHealthy publications c (n, e, h) =
    simp (e, publish_all) (publish publications n, refl, publish-IsHealthy publications n h)

publish_button_event-RunsHealthy :
    (endpoint event : ℕ) (c : HacanComponent)
    → RunsHealthy c
    → RunsHealthy (publish_button_event endpoint event c).0
unfolding publish_button_event
publish_button_event-RunsHealthy endpoint event c (n, e, h) =
    let value = byte_value DataType.enum8 event in
    simp (e, publish_button_event)
      (
        _,
        refl,
        (
          publish_event-QueuesHold endpoint value 0 n h.0,
          IsSound-of_settled _ n (settled-publish_event endpoint value 0 n) h.1,
        ),
      )

pub play-RunsHealthy :
    (a : PublishEventAction) (c : HacanComponent) → RunsHealthy c → RunsHealthy (play a c)
unfolding play
play-RunsHealthy a c h = elim (Bool-cases a.has_hacan) [
  | inl set_up ↦ simp (set_up, play) (publish_button_event-RunsHealthy a.endpoint a.event c h)
  | inr null ↦ simp (null, play) h
]
