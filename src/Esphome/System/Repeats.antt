-- ===== src/Esphome/System/Repeats.antt =====
-- A copy of an event toggles a switch again.
use esphome_hacan.Base.{
  ℕ, zero, suc, ◌/◌, ◌%◌, Bool, true, false, not, ◌≡◌, refl, sym, ap, ◌∙◌, some, none, List, [],
  ◌∷◌, arith, get_elem?, get_or, set, replicate, get_elem?-set_self,
}
use esphome_hacan.Types.{MessageKind, kind_code}
use esphome_hacan.TypedValue.{TypedValue}
use esphome_hacan.FrameCodec.{ProtocolFrame}
use esphome_hacan.Runtime.Node.{Sys}
use esphome_hacan.Runtime.Directory.{entity_for}
use esphome_hacan.Runtime.Handle.{handle, typed_value}
use esphome_hacan.Esphome.EventSource.{
  EventSourceBinding, unbound, event_request, max_event_sources,
}
use esphome_hacan.Esphome.Framework.{Framework}
use esphome_hacan.Esphome.Switch
use esphome_hacan.Esphome.Switch.{Switch, applied_or_off, apply_state}
use esphome_hacan.Esphome.Board.{
  Device, World, board_env, board_event, board_action, device_action, device_sources, binding_of,
}
use esphome_hacan.Esphome.System.Commands.{apply_state-shown}
use esphome_hacan.Esphome.System.Events.{handle-event_twice}

-- The bindings of the device at a place, as `binding_of` reads them.
abbrev bindings_at : List Device → ℕ → List EventSourceBinding
bindings_at devices i = elim (get_elem? devices i) [
  | none ↦ []
  | some d ↦ (device_sources d).bindings
]

bindings_at-set :
    (devices : List Device) (h i : ℕ) (d e : Device)
    → get_elem? devices h ≡ some d
    → device_sources e ≡ device_sources d
    → bindings_at (set devices h e) i ≡ bindings_at devices i
bindings_at-set [] h i d e found same = refl
bindings_at-set (x ∷ devices) zero zero d e found same = ground (arith, same)
bindings_at-set (x ∷ devices) zero (suc i) d e found same = refl
bindings_at-set (x ∷ devices) (suc h) zero d e found same = refl
bindings_at-set (x ∷ devices) (suc h) (suc i) d e found same =
    bindings_at-set devices h i d e found same

binding_of-bindings_at :
    (listener : ℕ) (devices : List Device)
    → binding_of listener devices
      ≡ get_or
          (bindings_at devices (listener / max_event_sources))
          (listener % max_event_sources)
          unbound
unfolding binding_of
binding_of-bindings_at listener devices = ground arith

-- A change of a device that leaves its sources alone leaves every listener's binding alone.
binding_of-set :
    (listener h : ℕ) (devices : List Device) (d e : Device)
    → get_elem? devices h ≡ some d
    → device_sources e ≡ device_sources d
    → binding_of listener (set devices h e) ≡ binding_of listener devices
binding_of-set listener h devices d e found same =
    binding_of-bindings_at listener (set devices h e)
    ∙ ap (λ l. get_or l (listener % max_event_sources) unbound)
        (bindings_at-set devices h (listener / max_event_sources) d e found same)
    ∙ sym (binding_of-bindings_at listener devices)

abbrev pub toggled : Switch → Switch
toggled s = record s { applied_state = some (not (applied_or_off s)) }

toggled_twice : (on : Bool) (s : Switch) → s.applied_state ≡ some on → toggled (toggled s) ≡ s
toggled_twice true s e = ground (arith, e)
toggled_twice false s e = ground (arith, e)

module _ {X : Type 0} (fw : Framework X) where
  pub board_event-toggle :
      (listener flags h output : ℕ) (value : TypedValue) (s : Switch) (w : World X)
      → event_request value (binding_of listener w.devices) ≡ some (h, 0)
      → get_elem? w.devices h ≡ some (Device.switch s)
      → s.output ≡ some output
      → s.has_hacan ≡ true
      → (board_event fw listener value flags w).world.devices
        ≡ set w.devices h (Device.switch (toggled s))
  unfolding board_event board_action device_action Switch.apply_event_action
  board_event-toggle listener flags h output value s w asked d o c =
      ground (arith, apply_state-shown fw h output (not (applied_or_off s)) s w.rest o c)

  -- An event for the own address asks a configured switch to toggle, and its listener is the only
  -- one. When a copy of the frame arrives, at whatever time, the switch is back in the state that it
  -- had before the event.
  pub event_toggles_back :
      (devices : List Device) (frame : ProtocolFrame) (now later entity k listener h output : ℕ)
      (on : Bool) (s : Switch) (b : Sys (World X))
      → frame.identifier.kind ≡ kind_code MessageKind.event
      → b.node.address ≡ some frame.identifier.destination
      → entity_for frame.identifier.source frame.payload.bytes.b1 b.node ≡ some entity
      → b.node.event_listeners ≡ some listener ∷ replicate k none
      → (binding_of listener devices).entity ≡ entity
      → event_request (typed_value frame.payload.bytes) (binding_of listener b.world.devices)
        ≡ some (h, 0)
      → get_elem? b.world.devices h ≡ some (Device.switch s)
      → s.output ≡ some output
      → s.has_hacan ≡ true
      → s.applied_state ≡ some on
      → let env = board_env fw devices in
        get_elem? (handle env frame later (handle env frame now b)).world.devices h
        ≡ some (Device.switch s)
  event_toggles_back devices frame now later entity k listener h output on s b kind own known only
        watched asked d o c applied =
      let value = typed_value frame.payload.bytes in
      let flags = frame.payload.bytes.b3 in
      let w = (board_event fw listener value flags b.world).world in
      let first = board_event-toggle listener flags h output value s b.world asked d o c in
      let d' : get_elem? w.devices h ≡ some (Device.switch (toggled s)) =
        ap (λ ds. get_elem? ds h) first ∙ get_elem?-set_self b.world.devices h _ d in
      let bound : binding_of listener w.devices ≡ binding_of listener b.world.devices =
        ap (binding_of listener) first
        ∙ binding_of-set listener h b.world.devices (Device.switch s) _ d refl in
      let second =
        board_event-toggle listener flags h output value (toggled s) w
          (ap (event_request value) bound ∙ asked) d' o c in
      ap (λ (v : World X). get_elem? v.devices h)
        (handle-event_twice (board_env fw devices) frame now later entity k listener b kind own
          known only watched)
      ∙ ap (λ ds. get_elem? ds h) second
      ∙ get_elem?-set_self w.devices h _ d'
      ∙ ap (λ t. some (Device.switch t)) (toggled_twice on s applied)
