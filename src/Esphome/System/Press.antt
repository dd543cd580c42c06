-- ===== src/Esphome/System/Press.antt =====
-- A button on one board and a switch on another: the action `hacan.publish_event` to the output.
use esphome_hacan.Base.{
  ℕ, ◌≡◌, ◌<◌, refl, ap, ◌∙◌, true, some, none, List, [], ◌∷◌, ◌++◌, arith, replicate, get_elem?,
  get_elem?-set_self,
}
use esphome_hacan.Types.{DataType}
use esphome_hacan.FrameCodec.{RawCanFrame}
use esphome_hacan.TypedValue.{is_valid}
use esphome_hacan.Payload.Value.{valid_endpoint}
use esphome_hacan.Runtime.Node.{Node, Sys}
use esphome_hacan.Runtime.Queue.{capacity}
use esphome_hacan.Runtime.Queue.Fifo.{IsWellFormed, waiting}
use esphome_hacan.Runtime.Directory.{entity_for}
use esphome_hacan.Runtime.Registry.{owns_endpoint}
use esphome_hacan.Runtime.Publish.{publish_event}
use esphome_hacan.Runtime.Handle.{receive}
use esphome_hacan.Esphome.EventSource.{event_request}
use esphome_hacan.Esphome.Framework.{Framework, byte_value}
use esphome_hacan.Esphome.Switch.{Switch}
use esphome_hacan.Esphome.Board.{Device, World, board_env, binding_of}
use esphome_hacan.Esphome.Component.{HacanComponent}
use esphome_hacan.Esphome.System.{PublishEventAction, publish_button_event, play}
use esphome_hacan.Esphome.System.Broadcast.{publish_event-heard}
use esphome_hacan.Esphome.System.Repeats.{toggled, board_event-toggle}

-- The board of the button: a runtime at address `a` that owns the action's endpoint and has room
-- for an event.
pub record CanPress (action : PublishEventAction) (a : ℕ) (n : Node) : Type 0 where
  pub own : n.address ≡ some a
  pub low : 0 < a
  pub high : a < 0x1ff
  pub fits : action.endpoint < 256
  pub owns : owns_endpoint action.endpoint n ≡ true
  pub valid : valid_endpoint action.endpoint ≡ true
  pub formed : IsWellFormed n.event_queue
  pub room : n.event_queue.count < capacity

-- The board of the switch: its only listener observes the button's entity, and its binding asks the
-- configured switch at place `h` to toggle on the action's event.
pub record CanToggle {X : Type 0} (action : PublishEventAction) (a entity listener k h output : ℕ)
    (devices : List Device) (switch : Switch) (b : Sys (World X)) : Type 0 where
  pub known : entity_for a action.endpoint b.node ≡ some entity
  pub only : b.node.event_listeners ≡ some listener ∷ replicate k none
  pub watched : (binding_of listener devices).entity ≡ entity
  pub asked :
      event_request (byte_value DataType.enum8 action.event) (binding_of listener b.world.devices)
      ≡ some (h, 0)
  pub there : get_elem? b.world.devices h ≡ some (Device.switch switch)
  pub wired : switch.output ≡ some output
  pub connected : switch.has_hacan ≡ true

play-publishes :
    (action : PublishEventAction) (c : HacanComponent) (n : Node)
    → action.has_hacan ≡ true
    → c.runtime ≡ some n
    → (play action c).runtime
      ≡ some (publish_event action.endpoint (byte_value DataType.enum8 action.event) 0 n).0
unfolding play publish_button_event
play-publishes action c n h r = ground (arith, h, r)

byte_value-valid : (event : ℕ) → is_valid (byte_value DataType.enum8 event) ≡ true
unfolding is_valid
byte_value-valid event = refl

-- The action of a board that can press puts one raw frame at the end of the event queue of the
-- component's runtime. A board with a switch that can toggle and that receives this frame has the
-- switch toggled.
pub play_toggles :
    {X : Type 0} (fw : Framework X) (action : PublishEventAction) (c : HacanComponent) (n : Node)
    (a now entity listener k h output : ℕ) (devices : List Device) (switch : Switch)
    (b : Sys (World X))
    → action.has_hacan ≡ true
    → c.runtime ≡ some n
    → CanPress action a n
    → CanToggle action a entity listener k h output devices switch b
    → (raw : RawCanFrame) × (n' : Node) × ((play action c).runtime ≡ some n')
      × (waiting n'.event_queue ≡ waiting n.event_queue ++ raw ∷ [])
      × (get_elem? (receive (board_env fw devices) raw now b).world.devices h
          ≡ some (Device.switch (toggled switch)))
play_toggles {X = X} fw action c n a now entity listener k h output devices switch b set_up runs p
      t =
    let value = byte_value DataType.enum8 action.event in
    let (raw, published, queued, heard) =
      publish_event-heard (board_env fw devices) a action.endpoint value n now entity k listener b
        p.own p.low p.high p.fits p.owns p.valid (byte_value-valid action.event) p.formed p.room
        t.known t.only t.watched in
    (
      raw,
      _,
      play-publishes action c n set_up runs,
      queued,
      ap (λ (w : World X). get_elem? w.devices h) heard
          ∙ ap (λ ds. get_elem? ds h)
              (board_event-toggle fw listener 0 h output value switch b.world t.asked t.there
                t.wired t.connected)
          ∙ get_elem?-set_self b.world.devices h (Device.switch (toggled switch)) t.there,
    )
