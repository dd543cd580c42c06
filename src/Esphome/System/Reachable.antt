-- ===== src/Esphome/System/Reachable.antt =====
-- The states that a board gets into: its setup, then any sequence of what ESPHome calls.
use esphome_hacan.Base.{
  ℕ, Bool, not, ◌||◌, ◌==◌, refl, inl, inr, List, Option-cases, Result-cases, Bool-cases, get_elem?,
  length,
}
use esphome_hacan.FrameCodec.{decode}
use esphome_hacan.Runtime.Env.{Reaction}
use esphome_hacan.Runtime.Node.{start}
use esphome_hacan.Runtime.Sound.Registering.{start-IsSound}
use esphome_hacan.Runtime.Reachable.{Call, call, start-QueuesHold}
use esphome_hacan.Esphome.Framework.{Framework}
use esphome_hacan.Esphome.Board.{World, board_env}
use esphome_hacan.Esphome.Board.Storage.{board_env-LoadsInRange}
use esphome_hacan.Esphome.System.{
  Board, PublishEventAction, play, with_runtime, setup, count_malformed, count_received, raw_frame,
  on_frame, loop, absorb, device_write, write_state, setup_sensor, on_source_state,
}
use esphome_hacan.Esphome.System.Healthy.{
  IsHealthy, RunsHealthy, call-IsHealthy, register_endpoints-IsHealthy,
  register_state_listeners-IsHealthy, register_event_listeners-IsHealthy, publish_all-RunsHealthy,
  play-RunsHealthy,
}

-- One call of ESPHome on the component, a device, a sensor or an action.
pub data BoardCall : Type 0 where
  frame : ℕ → Bool → Bool → List ℕ → BoardCall
  looped : BoardCall
  written : ℕ → Bool → ℕ → BoardCall
  sensor_setup : ℕ → BoardCall
  sensor_state : ℕ → Bool → BoardCall
  played : PublishEventAction → BoardCall

module _ {X : Type 0} (fw : Framework X) where
  unfoldable pub board_call : BoardCall → Board X → Board X
  board_call (BoardCall.frame id extended remote received) b =
      on_frame fw id extended remote received b
  board_call BoardCall.looped b = loop fw b
  board_call (BoardCall.written self on state) b = write_state fw self on state b
  board_call (BoardCall.sensor_setup self) b = setup_sensor fw self b
  board_call (BoardCall.sensor_state self on) b = on_source_state fw self on b
  board_call (BoardCall.played action) b = record b { component = play action b.component }

  -- Any configured board after its setup, then calls, between which ESPHome changes.
  pub data BoardReachable : Board X → Type 0 where
    set_up : (b : Board X) → BoardReachable (setup fw b)
    did : {b : Board X} (c : BoardCall) → BoardReachable b → BoardReachable (board_call c b)
    changed :
        {b : Board X} (x : X)
        → BoardReachable b
        → BoardReachable (record b { world = record (b.world) { rest = x } })

  setup-RunsHealthy : (b : Board X) → RunsHealthy (setup fw b).component
  unfolding setup
  setup-RunsHealthy b =
      let env = board_env fw b.world.devices in
      let uid = fw.mac_address b.world.rest in
      let c = b.component in
      let first = start env uid c.role b.world in
      let healthy : IsHealthy first.node = (
        start-QueuesHold env uid c.role b.world,
        start-IsSound env uid c.role b.world (board_env-LoadsInRange fw b.world.devices),
      ) in
      (
        _,
        refl,
        register_event_listeners-IsHealthy env c.event_listeners first.world _ (
            register_state_listeners-IsHealthy env c.state_listeners first.world _
              (register_endpoints-IsHealthy env c.owned_endpoints first.world _ healthy)),
      )

  with_runtime-RunsHealthy :
      (c : Call) (b : Board X)
      → RunsHealthy b.component
      → RunsHealthy (with_runtime fw (λ env s. call env c s) b).component
  unfolding with_runtime
  with_runtime-RunsHealthy c b (n, e, h) =
      simp (e, with_runtime)
        (
          _,
          refl,
          call-IsHealthy (board_env fw b.world.devices) c (record { node = n; world = b.world }) h,
        )

  on_frame-RunsHealthy :
      (id : ℕ) (extended remote : Bool) (received : List ℕ) (b : Board X)
      → RunsHealthy b.component
      → RunsHealthy (on_frame fw id extended remote received b).component
  unfolding on_frame count_malformed count_received call
  on_frame-RunsHealthy id extended remote received b h =
      let raw = raw_frame id extended received in
      elim (Bool-cases (remote || not (length received == 8))) [
        | inl dropped ↦ simp (dropped, on_frame) h
        | inr data_frame ↦ elim (Result-cases (decode raw)) [
          | inl (f, e) ↦
              simp (data_frame, e, on_frame)
                (with_runtime-RunsHealthy (Call.receive_frame raw (fw.millis b.world.rest))
                  (count_received b) h)
          | inr (x, e) ↦ simp (data_frame, e, on_frame) h
        ]
      ]

  absorb-RunsHealthy :
      (r : Reaction (World X)) (b : Board X)
      → RunsHealthy b.component
      → RunsHealthy (absorb fw r b).component
  absorb-RunsHealthy r b h = publish_all-RunsHealthy r.publications b.component h

  board_call-RunsHealthy :
      (c : BoardCall) (b : Board X)
      → RunsHealthy b.component
      → RunsHealthy (board_call c b).component
  unfolding board_call loop call write_state setup_sensor on_source_state
  board_call-RunsHealthy (BoardCall.frame id extended remote received) b h =
      on_frame-RunsHealthy id extended remote received b h
  board_call-RunsHealthy BoardCall.looped b h =
      with_runtime-RunsHealthy (Call.tick_at (fw.millis b.world.rest)) b h
  board_call-RunsHealthy (BoardCall.written self on state) b h =
      elim (Option-cases (get_elem? b.world.devices self)) [
        | inl none_there ↦ simp (none_there, write_state) h
        | inr (d, e) ↦
            simp (e, write_state) (absorb-RunsHealthy (device_write fw self on state d b.world) b h)
      ]
  board_call-RunsHealthy (BoardCall.sensor_setup self) b h =
      elim (Option-cases (get_elem? b.sensors self)) [
        | inl none_there ↦ simp (none_there, setup_sensor) h
        | inr (sensor, e) ↦ simp (e, setup_sensor) h
      ]
  board_call-RunsHealthy (BoardCall.sensor_state self on) b h =
      elim (Option-cases (get_elem? b.sensors self)) [
        | inl none_there ↦ simp (none_there, on_source_state) h
        | inr (sensor, e) ↦ simp (e, on_source_state) (publish_all-RunsHealthy _ b.component h)
      ]
  board_call-RunsHealthy (BoardCall.played action) b h = play-RunsHealthy action b.component h

  -- After the setup of a board, whatever its configuration and its stored address are, and after any
  -- sequence of calls and changes of ESPHome, the component has a runtime whose queues are well
  -- formed and hold at most eight frames each, no two of them waiting states of one source,
  -- destination and endpoint. An address that it has is from 1 to 0x1FE, and at most two claims are
  -- sent, none without an address; the directory has one entry for each entity, and the
  -- registrations of own and of observed entities differ.
  pub BoardReachable-RunsHealthy : (b : Board X) → BoardReachable b → RunsHealthy b.component
  BoardReachable-RunsHealthy _ (set_up b) = setup-RunsHealthy b
  BoardReachable-RunsHealthy _ (did {b} c r) =
      board_call-RunsHealthy c b (BoardReachable-RunsHealthy b r)
  BoardReachable-RunsHealthy _ (changed {b} x r) = BoardReachable-RunsHealthy b r
