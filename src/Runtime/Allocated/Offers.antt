-- ===== src/Runtime/Allocated/Offers.antt =====
-- A primary offers no address twice.
use esphome_hacan.Base.{ℕ, ◌<◌, ◌≡◌, ◌≢◌, true, some, List, [], ◌∷◌, arith, Bytes8}
use esphome_hacan.FrameCodec.{RawCanFrame}
use esphome_hacan.Runtime.Env.{Env}
use esphome_hacan.Runtime.Node.{Node, Sys}
use esphome_hacan.Runtime.Settled.{
  settled-enqueue, settled-drain_one, settled-publish_state, settled-publish_event,
}
use esphome_hacan.Runtime.Registry.{
  register_owned_entity, add_owned, register_observed_entity, register_endpoint,
  register_state_listener, register_event_listener,
}
use esphome_hacan.Runtime.Directory.{next_free_address}
use esphome_hacan.Runtime.Send.{assign}
use esphome_hacan.Runtime.Reachable.{Call, call, run_calls}
use esphome_hacan.Runtime.Handle.Commission.{
  offered, assign_raw, assign_bytes, transmit_now-assign, assign_bytes-accepted,
}
use esphome_hacan.Runtime.Allocated.{Taken, Taken-of_settled}
use esphome_hacan.Runtime.Allocated.Handling.{receive-Taken}
use esphome_hacan.Runtime.Allocated.Ticking.{tick-Taken}

module _ (j : ℕ) where
  register_owned_entity-Taken :
      (entity endpoint : ℕ) (n : Node)
      → Taken j n
      → Taken j (register_owned_entity entity endpoint n).0
  unfolding register_owned_entity add_owned
  register_owned_entity-Taken entity endpoint n taken = ground arith

  register_observed_entity-Taken :
      (entity : ℕ) (n : Node) → Taken j n → Taken j (register_observed_entity entity n).0
  unfolding register_observed_entity
  register_observed_entity-Taken entity n taken = ground arith

-- An assignment marks the address that it offers, if its frame is sent.
assign-Taken_new :
    {W : Type 0} (env : Env W) (discovery : Bytes8) (s : Sys W) (a c : ℕ)
    → s.node.address ≡ some a
    → 0 < a
    → a < 0x1ff
    → next_free_address s.node ≡ some c
    → ((raw : RawCanFrame) (w : W) → (env.transmit raw w).1 ≡ true)
    → Taken c (assign env discovery s).node
unfolding assign
assign-Taken_new env discovery s a c own low lt free sends =
    let bytes = assign_bytes discovery c in
    let (clow, clt, unused) = offered s.node c free in
    ground (
      arith,
      own,
      free,
      transmit_now-assign env a bytes s.world low lt (assign_bytes-accepted discovery c clow clt),
      sends (assign_raw a bytes) s.world,
    )

module _ {W : Type 0} (env : Env W) (j : ℕ) where
  register_endpoint-Taken :
      (handler : ℕ) (n : Node) → Taken j n → Taken j (register_endpoint env handler n).0
  unfolding register_endpoint
  register_endpoint-Taken handler n taken = ground arith

  register_state_listener-Taken :
      (listener : ℕ) (n : Node) → Taken j n → Taken j (register_state_listener env listener n).0
  unfolding register_state_listener
  register_state_listener-Taken listener n taken =
      ground (arith, register_observed_entity-Taken j (env.state_entity listener) n taken)

  register_event_listener-Taken :
      (listener : ℕ) (n : Node) → Taken j n → Taken j (register_event_listener env listener n).0
  unfolding register_event_listener
  register_event_listener-Taken listener n taken =
      ground (arith, register_observed_entity-Taken j (env.event_entity listener) n taken)

  call-Taken : (c : Call) (s : Sys W) → Taken j s.node → Taken j (call env c s).node
  unfolding call
  call-Taken (Call.receive_frame raw now) s taken = receive-Taken env j raw now s taken
  call-Taken (Call.tick_at now) s taken = tick-Taken env j now s taken
  call-Taken (Call.state endpoint value quality) s taken =
      Taken-of_settled _ s.node (settled-publish_state endpoint value quality s.node) taken
  call-Taken (Call.event endpoint value flags) s taken =
      Taken-of_settled _ s.node (settled-publish_event endpoint value flags s.node) taken
  call-Taken (Call.own_entity entity endpoint) s taken =
      register_owned_entity-Taken j entity endpoint s.node taken
  call-Taken (Call.observe_entity entity) s taken =
      register_observed_entity-Taken j entity s.node taken
  call-Taken (Call.add_endpoint handler) s taken = register_endpoint-Taken handler s.node taken
  call-Taken (Call.add_state_listener listener) s taken =
      register_state_listener-Taken listener s.node taken
  call-Taken (Call.add_event_listener listener) s taken =
      register_event_listener-Taken listener s.node taken
  call-Taken (Call.enqueue_frame frame range) s taken =
      Taken-of_settled _ s.node (settled-enqueue frame s.node) taken
  call-Taken Call.drain_next s taken = Taken-of_settled _ s.node (settled-drain_one env s) taken

  calls-Taken :
      (calls : List Call) (s : Sys W) → Taken j s.node → Taken j (run_calls env calls s).node
  calls-Taken [] s taken = taken
  calls-Taken (c ∷ calls) s taken = calls-Taken calls (call env c s) (call-Taken c s taken)

-- A primary at an address from 1 to 0x1FE, with a transmitter that takes every frame, answers a
-- discovery response with the next free address: whatever public calls that change the runtime
-- follow, it never offers that address again.
pub assigned_once :
    {W : Type 0} (env : Env W) (discovery : Bytes8) (calls : List Call) (s : Sys W) (a c : ℕ)
    → s.node.address ≡ some a
    → 0 < a
    → a < 0x1ff
    → next_free_address s.node ≡ some c
    → ((raw : RawCanFrame) (w : W) → (env.transmit raw w).1 ≡ true)
    → next_free_address (run_calls env calls (assign env discovery s)).node ≢ some c
assigned_once env discovery calls s a c own low lt free sends again =
    let taken =
      calls-Taken env c calls (assign env discovery s)
        (assign-Taken_new env discovery s a c own low lt free sends) in
    let (clow, clt, unused) = offered (run_calls env calls (assign env discovery s)).node c again in
    absurd (ground (arith, taken, unused))
