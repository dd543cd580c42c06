-- ===== src/Runtime/Sound/Registering.antt =====
-- The constructor, the registrations and so every reachable state are sound.
use esphome_hacan.Base.{
  ℕ, ◌≡◌, ◌==◌, refl, inl, inr, Option, some, none, List, [], ◌∷◌, arith, Option-cases, find_slot,
  fill_slot, fill_slot-Distinct,
}
use esphome_hacan.Runtime.Env.{Env}
use esphome_hacan.Runtime.Uid.{Uid}
use esphome_hacan.Runtime.Node.{
  Node, Sys, EntityLocation, CommissioningRole, start, mark_own, fresh, bootstrap,
}
use esphome_hacan.Runtime.Registry.{
  register_owned_entity, owned_return, add_owned, register_observed_entity, register_endpoint,
  register_state_listener, register_event_listener,
}
use esphome_hacan.Runtime.Settled.{
  settled-enqueue, settled-drain_one, settled-publish_state, settled-publish_event,
}
use esphome_hacan.Runtime.Transmit.States.{StatesDiffer}
use esphome_hacan.Runtime.Transmit.Backlog.{QueuesFit}
use esphome_hacan.Runtime.Reachable.{
  Reachable-QueuesFit, Reachable-StatesDiffer, Call, call, Reachable, started, called, elsewhere,
}
use esphome_hacan.Runtime.Sound.{IsSound, IsSound-of_settled, InRange, overlaps, same_number}
use esphome_hacan.Runtime.Sound.Receiving.{receive-IsSound}
use esphome_hacan.Runtime.Sound.Ticking.{tick-IsSound}

abbrev own : ℕ → ℕ → EntityLocation
own entity endpoint = record { entity = entity; node = 0; endpoint = endpoint }

-- A registration that the first loop lets pass overlaps with no other.
owned_return-overlaps :
    (entity endpoint : ℕ) (slots : List (Option EntityLocation))
    → owned_return entity endpoint slots ≡ none
    → find_slot (overlaps (own entity endpoint)) slots ≡ none
unfolding owned_return find_slot
owned_return-overlaps entity endpoint [] e = refl
owned_return-overlaps entity endpoint (none ∷ slots) e =
    owned_return-overlaps entity endpoint slots e
owned_return-overlaps entity endpoint (some o ∷ slots) e =
    ground (arith, owned_return-overlaps entity endpoint slots)

add_owned-IsSound :
    (entity endpoint : ℕ) (n : Node)
    → find_slot (overlaps (own entity endpoint)) n.owned_entities ≡ none
    → IsSound n
    → IsSound (add_owned entity endpoint n).0
unfolding add_owned
add_owned-IsSound entity endpoint n apart sound =
    elim (Option-cases (fill_slot (own entity endpoint) n.owned_entities)) [
      | inl full ↦ simp (full, add_owned) sound
      | inr (slots, filled) ↦
          let distinct =
            fill_slot-Distinct overlaps (own entity endpoint) n.owned_entities slots
              (λ x y. ground arith) apart filled sound.3 in
          simp (filled, add_owned) (sound.0, sound.1, sound.2, distinct, sound.4)
    ]

register_owned_entity-IsSound :
    (entity endpoint : ℕ) (n : Node)
    → IsSound n
    → IsSound (register_owned_entity entity endpoint n).0
unfolding register_owned_entity
register_owned_entity-IsSound entity endpoint n sound = ground (
  arith,
  owned_return-overlaps entity endpoint n.owned_entities,
  add_owned-IsSound entity endpoint n,
)

register_observed_entity-IsSound :
    (entity : ℕ) (n : Node) → IsSound n → IsSound (register_observed_entity entity n).0
unfolding register_observed_entity
register_observed_entity-IsSound entity n sound =
    elim (Option-cases (find_slot (λ e. e == entity) n.observed_entities)) [
      | inr (e, seen) ↦ ground (arith, seen)
      | inl unseen ↦ elim (Option-cases (fill_slot entity n.observed_entities)) [
        | inl full ↦ ground (arith, unseen, full)
        | inr (slots, filled) ↦
            let distinct =
              fill_slot-Distinct same_number entity n.observed_entities slots (λ x y. ground arith)
                unseen filled sound.4 in
            ground (arith, unseen, filled, distinct)
      ]
    ]

fresh-IsSound :
    (uid : Uid) (role : CommissioningRole) (address : Option ℕ)
    → InRange address
    → IsSound (mark_own (fresh uid role address))
unfolding mark_own fresh
fresh-IsSound uid role none r = (tt, refl, tt, tt, tt)
fresh-IsSound uid role (some a) r = (r, omega arith, tt, tt, tt)

module _ {W : Type 0} (env : Env W) where
  register_endpoint-IsSound :
      (handler : ℕ) (n : Node) → IsSound n → IsSound (register_endpoint env handler n).0
  unfolding register_endpoint
  register_endpoint-IsSound handler n sound = ground arith

  register_state_listener-IsSound :
      (listener : ℕ) (n : Node) → IsSound n → IsSound (register_state_listener env listener n).0
  unfolding register_state_listener
  register_state_listener-IsSound listener n sound =
      ground (arith, register_observed_entity-IsSound (env.state_entity listener) n sound)

  register_event_listener-IsSound :
      (listener : ℕ) (n : Node) → IsSound n → IsSound (register_event_listener env listener n).0
  unfolding register_event_listener
  register_event_listener-IsSound listener n sound =
      ground (arith, register_observed_entity-IsSound (env.event_entity listener) n sound)

  -- What the storage promises: an address that it loads is one of a node.
  abbrev pub LoadsInRange : Type 0
  LoadsInRange = (w : W) → InRange (env.load w).1

  bootstrap-InRange :
      (role : CommissioningRole) (address : Option ℕ) (w : W)
      → InRange address
      → InRange (bootstrap env role address w).1
  unfolding bootstrap
  bootstrap-InRange CommissioningRole.primary none w r = ground arith
  bootstrap-InRange CommissioningRole.primary (some a) w r = r
  bootstrap-InRange _ address w r = r

  pub start-IsSound :
      (uid : Uid) (role : CommissioningRole) (w : W)
      → LoadsInRange
      → IsSound (start env uid role w).node
  unfolding start fresh mark_own
  start-IsSound uid role w loads =
      fresh-IsSound uid role _ (bootstrap-InRange role (env.load w).1 (env.load w).0 (loads w))

  pub call-IsSound : (c : Call) (s : Sys W) → IsSound s.node → IsSound (call env c s).node
  unfolding call
  call-IsSound (Call.receive_frame raw now) s sound = receive-IsSound env raw now s sound
  call-IsSound (Call.tick_at now) s sound = tick-IsSound env now s sound
  call-IsSound (Call.state endpoint value quality) s sound =
      IsSound-of_settled _ s.node (settled-publish_state endpoint value quality s.node) sound
  call-IsSound (Call.event endpoint value flags) s sound =
      IsSound-of_settled _ s.node (settled-publish_event endpoint value flags s.node) sound
  call-IsSound (Call.own_entity entity endpoint) s sound =
      register_owned_entity-IsSound entity endpoint s.node sound
  call-IsSound (Call.observe_entity entity) s sound =
      register_observed_entity-IsSound entity s.node sound
  call-IsSound (Call.add_endpoint handler) s sound = register_endpoint-IsSound handler s.node sound
  call-IsSound (Call.add_state_listener listener) s sound =
      register_state_listener-IsSound listener s.node sound
  call-IsSound (Call.add_event_listener listener) s sound =
      register_event_listener-IsSound listener s.node sound
  call-IsSound (Call.enqueue_frame frame range) s sound =
      IsSound-of_settled _ s.node (settled-enqueue frame s.node) sound
  call-IsSound Call.drain_next s sound = IsSound-of_settled _ s.node (settled-drain_one env s) sound

  -- If the storage loads no address out of range, this holds in every state that the constructor and
  -- any sequence of calls lead to: an address is from 1 to 0x1FE, at most two claims are sent and
  -- none without an address, the directory has one entry for each entity, and the registrations of
  -- own and of observed entities differ.
  pub Reachable-IsSound : (s : Sys W) → LoadsInRange → Reachable env s → IsSound s.node
  Reachable-IsSound _ loads (started uid role w) = start-IsSound uid role w loads
  Reachable-IsSound _ loads (called {s} c r) = call-IsSound c s (Reachable-IsSound s loads r)
  Reachable-IsSound _ loads (elsewhere {s} w r) = Reachable-IsSound s loads r

  -- If the storage loads no address out of range, this holds in every state that the constructor and
  -- any sequence of calls lead to: each of the five queues has its eight slots and holds at most
  -- eight frames, no two waiting states are of one source, destination and endpoint, an address is
  -- from 1 to 0x1FE, at most two claims are sent and none without an address, the directory has one
  -- entry for each entity, and the registrations of own and of observed entities differ.
  pub Reachable-invariant :
      (s : Sys W)
      → LoadsInRange
      → Reachable env s
      → QueuesFit s.node × StatesDiffer s.node.state_queue × IsSound s.node
  Reachable-invariant s loads r =
      (Reachable-QueuesFit env s r, Reachable-StatesDiffer env s r, Reachable-IsSound s loads r)
