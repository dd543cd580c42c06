-- ===== src/Tests/Tables.antt =====
-- The directory and the allocated addresses.
use esphome_hacan.Base.{
  ◌≡◌, ◌≢◌, ◌==◌, ◌&&◌, refl, true, false, some, none, List, [], ◌∷◌, arith, Bytes8, find_slot,
  replicate, leb, ltb, room, if◌then◌else◌,
}
use esphome_hacan.Runtime.Node.{Node, Sys, fresh, store}
use esphome_hacan.Runtime.Directory.{
  resolve, is_online, learn_entity, expire_offline, next_free_address, next_free_from,
}
use esphome_hacan.Runtime.Directory.Entities.{after_claim, claimed_location, resolve-learn_entity}
use esphome_hacan.Runtime.Directory.Expiry.{heard_lately}
use esphome_hacan.Runtime.Directory.Expired.{kept_unless, is_silent, expire_offline_decided}
use esphome_hacan.Runtime.Send.{assign}
use esphome_hacan.CanIdentifier.RoundTrip.{IsInRange}
use esphome_hacan.Runtime.Reachable.{Call, run_calls}
use esphome_hacan.Runtime.Queue.{blank_frame}
use esphome_hacan.Runtime.Allocated.Offers.{assigned_once}
use esphome_hacan.Tests.Bus.{switch_on, Bus, bus, uid_a, node_at, alone}

-- Node 9 was heard of at 3000 ms, with entity 6.
abbrev listening : Node
listening = record (node_at uid_a 1) {
  seen = store 9 true (λ j. false);
  last_seen = store 9 3000 (λ j. 0);
  entities = some (record { entity = 6; node = 9; endpoint = 2 }) ∷ replicate 31 none;
}

expire_offline_decided_example :
    (is_online 9 (expire_offline bus 108000 (alone listening)).node
      ≡ heard_lately 108000 9 listening)
    × (resolve 6 (expire_offline bus 108000 (alone listening)).node
        ≡ kept_unless
            (λ node. leb 1 node && ltb node 0x1ff && is_silent 108000 listening node)
            (resolve 6 listening))
unfolding find_slot
expire_offline_decided_example =
    expire_offline_decided bus 108000 9 6 (alone listening) (omega arith) (omega arith) (refl, tt)

gone_after_105_s : kept_unless (is_silent 108000 listening) (resolve 6 listening) ≡ none
unfolding fresh resolve find_slot
gone_after_105_s = refl

-- Node 4 claims entity 6, which is known at node 9.
abbrev other_claim : Bytes8
other_claim = record { b0 = 1; b1 = 2; b2 = 6; b3 = 0; b4 = 0; b5 = 0; b6 = 0; b7 = 0 }

resolve-learn_entity_example : resolve 6 (learn_entity bus 4 other_claim (alone listening)).node ≡ (
    if (claimed_location 4 other_claim).entity == 6
    then after_claim
        (claimed_location 4 other_claim)
        (room listening.entities)
        (resolve 6 listening)
    else resolve 6 listening)
unfolding find_slot
resolve-learn_entity_example = resolve-learn_entity bus 4 other_claim 6 (alone listening) (refl, tt)

abbrev primary_sys : Sys Bus
primary_sys = alone (record (node_at uid_a 1) { allocated = store 1 true (λ j. false) })

switch_on-IsInRange : IsInRange switch_on.identifier
switch_on-IsInRange = record {
  kind_fits = omega arith;
  destination_fits = omega arith;
  source_fits = omega arith;
  hop_fits = omega arith;
}

abbrev later_calls : List Call
later_calls =
    Call.receive_frame blank_frame 5
    ∷ Call.enqueue_frame switch_on switch_on-IsInRange
    ∷ Call.drain_next
    ∷ Call.tick_at 10
    ∷ []

assigned_once_example :
    next_free_address (run_calls bus later_calls (assign bus other_claim primary_sys)).node ≢ some 2
unfolding fresh next_free_address next_free_from
assigned_once_example =
    assigned_once bus other_claim later_calls primary_sys 1 2 refl (omega arith) (omega arith) refl
      λ raw w. refl
