-- ===== src/Tests/Bus.antt =====
-- A bus that takes every frame, as the world of the runs: the frames sent, newest first. Handlers
-- and listeners are named by the endpoint or entity they serve; a handler accepts every command.
use esphome_hacan.Base.{ℕ, true, false, none, some, List, [], ◌∷◌}
use esphome_hacan.Types.{Priority, MessageKind, Status}
use esphome_hacan.FrameCodec.{RawCanFrame, ProtocolFrame}
use esphome_hacan.Runtime.Env.{Env}
use esphome_hacan.Runtime.Uid.{Uid}
use esphome_hacan.Runtime.Node.{Node, Sys, CommissioningRole, fresh}

abbrev pub Bus : Type 0
Bus = List RawCanFrame

abbrev pub bus : Env Bus
bus = record {
  transmit = λ frame w. (frame ∷ w, true);
  load = λ w. (w, none);
  save = λ address w. (w, true);
  has_events = false;
  on_entity_available = λ entity node endpoint w. w;
  on_entity_unavailable = λ entity w. w;
  on_address_conflict = λ address w. w;
  endpoint = λ handler. handler;
  command = λ handler value w. (Status.accepted, record { world = w; publications = [] });
  state_entity = λ listener. listener;
  state = λ listener value quality w. record { world = w; publications = [] };
  event_entity = λ listener. listener;
  event = λ listener value flags w. record { world = w; publications = [] };
}

abbrev pub uid_a : Uid
uid_a = record { u0 = 2; u1 = 1; u2 = 3; u3 = 4; u4 = 5; u5 = 6 }

abbrev pub uid_b : Uid
uid_b = record { u0 = 1; u1 = 2; u2 = 3; u3 = 4; u4 = 5; u5 = 6 }

abbrev pub node_at : Uid → ℕ → Node
node_at uid address = fresh uid CommissioningRole.primary (some address)

abbrev pub alone : Node → Sys Bus
alone n = record { node = n; world = [] }

abbrev pub claim_of : Uid → ℕ → ProtocolFrame
claim_of u address = record {
  identifier = record {
    priority = Priority.management;
    kind = 0x05;
    destination = 0x1ff;
    source = address;
    hop = 0;
  };
  payload = record {
    kind = MessageKind.address_claim;
    bytes = record {
      b0 = u.u0;
      b1 = u.u1;
      b2 = u.u2;
      b3 = u.u3;
      b4 = u.u4;
      b5 = u.u5;
      b6 = 1;
      b7 = 0;
    };
  };
}

-- Transaction 0x34 of node 9: endpoint 3 of node 7 on, with an acknowledgement.
abbrev pub switch_on : ProtocolFrame
switch_on = record {
  identifier = record {
    priority = Priority.control;
    kind = 0x0a;
    destination = 7;
    source = 9;
    hop = 0;
  };
  payload = record {
    kind = MessageKind.command;
    bytes = record { b0 = 0x34; b1 = 3; b2 = 1; b3 = 1; b4 = 1; b5 = 0; b6 = 0; b7 = 0 };
  };
}
