-- ===== src/Runtime/Handle/AtMostOnce.antt =====
-- A retried command runs once, and when it does not.
use esphome_hacan.Base.{
  ℕ, ◌≤◌, ◌≡◌, ◌≢◌, ◌⊎◌, inl, inr, refl, ap, Bool, true, ◌&&◌, Option, some, none, List, [], ◌∷◌,
  arith, Bytes8, Option-cases, find_slot, fill_slot, replace_slot, find_slot-fill_slot,
  find_slot-replace_slot,
}
use esphome_hacan.Types.{Status}
use esphome_hacan.FrameCodec.{ProtocolFrame}
use esphome_hacan.Runtime.Env.{Env}
use esphome_hacan.Runtime.Node.{Node, Sys, Duplicate}
use esphome_hacan.Runtime.Registry.{endpoint_handler}
use esphome_hacan.Runtime.Directory.{elapsed}
use esphome_hacan.Runtime.Settled.{settled, settled-publish}
use esphome_hacan.Runtime.Duplicates.{
  same_command, is_recent, new_record, record_command, is_duplicate, set_duplicate_status,
  duplicate_window_ms,
}
use esphome_hacan.Runtime.Handle.{typed_value, execute, run_command, react}
use esphome_hacan.Runtime.Publish.{publish}

pub duplicates-of_settled : (n m : Node) → settled n ≡ settled m → n.duplicates ≡ m.duplicates
unfolding settled
duplicates-of_settled n m e = ap (λ (k : Node). k.duplicates) e

pub handlers-of_settled :
    (n m : Node) → settled n ≡ settled m → n.endpoint_handlers ≡ m.endpoint_handlers
unfolding settled
handlers-of_settled n m e = ap (λ (k : Node). k.endpoint_handlers) e

module _ {W : Type 0} (env : Env W) where
  -- A handler's publications leave the table and the registrations alone.
  pub settled-execute :
      (bytes : Bytes8) (s : Sys W) → settled (execute env bytes s).1.node ≡ settled s.node
  unfolding execute react
  settled-execute bytes s = elim (Option-cases (endpoint_handler env bytes.b1 s.node)) [
    | inl e ↦ ground arith
    | inr (h, e) ↦ ground (
      arith,
      settled-publish
          (env.command h
            (record {
              type = bytes.b2;
              bytes = record { v0 = bytes.b4; v1 = bytes.b5; v2 = bytes.b6; v3 = bytes.b7 };
            })
            s.world).1.publications
          s.node,
    )
  ]

pub same_command-new_record :
    (frame : ProtocolFrame) (now : ℕ) → same_command frame (new_record frame now) ≡ true
same_command-new_record frame now = ground arith

-- The record of a command that no earlier record matches is found.
find_slot-record_command :
    (test : Duplicate → Bool) (r : Duplicate) (slots : List (Option Duplicate))
    → slots ≢ []
    → find_slot test slots ≡ none
    → test r ≡ true
    → find_slot test (record_command r slots) ≡ some r
unfolding record_command
find_slot-record_command test r slots ne f h = elim (Option-cases (fill_slot r slots)) [
  | inl full ↦ overwritten slots ne full
  | inr (filled, e) ↦ ground (arith, find_slot-fill_slot test r slots filled f e h)
]
  where
    overwritten :
        (slots : List (Option Duplicate))
        → slots ≢ []
        → fill_slot r slots ≡ none
        → find_slot test (record_command r slots) ≡ some r
    overwritten [] ne full = absurd (ne refl)
    overwritten (slot ∷ slots) ne full = unfold find_slot in ground arith

-- The record of a command with the status that the run gave.
abbrev pub done_record : ProtocolFrame → ℕ → Status → Duplicate
done_record frame now status = record (new_record frame now) { status = status }

pub recorded :
    (frame : ProtocolFrame) (now later : ℕ) (status : Status) (slots : List (Option Duplicate))
    → slots ≢ []
    → find_slot (same_command frame) slots ≡ none
    → elapsed later now ≤ duplicate_window_ms
    → find_slot
        (λ r. same_command frame r && is_recent later r)
        (replace_slot
          (same_command frame)
          (λ r. some (record r { status = status }))
          (record_command (new_record frame now) slots))
      ≡ some (done_record frame now status)
recorded frame now later status slots ne fresh recent =
    find_slot-replace_slot (λ r. same_command frame r && is_recent later r) (same_command frame)
      (λ r. record r { status = status }) (new_record frame now)
      (record_command (new_record frame now) slots) (λ r h. ground arith)
      (find_slot-record_command (same_command frame) (new_record frame now) slots ne fresh
        (same_command-new_record frame now))
      (ground arith)

pub narrower_none :
    (frame : ProtocolFrame) (now : ℕ) (slots : List (Option Duplicate))
    → find_slot (same_command frame) slots ≡ none
    → find_slot (λ r. same_command frame r && is_recent now r) slots ≡ none
unfolding find_slot
narrower_none frame now [] h = refl
narrower_none frame now (none ∷ slots) h = narrower_none frame now slots h
narrower_none frame now (some r ∷ slots) h = ground (arith, narrower_none frame now slots)

module _ {W : Type 0} (env : Env W) (frame : ProtocolFrame) where
  -- A run that is no duplicate executes, and records its status.
  pub run_command-executes :
      (now : ℕ) (s : Sys W)
      → find_slot (λ r. same_command frame r && is_recent now r) s.node.duplicates ≡ none
      → let noted = record (s.node) {
        duplicates = record_command (new_record frame now) s.node.duplicates;
      } in
        let done = execute env frame.payload.bytes (record s { node = noted }) in
        run_command env frame now s
        ≡ (done.0, record (done.1) { node = set_duplicate_status frame done.0 done.1.node })
  unfolding run_command is_duplicate
  run_command-executes now s fresh = ground arith

  -- The command went to the handler of its endpoint in the state `s`. Besides what the handler did
  -- and published only the table of commands changed.
  pub record WentToHandler (now : ℕ) (s : Sys W) (status : Status) (done : Sys W) : Type 0 where
    pub handler : ℕ
    pub registered : endpoint_handler env frame.payload.bytes.b1 s.node ≡ some handler
    pub answered : status ≡ (env.command handler (typed_value frame.payload.bytes) s.world).0
    pub acted : done.world ≡ (env.command handler (typed_value frame.payload.bytes) s.world).1.world
    pub published :
        done.node
        ≡ record (publish
            (env.command handler (typed_value frame.payload.bytes) s.world).1.publications
            (record (s.node) {
              duplicates = record_command (new_record frame now) s.node.duplicates;
            })) { duplicates = done.node.duplicates }

  -- What a command does that runs: it goes to the handler, or is unsupported if there is none.
  abbrev pub Runs : ℕ → Sys W → Status × Sys W → Type 0
  Runs now s (status, done) =
      ((endpoint_handler env frame.payload.bytes.b1 s.node ≡ none)
        × (status ≡ Status.unsupported)
        × (done ≡ record s { node = record (s.node) { duplicates = done.node.duplicates } }))
      ⊎ WentToHandler now s status done

  pub run_command-Runs :
      (now : ℕ) (s : Sys W)
      → find_slot (λ r. same_command frame r && is_recent now r) s.node.duplicates ≡ none
      → Runs now s (run_command env frame now s)
  unfolding execute react endpoint_handler set_duplicate_status
  run_command-Runs now s fresh =
      elim (Option-cases (endpoint_handler env frame.payload.bytes.b1 s.node)) [
        | inl e ↦ inl (
          e,
          ground (arith, e, run_command-executes now s fresh),
          ground (arith, e, run_command-executes now s fresh),
        )
        | inr (h, e) ↦ inr (record {
          handler = h;
          registered = e;
          answered = ground (arith, e, run_command-executes now s fresh);
          acted = ground (arith, e, run_command-executes now s fresh);
          published = ground (arith, e, run_command-executes now s fresh);
        })
      ]

  -- A run whose record is there and recent only reads the status.
  pub run_command-repeats :
      (now : ℕ) (s : Sys W) (r : Duplicate)
      → find_slot (λ r. same_command frame r && is_recent now r) s.node.duplicates ≡ some r
      → run_command env frame now s ≡ (r.status, s)
  unfolding run_command is_duplicate
  run_command-repeats now s r found = ground arith

  -- The table after a run that executed.
  pub run_command-duplicates :
      (now : ℕ) (s : Sys W)
      → find_slot (λ r. same_command frame r && is_recent now r) s.node.duplicates ≡ none
      → (run_command env frame now s).1.node.duplicates
        ≡ replace_slot
            (same_command frame)
            (λ r. some (record r { status = (run_command env frame now s).0 }))
            (record_command (new_record frame now) s.node.duplicates)
  unfolding set_duplicate_status
  run_command-duplicates now s fresh = ground (
    arith,
    run_command-executes now s fresh,
    duplicates-of_settled _ _ (
        settled-execute env frame.payload.bytes (record s {
          node = record (s.node) {
            duplicates = record_command (new_record frame now) s.node.duplicates;
          };
        })),
  )

  -- A command that the table does not know goes to the handler of its endpoint, once: the status,
  -- the world and the publications are the handler's, or, with no handler, the status is
  -- `unsupported` and nothing but the table changes. A copy of it within the next two seconds gives
  -- the same status, runs no handler and changes nothing.
  pub run_command_once :
      (now later : ℕ) (s : Sys W)
      → s.node.duplicates ≢ []
      → find_slot (same_command frame) s.node.duplicates ≡ none
      → elapsed later now ≤ duplicate_window_ms
      → Runs now s (run_command env frame now s)
        × (run_command env frame later (run_command env frame now s).1
            ≡ run_command env frame now s)
  run_command_once now later s ne fresh recent = (
    run_command-Runs now s (narrower_none frame now s.node.duplicates fresh),
    run_command-repeats later (run_command env frame now s).1
        (done_record frame now (run_command env frame now s).0)
        (rw (run_command-duplicates now s (narrower_none frame now s.node.duplicates fresh)) (
          recorded frame now later (run_command env frame now s).0 s.node.duplicates ne fresh
            recent)),
  )
