-- ===== src/Runtime/Handle/StaleRecords.antt =====
-- Where the table of commands falls short of at-most-once execution with a cached status.
use esphome_hacan.Base.{
  ℕ, suc, ◌≤◌, ◌≡◌, refl, ap, ◌∙◌, ◌&&◌, some, none, List, [], ◌∷◌, ◌++◌, arith, find_slot,
  replace_slot, packed, fill_slot-packed, find_slot-shadowed,
}
use esphome_hacan.Types.{Status}
use esphome_hacan.FrameCodec.{ProtocolFrame}
use esphome_hacan.Runtime.Env.{Env}
use esphome_hacan.Runtime.Node.{Sys, Duplicate}
use esphome_hacan.Runtime.Directory.{elapsed}
use esphome_hacan.Runtime.Duplicates.{
  same_command, is_recent, new_record, record_command, duplicate_window_ms,
}
use esphome_hacan.Runtime.Handle.{run_command}
use esphome_hacan.Runtime.Handle.AtMostOnce.{
  Runs, run_command-Runs, run_command-repeats, run_command-duplicates,
}

record_command-packed :
    (r : Duplicate) (entries : List Duplicate) (k : ℕ)
    → record_command r (packed entries (suc k)) ≡ packed (entries ++ r ∷ []) k
unfolding record_command
record_command-packed r entries k = ground (arith, fill_slot-packed r entries k)

module _ {W : Type 0} (env : Env W) (frame : ProtocolFrame) (now : ℕ) (s : Sys W) where
  -- The table after a run over a table without a gap.
  table_after :
      (entries : List Duplicate) (k : ℕ)
      → s.node.duplicates ≡ packed entries (suc k)
      → find_slot (λ r. same_command frame r && is_recent now r) (packed entries (suc k)) ≡ none
      → (run_command env frame now s).1.node.duplicates
        ≡ replace_slot
            (same_command frame)
            (λ r. some (record r { status = (run_command env frame now s).0 }))
            (packed (entries ++ new_record frame now ∷ []) k)
  table_after entries k e stale =
      run_command-duplicates env frame now s (simp e stale)
      ∙ ap
          (replace_slot (same_command frame)
            (λ r. some (record r { status = (run_command env frame now s).0 })))
          (ap (record_command (new_record frame now)) e
            ∙ record_command-packed (new_record frame now) entries k)

-- The table still holds an old record of the same source, endpoint, transaction and kind. A new
-- command with that transaction goes to the handler of its endpoint, with the handler's status,
-- world and publications, or is unsupported if there is none. But its status goes to the old
-- record: a copy within two seconds is answered with `unsupported`, whatever status the command
-- had, and changes nothing.
pub stale_record_answers :
    {W : Type 0} (env : Env W) (frame : ProtocolFrame) (now later : ℕ) (s : Sys W)
    (entries : List Duplicate) (k : ℕ) {old : Duplicate}
    → s.node.duplicates ≡ packed entries (suc k)
    → find_slot (same_command frame) (packed entries (suc k)) ≡ some old
    → find_slot (λ r. same_command frame r && is_recent now r) (packed entries (suc k)) ≡ none
    → find_slot (λ r. same_command frame r && is_recent later r) (packed entries (suc k)) ≡ none
    → elapsed later now ≤ duplicate_window_ms
    → Runs env frame now s (run_command env frame now s)
      × (run_command env frame later (run_command env frame now s).1
          ≡ (Status.unsupported, (run_command env frame now s).1))
stale_record_answers env frame now later s entries k e found stale stale_later recent = (
  run_command-Runs env frame now s (simp e stale),
  run_command-repeats env frame later (run_command env frame now s).1 (new_record frame now) (
      simp (table_after env frame now s entries k e stale) (
        find_slot-shadowed (λ r. same_command frame r && is_recent later r) (same_command frame)
          (λ r. record r { status = (run_command env frame now s).0 }) (new_record frame now) k
          entries (λ r. refl) (ground arith) stale_later found)),
)
