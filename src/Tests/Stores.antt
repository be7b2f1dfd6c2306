-- ===== src/Tests/Stores.antt =====
-- internal/durable/store.go on samples.

use mathlib.Core.List.{Perm}
use mac_agent.Base.{
  true, String, ◌≡◌, refl, false, none, some, List, [], ◌∷◌, ◌+◌, ◌<◌, ◌≤◌, codes, Int64, str_eq,
  bytes_eq, le64, length, ◌==◌, ◌&&◌, if◌then◌else◌, arith,
}
use mac_agent.Protocol.Types.{Message}
use mac_agent.Durable.{
  delete_events, Faults, ok, err, run_conflict, invalid_ack, event_row, stored_run, prepare_run,
  is_terminal, insert_event, append_event, durable_ack, cancel,
}
use mac_agent.Durable.Schema.{
  AgentRun, BootstrapSync, Tables, migrated, find_run, conflicts, update_run, find_row,
  delete_acked, find_sync,
}
use mac_agent.Durable.Pending.{pending_rows}
use mac_agent.Durable.Bootstrap.{prepare_bootstrap, ack_bootstrap}
use mac_agent.Durable.Consistency.{IsConsistent}
use mac_agent.Durable.Outbox.{
  no_faults, append_event-atomic, append_event-records, durable_ack-removes,
}
use mac_agent.Durable.Replay.{IsOrdered, pending_rows_lem}
use mac_agent.Durable.Repeats.{prepare_run-idempotent}
use mac_agent.Durable.Syncs.{ack_bootstrap-resumes}
use mac_agent.Durable.History.{
  Call, prepare, append, ack, stop, history, history-IsConsistent, event_survives,
}
use mac_agent.Tests.Protocol.{status_message}

-- Opens the store.
store_runs : Unit {0}
unfolding prepare_run stored_run append_event insert_event durable_ack delete_events cancel
    is_terminal find_run conflicts update_run find_row delete_acked
store_runs = tt

abbrev pub output : Message
output = record status_message { type = "turn.output"; trace_id = "r" }

abbrev completed : Message
completed = record output { type = "turn.completed" }

abbrev calls : List (Faults × Call)
calls =
    (no_faults, prepare 1 "r" "c" (codes "{}"))
    ∷ (no_faults, append 2 "r" output)
    ∷ (no_faults, append 3 "r" completed)
    ∷ []

abbrev pub stored : Tables
stored = history calls migrated

abbrev pub run : AgentRun
run = record {
  run_id = "r";
  start_command_id = "c";
  start_payload_json = codes "{}";
  status = "terminal";
  cancel_requested = false;
  codex_thread_id = none;
  codex_turn_id = none;
  next_agent_sequence = 3;
  durable_acked_sequence = 0;
  final_sequence = some 2;
  created_at = 1;
  updated_at = 3;
}

pub two_events : (find_run "r" stored.agent_runs ≡ some run) × (length stored.result_outbox ≡ 2)
unfolding store_runs
two_events = (refl, refl)

first_event :
    find_row "r" 1 stored.result_outbox
    ≡ some (event_row 2 "r" (record output { agent_sequence = 1 }))
unfolding store_runs
first_event = refl

pub stored-IsConsistent : IsConsistent (1 + length calls) stored
stored-IsConsistent = history-IsConsistent calls (tt, (tt, (tt, tt))) (omega arith)

history-IsConsistent_example : IsConsistent (1 + length calls) (history calls migrated)
history-IsConsistent_example = history-IsConsistent calls (tt, (tt, (tt, tt))) (omega arith)

event_survives_example :
    find_row "r" 2
      (history ((no_faults, ack 4 "r" 1) ∷ (no_faults, stop 5 "r") ∷ []) stored).result_outbox
    ≡ some (event_row 3 "r" (record completed { agent_sequence = 2 }))
unfolding store_runs
event_survives_example =
    event_survives "r" 2 (event_row 3 "r" (record completed { agent_sequence = 2 }))
      ((no_faults, ack 4 "r" 1) ∷ (no_faults, stop 5 "r") ∷ []) stored refl (refl, (tt, tt))

append_event-atomic_example : (append_event no_faults 4 "unknown" output stored).0 ≡ stored
unfolding store_runs
append_event-atomic_example = append_event-atomic no_faults 4 "unknown" output stored (cc)

append_event-records_example :
    let (t', m', e) = append_event no_faults 4 "r" output stored in
    (e ≡ none)
    × (m' ≡ record output { agent_sequence = 3 })
    × ((j : String) (q : Int64)
        → find_row j q t'.result_outbox ≡ (
            if str_eq "r" j && 3 == q
            then some (event_row 4 "r" m')
            else find_row j q stored.result_outbox))
append_event-records_example =
    append_event-records 4 4 "r" output stored run stored-IsConsistent two_events.0

durable_ack-removes_example :
    let (t', e) = durable_ack no_faults 4 "r" 1 stored in
    (1 < 3
      → (e ≡ none)
        × ((j : String) (q : Int64)
            → find_row j q t'.result_outbox
              ≡ (if str_eq "r" j && le64 q 1 then none else find_row j q stored.result_outbox)))
    × (3 ≤ 1 → (t' ≡ stored) × (e ≡ some (invalid_ack 1 "r")))
durable_ack-removes_example =
    durable_ack-removes 4 4 "r" 1 stored run stored-IsConsistent (omega arith) (omega arith)
      two_events.0

pending_rows_lem_example :
    Perm (pending_rows stored) stored.result_outbox × IsOrdered (pending_rows stored)
pending_rows_lem_example = pending_rows_lem 4 stored stored-IsConsistent (omega arith)

abbrev fresh : Tables
fresh = (prepare_run no_faults 1 "r" "c" (codes "{}") migrated).0

-- What happens to the run before its command comes again: the second call fails.
abbrev calls_between : List (Faults × Call)
calls_between =
    (no_faults, append 3 "r" output) ∷ ((λ n. true), stop 4 "r") ∷ (no_faults, stop 5 "r") ∷ []

prepare_run-idempotent_example :
    prepare_run no_faults 9 "r" "c" (codes "{}") (history calls_between fresh) ≡ (
      history calls_between fresh,
      (if str_eq "c" "c" && bytes_eq (codes "{}") (codes "{}")
          then ok false
          else err (run_conflict "r")),
    )
unfolding store_runs
prepare_run-idempotent_example =
    prepare_run-idempotent no_faults 1 9 "r" "c" "c" (codes "{}") (codes "{}") migrated fresh
      calls_between refl

abbrev sync : BootstrapSync
sync = record {
  sync_id = "s";
  command_id = "c";
  snapshot_id = "snap";
  status = "running";
  next_cursor = none;
  last_durable_batch_no = 3;
  last_batch_checksum = some "x";
  updated_at = 1;
}

abbrev syncing : Tables
syncing = record migrated { bootstrap_syncs = sync ∷ [] }

sync_found : find_sync "s" syncing.bootstrap_syncs ≡ some sync
unfolding find_sync
sync_found = refl

ack_bootstrap-resumes_example :
    let t' = (ack_bootstrap no_faults 2 "s" 4 "y" false syncing).0 in
    (prepare_bootstrap no_faults 3 "other" "s" "c" t' ≡ (t', ok ("snap", 4)))
    × (ack_bootstrap no_faults 3 "s" 4 "y" false t' ≡ (t', none))
ack_bootstrap-resumes_example =
    ack_bootstrap-resumes 2 3 "other" "s" 4 "y" false syncing sync sync_found refl
