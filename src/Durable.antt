-- ===== src/Durable.antt =====
-- internal/durable/store.go: the store of runs, of the outbox of their events, and of syncs.
--
-- A method is given the tables and returns them. `Faults` says which of the call's database calls,
-- counted from 0, fail; a failing call changes nothing. Reading a row into variables is part of its
-- call. Of the errors, `no_rows` is `sql.ErrNoRows`.
pub mod Schema
pub mod Keys
pub mod Pending
pub mod Bootstrap
pub mod Consistency
pub mod Outbox
pub mod Replay
pub mod Runs
pub mod Repeats
pub mod History
pub mod Syncs
use mac_agent.Base.{
  ℕ, String, Bool, true, false, Option, none, some, List, [], ◌∷◌, ◌++◌, Bytes, Int64, add64, lt64,
  le64, minus_one, is_some, str_eq, bytes_eq, not, ◌&&◌, ◌||◌, if◌then◌else◌,
}
use mac_agent.Protocol.Types.{Time, Message}
use mac_agent.Protocol.MessageType
use Schema.{
  AgentRun, OutboxRow, BootstrapSync, Tables, find_run, conflicts, update_run, find_row,
  delete_acked, find_sync, sync_conflicts, update_sync,
}

pub data StoreError : Type 0 where
  database_failed no_rows constraint run_not_found bootstrap_ack_conflict : StoreError
  run_conflict bootstrap_conflict : String → StoreError
  invalid_ack : Int64 → String → StoreError

abbrev pub Faults : Type 0
Faults = ℕ → Bool

pub data Outcome {ℓ} (A : Type ℓ) : Type ℓ where
  ok : A → Outcome A
  err : StoreError → Outcome A

abbrev new_run : Time → String → String → Bytes → AgentRun
new_run now run_id command_id payload = record {
  run_id = run_id;
  start_command_id = command_id;
  start_payload_json = payload;
  status = "accepted";
  cancel_requested = false;
  codex_thread_id = none;
  codex_turn_id = none;
  next_agent_sequence = 1;
  durable_acked_sequence = 0;
  final_sequence = none;
  created_at = now;
  updated_at = now;
}

-- The row that an ignored insert left in place.
unfoldable pub stored_run : Faults → String → String → Bytes → Tables → Outcome Bool
stored_run faults run_id command_id payload t =
    if faults 1 then err database_failed else elim (find_run run_id t.agent_runs) [
      | none ↦ err no_rows
      | some run ↦
          if not (str_eq run.start_command_id command_id)
            || not (bytes_eq run.start_payload_json payload)
          then err (run_conflict run_id)
          else ok false
    ]

-- `payload` is the JSON of the command.
unfoldable pub prepare_run :
    Faults → Time → String → String → Bytes → Tables → Tables × Outcome Bool
unfolding stored_run
prepare_run faults now run_id command_id payload t =
    if faults 0
    then (t, err database_failed)
    else if conflicts run_id command_id t.agent_runs
    then (t, stored_run faults run_id command_id payload t)
    else (
      record t { agent_runs = t.agent_runs ++ new_run now run_id command_id payload ∷ [] },
      ok true,
    )

unfoldable pub is_terminal : String → Bool
is_terminal type =
    str_eq type MessageType.turn_completed
    || str_eq type MessageType.turn_failed
    || str_eq type MessageType.turn_interrupted

-- The UPDATE of `AppendEvent`.
abbrev pub advance_run : Time → String → Int64 → AgentRun → AgentRun
advance_run now type sequence run =
    if is_terminal type
    then record run {
      next_agent_sequence = add64 sequence 1;
      final_sequence = some sequence;
      status = "terminal";
      updated_at = now;
    }
    else record run { next_agent_sequence = add64 sequence 1; updated_at = now }

abbrev pub event_row : Time → String → Message → OutboxRow
event_row now run_id message = record {
  run_id = run_id;
  agent_sequence = message.agent_sequence;
  event_type = message.type;
  schema_version = 1;
  payload_json = message.payload;
  occurred_at = message.occurred_at;
  created_at = now;
}

-- An open transaction: the tables as they are committed, and as its statements have left them.
pub record Transaction : Type 0 where
  pub committed : Tables
  pub working : Tables

abbrev pub begin_tx : Tables → Transaction
begin_tx t = record { committed = t; working = t }

abbrev pub exec : (Tables → Tables) → Transaction → Transaction
exec statement tx = record tx { working = statement tx.working }

abbrev pub rollback : Transaction → Tables
rollback tx = tx.committed

abbrev pub commit : Transaction → Tables
commit tx = tx.working

-- The transaction of `AppendEvent` behind its SELECT; `message` has its sequence. The deferred
-- `Rollback` is what every return but the one behind the commit leaves.
unfoldable pub insert_event :
    Faults → Time → String → Message → Tables → Tables × Message × Option StoreError
insert_event faults now run_id message t =
    let sequence = message.agent_sequence in
    let tx = begin_tx t in
    let inserted =
      exec (λ w. record w { result_outbox = w.result_outbox ++ event_row now run_id message ∷ [] })
        tx in
    let updated =
      exec
        (λ w. record w {
          agent_runs = update_run run_id (advance_run now message.type sequence) w.agent_runs;
        })
        inserted in
    if faults 2
    then (rollback tx, message, some database_failed)
    else if is_some (find_row run_id sequence tx.working.result_outbox)
    then (rollback tx, message, some constraint)
    else if faults 3
    then (rollback inserted, message, some database_failed)
    else if faults 4
    then (rollback updated, message, some database_failed)
    else (commit updated, message, none)

unfoldable pub append_event :
    Faults → Time → String → Message → Tables → Tables × Message × Option StoreError
append_event faults now run_id message t =
    if faults 0 || faults 1
    then (t, message, some database_failed)
    else elim (find_run run_id t.agent_runs) [
      | none ↦ (t, message, some no_rows)
      | some run ↦
          insert_event faults now run_id
            (record message { agent_sequence = run.next_agent_sequence }) t
    ]

-- `MAX(durable_acked_sequence,?)`
abbrev pub max64 : Int64 → Int64 → Int64
max64 a b = if lt64 a b then b else a

abbrev pub ack_run : Time → Int64 → AgentRun → AgentRun
ack_run now sequence run = record run {
  durable_acked_sequence = max64 run.durable_acked_sequence sequence;
  updated_at = now;
}

-- The transaction of `DurableAck` behind its SELECT and its test.
unfoldable pub delete_events : Faults → Time → String → Int64 → Tables → Tables × Option StoreError
delete_events faults now run_id sequence t =
    let tx = begin_tx t in
    let updated =
      exec (λ w. record w { agent_runs = update_run run_id (ack_run now sequence) w.agent_runs })
        tx in
    let deleted =
      exec (λ w. record w { result_outbox = delete_acked run_id sequence w.result_outbox })
        updated in
    if faults 2
    then (rollback tx, some database_failed)
    else if faults 3
    then (rollback updated, some database_failed)
    else if faults 4
    then (rollback deleted, some database_failed)
    else (commit deleted, none)

unfoldable pub durable_ack : Faults → Time → String → Int64 → Tables → Tables × Option StoreError
durable_ack faults now run_id sequence t =
    if faults 0 || faults 1
    then (t, some database_failed)
    else elim (find_run run_id t.agent_runs) [
      | none ↦ (t, some no_rows)
      | some run ↦
          if lt64 sequence 0 || le64 run.next_agent_sequence sequence
          then (t, some (invalid_ack sequence run_id))
          else delete_events faults now run_id sequence t
    ]

abbrev pub cancel_run : Time → AgentRun → AgentRun
cancel_run now run = record run { cancel_requested = true; updated_at = now }

unfoldable pub cancel : Faults → Time → String → Tables → Tables × Option StoreError
cancel faults now run_id t =
    if faults 0
    then (t, some database_failed)
    else if is_some (find_run run_id t.agent_runs)
    then (record t { agent_runs = update_run run_id (cancel_run now) t.agent_runs }, none)
    else (t, some run_not_found)
