-- ===== src/Durable/Bootstrap.antt =====
-- `PrepareBootstrap` and `AckBootstrap` of internal/durable/store.go.
use mac_agent.Base.{
  String, Bool, Option, none, some, [], ◌∷◌, ◌++◌, Int64, lt64, minus_one, str_eq, not, ◌==◌, ◌||◌,
  if◌then◌else◌,
}
use mac_agent.Protocol.Types.{Time}
use mac_agent.Durable.{
  StoreError, database_failed, no_rows, bootstrap_conflict, bootstrap_ack_conflict, Faults, Outcome,
  ok, err,
}
use mac_agent.Durable.Schema.{BootstrapSync, Tables, find_sync, sync_conflicts, update_sync}

abbrev pub new_sync : Time → String → String → String → BootstrapSync
new_sync now sync_id command_id snapshot_id = record {
  sync_id = sync_id;
  command_id = command_id;
  snapshot_id = snapshot_id;
  status = "running";
  next_cursor = none;
  last_durable_batch_no = minus_one;
  last_batch_checksum = none;
  updated_at = now;
}

-- INSERT OR IGNORE INTO bootstrap_syncs
abbrev pub insert_sync : Time → String → String → String → Tables → Tables
insert_sync now sync_id command_id snapshot_id t =
    if sync_conflicts sync_id command_id t.bootstrap_syncs then t else record t {
      bootstrap_syncs = t.bootstrap_syncs ++ new_sync now sync_id command_id snapshot_id ∷ [];
    }

-- The SELECT and the test behind the insert: the snapshot id and the last durable batch.
unfoldable pub stored_sync : String → String → Tables → Outcome (String × Int64)
stored_sync sync_id command_id t = elim (find_sync sync_id t.bootstrap_syncs) [
  | none ↦ err no_rows
  | some sync ↦
      if not (str_eq sync.command_id command_id)
      then err (bootstrap_conflict sync_id)
      else ok (sync.snapshot_id, sync.last_durable_batch_no)
]

-- `snapshot_id` is the new id, which is stored only by the first call for a sync. On an error the
-- code returns "" and -1 beside it.
unfoldable pub prepare_bootstrap :
    Faults → Time → String → String → String → Tables → Tables × Outcome (String × Int64)
prepare_bootstrap faults now snapshot_id sync_id command_id t =
    if faults 0
    then (t, err database_failed)
    else let t' = insert_sync now sync_id command_id snapshot_id t in
      if faults 1 then (t', err database_failed) else (t', stored_sync sync_id command_id t')

abbrev pub status_of : Bool → String
status_of done = if done then "completed" else "running"

abbrev pub ack_sync : Time → Int64 → String → Bool → BootstrapSync → BootstrapSync
ack_sync now batch_no checksum done sync = record sync {
  status = status_of done;
  last_durable_batch_no = batch_no;
  last_batch_checksum = some checksum;
  updated_at = now;
}

-- COALESCE(last_batch_checksum,'')
abbrev pub coalesce : Option String → String
coalesce none = ""
coalesce (some checksum) = checksum

unfoldable pub ack_bootstrap :
    Faults → Time → String → Int64 → String → Bool → Tables → Tables × Option StoreError
ack_bootstrap faults now sync_id batch_no checksum done t =
    if faults 0 then (t, some database_failed) else elim (find_sync sync_id t.bootstrap_syncs) [
      | none ↦ (t, some (if faults 1 then database_failed else no_rows))
      | some sync ↦
          if lt64 sync.last_durable_batch_no batch_no
          then (
            record t {
              bootstrap_syncs =
                  update_sync sync_id (ack_sync now batch_no checksum done) t.bootstrap_syncs;
            },
            none,
          )
          else if faults 1
          then (t, some database_failed)
          else if not (sync.last_durable_batch_no == batch_no)
              || not (str_eq (coalesce sync.last_batch_checksum) checksum)
          then (t, some bootstrap_ack_conflict)
          else (t, none)
    ]
