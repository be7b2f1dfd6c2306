-- ===== src/Durable/Schema.antt =====
-- internal/durable/store.go: the tables that `migrate` creates, with what its SQL statements select,
-- change and refuse. A time is stored as its RFC 3339 text with nanoseconds, from which the same time
-- is read back, so a row holds the time.
use mac_agent.Base.{
  ℕ, String, Bool, false, Option, none, some, List, [], ◌∷◌, Bytes, Int64, str_eq, le64, ◌==◌, ◌&&◌,
  ◌||◌, if◌then◌else◌,
}
use mac_agent.Protocol.Types.{Time}

pub record AgentRun : Type 0 where
  pub run_id : String
  pub start_command_id : String
  pub start_payload_json : Bytes
  pub status : String
  pub cancel_requested : Bool
  pub codex_thread_id : Option String
  pub codex_turn_id : Option String
  pub next_agent_sequence : Int64
  pub durable_acked_sequence : Int64
  pub final_sequence : Option Int64
  pub created_at : Time
  pub updated_at : Time

pub record OutboxRow : Type 0 where
  pub run_id : String
  pub agent_sequence : Int64
  pub event_type : String
  pub schema_version : ℕ
  pub payload_json : Bytes
  pub occurred_at : Time
  pub created_at : Time

pub record BootstrapSync : Type 0 where
  pub sync_id : String
  pub command_id : String
  pub snapshot_id : String
  pub status : String
  pub next_cursor : Option String
  pub last_durable_batch_no : Int64
  pub last_batch_checksum : Option String
  pub updated_at : Time

pub record Tables : Type 0 where
  pub agent_runs : List AgentRun
  pub result_outbox : List OutboxRow
  pub bootstrap_syncs : List BootstrapSync

-- What `migrate` leaves in a new file.
abbrev pub migrated : Tables
migrated = record { agent_runs = []; result_outbox = []; bootstrap_syncs = [] }

-- SELECT … FROM agent_runs WHERE run_id=?
unfoldable pub find_run : String → List AgentRun → Option AgentRun
find_run id [] = none
find_run id (run ∷ runs) = if str_eq run.run_id id then some run else find_run id runs

-- The PRIMARY KEY and the UNIQUE column that INSERT OR IGNORE INTO agent_runs looks at.
unfoldable pub conflicts : String → String → List AgentRun → Bool
conflicts id command [] = false
conflicts id command (run ∷ runs) =
    str_eq run.run_id id || str_eq run.start_command_id command || conflicts id command runs

-- UPDATE agent_runs SET … WHERE run_id=?
unfoldable pub update_run : String → (AgentRun → AgentRun) → List AgentRun → List AgentRun
update_run id f [] = []
update_run id f (run ∷ runs) = (if str_eq run.run_id id then f run else run) ∷ update_run id f runs

abbrev pub has_key : String → Int64 → OutboxRow → Bool
has_key id sequence row = str_eq row.run_id id && row.agent_sequence == sequence

-- The row of a PRIMARY KEY(run_id,agent_sequence).
unfoldable pub find_row : String → Int64 → List OutboxRow → Option OutboxRow
find_row id sequence [] = none
find_row id sequence (row ∷ rows) =
    if has_key id sequence row then some row else find_row id sequence rows

-- DELETE FROM result_outbox WHERE run_id=? AND agent_sequence<=?
unfoldable pub delete_acked : String → Int64 → List OutboxRow → List OutboxRow
delete_acked id sequence [] = []
delete_acked id sequence (row ∷ rows) =
    let rest = delete_acked id sequence rows in
    if str_eq row.run_id id && le64 row.agent_sequence sequence then rest else row ∷ rest

-- SELECT … FROM bootstrap_syncs WHERE sync_id=?
unfoldable pub find_sync : String → List BootstrapSync → Option BootstrapSync
find_sync id [] = none
find_sync id (sync ∷ syncs) = if str_eq sync.sync_id id then some sync else find_sync id syncs

unfoldable pub sync_conflicts : String → String → List BootstrapSync → Bool
sync_conflicts id command [] = false
sync_conflicts id command (sync ∷ syncs) =
    str_eq sync.sync_id id || str_eq sync.command_id command || sync_conflicts id command syncs

unfoldable pub update_sync :
    String → (BootstrapSync → BootstrapSync) → List BootstrapSync → List BootstrapSync
update_sync id f [] = []
update_sync id f (sync ∷ syncs) =
    (if str_eq sync.sync_id id then f sync else sync) ∷ update_sync id f syncs
