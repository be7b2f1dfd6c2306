-- ===== src/Agent/Bootstrap.antt =====
-- internal/agent/service.go: `runBootstrap`, which sends the sessions of every project in batches and
-- waits for the acknowledgement of each.
--
-- What the `select` of `sendBootstrapBatch` takes is a sequence; an operation that still waits when it
-- is used up answers `none`. The checksum of a batch, and what `publish` answers, are parameters.
use mac_agent.Base.{
  suc, String, Bool, true, false, Option, none, some, List, [], ◌∷◌, ◌++◌, Bytes, Int64, add64,
  lt64, le64, str_eq, length, ◌==◌, ◌&&◌, map, if◌then◌else◌,
}
use mac_agent.Durable.{Faults}
use mac_agent.Durable
use mac_agent.Durable.Bootstrap.{prepare_bootstrap, ack_bootstrap}
use mac_agent.Durable.Schema.{Tables}
use mac_agent.Protocol.Commands.{BootstrapStartPayload, BootstrapAckPayload}
use mac_agent.Protocol.MessageType
use mac_agent.Protocol.Payloads.{BootstrapBatchPayload, bootstrap_batch}
use mac_agent.Protocol.Types.{Message, Project, Thread, ThreadDetail}
use mac_agent.Agent.{Result, ok, err, Inventory, Service, Chances, message, reject}

-- `bootstrapProjectSnapshot`
pub record BootstrapProjectSnapshot : Type 0 where
  pub project : Project
  pub threads : List Thread

-- The projects with their threads, or the first error.
unfoldable pub load_projects : Inventory → List Project → Result (List BootstrapProjectSnapshot)
load_projects inventory [] = ok []
load_projects inventory (project ∷ projects) =
    let rest = load_projects inventory projects in
    elim (inventory.threads project.id) [
      | err text ↦ err text
      | ok threads ↦ elim rest [
        | err text ↦ err text
        | ok snapshots ↦ ok (record { project = project; threads = threads } ∷ snapshots)
      ]
    ]

unfoldable pub total_sessions : List BootstrapProjectSnapshot → Int64
total_sessions [] = 0
total_sessions (s ∷ rest) = add64 (length s.threads) (total_sessions rest)

-- `loadBootstrapSnapshot`
unfoldable pub load_bootstrap_snapshot : Inventory → Result (List BootstrapProjectSnapshot)
load_bootstrap_snapshot inventory = elim inventory.projects [
  | err text ↦ err text
  | ok projects ↦ load_projects inventory projects
]

-- One pass of the loops: a project without threads, or one thread of a project.
pub record Job : Type 0 where
  pub project : Project
  pub thread : Option Thread

abbrev pub jobs_of : BootstrapProjectSnapshot → List Job
jobs_of s = elim s.threads [
  | [] ↦ record { project = s.project; thread = none } ∷ []
  | thread ∷ threads ↦ map (λ t. record { project = s.project; thread = some t }) (thread ∷ threads)
]

unfoldable pub all_jobs : List BootstrapProjectSnapshot → List Job
all_jobs [] = []
all_jobs (s ∷ rest) = jobs_of s ++ all_jobs rest

-- What one `select` of `sendBootstrapBatch` takes.
pub data Waited : Type 0 where
  acked : BootstrapAckPayload → Waited
  timed_out stopped : Waited

-- What a part of a bootstrap leaving: the tables, what it published, what is still to come, and its
-- answer, where it has one.
pub record Sent : Type 0 where
  pub tables : Tables
  pub published : List Message
  pub rest : List Waited
  pub answer : Option Bool

abbrev pub leaving : Tables → List Waited → Option Bool → Sent
leaving t rest answer = record { tables = t; published = []; rest = rest; answer = answer }

abbrev pub behind : List Message → Sent → Sent
behind published s = record s { published = published ++ s.published }

-- `if !s.sendBootstrapBatch(…) { return }`
unfoldable pub go_on : Option Bool → Sent → Sent → Sent
go_on none sent later = sent
go_on (some true) sent later = behind sent.published later
go_on (some false) sent later = sent

-- `bootstrapReconciliationSafe`
abbrev pub reconciliation_safe : Int64 → Bool
reconciliation_safe last = lt64 last 0

-- The checksum is that of the batch without one.
abbrev pub signed : (BootstrapBatchPayload → String) → BootstrapBatchPayload → BootstrapBatchPayload
signed digest batch = record batch { checksum = digest (record batch { checksum = "" }) }

abbrev pub matches : BootstrapAckPayload → BootstrapBatchPayload → Bool
matches ack batch = ack.batch_no == batch.batch_no && str_eq ack.checksum batch.checksum

-- The entry of a sync in `bootstrapAcks` while it runs.
abbrev pub register :
    String → List (String × Option BootstrapAckPayload) → List (String × Option BootstrapAckPayload)
register sync_id waiters = (sync_id, none) ∷ waiters

unfoldable pub unregister :
    String → List (String × Option BootstrapAckPayload) → List (String × Option BootstrapAckPayload)
unregister sync_id [] = []
unregister sync_id ((other, waiting) ∷ rest) =
    let others = unregister sync_id rest in
    if str_eq other sync_id then others else (other, waiting) ∷ others

module _ (s : Service) (chances : Chances) where
  -- `readBootstrapThread`: a thread that cannot be read is sent without its turns.
  unfoldable pub read_bootstrap_thread : String → Thread → ThreadDetail
  read_bootstrap_thread project_id thread =
      elim (chances.inventory.read_thread project_id thread.id) [
        | ok detail ↦ detail.thread
        | err text ↦ record {
          id = thread.id;
          project_id = project_id;
          title = thread.title;
          preview = thread.preview;
          status = thread.status;
          source = thread.source;
          created_at = thread.updated_at;
          updated_at = thread.updated_at;
          turns = [];
        }
      ]

  abbrev pub batch_message : BootstrapBatchPayload → Message
  batch_message batch =
      message s (chances.stamp batch.batch_no) MessageType.bootstrap_batch batch.sync_id
        (bootstrap_batch batch)

  -- The store's answer to an acknowledgement is dropped.
  abbrev pub acknowledged : BootstrapBatchPayload → Tables → Tables
  acknowledged batch t =
      (ack_bootstrap (chances.faults (suc batch.batch_no)) (chances.now (suc batch.batch_no))
        batch.sync_id batch.batch_no batch.checksum batch.done t).0

module _ (s : Service) (chances : Chances) (accepts : Message → Bool)
    (digest : BootstrapBatchPayload → String) where
  -- The loop: an acknowledgement of anything else is dropped.
  unfoldable pub await : BootstrapBatchPayload → List Waited → Tables → Sent
  await batch [] t = leaving t [] none
  await batch (timed_out ∷ rest) t = leaving t rest (some false)
  await batch (stopped ∷ rest) t = leaving t rest (some false)
  await batch (acked ack ∷ rest) t =
      let later = await batch rest t in
      if matches ack batch then leaving (acknowledged s chances batch t) rest (some true) else later

  -- `sendBootstrapBatch`
  unfoldable pub send_bootstrap_batch : BootstrapBatchPayload → Int64 → List Waited → Tables → Sent
  send_bootstrap_batch unsigned last inputs t =
      let batch = signed digest unsigned in
      if le64 batch.batch_no last
      then leaving t inputs (some true)
      else if accepts (batch_message s chances batch)
      then behind (batch_message s chances batch ∷ []) (await batch inputs t)
      else behind (batch_message s chances batch ∷ []) (leaving t inputs (some false))

  module _ (command : BootstrapStartPayload) (snapshot_id : String) (total : Int64)
      (last : Int64) where
    -- The processed sessions, with that of the job.
    abbrev pub processed_after : Job → Int64 → Int64
    processed_after job processed = elim job.thread [
      | none ↦ processed
      | some thread ↦ add64 processed 1
    ]

    abbrev pub batch_of : Job → Int64 → Int64 → BootstrapBatchPayload
    batch_of job batch_no processed = record {
      command_id = command.command_id;
      sync_id = command.sync_id;
      snapshot_id = snapshot_id;
      batch_no = batch_no;
      checksum = "";
      total_sessions = total;
      processed_sessions = processed_after job processed;
      reconciliation_safe = false;
      project = some job.project;
      thread = elim job.thread [
        | none ↦ none
        | some thread ↦ some (read_bootstrap_thread s chances job.project.id thread)
      ];
      done = false;
    }

    abbrev pub final_batch : Int64 → Int64 → BootstrapBatchPayload
    final_batch batch_no processed = record {
      command_id = command.command_id;
      sync_id = command.sync_id;
      snapshot_id = snapshot_id;
      batch_no = batch_no;
      checksum = "";
      total_sessions = total;
      processed_sessions = processed;
      reconciliation_safe = reconciliation_safe last;
      project = none;
      thread = none;
      done = true;
    }

    -- The loops over projects and threads, and the final batch.
    unfoldable pub send_jobs : List Job → Int64 → Int64 → List Waited → Tables → Sent
    send_jobs [] batch_no processed inputs t =
        send_bootstrap_batch (final_batch batch_no processed) last inputs t
    send_jobs (job ∷ jobs) batch_no processed inputs t =
        let sent = send_bootstrap_batch (batch_of job batch_no processed) last inputs t in
        go_on sent.answer sent
          (send_jobs jobs (add64 batch_no 1) (processed_after job processed) sent.rest sent.tables)

  abbrev pub has_waiter : String → List (String × Option BootstrapAckPayload) → Bool
  has_waiter sync_id [] = false
  has_waiter sync_id ((other, waiting) ∷ rest) =
      if str_eq other sync_id then true else has_waiter sync_id rest

  abbrev refused_sync : String → String → Bytes → Tables → List Waited → Sent
  refused_sync sync_id code text t inputs =
      behind (reject s (chances.stamp 0) sync_id code text) (leaving t inputs (some false))

  -- `runBootstrap` of a service that has a store. `true` is the answer of a bootstrap whose final batch
  -- was acknowledged. A sync that has a waiter is running, and is not run again.
  unfoldable pub run_bootstrap :
      BootstrapStartPayload
      → List (String × Option BootstrapAckPayload)
      → List Waited
      → Tables
      → Sent
  run_bootstrap command waiters inputs t =
      let (t', prepared) =
        prepare_bootstrap (chances.faults 0) (chances.now 0) (chances.ids 0) command.sync_id
          command.command_id t in
      elim prepared [
        | Durable.err e ↦
            refused_sync command.sync_id "BOOTSTRAP_STORE_FAILED" (s.store_text e) t' inputs
        | Durable.ok (snapshot_id, last) ↦
            if has_waiter command.sync_id waiters
            then leaving t' inputs (some false)
            else elim (load_bootstrap_snapshot chances.inventory) [
              | err text ↦ refused_sync command.sync_id "BOOTSTRAP_INVENTORY_FAILED" text t' inputs
              | ok snapshots ↦
                  send_jobs command snapshot_id (total_sessions snapshots) last (all_jobs snapshots)
                    0 0 inputs t'
            ]
      ]
