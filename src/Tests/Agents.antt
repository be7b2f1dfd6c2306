-- ===== src/Tests/Agents.antt =====
-- internal/agent/service.go on samples.

use mac_agent.Base.{
  minus_one, ◌≡◌, refl, String, true, false, none, some, List, [], ◌∷◌, ◌++◌, ◌⊎◌, codes, arith,
}
use mac_agent.Agent.{ok, err, Inventory, Decoders, Service, Chances, State, deliver, durable_event}
use mac_agent.Agent.Answers.{IsAnswered, projects, handle-IsAnswered}
use mac_agent.Agent.Batches.{SendsSome, plan, messages, send_jobs-SendsSome, acks}
use mac_agent.Agent.Bootstrap.{
  BootstrapProjectSnapshot, total_sessions, all_jobs, timed_out, send_jobs,
}
use mac_agent.Agent.Completions.{IsCompleted, send_jobs-IsCompleted}
use mac_agent.Agent.Handle.{handle}
use mac_agent.Agent.Plans.{Counts, Ends, plan_lem}
use mac_agent.Agent.Starts.{IsLost, IsRecorded, deliver-IsRecorded}
use mac_agent.Durable.{prepare_run}
use mac_agent.Durable.Outbox.{no_faults}
use mac_agent.Durable.Bootstrap.{prepare_bootstrap, new_sync}
use mac_agent.Durable.Schema.{Tables, migrated, find_sync, sync_conflicts}
use mac_agent.Protocol.Commands.{BootstrapStartPayload}
use mac_agent.Protocol.MessageType
use mac_agent.Protocol.Payloads.{BootstrapBatchPayload}
use mac_agent.Protocol.Types.{Message, Project, Thread, AgentCapabilitiesPayload}
use mac_agent.Tests.Protocol.{status_message}
use mac_agent.Tests.Stores.{output}
use mac_agent.Tests.Turns.{json, agent, stamp, app, ask}
use mac_agent.Turn.{new_controller}
use mac_agent.Workspace

abbrev capabilities : AgentCapabilitiesPayload
capabilities = record {
  restricted = true;
  sandbox_mode = "workspace-write";
  approval_policy = "never";
  writable_scope = "project";
  network_access = false;
  can_request_approval = false;
  host_process_control = false;
  user_library_write = false;
  xcode_device_control = false;
  supports_permission_profiles = true;
  supports_source_read = true;
}

abbrev project : Project
project = record {
  id = "app";
  name = codes "App";
  path = codes "/app";
  thread_count = 1;
  updated_at = none;
}

abbrev thread : Thread
thread = record {
  id = "thread";
  project_id = "app";
  title = codes "Fix it";
  preview = [];
  latest_message_preview = [];
  status = "idle";
  source = "cli";
  updated_at = 5;
}

abbrev inventory : Inventory
inventory = record {
  projects = ok (project ∷ []);
  threads = λ id. ok (thread ∷ []);
  read_thread = λ id thread. err (codes "no such thread");
  execution_profiles =
      λ id. ok (record { project_id = id; default_profile_id = ""; profiles = [] });
}

abbrev decoders : Decoders
decoders = record {
  profile_list = λ b. ok (record { project_id = "app" });
  thread_list = λ b. ok (record { project_id = "app" });
  thread_read = λ b. ok (record { project_id = "app"; thread_id = "thread" });
  source_read = λ b. err (codes "no source");
  turn_start = λ b. ok ask;
  turn_interrupt = λ b. ok (record { thread_id = "thread"; turn_id = "turn" });
  turn_acknowledged = λ b. ok (record { turn_id = "turn"; status = "completed" });
  runtime_ack = λ b. ok (record { run_id = "r"; agent_sequence = 1 });
  bootstrap_start = λ b. ok (record { command_id = "c"; sync_id = "sync" });
  bootstrap_ack = λ b. ok (record { sync_id = "sync"; batch_no = 0; checksum = "" });
}

abbrev service : Service
service = record {
  name = "mac";
  version = "1";
  sender = agent;
  capabilities = capabilities;
  source_reader = none;
  resolve = λ id. Workspace.ok app;
  decoders = decoders;
  marshal = json;
  command_json = λ p. codes "{}";
  store_text = λ e. codes "store";
  start_text = λ e. codes "start";
  unsupported_text = λ t. codes "unsupported";
}

abbrev chances : Chances
chances = record {
  stamp = λ n. stamp;
  now = λ n. n;
  ids = λ n. "id";
  faults = λ n. no_faults;
  inventory = inventory;
}

abbrev state_with : Tables → State
state_with t = record { controller = new_controller 2; durable = some t; bootstrap_acks = [] }

abbrev question : Message
question = record status_message { type = MessageType.project_list }

handle-IsAnswered_example :
    IsAnswered service chances projects question
      (state_with migrated)
      (handle service chances question (state_with migrated))
handle-IsAnswered_example =
    handle-IsAnswered service chances projects question (state_with migrated) refl

abbrev start_message : Message
start_message = record status_message { type = MessageType.turn_start }

-- The store that has taken the command of `ask`.
abbrev taken : Tables
taken = (prepare_run no_faults 1 "r" "c" (codes "{}") migrated).0

deliver-IsRecorded_example :
    IsLost taken (deliver no_faults 4 "r" output (some taken))
    ⊎ IsRecorded 4 "r" output taken (deliver no_faults 4 "r" output (some taken))
deliver-IsRecorded_example =
    deliver-IsRecorded no_faults 4 "r" output taken (unfold durable_event in refl)

abbrev snapshots : List BootstrapProjectSnapshot
snapshots = record { project = project; threads = thread ∷ [] } ∷ []

abbrev command : BootstrapStartPayload
command = record { command_id = "c"; sync_id = "sync" }

abbrev digest : BootstrapBatchPayload → String
digest b = "sum"

abbrev batches : List BootstrapBatchPayload
batches = plan service chances (λ m. true) digest command "snapshot" 1 0 (all_jobs snapshots) 0 0

plan_lem_example : Counts 0 batches × Ends 1 batches
unfolding total_sessions
plan_lem_example =
    plan_lem service chances (λ m. true) digest command "snapshot" 0 snapshots
      (unfold all_jobs in omega arith)

send_jobs-SendsSome_example :
    SendsSome (messages service chances (λ m. true) digest command "snapshot" 1 0 batches) (
      send_jobs service chances
        (λ m. true)
        digest
        command
        "snapshot"
        1
        0
        (all_jobs snapshots)
        0
        0
        (timed_out ∷ [])
        migrated)
send_jobs-SendsSome_example =
    send_jobs-SendsSome service chances (λ m. true) digest command "snapshot" 1 0
      (all_jobs snapshots) 0 0 (timed_out ∷ []) migrated

abbrev new_batches : List BootstrapBatchPayload
new_batches =
    plan service chances (λ m. true) digest command "snapshot" 1 minus_one (all_jobs snapshots) 0 0

-- The store that has taken the command of the bootstrap.
abbrev prepared : Tables
prepared = (prepare_bootstrap no_faults 1 "snapshot" "sync" "c" migrated).0

prepared_sync : find_sync "sync" prepared.bootstrap_syncs ≡ some (new_sync 1 "sync" "c" "snapshot")
unfolding prepare_bootstrap find_sync sync_conflicts
prepared_sync = refl

send_jobs-IsCompleted_example :
    IsCompleted service chances
      (λ m. true)
      digest
      command
      "snapshot"
      1
      minus_one
      (all_jobs snapshots)
      0
      0
      []
      (send_jobs service chances
        (λ m. true)
        digest
        command
        "snapshot"
        1
        minus_one
        (all_jobs snapshots)
        0
        0
        (acks service chances (λ m. true) digest command "snapshot" 1 minus_one new_batches ++ [])
        prepared)
send_jobs-IsCompleted_example =
    send_jobs-IsCompleted service chances (λ m. true) digest command "snapshot" 1 minus_one
      (all_jobs snapshots) 0 0 [] prepared (new_sync 1 "sync" "c" "snapshot")
      (unfold plan all_jobs in (refl, (refl, tt))) (λ k. refl)
      (unfold all_jobs in (omega arith, refl)) prepared_sync (λ m le lt due. due)
