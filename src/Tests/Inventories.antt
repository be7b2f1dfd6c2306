-- ===== src/Tests/Inventories.antt =====
-- internal/workspace/catalog.go, internal/inventory/service.go and internal/config/config.go on
-- samples.
use mac_agent.Base.{
  ℕ, ◌≡◌, refl, true, false, none, some, [], ◌∷◌, codes, str_eq, if◌then◌else◌, arith,
}
use mac_agent.Agent.{ok, err}
use mac_agent.CodexApp.{Thread}
use mac_agent.Config.{
  Environment, Config, relay_required, timeout_not_positive, validate_serve, from_env,
  resolve_codex_state_file, with_timeout, with_lines, split_workspace_roots, roots_or_default,
}
use mac_agent.Config
use mac_agent.Config.Usable.{validate_serve-from_env}
use mac_agent.Inventory.{App, get_project}
use mac_agent.Inventory.Counting.{IsCounted, projects-IsCounted}
use mac_agent.Inventory.Details.{Texts}
use mac_agent.Inventory.Owners.{index_by_id}
use mac_agent.Protocol.Payloads.{ThreadDetailPayload}
use mac_agent.Protocol.Types.{ThreadHistoryTurn}
use mac_agent.Tests.Turns.{app}
use mac_agent.Turn.Items.{blank_item}
use mac_agent.Workspace.Catalog.{DesktopState, Catalog, list}
use mac_agent.Workspace.Directories.{Disk, absent}
use mac_agent.Workspace.Roots.{IsListed, list-IsListed}

abbrev disk : Disk
disk = record {
  trim = λ b. b;
  clean = λ b. b;
  abs = λ b. some b;
  rel = λ root path. some (codes ".");
  base = λ b. b;
  eval_symlinks = λ b. some b;
  is_dir = λ b. some true;
  git_stat = λ b. absent;
  name_of_digest = λ b. "project_0";
  sha256 = λ b. b;
}

abbrev desktop : DesktopState
desktop = record {
  local_projects = some (("p", record { name = codes "App"; root_paths = codes "/app" ∷ [] }) ∷ []);
  project_order = some ("p" ∷ "q" ∷ "p" ∷ []);
  thread_project_assignments =
      ("t", record { project_kind = "local"; project_id = "p"; cwd = codes "/app" }) ∷ [];
}

abbrev catalog : Catalog
catalog = record { roots = codes "/" ∷ []; state_file = codes "state.json" }

list-IsListed_example :
    IsListed disk catalog.roots []
      (list disk (λ path. some path) (λ text. some desktop) (λ n. false) catalog)
list-IsListed_example =
    list-IsListed disk (λ path. some path) (λ text. some desktop) (λ n. false) catalog

abbrev texts : Texts
texts = record {
  contents_of = λ b. [];
  texts_of = λ b. [];
  base_name = λ b. b;
  decode = λ b. none;
  type_of = λ b. none;
  as_text = λ b. none;
  custom_of = λ b. none;
  first_runes = λ b. none;
  joined_fields = λ b. b;
  unix = λ n. n;
}

abbrev thread : Thread
thread = record {
  id = "t";
  name = none;
  cwd = codes "/app";
  preview = codes "Fix it";
  status = [];
  source = [];
  created_at = 4;
  updated_at = 5;
  turns = [];
}

abbrev source : App
source = record {
  disk = disk;
  texts = texts;
  projects = ok (app ∷ []);
  list_threads = ok (thread ∷ record thread { id = "u" } ∷ []);
  list_latest_turns = λ id. err (codes "timeout");
  read_thread = λ id. ok thread;
  list_permission_profiles = λ path. ok [];
  encoded_size = λ p. 0;
  sort_by_time = λ ts. ts;
  victim = λ cache. 0;
  not_found = λ id. codes "project not found";
  not_owned = λ id project. codes "not owned";
}

projects-IsCounted_example : IsCounted source [] "app" 0 app
unfolding get_project index_by_id
projects-IsCounted_example =
    projects-IsCounted source (app ∷ []) (thread ∷ record thread { id = "u" } ∷ []) [] "app" 0 app
      refl refl (omega arith) (λ ts. refl) refl

abbrev turn : ThreadHistoryTurn
turn = record {
  id = "turn";
  status = "completed";
  started_at = none;
  completed_at = none;
  duration_ms = none;
  error = [];
  items = blank_item "a" "plan" ∷ blank_item "b" "plan" ∷ [];
  truncated = false;
}

abbrev detail : ThreadDetailPayload
detail = record {
  project_id = "app";
  thread = record {
    id = "t";
    project_id = "app";
    title = codes "Fix it";
    preview = [];
    status = "idle";
    source = "cli";
    created_at = 4;
    updated_at = 5;
    turns = turn ∷ turn ∷ [];
  };
  truncated = false;
}

-- A turn counts as 150 KiB.
abbrev size : ThreadDetailPayload → ℕ
size p = elim p.thread.turns [ [] ↦ 2 | t ∷ ts ↦ elim ts [ [] ↦ 153600 | u ∷ us ↦ 307200 ] ]

abbrev environment : Environment
environment = record {
  getenv = λ name. if str_eq name "AGENT_CODEX_STATE_FILE" then codes "/state" else [];
  hostname = codes "mac";
  home_dir = some (codes "/home");
  config_dir = none;
  temp_dir = codes "/tmp";
  trim = λ b. b;
  split_list = λ b. b ∷ [];
  join = λ a b. b;
  parse_duration = λ b. none;
  atoi = λ b. none;
}

abbrev loaded : Config
loaded = Config.initial environment (codes "/state") (codes "work" ∷ [])

environment-loads : from_env environment ≡ Config.ok loaded
unfolding from_env resolve_codex_state_file with_timeout with_lines split_workspace_roots
    roots_or_default
environment-loads = refl

validate_serve-from_env_example : validate_serve loaded ≡ some relay_required
validate_serve-from_env_example =
    validate_serve-from_env environment loaded (λ a b h. h) environment-loads
