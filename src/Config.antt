-- ===== src/Config.antt =====
-- internal/config/config.go: the configuration, and what makes it usable.
--
-- The environment, the directories of the system, `filepath`, `strings.TrimSpace` and the parsing of
-- numbers and durations are parameters. Durations are nanoseconds. Of errors, their kind is kept.
pub mod Usable
use mac_agent.Base.{
  by_test, ◌*◌, ◌≡◌, refl, ◌≢◌, String, Bool, true, false, Option, none, some, List, [], ◌∷◌, Bytes,
  Int64, codes, no_bytes, lt64, le64, if◌then◌else◌, Bool-cases, inl, inr, arith,
}

pub data ConfigError : Type 0 where
  no_home bad_timeout bad_lines relay_required state_file_required root_required : ConfigError
  binary_required timeout_not_positive lines_not_positive : ConfigError

pub data Loaded {ℓ} (A : Type ℓ) : Type ℓ where
  ok : A → Loaded A
  err : ConfigError → Loaded A

pub record Environment : Type 0 where
  pub getenv : String → Bytes
  pub hostname : Bytes
  pub home_dir : Option Bytes
  pub config_dir : Option Bytes
  pub temp_dir : Bytes
  pub trim : Bytes → Bytes
  pub split_list : Bytes → List Bytes
  pub join : Bytes → Bytes → Bytes
  pub parse_duration : Bytes → Option Int64
  pub atoi : Bytes → Option Int64

pub record Config : Type 0 where
  pub relay_url : Bytes
  pub workspace_roots : List Bytes
  pub codex_state_file : Bytes
  pub codex_binary : Bytes
  pub agent_name : Bytes
  pub turn_timeout : Int64
  pub log_buffer_lines : Int64
  pub max_diff_bytes : Int64
  pub runtime_db_path : Bytes

abbrev pub default_turn_timeout : Int64
default_turn_timeout = 3 * 3600 * 1000000000

abbrev pub default_log_buffer_lines : Int64
default_log_buffer_lines = 500

abbrev pub default_max_diff_bytes : Int64
default_max_diff_bytes = 128 * 1024

abbrev pub has_none : List Bytes → Bool
has_none [] = true
has_none (root ∷ roots) = false

-- `ValidateTurn`
unfoldable pub validate_turn : Config → Option ConfigError
validate_turn c =
    if has_none c.workspace_roots
    then some root_required
    else if no_bytes c.codex_binary
    then some binary_required
    else if le64 c.turn_timeout 0
    then some timeout_not_positive
    else if lt64 c.log_buffer_lines 1
    then some lines_not_positive
    else none

-- `ValidateServe`
unfoldable pub validate_serve : Config → Option ConfigError
validate_serve c =
    if no_bytes c.relay_url
    then some relay_required
    else if no_bytes c.codex_state_file
    then some state_file_required
    else validate_turn c

module _ (e : Environment) where
  unfoldable pub kept_roots : List Bytes → List Bytes
  kept_roots [] = []
  kept_roots (part ∷ parts) =
      let rest = kept_roots parts in if no_bytes (e.trim part) then rest else e.trim part ∷ rest

  -- `splitWorkspaceRoots`
  unfoldable pub split_workspace_roots : Bytes → List Bytes
  split_workspace_roots value =
      if no_bytes (e.trim value) then [] else kept_roots (e.split_list value)

  -- `envOrDefault`
  abbrev pub env_or_default : String → Bytes → Bytes
  env_or_default name fallback = if no_bytes (e.getenv name) then fallback else e.getenv name

  -- `defaultWorkspaceRoot`
  abbrev pub default_workspace_root : Loaded Bytes
  default_workspace_root = elim e.home_dir [
    | none ↦ err no_home
    | some home ↦ ok (e.join home (codes "work"))
  ]

  -- `defaultRuntimeDBPath`
  unfoldable pub default_runtime_db_path : Bytes
  default_runtime_db_path =
      let value = e.trim (e.getenv "AGENT_RUNTIME_DB_PATH") in
      if no_bytes value
      then elim e.config_dir [
        | none ↦ e.join e.temp_dir (codes "codex-remote-agent.sqlite3")
        | some directory ↦
            e.join (e.join directory (codes "Codex Remote")) (codes "agent-runtime.sqlite3")
      ]
      else value

  abbrev pub state_file_of : Bytes → Bytes
  state_file_of codex_home = e.join codex_home (codes ".codex-global-state.json")

  -- `resolveCodexStateFile`
  unfoldable pub resolve_codex_state_file : Loaded Bytes
  resolve_codex_state_file =
      let value = e.trim (e.getenv "AGENT_CODEX_STATE_FILE") in
      let codex_home = e.trim (e.getenv "CODEX_HOME") in
      if no_bytes value
      then if no_bytes codex_home
        then elim e.home_dir [
          | none ↦ err no_home
          | some home ↦ ok (state_file_of (e.join home (codes ".codex")))
        ]
        else ok (state_file_of codex_home)
      else ok value

  unfoldable pub roots_or_default : List Bytes → Loaded (List Bytes)
  roots_or_default [] = elim default_workspace_root [
    | ok root ↦ ok (root ∷ [])
    | err error ↦ err error
  ]
  roots_or_default (root ∷ roots) = ok (root ∷ roots)

  abbrev pub initial : Bytes → List Bytes → Config
  initial state_file roots = record {
    relay_url = e.getenv "AGENT_RELAY_URL";
    workspace_roots = roots;
    codex_state_file = state_file;
    codex_binary = env_or_default "AGENT_CODEX_BINARY" (codes "codex");
    agent_name = env_or_default "AGENT_NAME" e.hostname;
    turn_timeout = default_turn_timeout;
    log_buffer_lines = default_log_buffer_lines;
    max_diff_bytes = default_max_diff_bytes;
    runtime_db_path = default_runtime_db_path;
  }

  unfoldable pub with_lines : Config → Loaded Config
  with_lines c =
      let value = e.getenv "AGENT_LOG_BUFFER_LINES" in
      if no_bytes value then ok c else elim (e.atoi value) [
        | none ↦ err bad_lines
        | some lines ↦
            if lt64 lines 1 then err bad_lines else ok (record c { log_buffer_lines = lines })
      ]

  unfoldable pub with_timeout : Config → Loaded Config
  with_timeout c =
      let value = e.getenv "AGENT_TURN_TIMEOUT" in
      if no_bytes value then with_lines c else elim (e.parse_duration value) [
        | none ↦ err bad_timeout
        | some duration ↦ with_lines (record c { turn_timeout = duration })
      ]

  -- `FromEnv`
  unfoldable pub from_env : Loaded Config
  from_env = elim resolve_codex_state_file [
    | err error ↦ err error
    | ok state_file ↦
        elim (roots_or_default (split_workspace_roots (e.getenv "AGENT_WORKSPACE_ROOTS"))) [
          | err error ↦ err error
          | ok roots ↦ with_timeout (initial state_file roots)
        ]
  ]
