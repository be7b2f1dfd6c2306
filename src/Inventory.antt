-- ===== src/Inventory.antt =====
-- internal/inventory/service.go: the projects and threads that the agent shows.
--
-- The app server's answers are parameters, with `time.Unix`, the decoders of an item, `json.Marshal`'s
-- length, `strings.Fields` joined by spaces, `sort.Slice` and the texts of errors. The workers of
-- `Threads` take the threads in order: here each has its preview before the next is taken.
pub mod Owners
pub mod Details
pub mod Fitting
pub mod Previews
pub mod Counting
use mac_agent.Base.{
  ℕ, zero, suc, String, Bool, true, false, Option, none, some, List, [], ◌∷◌, Bytes, Int64, add64,
  map, keep_if, is_empty, str_eq, ltb, ◌==◌, not, ◌&&◌, ◌||◌, if◌then◌else◌,
}
use mac_agent.Agent.{Result, ok, err, Inventory}
use mac_agent.CodexApp.{Turn, PermissionProfile, status_name, source_name, title}
use mac_agent.CodexApp
use mac_agent.Inventory.Owners.{project_index_by_id, project_owner}
use mac_agent.Inventory.Details.{Texts, thread_detail}
use mac_agent.Inventory.Fitting.{fit_thread_detail}
use mac_agent.Inventory.Previews.{PreviewEntry, latest_message_preview}
use mac_agent.Protocol.Payloads.{ExecutionProfileSnapshotPayload, ThreadDetailPayload}
use mac_agent.Protocol.Types.{Time, ExecutionProfile}
use mac_agent.Protocol.Types
use mac_agent.Workspace.{Project}
use mac_agent.Workspace.Directories.{Disk}

-- What the catalog and the app server answer, with the library's functions.
pub record App : Type 0 where
  pub disk : Disk
  pub texts : Texts
  pub projects : Result (List Project)
  pub list_threads : Result (List CodexApp.Thread)
  pub list_latest_turns : String → Result (List Turn)
  pub read_thread : String → Result CodexApp.Thread
  pub list_permission_profiles : Bytes → Result (List PermissionProfile)
  pub encoded_size : ThreadDetailPayload → ℕ
  pub sort_by_time : List Types.Thread → List Types.Thread
  pub victim : List PreviewEntry → ℕ
  pub not_found : String → Bytes
  pub not_owned : String → String → Bytes

unfoldable pub get_project : List Project → ℕ → Option Project
get_project [] i = none
get_project (p ∷ projects) zero = some p
get_project (p ∷ projects) (suc i) = get_project projects i

-- The project of an id, with its index.
abbrev pub indexed_project : List Project → String → Option (ℕ × Project)
indexed_project projects id = elim (project_index_by_id projects id) [
  | none ↦ none
  | some i ↦ elim (get_project projects i) [ none ↦ none | some p ↦ some (i, p) ]
]

-- The profile that a start without one uses.
unfoldable pub default_profile : String → List PermissionProfile → String
default_profile chosen [] = chosen
default_profile chosen (p ∷ profiles) =
    default_profile
      (if p.allowed && (is_empty chosen || str_eq p.id ":workspace") then p.id else chosen) profiles

abbrev pub shown_profile : PermissionProfile → ExecutionProfile
shown_profile p = record {
  id = p.id;
  description = elim p.description [ none ↦ [] | some text ↦ text ];
  allowed = p.allowed;
}

-- The count of one project's threads and the latest time of one, at an index.
unfoldable pub bump : ℕ → Time → List (Int64 × Time) → List (Int64 × Time)
bump i time [] = []
bump zero time ((count, latest) ∷ rest) =
    (add64 count 1, if ltb latest time then time else latest) ∷ rest
bump (suc i) time (entry ∷ rest) = entry ∷ bump i time rest

unfoldable pub no_threads : List Project → List (Int64 × Time)
no_threads [] = []
no_threads (p ∷ projects) = (0, 0) ∷ no_threads projects

-- The zero time is 0, and not shown.
unfoldable pub shown_projects : List Project → List (Int64 × Time) → List Types.Project
shown_projects (p ∷ projects) ((count, latest) ∷ rest) =
    record {
      id = p.id;
      name = p.name;
      path = p.path;
      thread_count = count;
      updated_at = if latest == 0 then none else some latest;
    }
    ∷ shown_projects projects rest
shown_projects (p ∷ projects) [] = []
shown_projects [] rest = []

abbrev pub is_index : ℕ → Option ℕ → Bool
is_index i none = false
is_index i (some j) = j == i

module _ (app : App) where
  -- `ExecutionProfiles`
  unfoldable pub execution_profiles : String → Result ExecutionProfileSnapshotPayload
  execution_profiles project_id = elim app.projects [
    | err text ↦ err text
    | ok projects ↦ elim (indexed_project projects project_id) [
      | none ↦ err (app.not_found project_id)
      | some (i, project) ↦ elim (app.list_permission_profiles project.path) [
        | err text ↦ err text
        | ok profiles ↦ ok (record {
          project_id = project_id;
          default_profile_id = default_profile "" profiles;
          profiles = map shown_profile profiles;
        })
      ]
    ]
  ]

  -- The loop over the threads.
  unfoldable pub tally :
      List Project → List CodexApp.Thread → List (Int64 × Time) → List (Int64 × Time)
  tally projects [] stats = stats
  tally projects (thread ∷ threads) stats =
      tally projects threads (elim (project_owner app.disk projects thread) [
        | none ↦ stats
        | some owner ↦ bump owner (app.texts.unix thread.updated_at) stats
      ])

  -- `Projects`
  unfoldable pub projects : Result (List Types.Project)
  projects = elim app.projects [
    | err text ↦ err text
    | ok listed ↦ elim app.list_threads [
      | err text ↦ err text
      | ok threads ↦ ok (shown_projects listed (tally listed threads (no_threads listed)))
    ]
  ]

  abbrev pub is_owned : List Project → ℕ → CodexApp.Thread → Bool
  is_owned listed i thread = is_index i (project_owner app.disk listed thread)

  abbrev pub shown_thread : String → CodexApp.Thread → Bytes → Types.Thread
  shown_thread project_id thread preview = record {
    id = thread.id;
    project_id = project_id;
    title = title app.texts.first_runes thread;
    preview = thread.preview;
    latest_message_preview = preview;
    status = status_name app.texts.type_of thread;
    source = source_name app.texts.as_text app.texts.custom_of thread;
    updated_at = app.texts.unix thread.updated_at;
  }

  -- What the workers make of the threads of a project, and the cache that they leave.
  unfoldable pub shown_threads :
      String → List CodexApp.Thread → List PreviewEntry → List Types.Thread × List PreviewEntry
  shown_threads project_id [] cache = ([], cache)
  shown_threads project_id (thread ∷ threads) cache =
      let (preview, cache') =
        latest_message_preview app.texts app.victim (app.list_latest_turns thread.id) thread
          cache in
      let (shown, last) = shown_threads project_id threads cache' in
      (shown_thread project_id thread preview ∷ shown, last)

  -- `Threads`
  unfoldable pub threads :
      String → List PreviewEntry → Result (List Types.Thread) × List PreviewEntry
  threads project_id cache = elim app.projects [
    | err text ↦ (err text, cache)
    | ok listed ↦ elim (indexed_project listed project_id) [
      | none ↦ (err (app.not_found project_id), cache)
      | some (i, project) ↦ elim app.list_threads [
        | err text ↦ (err text, cache)
        | ok all ↦
            let (shown, last) = shown_threads project.id (keep_if (is_owned listed i) all) cache in
            (ok (app.sort_by_time shown), last)
      ]
    ]
  ]

  -- `Fitting.fit_thread_detail-Answers` rules out that there is no fitted payload.
  abbrev pub fitted_detail : ThreadDetailPayload → ThreadDetailPayload
  fitted_detail p = elim (fit_thread_detail app.encoded_size p) [ none ↦ p | some q ↦ q ]

  -- `ReadThread`
  unfoldable pub read_thread : String → String → Result ThreadDetailPayload
  read_thread project_id thread_id = elim app.projects [
    | err text ↦ err text
    | ok listed ↦ elim (indexed_project listed project_id) [
      | none ↦ err (app.not_found project_id)
      | some (i, project) ↦ elim (app.read_thread thread_id) [
        | err text ↦ err text
        | ok thread ↦
            if not (str_eq thread.id thread_id) || not (is_owned listed i thread)
            then err (app.not_owned thread_id project_id)
            else ok (fitted_detail (thread_detail app.texts project_id thread))
      ]
    ]
  ]

  -- What the service is given, with a cache of previews.
  abbrev pub inventory_of : List PreviewEntry → Inventory
  inventory_of cache = record {
    projects = projects;
    threads = λ project_id. (threads project_id cache).0;
    read_thread = read_thread;
    execution_profiles = execution_profiles;
  }
