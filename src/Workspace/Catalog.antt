-- ===== src/Workspace/Catalog.antt =====
-- internal/workspace/catalog.go: the catalogs of projects.
--
-- The decoding of the desktop's state is a parameter; `stops` says of the calls of `ctx.Err`, by their place, which return an error. A
-- decoded map is an association list. Of errors, their kind is kept.
use mac_agent.Base.{
  ℕ, suc, String, Bool, Option, none, some, List, [], ◌∷◌, Bytes, take, map, is_empty, no_bytes,
  str_eq, not, ◌||◌, if◌then◌else◌,
}
use mac_agent.Workspace.{Project, Resolved, project_not_found, catalog_failed}
use mac_agent.Workspace
use mac_agent.Workspace.Directories.{
  Disk, present, absent, unknown, has_key, contains_any, existing_directory, allowed_roots,
}

pub record DesktopProject : Type 0 where
  pub name : Bytes
  pub root_paths : List Bytes

pub record ThreadAssignment : Type 0 where
  pub project_kind : String
  pub project_id : String
  pub cwd : Bytes

pub record DesktopState : Type 0 where
  pub local_projects : Option (List (String × DesktopProject))
  pub project_order : Option (List String)
  pub thread_project_assignments : List (String × ThreadAssignment)

pub data ListError : Type 0 where
  ended unreadable undecodable incomplete : ListError

pub data Listed : Type 0 where
  ok : List Project → Listed
  err : ListError → Listed

-- What `Catalog` holds.
pub record Catalog : Type 0 where
  pub roots : List Bytes
  pub state_file : Bytes

abbrev pub find_project : String → List (String × DesktopProject) → Option DesktopProject
find_project id [] = none
find_project id ((key, p) ∷ rest) = if str_eq key id then some p else find_project id rest

module _ (disk : Disk) where
  abbrev pub put_root : Bytes → Option (List Bytes) → Option (List Bytes)
  put_root canonical none = none
  put_root canonical (some values) = some (canonical ∷ values)

  -- The loop of `canonicalRoots`, with the set of the roots seen.
  unfoldable pub distinct_roots : List Bytes → List Bytes → Option (List Bytes)
  distinct_roots seen [] = some []
  distinct_roots seen (root ∷ roots) =
      let skipped = distinct_roots seen roots in
      if no_bytes (disk.trim root)
      then skipped
      else elim (existing_directory disk (disk.trim root)) [
        | none ↦ none
        | some (logical, canonical) ↦
            if has_key canonical seen
            then skipped
            else put_root canonical (distinct_roots (canonical ∷ seen) roots)
      ]

  unfoldable pub canonical_roots : List Bytes → Option (List Bytes)
  canonical_roots roots = elim (distinct_roots [] roots) [
    | none ↦ none
    | some [] ↦ none
    | some (root ∷ rest) ↦ some (root ∷ rest)
  ]

  -- `NewCodexCatalog`
  unfoldable pub new_codex_catalog : List Bytes → Bytes → Option Catalog
  new_codex_catalog roots state_file = elim (canonical_roots roots) [
    | none ↦ none
    | some canonical ↦
        if no_bytes (disk.trim state_file) then none else elim (disk.abs (disk.trim state_file)) [
          | none ↦ none
          | some absolute ↦ some (record { roots = canonical; state_file = disk.clean absolute })
        ]
  ]

  -- The entries of `ThreadCWDs`: assignments of the project to directories below its roots.
  unfoldable pub assigned :
      String → List Bytes → List (String × ThreadAssignment) → List (String × Bytes)
  assigned id canonical_paths [] = []
  assigned id canonical_paths ((thread_id, a) ∷ rest) =
      let others = assigned id canonical_paths rest in
      if not (str_eq a.project_kind "local")
        || is_empty a.project_id
        || no_bytes a.cwd
        || not (str_eq a.project_id id)
      then others
      else elim (existing_directory disk a.cwd) [
        | none ↦ others
        | some (logical, canonical) ↦
            if contains_any disk canonical_paths canonical
            then (thread_id, logical) ∷ others
            else others
      ]

  -- `projectID`
  unfoldable pub project_id : Bytes → String
  project_id path = disk.name_of_digest (take 12 (disk.sha256 path))

  abbrev pub named : Bytes → Bytes → Bytes
  named name root = if no_bytes (disk.trim name) then disk.base root else disk.trim name

  -- A project of its first root and the others.
  abbrev pub project_of :
      String
      → DesktopProject
      → Bytes × Bytes
      → List (Bytes × Bytes)
      → List (String × ThreadAssignment)
      → Project
  project_of id metadata (logical, canonical) rest assignments = record {
    id = project_id canonical;
    name = named metadata.name logical;
    path = logical;
    root_paths = logical ∷ map (λ p. p.0) rest;
    thread_cwds = assigned id (canonical ∷ map (λ p. p.1) rest) assignments;
  }

  abbrev pub put_project : Project → Listed → Listed
  put_project p (ok projects) = ok (p ∷ projects)
  put_project p (err e) = err e

  module _ (stops : ℕ → Bool) (roots : List Bytes) (projects : List (String × DesktopProject))
      (assignments : List (String × ThreadAssignment)) where
    -- The loop over `ProjectOrder`, with the primary paths seen.
    unfoldable pub list_projects : ℕ → List Bytes → List String → Listed
    list_projects n seen [] = ok []
    list_projects n seen (id ∷ order) =
        let skipped = list_projects (suc n) seen order in
        if stops n then err ended else elim (find_project id projects) [
          | none ↦ skipped
          | some metadata ↦ elim (allowed_roots disk roots [] metadata.root_paths) [
            | [] ↦ skipped
            | (logical, canonical) ∷ rest ↦
                if has_key canonical seen
                then skipped
                else put_project (project_of id metadata (logical, canonical) rest assignments)
                    (list_projects (suc n) (canonical ∷ seen) order)
          ]
        ]

  module _ (read_file : Bytes → Option Bytes) (decode : Bytes → Option DesktopState) where
    abbrev pub list_state : (ℕ → Bool) → List Bytes → DesktopState → Listed
    list_state stops roots state = elim state.local_projects [
      | none ↦ err incomplete
      | some projects ↦ elim state.project_order [
        | none ↦ err incomplete
        | some order ↦
            list_projects stops roots projects state.thread_project_assignments 1 [] order
      ]
    ]

    -- `Catalog.List`
    unfoldable pub list : (ℕ → Bool) → Catalog → Listed
    list stops c = if stops 0 then err ended else elim (read_file c.state_file) [
      | none ↦ err unreadable
      | some text ↦ elim (decode text) [
        | none ↦ err undecodable
        | some state ↦ list_state stops c.roots state
      ]
    ]

    abbrev pub first_named : String → List Project → Resolved
    first_named id [] = Workspace.err project_not_found
    first_named id (p ∷ projects) =
        if str_eq p.id id then Workspace.ok p else first_named id projects

    -- `Catalog.Resolve`
    unfoldable pub resolve : (ℕ → Bool) → Catalog → String → Resolved
    resolve stops c id = elim (list stops c) [
      | err e ↦ Workspace.err catalog_failed
      | ok projects ↦ first_named id projects
    ]

  -- `NewGitProjectCatalog`: the project of a `StaticCatalog`.
  unfoldable pub new_git_project_catalog : Bytes → Option Project
  new_git_project_catalog path = elim (existing_directory disk path) [
    | none ↦ none
    | some (logical, canonical) ↦ elim (disk.git_stat canonical) [
      | absent ↦ none
      | unknown ↦ none
      | present ↦ some (record {
        id = project_id canonical;
        name = disk.base canonical;
        path = canonical;
        root_paths = canonical ∷ [];
        thread_cwds = [];
      })
    ]
  ]

-- `StaticCatalog.List`
abbrev pub static_list : Bool → Project → Listed
static_list stopped p = if stopped then err ended else ok (p ∷ [])

-- `StaticCatalog.Resolve`
abbrev pub static_resolve : Bool → Project → String → Resolved
static_resolve stopped p id =
    if stopped
    then Workspace.err catalog_failed
    else if not (str_eq p.id id)
    then Workspace.err project_not_found
    else Workspace.ok p
