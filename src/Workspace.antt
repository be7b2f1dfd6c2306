-- ===== src/Workspace.antt =====
-- internal/workspace/catalog.go: `Project` and what the clients of the catalog ask of it.
pub mod Directories
pub mod Catalog
pub mod Roots
use mac_agent.Base.{String, List, [], ◌∷◌, Bytes, str_eq, no_bytes, if◌then◌else◌}

-- The map of `ThreadCWDs` is an association list: of a key, the first entry counts.
pub record Project : Type 0 where
  pub id : String
  pub name : Bytes
  pub path : Bytes
  pub root_paths : List Bytes
  pub thread_cwds : List (String × Bytes)

pub data CatalogError : Type 0 where
  project_not_found catalog_failed : CatalogError

-- What `Resolve` returns.
pub data Resolved : Type 0 where
  ok : Project → Resolved
  err : CatalogError → Resolved

-- A missing key reads as the empty text.
unfoldable pub thread_cwd : String → List (String × Bytes) → Bytes
thread_cwd thread_id [] = []
thread_cwd thread_id ((key, cwd) ∷ entries) =
    if str_eq key thread_id then cwd else thread_cwd thread_id entries

unfoldable pub working_directory : Project → String → Bytes
unfolding thread_cwd
working_directory p thread_id =
    let cwd = thread_cwd thread_id p.thread_cwds in if no_bytes cwd then p.path else cwd
