-- ===== src/Inventory/Owners.antt =====
-- internal/inventory/service.go: `projectOwner` and `projectIndexByID`.
use mac_agent.Base.{
  ℕ, suc, String, Bool, true, false, Option, none, some, List, [], ◌∷◌, Bytes, str_eq, ltb, ◌||◌,
  if◌then◌else◌,
}
use mac_agent.CodexApp.{Thread}
use mac_agent.Workspace.{Project}
use mac_agent.Workspace.Directories.{Disk, match_path}

-- An index is counted from `n`; `none` is -1.
unfoldable pub index_by_id : String → ℕ → List Project → Option ℕ
index_by_id id n [] = none
index_by_id id n (p ∷ projects) =
    let rest = index_by_id id (suc n) projects in if str_eq p.id id then some n else rest

-- `projectIndexByID`
abbrev pub project_index_by_id : List Project → String → Option ℕ
project_index_by_id projects id = index_by_id id 0 projects

-- Whether `ThreadCWDs` has the key.
unfoldable pub is_assigned : String → List (String × Bytes) → Bool
is_assigned id [] = false
is_assigned id ((key, cwd) ∷ entries) = str_eq key id || is_assigned id entries

-- The first project to which the thread is assigned.
unfoldable pub assigned_owner : String → ℕ → List Project → Option ℕ
assigned_owner id n [] = none
assigned_owner id n (p ∷ projects) =
    let rest = assigned_owner id (suc n) projects in
    if is_assigned id p.thread_cwds then some n else rest

-- `match > longestMatch`
abbrev pub exceeds : Option ℕ → Option ℕ → Bool
exceeds none longest = false
exceeds (some n) none = true
exceeds (some n) (some longest) = ltb longest n

module _ (disk : Disk) where
  -- The second loop of `projectOwner`.
  unfoldable pub closest : Bytes → ℕ → List Project → Option ℕ → Option ℕ → Option ℕ
  closest cwd n [] owner longest = owner
  closest cwd n (p ∷ projects) owner longest =
      let match = match_path disk p cwd in
      let better = closest cwd (suc n) projects (some n) match in
      let same = closest cwd (suc n) projects owner longest in
      if exceeds match longest then better else same

  -- `projectOwner`
  unfoldable pub project_owner : List Project → Thread → Option ℕ
  project_owner projects thread = elim (assigned_owner thread.id 0 projects) [
    | some index ↦ some index
    | none ↦ closest thread.cwd 0 projects none none
  ]
