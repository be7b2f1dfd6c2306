-- ===== src/Workspace/Directories.antt =====
-- internal/workspace/catalog.go: directories, and the paths below them.
--
-- The file system, `filepath`, `strings.TrimSpace` and the digest are parameters.
use mac_agent.Base.{
  ℕ, String, Bool, true, false, Option, none, some, List, [], ◌∷◌, Bytes, codes, length, take,
  is_some, no_bytes, bytes_eq, ltb, not, ◌&&◌, ◌||◌, if◌then◌else◌,
}
use mac_agent.Workspace.{Project}

-- What `os.Stat` answers of ".git" in a directory.
pub data GitStat : Type 0 where
  present absent unknown : GitStat

-- The functions on paths and the file system.
pub record Disk : Type 0 where
  pub trim : Bytes → Bytes
  pub clean : Bytes → Bytes
  pub abs : Bytes → Option Bytes
  pub rel : Bytes → Bytes → Option Bytes
  pub base : Bytes → Bytes
  pub eval_symlinks : Bytes → Option Bytes
  pub is_dir : Bytes → Option Bool
  pub git_stat : Bytes → GitStat
  -- "project_" and 12 bytes of the digest in hexadecimal.
  pub name_of_digest : Bytes → String
  pub sha256 : Bytes → Bytes

-- A map of Go as a set of keys.
abbrev pub has_key : Bytes → List Bytes → Bool
has_key key [] = false
has_key key (k ∷ keys) = bytes_eq k key || has_key key keys

-- The prefix "../", or "..", of a path that leaves the root.
unfoldable pub stays : Option Bytes → Bool
stays none = false
stays (some relative) =
    bytes_eq relative (codes ".")
    || (not (bytes_eq relative (codes "..")) && not (bytes_eq (take 3 relative) (codes "../")))

module _ (disk : Disk) where
  -- `pathWithin`
  unfoldable pub path_within : Bytes → Bytes → Bool
  path_within root path = stays (disk.rel (disk.clean root) (disk.clean path))

  -- `containsAny`
  unfoldable pub contains_any : List Bytes → Bytes → Bool
  contains_any [] path = false
  contains_any (root ∷ roots) path =
      let rest = contains_any roots path in if path_within root path then true else rest

  abbrev pub directory_at : Bytes → Option (Bytes × Bytes)
  directory_at logical = elim (disk.eval_symlinks logical) [
    | none ↦ none
    | some canonical ↦ elim (disk.is_dir canonical) [
      | none ↦ none
      | some is_dir ↦ if is_dir then some (logical, canonical) else none
    ]
  ]

  -- `existingDirectory`: the logical and the canonical path.
  unfoldable pub existing_directory : Bytes → Option (Bytes × Bytes)
  existing_directory path =
      let trimmed = disk.trim path in
      if no_bytes trimmed then none else elim (disk.abs trimmed) [
        | none ↦ none
        | some absolute ↦ directory_at (disk.clean absolute)
      ]

  -- The longest root that has the path, by its length; `none` is -1.
  unfoldable pub longest_match : List Bytes → Bytes → Option ℕ → Option ℕ
  longest_match [] path longest = longest
  longest_match (root ∷ roots) path longest =
      let longer : Bool = elim longest [ none ↦ true | some n ↦ ltb n (length root) ] in
      longest_match roots path
        (if path_within root path && longer then some (length root) else longest)

  abbrev pub roots_of : Project → List Bytes
  roots_of p = elim p.root_paths [
    | [] ↦ if no_bytes p.path then [] else p.path ∷ []
    | root ∷ roots ↦ root ∷ roots
  ]

  -- `MatchPath`
  unfoldable pub match_path : Project → Bytes → Option ℕ
  match_path p path = longest_match (roots_of p) path none

  -- `ContainsPath`
  abbrev pub contains_path : Project → Bytes → Bool
  contains_path p path = is_some (match_path p path)

  -- `allowedProjectRoots`: the pairs of its two results, behind the canonical paths seen.
  unfoldable pub allowed_roots : List Bytes → List Bytes → List Bytes → List (Bytes × Bytes)
  allowed_roots roots seen [] = []
  allowed_roots roots seen (value ∷ values) =
      let skipped = allowed_roots roots seen values in
      elim (existing_directory value) [
        | none ↦ skipped
        | some (logical, canonical) ↦
            if not (contains_any roots canonical) || has_key canonical seen
            then skipped
            else (logical, canonical) ∷ allowed_roots roots (canonical ∷ seen) values
      ]
