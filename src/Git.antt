-- ===== src/Git.antt =====
-- internal/result/git.go: the changed files that `git status --porcelain=v1 -z` lists, and which
-- directories the search for repositories enters.
pub mod Listing
use mac_agent.Base.{
  ℕ, suc, String, Bool, true, false, List, [], ◌∷◌, ◌++◌, Bytes, codes, bytes_eq, length, take,
  drop, ltb, ◌==◌, not, ◌&&◌, ◌||◌, if◌then◌else◌,
}
use mac_agent.Durable.Pending.{text_le}
use mac_agent.Source.Lines.{split}
use mac_agent.Source.{has_prefix, has_byte, any_of}

-- `sort.Strings`
unfoldable pub insert_text : Bytes → List Bytes → List Bytes
insert_text text [] = text ∷ []
insert_text text (other ∷ rest) =
    let later = insert_text text rest in
    if text_le text other then text ∷ other ∷ rest else other ∷ later

unfoldable pub sort_texts : List Bytes → List Bytes
sort_texts [] = []
sort_texts (text ∷ rest) = insert_text text (sort_texts rest)

-- A status with an "R" or a "C".
unfoldable pub is_renamed : Bytes → Bool
is_renamed status = has_byte 82 status || has_byte 67 status

-- The loop over the entries; `skips` is whether the entry is the old name of the one before.
unfoldable pub changed_paths : (skips : Bool) → List Bytes → List Bytes
changed_paths skips [] = []
changed_paths skips (entry ∷ entries) =
    let listed = not skips && not (ltb (length entry) 4) in
    let rest = changed_paths (listed && is_renamed (take 2 entry)) entries in
    if listed then drop 3 entry ∷ rest else rest

unfoldable pub parse_porcelain_z : Bytes → List Bytes
parse_porcelain_z output = sort_texts (changed_paths false (split 0 output))

unfoldable pub skip_discovery_directory : Bytes → Bool
skip_discovery_directory name =
    has_prefix (codes ".") name
    || any_of (bytes_eq name) (
        codes "node_modules"
        ∷ codes "vendor"
        ∷ codes "DerivedData"
        ∷ codes "build"
        ∷ codes "dist"
        ∷ [])
