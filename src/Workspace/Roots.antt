-- ===== src/Workspace/Roots.antt =====
-- What the listed projects may reach.
use mac_agent.Base.{
  if_both, by_test, by_some, by_list, ◌≡◌, refl, ℕ, suc, String, Bool, true, false, Option, some,
  List, [], ◌∷◌, Bytes, All, map, not, ◌||◌, arith,
}
use mathlib.Core.Path.{subst}
use mac_agent.Workspace.{Project}
use mac_agent.Workspace.Directories.{Disk, has_key, contains_any, existing_directory, allowed_roots}
use mac_agent.Workspace.Catalog.{
  find_project, DesktopProject, ThreadAssignment, DesktopState, ok, err, Listed, Catalog, assigned,
  project_id, put_project, list_projects, list,
}

module _ (disk : Disk) where
  -- An existing directory, by its logical and its canonical path, below one of the roots.
  abbrev pub IsAllowed : List Bytes → Bytes × Bytes → Type 0
  IsAllowed roots p =
      (value : Bytes) × (existing_directory disk value ≡ some p)
      × (contains_any disk roots p.1 ≡ true)

  allowed_roots-IsAllowed :
      (roots seen values : List Bytes)
      → All (IsAllowed roots) (allowed_roots disk roots seen values)
  unfolding allowed_roots
  allowed_roots-IsAllowed roots seen [] = tt
  allowed_roots-IsAllowed roots seen (value ∷ values) =
      by_some (All (IsAllowed roots)) (existing_directory disk value) _ _
        (allowed_roots-IsAllowed roots seen values)
        (λ (p : Bytes × Bytes) e.
          by_test (All (IsAllowed roots)) (not (contains_any disk roots p.1) || has_key p.1 seen) _
            _ (λ t. allowed_roots-IsAllowed roots seen values)
            (λ t.
              ((value, e, ground (arith, t)), allowed_roots-IsAllowed roots (p.1 ∷ seen) values)))

  -- A thread's directory, below one of the project's.
  abbrev pub IsInside : List Bytes → String × Bytes → Type 0
  IsInside canonical_paths entry =
      (canonical : Bytes) × IsAllowed canonical_paths (entry.1, canonical)

  assigned-IsInside :
      (id : String) (canonical_paths : List Bytes) (entries : List (String × ThreadAssignment))
      → All (IsInside canonical_paths) (assigned disk id canonical_paths entries)
  unfolding assigned
  assigned-IsInside id canonical_paths [] = tt
  assigned-IsInside id canonical_paths ((thread_id, a) ∷ rest) =
      let others = assigned-IsInside id canonical_paths rest in
      if_both (All (IsInside canonical_paths)) _ _ _ others (
        by_some (All (IsInside canonical_paths)) (existing_directory disk a.cwd) _ _ others
          (λ (p : Bytes × Bytes) e.
            by_test (All (IsInside canonical_paths)) (contains_any disk canonical_paths p.1) _ _
              (λ t. ((p.1, (a.cwd, e, t)), others)) (λ t. others)))

  -- The directories of a project, the primary one first.
  pub record Directories : Type 0 where
    pub primary : Bytes × Bytes
    pub others : List (Bytes × Bytes)

  abbrev pub logical_paths : Directories → List Bytes
  logical_paths d = d.primary.0 ∷ map (λ p. p.0) d.others

  abbrev pub canonical_paths : Directories → List Bytes
  canonical_paths d = d.primary.1 ∷ map (λ p. p.1) d.others

  -- Every directory of the project exists below an allowed root, and every thread's directory exists
  -- below one of the project's.
  abbrev pub IsGuarded : List Bytes → Directories → Project → Type 0
  IsGuarded roots d p =
      (p.path ≡ d.primary.0)
      × (p.root_paths ≡ logical_paths d)
      × (p.id ≡ project_id disk d.primary.1)
      × All (IsAllowed roots) (d.primary ∷ d.others)
      × All (IsInside (canonical_paths d)) p.thread_cwds

  -- The projects are guarded, and no two have the same primary directory, nor one of those seen.
  abbrev pub IsListing : List Bytes → List Bytes → List Project → Type 0
  IsListing roots seen [] = Unit
  IsListing roots seen (p ∷ ps) =
      (d : Directories) × IsGuarded roots d p
      × (has_key d.primary.1 seen ≡ false)
      × IsListing roots (d.primary.1 ∷ seen) ps

  abbrev pub IsListed : List Bytes → List Bytes → Listed → Type 0
  IsListed roots seen (ok ps) = IsListing roots seen ps
  IsListed roots seen (err e) = Unit

  put_project-IsListed :
      (roots seen : List Bytes) (d : Directories) (p : Project) (l : Listed)
      → IsGuarded roots d p
      → has_key d.primary.1 seen ≡ false
      → IsListed roots (d.primary.1 ∷ seen) l
      → IsListed roots seen (put_project disk p l)
  put_project-IsListed roots seen d p (ok ps) guarded fresh later = (d, guarded, fresh, later)
  put_project-IsListed roots seen d p (err e) guarded fresh later = tt

  list_projects-IsListed :
      (stops : ℕ → Bool) (roots : List Bytes) (projects : List (String × DesktopProject))
      (assignments : List (String × ThreadAssignment)) (n : ℕ) (seen : List Bytes)
      (order : List String)
      → IsListed roots seen (list_projects disk stops roots projects assignments n seen order)
  unfolding list_projects
  list_projects-IsListed stops roots projects assignments n seen [] = tt
  list_projects-IsListed stops roots projects assignments n seen (id ∷ order) =
      let P = IsListed roots seen in
      let skipped = list_projects-IsListed stops roots projects assignments (suc n) seen order in
      if_both P (stops n) _ _ tt (
        by_some P (find_project id projects) _ _ skipped (λ metadata known.
          by_list P (allowed_roots disk roots [] metadata.root_paths) _ _ skipped
            (λ (first : Bytes × Bytes) rest e.
              by_test P (has_key first.1 seen) _ _ (λ t. skipped)
                (λ fresh.
                  put_project-IsListed roots seen (record { primary = first; others = rest }) _ _
                    (
                      refl,
                      refl,
                      refl,
                      subst (All (IsAllowed roots)) e
                          (allowed_roots-IsAllowed roots [] metadata.root_paths),
                      assigned-IsInside id _ assignments,
                    )
                    fresh
                    (list_projects-IsListed stops roots projects assignments (suc n)
                      (first.1 ∷ seen) order)))))

  -- Whatever the state file holds: each directory of a listed project exists and lies, by its
  -- canonical path, below one of the catalog's roots, each directory of a thread lies below one of
  -- its project's, the id is that of the primary directory, and no two projects have the same
  -- primary directory.
  pub list-IsListed :
      (read_file : Bytes → Option Bytes) (decode : Bytes → Option DesktopState) (stops : ℕ → Bool)
      (c : Catalog)
      → IsListed c.roots [] (list disk read_file decode stops c)
  unfolding list
  list-IsListed read_file decode stops c =
      let P = IsListed c.roots [] in
      if_both P (stops 0) _ _ tt (
        by_some P (read_file c.state_file) _ _ tt (λ text e.
          by_some P (decode text) _ _ tt (λ state known.
            by_some P state.local_projects _ _ tt (λ projects p.
              by_some P state.project_order _ _ tt (λ order o.
                list_projects-IsListed stops c.roots projects state.thread_project_assignments 1 []
                  order)))))
