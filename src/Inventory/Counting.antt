-- ===== src/Inventory/Counting.antt =====
-- The number of threads that is shown of a project.
use mathlib.Core.Path.{subst}
use mac_agent.Base.{
  ℕ, zero, suc, ◌+◌, ◌^◌, ◌<◌, ◌≡◌, refl, ap, ◌∙◌, inl, inr, String, Option, none, some, List, [],
  ◌∷◌, Int64, add64, length, get_elem?, keep_if, ◌==◌, if◌then◌else◌, Bool-cases, arith,
}
use mac_agent.Agent.{ok}
use mac_agent.CodexApp
use mac_agent.Inventory.{
  App, get_project, indexed_project, bump, no_threads, shown_projects, is_index, tally, projects,
  is_owned, shown_threads, threads,
}
use mac_agent.Inventory.Owners.{project_index_by_id, project_owner}
use mac_agent.Inventory.Previews.{PreviewEntry, latest_message_preview}
use mac_agent.Protocol.Types.{Time}
use mac_agent.Protocol.Types
use mac_agent.Workspace.{Project}

unfoldable count_at : ℕ → List (Int64 × Time) → ℕ
count_at i [] = 0
count_at zero ((count, latest) ∷ rest) = count
count_at (suc i) (entry ∷ rest) = count_at i rest

length-bump :
    (i : ℕ) (t : Time) (stats : List (Int64 × Time)) → length (bump i t stats) ≡ length stats
unfolding bump
length-bump i t [] = refl
length-bump zero t (entry ∷ rest) = refl
length-bump (suc i) t (entry ∷ rest) = omega (arith, length-bump i t rest)

count_at-bump :
    (i j : ℕ) (t : Time) (stats : List (Int64 × Time))
    → i < length stats
    → count_at i (bump j t stats)
      ≡ (if j == i then add64 (count_at i stats) 1 else count_at i stats)
unfolding bump count_at
count_at-bump i j t [] h = absurd (omega arith)
count_at-bump zero zero t (entry ∷ rest) h = ground arith
count_at-bump zero (suc j) t (entry ∷ rest) h = ground arith
count_at-bump (suc i) zero t (entry ∷ rest) h = ground arith
count_at-bump (suc i) (suc j) t (entry ∷ rest) h =
    ground (arith, count_at-bump i j t rest (omega arith))

length-no_threads : (listed : List Project) → length (no_threads listed) ≡ length listed
unfolding no_threads
length-no_threads [] = refl
length-no_threads (p ∷ listed) = omega (arith, length-no_threads listed)

count_at-no_threads : (i : ℕ) (listed : List Project) → count_at i (no_threads listed) ≡ 0
unfolding no_threads count_at
count_at-no_threads i [] = refl
count_at-no_threads zero (p ∷ listed) = refl
count_at-no_threads (suc i) (p ∷ listed) = count_at-no_threads i listed

-- What is shown at the index of a project.
shown_at :
    (listed : List Project) (stats : List (Int64 × Time)) (i : ℕ) (p : Project)
    → get_project listed i ≡ some p
    → length stats ≡ length listed
    → (item : Types.Project) × (get_elem? (shown_projects listed stats) i ≡ some item)
      × (item.id ≡ p.id)
      × (item.thread_count ≡ count_at i stats)
      × (i < length listed)
unfolding get_project shown_projects count_at
shown_at [] stats i p h e = absurd (ground (arith, h))
shown_at (q ∷ listed) [] i p h e = absurd (ground (arith, e))
shown_at (q ∷ listed) ((count, latest) ∷ rest) zero p h e =
    (_, refl, ap (λ o. elim o [ none ↦ q.id | some r ↦ r.id ]) h, refl, omega arith)
shown_at (q ∷ listed) ((count, latest) ∷ rest) (suc i) p h e =
    let (item, found, id, shown, inside) = shown_at listed rest i p h (omega (arith, e)) in
    (item, found, id, shown, omega arith)

abbrev entered_by : Option ℕ → Time → List (Int64 × Time) → List (Int64 × Time)
entered_by o time stats = elim o [ none ↦ stats | some owner ↦ bump owner time stats ]

length-entered_by :
    (o : Option ℕ) (time : Time) (stats : List (Int64 × Time))
    → length (entered_by o time stats) ≡ length stats
length-entered_by none time stats = refl
length-entered_by (some owner) time stats = length-bump owner time stats

count_at-entered_by :
    (i : ℕ) (o : Option ℕ) (time : Time) (stats : List (Int64 × Time))
    → i < length stats
    → count_at i (entered_by o time stats)
      ≡ (if is_index i o then add64 (count_at i stats) 1 else count_at i stats)
count_at-entered_by i none time stats h = refl
count_at-entered_by i (some owner) time stats h = count_at-bump i owner time stats h

module _ (app : App) (listed : List Project) where
  abbrev owner_of : CodexApp.Thread → Option ℕ
  owner_of thread = project_owner app.disk listed thread

  abbrev time_of : CodexApp.Thread → Time
  time_of thread = app.texts.unix thread.updated_at

  abbrev entered : CodexApp.Thread → List (Int64 × Time) → List (Int64 × Time)
  entered thread stats = entered_by (owner_of thread) (time_of thread) stats

  length-tally :
      (all : List CodexApp.Thread) (stats : List (Int64 × Time))
      → length (tally app listed all stats) ≡ length stats
  unfolding tally
  length-tally [] stats = refl
  length-tally (thread ∷ all) stats =
      length-tally all (entered thread stats)
      ∙ length-entered_by (owner_of thread) (time_of thread) stats

  count_at-tally :
      (i : ℕ) (all : List CodexApp.Thread) (stats : List (Int64 × Time))
      → i < length stats
      → count_at i stats + length all < 2 ^ 63
      → count_at i (tally app listed all stats)
        ≡ count_at i stats + length (keep_if (is_owned app listed i) all)
  unfolding tally
  count_at-tally i [] stats h small = omega arith
  count_at-tally i (thread ∷ all) stats h small = elim (Bool-cases (is_owned app listed i thread)) [
    | inl owned ↦
        let here : count_at i (entered thread stats) ≡ add64 (count_at i stats) 1 =
          count_at-entered_by i (owner_of thread) (time_of thread) stats h ∙ rw owned refl in
        rw owned (
          omega (
            arith,
            here,
            count_at-tally i all (entered thread stats)
                (omega (arith, length-entered_by (owner_of thread) (time_of thread) stats))
                (omega (arith, here)),
          ))
    | inr foreign ↦
        let here : count_at i (entered thread stats) ≡ count_at i stats =
          count_at-entered_by i (owner_of thread) (time_of thread) stats h ∙ rw foreign refl in
        rw foreign (
          omega (
            arith,
            here,
            count_at-tally i all (entered thread stats)
                (omega (arith, length-entered_by (owner_of thread) (time_of thread) stats))
                (omega (arith, here)),
          ))
  ]

length-shown_threads :
    (app : App) (id : String) (all : List CodexApp.Thread) (cache : List PreviewEntry)
    → length (shown_threads app id all cache).0 ≡ length all
unfolding shown_threads
length-shown_threads app id [] cache = refl
length-shown_threads app id (thread ∷ all) cache = ap suc (
    length-shown_threads app id all
      (latest_message_preview app.texts app.victim (app.list_latest_turns thread.id) thread
        cache).1)

abbrev paired : ℕ → Option Project → Option (ℕ × Project)
paired j none = none
paired j (some q) = some (j, q)

at_index :
    (listed : List Project) (i j : ℕ) (p : Project) (r : Option Project)
    → get_project listed j ≡ r
    → paired j r ≡ some (i, p)
    → get_project listed i ≡ some p
at_index listed i j p none e h = absurd (ground (arith, h))
at_index listed i j p (some q) e h =
    subst (λ k. get_project listed k ≡ some p)
      (ap (λ (o : Option (ℕ × Project)). elim o [ none ↦ j | some r ↦ r.0 ]) h)
      (e ∙ ap (λ (o : Option (ℕ × Project)). elim o [ none ↦ some q | some r ↦ some r.1 ]) h)

abbrev looked_up : List Project → Option ℕ → Option (ℕ × Project)
looked_up listed o = elim o [ none ↦ none | some j ↦ paired j (get_project listed j) ]

get-looked_up :
    (listed : List Project) (o : Option ℕ) (i : ℕ) (p : Project)
    → looked_up listed o ≡ some (i, p)
    → get_project listed i ≡ some p
get-looked_up listed none i p h = absurd (ground (arith, h))
get-looked_up listed (some j) i p h = at_index listed i j p (get_project listed j) refl h

get-indexed_project :
    (listed : List Project) (id : String) (i : ℕ) (p : Project)
    → indexed_project listed id ≡ some (i, p)
    → get_project listed i ≡ some p
get-indexed_project listed id = get-looked_up listed (project_index_by_id listed id)

-- What is shown of the project `p` at the index `i`, next to the threads that are listed of it.
abbrev pub IsCounted : App → List PreviewEntry → String → ℕ → Project → Type 0
IsCounted app cache id i p =
    (items : List Types.Project) × (item : Types.Project) × (shown : List Types.Thread) × (projects
        app
      ≡ ok items)
    × (get_elem? items i ≡ some item)
    × (item.id ≡ p.id)
    × ((threads app id cache).0 ≡ ok shown)
    × (item.thread_count ≡ length shown)

-- The number of threads that `Projects` shows of a project is the number of threads that `Threads`
-- lists for its id, whatever the cache of previews holds, for fewer than 2 ^ 63 threads and a sort
-- that keeps the length.
pub projects-IsCounted :
    (app : App) (listed : List Project) (all : List CodexApp.Thread) (cache : List PreviewEntry)
    (id : String) (i : ℕ) (p : Project)
    → app.projects ≡ ok listed
    → app.list_threads ≡ ok all
    → length all < 2 ^ 63
    → ((ts : List Types.Thread) → length (app.sort_by_time ts) ≡ length ts)
    → indexed_project listed id ≡ some (i, p)
    → IsCounted app cache id i p
unfolding projects threads tally shown_threads
projects-IsCounted app listed all cache id i p hp ht small sorted indexed =
    let stats = tally app listed all (no_threads listed) in
    let (item, found, named, count, inside) =
      shown_at listed stats i p (get-indexed_project listed id i p indexed)
        (length-tally app listed all (no_threads listed) ∙ length-no_threads listed) in
    let owned = keep_if (is_owned app listed i) all in
    (
      shown_projects listed stats,
      item,
      app.sort_by_time (shown_threads app p.id owned cache).0,
      rw (hp, ht, projects) refl,
      found,
      named,
      rw (hp, indexed, ht, threads) refl,
      count
          ∙ count_at-tally app listed i all (no_threads listed)
              (omega (arith, inside, length-no_threads listed))
              (omega (arith, small, count_at-no_threads i listed))
          ∙ omega (
            arith,
            count_at-no_threads i listed,
            sorted (shown_threads app p.id owned cache).0,
            length-shown_threads app p.id owned cache,
          ),
    )
