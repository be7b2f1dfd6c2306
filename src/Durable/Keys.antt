-- ===== src/Durable/Keys.antt =====
-- The statements of Durable/Schema read through their keys.
use mathlib.Core.Option
use mac_agent.Base.{
  String, ◌≡◌, refl, true, false, none, some, List, [], ◌∷◌, ◌++◌, Int64, is_some, str_eq, eq_iff,
  le64, ◌&&◌, if◌then◌else◌, arith,
}
use mac_agent.Durable.Schema.{
  AgentRun, OutboxRow, BootstrapSync, find_run, conflicts, update_run, has_key, find_row,
  delete_acked, find_sync, sync_conflicts, update_sync,
}

pub find_run-key :
    (id : String) (runs : List AgentRun) (run : AgentRun)
    → find_run id runs ≡ some run
    → run.run_id ≡ id
unfolding find_run
find_run-key id [] run h = ground arith
find_run-key id (r ∷ runs) run h = ground (arith, eq_iff r.run_id id, find_run-key id runs run)

pub find_run-update :
    (id j : String) (f : AgentRun → AgentRun) (runs : List AgentRun)
    → ((run : AgentRun) → (f run).run_id ≡ run.run_id)
    → find_run j (update_run id f runs)
      ≡ (if str_eq id j then Option.map f (find_run j runs) else find_run j runs)
unfolding find_run update_run
find_run-update id j f [] keep = ground arith
find_run-update id j f (r ∷ runs) keep = ground (
  arith,
  keep r,
  eq_iff r.run_id id,
  eq_iff r.run_id j,
  eq_iff id j,
  find_run-update id j f runs keep,
)

pub find_run-append :
    (j : String) (runs : List AgentRun) (run : AgentRun)
    → find_run j (runs ++ run ∷ []) ≡ (
        if is_some (find_run j runs)
        then find_run j runs
        else if str_eq run.run_id j
        then some run
        else none)
unfolding find_run
find_run-append j [] run = ground arith
find_run-append j (r ∷ runs) run = ground (arith, find_run-append j runs run)

pub find_run_of_conflicts-false :
    (id command : String) (runs : List AgentRun)
    → conflicts id command runs ≡ false
    → find_run id runs ≡ none
unfolding find_run conflicts
find_run_of_conflicts-false id command [] h = refl
find_run_of_conflicts-false id command (r ∷ runs) h =
    ground (arith, find_run_of_conflicts-false id command runs)

pub find_row-append :
    (j : String) (q : Int64) (rows : List OutboxRow) (row : OutboxRow)
    → find_row j q (rows ++ row ∷ []) ≡ (
        if is_some (find_row j q rows)
        then find_row j q rows
        else if has_key j q row
        then some row
        else none)
unfolding find_row
find_row-append j q [] row = ground arith
find_row-append j q (r ∷ rows) row = ground (arith, find_row-append j q rows row)

pub find_row-delete :
    (id j : String) (n q : Int64) (rows : List OutboxRow)
    → find_row j q (delete_acked id n rows)
      ≡ (if str_eq id j && le64 q n then none else find_row j q rows)
unfolding find_row delete_acked
find_row-delete id j n q [] = ground arith
find_row-delete id j n q (r ∷ rows) =
    ground
      (arith, eq_iff r.run_id id, eq_iff r.run_id j, eq_iff id j, find_row-delete id j n q rows)

pub conflicts_of_find_run :
    (id command : String) (runs : List AgentRun) (run : AgentRun)
    → find_run id runs ≡ some run
    → conflicts id command runs ≡ true
unfolding find_run conflicts
conflicts_of_find_run id command [] run h = ground arith
conflicts_of_find_run id command (r ∷ runs) run h =
    ground (arith, conflicts_of_find_run id command runs run)

pub find_sync-update :
    (id : String) (f : BootstrapSync → BootstrapSync) (syncs : List BootstrapSync)
    → ((sync : BootstrapSync) → (f sync).sync_id ≡ sync.sync_id)
    → find_sync id (update_sync id f syncs) ≡ Option.map f (find_sync id syncs)
unfolding find_sync update_sync
find_sync-update id f [] keep = ground arith
find_sync-update id f (s ∷ syncs) keep =
    ground (arith, keep s, eq_iff s.sync_id id, find_sync-update id f syncs keep)

pub find_sync-append :
    (j : String) (syncs : List BootstrapSync) (sync : BootstrapSync)
    → find_sync j (syncs ++ sync ∷ []) ≡ (
        if is_some (find_sync j syncs)
        then find_sync j syncs
        else if str_eq sync.sync_id j
        then some sync
        else none)
unfolding find_sync
find_sync-append j [] sync = ground arith
find_sync-append j (s ∷ syncs) sync = ground (arith, find_sync-append j syncs sync)

pub sync_conflicts_of_find_sync :
    (id command : String) (syncs : List BootstrapSync) (sync : BootstrapSync)
    → find_sync id syncs ≡ some sync
    → sync_conflicts id command syncs ≡ true
unfolding find_sync sync_conflicts
sync_conflicts_of_find_sync id command [] sync h = ground arith
sync_conflicts_of_find_sync id command (s ∷ syncs) sync h =
    ground (arith, sync_conflicts_of_find_sync id command syncs sync)
