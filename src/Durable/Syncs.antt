-- ===== src/Durable/Syncs.antt =====
-- A sync of internal/durable/store.go keeps its snapshot and resumes behind its last durable batch.

use mac_agent.Base.{
  String, ◌≡◌, refl, ap, ◌∙◌, Bool, true, false, none, some, Int64, str_eq, eq_refl, lt64, ◌==◌,
  ◌&&◌, if◌then◌else◌, arith,
}
use mac_agent.Protocol.Types.{Time}
use mac_agent.Durable.{bootstrap_conflict, bootstrap_ack_conflict, ok, err}
use mac_agent.Durable.Schema.{BootstrapSync, Tables, find_sync}
use mac_agent.Durable.Keys.{find_sync-update, sync_conflicts_of_find_sync}
use mac_agent.Durable.Bootstrap.{stored_sync, prepare_bootstrap, ack_sync, coalesce, ack_bootstrap}
use mac_agent.Durable.Outbox.{no_faults}

-- What `PrepareBootstrap` returns of a sync that is stored, at any later time and whatever new id
-- was drawn: its first snapshot id and its last durable batch to the command that started it, an
-- error to any other command; the tables stay as they are.
pub prepare_bootstrap_stored :
    (now : Time) (new_snapshot id command : String) (t : Tables) (sync : BootstrapSync)
    → find_sync id t.bootstrap_syncs ≡ some sync
    → prepare_bootstrap no_faults now new_snapshot id command t ≡ (
      t,
      (if str_eq sync.command_id command
          then ok (sync.snapshot_id, sync.last_durable_batch_no)
          else err (bootstrap_conflict id)),
    )
unfolding prepare_bootstrap stored_sync
prepare_bootstrap_stored now new_snapshot id command t sync found =
    ground (arith, sync_conflicts_of_find_sync id command t.bootstrap_syncs sync found)

-- What `AckBootstrap` does with a batch of a stored sync: one past the last durable batch is
-- recorded; the last one again, with its checksum, is accepted and changes nothing; any other is a
-- conflict and changes nothing.
pub ack_bootstrap_stored :
    (now : Time) (id : String) (batch : Int64) (checksum : String) (done : Bool) (t : Tables)
    (sync : BootstrapSync)
    → find_sync id t.bootstrap_syncs ≡ some sync
    → let (t', e) = ack_bootstrap no_faults now id batch checksum done t in
      (lt64 sync.last_durable_batch_no batch ≡ true
        → (e ≡ none)
          × (find_sync id t'.bootstrap_syncs ≡ some (ack_sync now batch checksum done sync)))
      × (lt64 sync.last_durable_batch_no batch ≡ false
          → (t' ≡ t)
            × (e ≡ (
                if sync.last_durable_batch_no == batch
                  && str_eq (coalesce sync.last_batch_checksum) checksum
                then none
                else some bootstrap_ack_conflict)))
unfolding ack_bootstrap
ack_bootstrap_stored now id batch checksum done t sync found = (
  λ newer. (
    rw (found, newer) refl,
    rw (found, newer)
        (find_sync-update id (ack_sync now batch checksum done) t.bootstrap_syncs (λ s. refl)
          ∙ rw found refl),
  ),
  λ older. (rw (found, older) (ground arith), rw (found, older) (ground arith)),
)

lt64_irrefl : (n : Int64) → lt64 n n ≡ false
lt64_irrefl n = ground arith

-- After an acknowledged batch a restart of the same command resumes from it with the same snapshot,
-- and the same acknowledgement again is accepted and changes nothing.
pub ack_bootstrap-resumes :
    (now later : Time) (new_snapshot id : String) (batch : Int64) (checksum : String) (done : Bool)
    (t : Tables) (sync : BootstrapSync)
    → find_sync id t.bootstrap_syncs ≡ some sync
    → lt64 sync.last_durable_batch_no batch ≡ true
    → let t' = (ack_bootstrap no_faults now id batch checksum done t).0 in
      (prepare_bootstrap no_faults later new_snapshot id sync.command_id t'
        ≡ (t', ok (sync.snapshot_id, batch)))
      × (ack_bootstrap no_faults later id batch checksum done t' ≡ (t', none))
ack_bootstrap-resumes now later new_snapshot id batch checksum done t sync found newer =
    let t' = (ack_bootstrap no_faults now id batch checksum done t).0 in
    let acked = ack_sync now batch checksum done sync in
    let (_, found') = (ack_bootstrap_stored now id batch checksum done t sync found).0 newer in
    let same : (batch == batch && str_eq checksum checksum) ≡ true =
      ground (arith, eq_refl checksum) in
    let again =
      (ack_bootstrap_stored later id batch checksum done t' acked found').1 (lt64_irrefl batch) in
    (
      prepare_bootstrap_stored later new_snapshot id sync.command_id t' acked found'
          ∙ ap
              (λ b. (t', (if b then ok (sync.snapshot_id, batch) else err (bootstrap_conflict id))))
              (eq_refl sync.command_id),
      λ i.
          (again.0 i, (again.1 ∙ ap (λ b. if b then none else some bootstrap_ack_conflict) same) i),
    )
