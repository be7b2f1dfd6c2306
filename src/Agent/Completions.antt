-- ===== src/Agent/Completions.antt =====
-- What a bootstrap that completes leaves in the store.
use mac_agent.Base.{
  ℕ, suc, ◌+◌, ◌≤◌, ◌<◌, ◌^◌, ◌≡◌, refl, sym, String, Bool, true, false, some, List, [], ◌∷◌, ◌++◌,
  Int64, add64, lt64, le64, length, All, keep_if, Bool-cases, inl, inr, arith,
}
use mathlib.Core.Path.{subst}
use mac_agent.Agent.{Service, Chances}
use mac_agent.Agent.Batches.{
  plan, is_due, messages, acks, IsAccepted, all_acknowledged, send_jobs-complete,
}
use mac_agent.Agent.Bootstrap.{
  Job, Waited, Sent, acknowledged, signed, batch_of, final_batch, processed_after, send_jobs,
}
use mac_agent.Durable.Bootstrap.{ack_bootstrap, ack_sync}
use mac_agent.Durable.Outbox.{no_faults}
use mac_agent.Durable.Schema.{BootstrapSync, Tables, find_sync}
use mac_agent.Durable.Syncs.{ack_bootstrap_stored}
use mac_agent.Protocol.Commands.{BootstrapStartPayload}
use mac_agent.Protocol.Payloads.{BootstrapBatchPayload}
use mac_agent.Protocol.Types.{Message}

module _ (s : Service) (chances : Chances) (accepts : Message → Bool)
    (digest : BootstrapBatchPayload → String) (command : BootstrapStartPayload)
    (snapshot_id : String) (total : Int64) (last : Int64) where
  -- What is left of a bootstrap from a number on: the number of its final batch is one past that of
  -- its last job, and is not yet durable.
  abbrev pub IsAhead : List Job → Int64 → Type 0
  IsAhead jobs n = (n + length jobs < 2 ^ 63) × (lt64 last (n + length jobs) ≡ true)

  -- The sync of the bootstrap has taken no batch that is still to come.
  abbrev pub IsBehind : Int64 → BootstrapSync → Type 0
  IsBehind n sync =
      (m : ℕ) → n ≤ m → m < 2 ^ 63 → lt64 last m ≡ true → lt64 sync.last_durable_batch_no m ≡ true

  -- The sync is completed, by the final batch of the number `n`.
  abbrev pub IsCompletedSync : Int64 → Tables → Type 0
  IsCompletedSync n t =
      (sync : BootstrapSync) × (find_sync command.sync_id t.bootstrap_syncs ≡ some sync)
      × (sync.status ≡ "completed")
      × (sync.last_durable_batch_no ≡ n)

  -- A batch that the database takes.
  acknowledged_lem :
      (b : BootstrapBatchPayload) (t : Tables) (sync : BootstrapSync)
      → ((n : ℕ) → chances.faults n ≡ no_faults)
      → find_sync b.sync_id t.bootstrap_syncs ≡ some sync
      → lt64 sync.last_durable_batch_no b.batch_no ≡ true
      → (now : ℕ) × (find_sync b.sync_id (acknowledged s chances b t).bootstrap_syncs
          ≡ some (ack_sync now b.batch_no b.checksum b.done sync))
  acknowledged_lem b t sync works found newer =
      let now = chances.now (suc b.batch_no) in
      (
        now,
        subst
            (λ f.
              find_sync b.sync_id
                (ack_bootstrap f now b.sync_id b.batch_no b.checksum b.done t).0.bootstrap_syncs
              ≡ some (ack_sync now b.batch_no b.checksum b.done sync))
            (sym (works (suc b.batch_no)))
            ((ack_bootstrap_stored now b.sync_id b.batch_no b.checksum b.done t sync found).0
              newer).1,
      )

  abbrev planned : List Job → Int64 → Int64 → List BootstrapBatchPayload
  planned = plan s chances accepts digest command snapshot_id total last

  abbrev stored : List Job → Int64 → Int64 → Tables → Tables
  stored jobs n p t =
      all_acknowledged s chances accepts digest command snapshot_id total last
        (keep_if (is_due s chances accepts digest command snapshot_id total last)
          (planned jobs n p))
        t

  IsBehind-next :
      (n : Int64) (sync : BootstrapSync) → n + 1 < 2 ^ 63 → IsBehind n sync → IsBehind (n + 1) sync
  IsBehind-next n sync small h m le lt due = h m (omega arith) lt due

  stored-IsCompletedSync :
      (jobs : List Job) (n p : Int64) (t : Tables) (sync : BootstrapSync)
      → ((k : ℕ) → chances.faults k ≡ no_faults)
      → IsAhead jobs n
      → find_sync command.sync_id t.bootstrap_syncs ≡ some sync
      → IsBehind n sync
      → IsCompletedSync (n + length jobs) (stored jobs n p t)
  unfolding plan all_acknowledged
  stored-IsCompletedSync [] n p t sync works (small, ahead) found behind =
      let b =
        signed digest (final_batch s chances accepts digest command snapshot_id total last n p) in
      let due : le64 n last ≡ false = ground arith in
      let (now, done) =
        acknowledged_lem b t sync works found
          (behind n (omega arith) (omega arith) (ground arith)) in
      rw due (ack_sync now n b.checksum true sync, done, refl, omega arith)
  stored-IsCompletedSync (job ∷ jobs) n p t sync works (small, ahead) found behind =
      let b =
        signed digest (batch_of s chances accepts digest command snapshot_id total last job n p) in
      let p' = processed_after s chances accepts digest command snapshot_id total last job p in
      let next : add64 n 1 ≡ n + 1 = ground arith in
      let same : (n + 1) + length jobs ≡ n + length (job ∷ jobs) = omega arith in
      elim (Bool-cases (le64 n last)) [
        | inl old ↦
            rw (old, next)
              (subst (λ k. IsCompletedSync k (stored jobs (n + 1) p' t)) same
                (stored-IsCompletedSync jobs (n + 1) p' t sync works (omega arith, ground arith)
                  found (IsBehind-next n sync (omega arith) behind)))
        | inr due ↦
            let (now, done) =
              acknowledged_lem b t sync works found
                (behind n (omega arith) (omega arith) (ground arith)) in
            rw (due, next)
              (subst (λ k. IsCompletedSync k (stored jobs (n + 1) p' (acknowledged s chances b t)))
                same
                (stored-IsCompletedSync jobs (n + 1) p' (acknowledged s chances b t)
                  (ack_sync now n b.checksum false sync) works (omega arith, ground arith) done
                  (λ m le lt more. ground arith)))
      ]

  -- A bootstrap that has sent everything that is due and has completed its sync.
  abbrev pub IsCompleted : List Job → Int64 → Int64 → List Waited → Sent → Type 0
  IsCompleted jobs n p rest sent =
      (sent.answer ≡ some true)
      × (sent.published
          ≡ messages s chances accepts digest command snapshot_id total last (planned jobs n p))
      × (sent.rest ≡ rest)
      × IsCompletedSync (n + length jobs) sent.tables

  -- A bootstrap of a sync that the store has, while the database works, `publish` takes every batch,
  -- the acknowledgement of each batch that is not yet durable comes, in order, and the final batch is
  -- not yet durable: it ends with the answer yes, has sent each of these batches once, in order, has
  -- used up these acknowledgements only, and leaves the sync completed, with the final batch as its
  -- last durable one. The numbers of the batches are to stay below 2 ^ 63, and the sync to have taken
  -- no batch that is still to come.
  pub send_jobs-IsCompleted :
      (jobs : List Job) (n p : Int64) (rest : List Waited) (t : Tables) (sync : BootstrapSync)
      → All (IsAccepted s chances accepts digest command snapshot_id total last) (planned jobs n p)
      → ((k : ℕ) → chances.faults k ≡ no_faults)
      → IsAhead jobs n
      → find_sync command.sync_id t.bootstrap_syncs ≡ some sync
      → IsBehind n sync
      → IsCompleted jobs n p rest (
          send_jobs s chances accepts digest command snapshot_id total last jobs n p
            (acks s chances accepts digest command snapshot_id total last (planned jobs n p)
              ++ rest)
            t)
  send_jobs-IsCompleted jobs n p rest t sync accepted works ahead found behind =
      subst (IsCompleted jobs n p rest)
        (sym (
          send_jobs-complete s chances accepts digest command snapshot_id total last jobs n p rest t
            accepted))
        (refl, refl, refl, stored-IsCompletedSync jobs n p t sync works ahead found behind)
