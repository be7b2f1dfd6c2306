-- ===== src/Agent/Plans.antt =====
-- The batches of a bootstrap: their numbers, and the sessions that they account for.
use mathlib.Core.Path.{subst}
use mac_agent.Base.{
  ℕ, suc, ◌+◌, ◌<◌, ◌%◌, ◌^◌, ◌≡◌, refl, ap, String, Bool, true, false, Option, none, some, List,
  [], ◌∷◌, ◌++◌, All, Int64, add64, length, map, arith,
}
use mac_agent.Agent.{Service, Chances}
use mac_agent.Agent.Batches.{plan}
use mac_agent.Agent.Bootstrap.{
  BootstrapProjectSnapshot, total_sessions, Job, jobs_of, all_jobs, signed, processed_after,
  batch_of, final_batch,
}
use mac_agent.Protocol.Commands.{BootstrapStartPayload}
use mac_agent.Protocol.Payloads.{BootstrapBatchPayload}
use mac_agent.Protocol.Types.{Message, Project, Thread}

-- The numbers count up from `n`.
abbrev pub Counts : ℕ → List BootstrapBatchPayload → Type 0
Counts n [] = Unit
Counts n (b ∷ bs) = (b.batch_no ≡ n) × Counts (suc n) bs

-- Only the last batch is final, and it has processed all sessions.
abbrev pub Ends : Int64 → List BootstrapBatchPayload → Type 0
Ends total bs =
    (before : List BootstrapBatchPayload) × (final : BootstrapBatchPayload) × (bs
      ≡ before ++ final ∷ [])
    × All (λ b. b.done ≡ false) before
    × (final.done ≡ true)
    × (final.processed_sessions ≡ total)

-- The sessions that some jobs process.
abbrev one_of : Option Thread → Int64
one_of none = 0
one_of (some thread) = 1

unfoldable sessions : List Job → Int64
sessions [] = 0
sessions (job ∷ jobs) = add64 (one_of job.thread) (sessions jobs)

sessions-lt : (jobs : List Job) → sessions jobs < 2 ^ 64
unfolding sessions
sessions-lt [] = omega arith
sessions-lt (job ∷ jobs) = omega arith

sessions-append : (xs ys : List Job) → sessions (xs ++ ys) ≡ add64 (sessions xs) (sessions ys)
unfolding sessions
sessions-append [] ys = omega (arith, sessions-lt ys)
sessions-append (x ∷ xs) ys = omega (arith, sessions-append xs ys)

sessions-threads :
    (p : Project) (threads : List Thread)
    → sessions (map (λ t. record { project = p; thread = some t }) threads)
      ≡ length threads % 2 ^ 64
unfolding sessions
sessions-threads p [] = refl
sessions-threads p (t ∷ threads) = omega (arith, sessions-threads p threads)

sessions-jobs_of :
    (p : Project) (threads : List Thread)
    → sessions (jobs_of (record { project = p; threads = threads })) ≡ length threads % 2 ^ 64
sessions-jobs_of p [] = unfold sessions in refl
sessions-jobs_of p (t ∷ threads) = sessions-threads p (t ∷ threads)

sessions-all_jobs :
    (snapshots : List BootstrapProjectSnapshot)
    → sessions (all_jobs snapshots) ≡ total_sessions snapshots
unfolding all_jobs total_sessions
sessions-all_jobs [] = unfold sessions in refl
sessions-all_jobs (s ∷ rest) = omega (
  arith,
  sessions-append (jobs_of s) (all_jobs rest),
  sessions-jobs_of s.project s.threads,
  sessions-all_jobs rest,
)

module _ (s : Service) (chances : Chances) (accepts : Message → Bool)
    (digest : BootstrapBatchPayload → String) (command : BootstrapStartPayload)
    (snapshot_id : String) (total : Int64) (last : Int64) where
  abbrev planned : List Job → Int64 → Int64 → List BootstrapBatchPayload
  planned = plan s chances accepts digest command snapshot_id total last

  abbrev processed : Job → Int64 → Int64
  processed = processed_after s chances accepts digest command snapshot_id total last

  processed-one_of :
      (job : Job) (p : Int64) → p < 2 ^ 64 → processed job p ≡ add64 p (one_of job.thread)
  processed-one_of job p h = ground arith

  plan-Counts :
      (jobs : List Job) (n p : Int64) → n + length jobs < 2 ^ 64 → Counts n (planned jobs n p)
  unfolding plan
  plan-Counts [] n p h = (refl, tt)
  plan-Counts (job ∷ jobs) n p h =
      let next : add64 n 1 ≡ suc n = omega arith in
      (
        refl,
        subst (λ m. Counts m (planned jobs (add64 n 1) (processed job p))) next
            (plan-Counts jobs (add64 n 1) (processed job p) (omega arith)),
      )

  plan-Ends :
      (jobs : List Job) (n p : Int64)
      → p < 2 ^ 64
      → add64 p (sessions jobs) ≡ total
      → Ends total (planned jobs n p)
  unfolding plan sessions
  plan-Ends [] n p word sum = (
    [],
    signed digest (final_batch s chances accepts digest command snapshot_id total last n p),
    refl,
    tt,
    refl,
    omega arith,
  )
  plan-Ends (job ∷ jobs) n p word sum =
      let one = processed-one_of job p word in
      let (before, final, split, open_ones, ends, all) =
        plan-Ends jobs (add64 n 1) (processed job p) (omega arith) (omega arith) in
      (
        signed digest (batch_of s chances accepts digest command snapshot_id total last job n p)
            ∷ before,
        final,
        ap
            (λ l.
              signed digest
                (batch_of s chances accepts digest command snapshot_id total last job n p)
              ∷ l)
            split,
        (refl, open_ones),
        ends,
        all,
      )

-- The batches of a bootstrap of any projects, of fewer than 2 ^ 63 batches: they are numbered from 0,
-- only the last one is final, and it has processed as many sessions as the bootstrap counted.
pub plan_lem :
    (s : Service) (chances : Chances) (accepts : Message → Bool)
    (digest : BootstrapBatchPayload → String) (command : BootstrapStartPayload)
    (snapshot_id : String) (last : Int64) (snapshots : List BootstrapProjectSnapshot)
    → length (all_jobs snapshots) < 2 ^ 63
    → let bs =
        plan s chances accepts digest command snapshot_id
          (total_sessions snapshots)
          last
          (all_jobs snapshots)
          0
          0 in
      Counts 0 bs × Ends (total_sessions snapshots) bs
plan_lem s chances accepts digest command snapshot_id last snapshots h =
    let jobs = all_jobs snapshots in
    let total = total_sessions snapshots in
    (
      plan-Counts s chances accepts digest command snapshot_id total last jobs 0 0 (omega arith),
      plan-Ends s chances accepts digest command snapshot_id total last jobs 0 0 (omega arith)
          (omega (arith, sessions-all_jobs snapshots, sessions-lt jobs)),
    )
