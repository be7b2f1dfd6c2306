-- ===== src/Durable/Repeats.antt =====
-- A command of internal/durable/store.go is taken once, whatever is called in between.
use mathlib.Core.Path.{subst}
use mac_agent.Base.{
  String, ◌≡◌, refl, sym, ap, ◌∙◌, Bool, true, false, some, List, [], ◌∷◌, Bytes, Int64, str_eq,
  eq_refl, bytes_eq, ◌&&◌, if◌then◌else◌, arith, Bool-cases, if_both, is_some, Option, inl, inr,
}
use mac_agent.Protocol.Types.{Time, Message}
use mac_agent.Durable.{
  run_conflict, StoreError, Outcome, ok, err, Faults, new_run, stored_run, prepare_run, cancel,
  advance_run, ack_run, cancel_run, is_terminal,
}
use mac_agent.Durable.Schema.{AgentRun, Tables, find_run, update_run}
use mac_agent.Durable.Keys.{find_run-append, find_run-update, conflicts_of_find_run}
use mac_agent.Durable.Outbox.{no_faults, append_event-cases, durable_ack-cases}
use mac_agent.Durable.Runs.{prepare_run-cases, created}
use mac_agent.Durable.History.{
  Call, prepare, append, ack, stop, prepare_sync, ack_sync, after, history, SameRuns-prepare,
  SameRuns-ack,
}

module _ (id command : String) (payload : Bytes) where
  -- The store has the run with this command and this payload.
  abbrev IsHeld : List AgentRun → Type 0
  IsHeld runs =
      (run : AgentRun) × (find_run id runs ≡ some run)
      × (run.start_command_id ≡ command)
      × (run.start_payload_json ≡ payload)

  -- A change of rows that leaves what a run was started with.
  abbrev SparesStart : (AgentRun → AgentRun) → Type 0
  SparesStart f =
      (run : AgentRun)
      → ((f run).run_id ≡ run.run_id)
        × ((f run).start_command_id ≡ run.start_command_id)
        × ((f run).start_payload_json ≡ run.start_payload_json)

  update_run-IsHeld :
      (j : String) (f : AgentRun → AgentRun) (runs : List AgentRun)
      → SparesStart f
      → IsHeld runs
      → IsHeld (update_run j f runs)
  update_run-IsHeld j f runs spares (run, found, same, text) =
      let at = find_run-update j id f runs (λ r. (spares r).0) in
      elim (Bool-cases (str_eq j id)) [
        | inl here ↦
            (f run, at ∙ rw (here, found) refl, (spares run).1 ∙ same, (spares run).2 ∙ text)
        | inr elsewhere ↦ (run, at ∙ rw (elsewhere, found) refl, same, text)
      ]

  advance_run-SparesStart :
      (now : Time) (type : String) (sequence : Int64) → SparesStart (advance_run now type sequence)
  advance_run-SparesStart now type sequence run = elim (Bool-cases (is_terminal type)) [
    | inl e ↦ rw e (refl, refl, refl)
    | inr e ↦ rw e (refl, refl, refl)
  ]

  -- The same of equal tables.
  same-IsHeld : {a b : Tables} → a ≡ b → IsHeld b.agent_runs → IsHeld a.agent_runs
  same-IsHeld e h = subst (λ (t : Tables). IsHeld t.agent_runs) (sym e) h

  after-IsHeld :
      (faults : Faults) (call : Call) (t : Tables)
      → IsHeld t.agent_runs
      → IsHeld (after faults call t).agent_runs
  after-IsHeld faults (prepare now j command' payload') t h =
      elim (prepare_run-cases faults now j command' payload' t) [
        | inl (same, _) ↦ same-IsHeld same h
        | inr (free, done) ↦
            let (run, found, same, text) = h in
            same-IsHeld (ap (λ (r : Tables × Outcome Bool). r.0) done) (
              run,
              find_run-append id t.agent_runs (new_run now j command' payload') ∙ rw found refl,
              same,
              text,
            )
      ]
  after-IsHeld faults (append now j m) t h = elim (append_event-cases faults now j m t) [
    | inl (same, _) ↦ same-IsHeld same h
    | inr (run, found, done) ↦
        same-IsHeld (ap (λ (r : Tables × Message × Option StoreError). r.0) done) (
          update_run-IsHeld j (advance_run now m.type run.next_agent_sequence) t.agent_runs
            (advance_run-SparesStart now m.type run.next_agent_sequence) h)
  ]
  after-IsHeld faults (ack now j n) t h = elim (durable_ack-cases faults now j n t) [
    | inl (same, _) ↦ same-IsHeld same h
    | inr (run, found, tested, done) ↦
        same-IsHeld (ap (λ (r : Tables × Option StoreError). r.0) done)
          (update_run-IsHeld j (ack_run now n) t.agent_runs (λ r. (refl, refl, refl)) h)
  ]
  after-IsHeld faults (stop now j) t h =
      unfold cancel in
      if_both (λ (r : Tables × Option StoreError). IsHeld r.0.agent_runs) (faults 0) _ _ h
        (if_both (λ (r : Tables × Option StoreError). IsHeld r.0.agent_runs)
          (is_some (find_run j t.agent_runs)) _ _
          (update_run-IsHeld j (cancel_run now) t.agent_runs (λ r. (refl, refl, refl)) h) h)
  after-IsHeld faults (prepare_sync now snapshot j command') t h =
      rw (SameRuns-prepare faults now snapshot j command' t).0 h
  after-IsHeld faults (ack_sync now j batch checksum done) t h =
      rw (SameRuns-ack faults now j batch checksum done t).0 h

  history-IsHeld :
      (calls : List (Faults × Call)) (t : Tables)
      → IsHeld t.agent_runs
      → IsHeld (history calls t).agent_runs
  history-IsHeld [] t h = h
  history-IsHeld ((faults, call) ∷ calls) t h =
      history-IsHeld calls (after faults call t) (after-IsHeld faults call t h)

  repeated :
      (later : Time) (command' : String) (payload' : Bytes) (t : Tables)
      → IsHeld t.agent_runs
      → prepare_run no_faults later id command' payload' t ≡ (
        t,
        (if str_eq command command' && bytes_eq payload payload'
            then ok false
            else err (run_conflict id)),
      )
  unfolding prepare_run
  repeated later command' payload' t (run, found, same, text) =
      rw (conflicts_of_find_run id command' t.agent_runs run found) (
        ap (λ (o : Outcome Bool). (t, o))
          (unfold stored_run in rw (found, ← same, ← text) (ground arith)))

-- After `PrepareRun` has taken a command for its run, and after any further calls of the store, with
-- any failures of the database, a `PrepareRun` for that run whose own database calls do not fail finds
-- the same command and payload done without an error, and refuses any other as a conflict. It leaves
-- the store as it is.
pub prepare_run-idempotent :
    (faults : Faults) (now later : Time) (id command command' : String) (payload payload' : Bytes)
    (t t' : Tables) (calls : List (Faults × Call))
    → prepare_run faults now id command payload t ≡ (t', ok true)
    → prepare_run no_faults later id command' payload' (history calls t') ≡ (
      history calls t',
      (if str_eq command command' && bytes_eq payload payload'
          then ok false
          else err (run_conflict id)),
    )
prepare_run-idempotent faults now later id command command' payload payload' t t' calls h =
    repeated id command payload later command' payload' (history calls t') (
      history-IsHeld id command payload calls t'
        (new_run now id command payload, found, refl, refl))
  where
    found : find_run id t'.agent_runs ≡ some (new_run now id command payload)
    found =
        let (free, e) = created faults now id command payload t t' h in
        rw (e, find_run-append id t.agent_runs (new_run now id command payload), free, eq_refl id)
