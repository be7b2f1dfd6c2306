-- ===== src/Durable/Runs.antt =====
-- `PrepareRun` and `Cancel` of internal/durable/store.go: a command is taken once.
use mathlib.Core.Option
use mac_agent.Base.{
  ℕ, ◌<◌, String, ◌≡◌, ◌≢◌, refl, sym, ap, ◌∙◌, Bool, true, false, Option, none, some, [], ◌∷◌,
  ◌++◌, Bytes, Int64, is_some, str_eq, eq_iff, if◌then◌else◌, arith, Option-cases, Bool-cases, ◌⊎◌,
  inl, inr,
}
use mac_agent.Protocol.Types.{Time}
use mac_agent.Durable.{
  run_not_found, Outcome, ok, Faults, new_run, stored_run, prepare_run, cancel_run, cancel,
}
use mac_agent.Durable.Schema.{AgentRun, Tables, find_run, conflicts}
use mac_agent.Durable.Keys.{find_run-append, find_run-update, find_run_of_conflicts-false}
use mac_agent.Durable.Consistency.{IsConsistent, IsBounded, waits_for}
use mac_agent.Durable.Outbox.{no_faults}

abbrev prepared : Time → String → String → Bytes → Tables → Tables
prepared now id command payload t = record t {
  agent_runs = t.agent_runs ++ new_run now id command payload ∷ [];
}

stored_run-ne-ok_true :
    (faults : Faults) (id command : String) (payload : Bytes) (t : Tables)
    → stored_run faults id command payload t ≢ ok true
unfolding stored_run
stored_run-ne-ok_true faults id command payload t = ground arith

pub prepare_run-cases :
    (faults : Faults) (now : Time) (id command : String) (payload : Bytes) (t : Tables)
    → (((prepare_run faults now id command payload t).0 ≡ t)
        × ((prepare_run faults now id command payload t).1 ≢ ok true))
      ⊎ ((conflicts id command t.agent_runs ≡ false)
          × (prepare_run faults now id command payload t
              ≡ (prepared now id command payload t, ok true)))
unfolding prepare_run
prepare_run-cases faults now id command payload t =
    elim (Bool-cases (conflicts id command t.agent_runs)) [
      | inl taken ↦ elim (Bool-cases (faults 0)) [
        | inl failed ↦ inl (rw failed refl, rw failed (λ p. cc))
        | inr fine ↦ inl (
          rw (fine, taken) refl,
          rw (fine, taken) (stored_run-ne-ok_true faults id command payload t),
        )
      ]
      | inr free ↦ elim (Bool-cases (faults 0)) [
        | inl failed ↦ inl (rw failed refl, rw failed (λ p. cc))
        | inr fine ↦ inr (free, rw (fine, free) refl)
      ]
    ]

-- A run that is new waits for nothing.
new-IsBounded :
    (limit : ℕ) (o : Option AgentRun) (here : Bool) (now : Time) (id command : String)
    (payload : Bytes)
    → 0 < limit
    → IsBounded limit o
    → IsBounded limit
        (if is_some o then o else if here then some (new_run now id command payload) else none)
new-IsBounded limit (some run) here now id command payload pos b = b
new-IsBounded limit none true now id command payload pos b = omega arith
new-IsBounded limit none false now id command payload pos b = tt

new_waits :
    (o : Option AgentRun) (here : Bool) (now : Time) (id command : String) (payload : Bytes)
    (q : Int64)
    → waits_for
        (if is_some o then o else if here then some (new_run now id command payload) else none)
        q
      ≡ waits_for o q
new_waits (some run) here now id command payload q = refl
new_waits none true now id command payload q = ground arith
new_waits none false now id command payload q = refl

prepared-IsConsistent :
    (limit : ℕ) (now : Time) (id command : String) (payload : Bytes) (t : Tables)
    → IsConsistent limit t
    → 0 < limit
    → find_run id t.agent_runs ≡ none
    → IsConsistent limit (prepared now id command payload t)
prepared-IsConsistent limit now id command payload t v pos fresh = record {
  bounded = λ j. rw (find_run-append j t.agent_runs (new_run now id command payload)) (
      new-IsBounded limit (find_run j t.agent_runs) (str_eq id j) now id command payload pos
        (v.bounded j));
  exact = λ j q. rw (find_run-append j t.agent_runs (new_run now id command payload)) (
      rw (new_waits (find_run j t.agent_runs) (str_eq id j) now id command payload q)
        (v.exact j q));
}

-- `PrepareRun` keeps the store consistent, whatever fails.
pub prepare_run-IsConsistent :
    (limit : ℕ) (faults : Faults) (now : Time) (id command : String) (payload : Bytes) (t : Tables)
    → IsConsistent limit t
    → 0 < limit
    → IsConsistent limit (prepare_run faults now id command payload t).0
prepare_run-IsConsistent limit faults now id command payload t v pos =
    elim (prepare_run-cases faults now id command payload t) [
      | inl (same, _) ↦ rw same v
      | inr (free, done) ↦ rw done (
          prepared-IsConsistent limit now id command payload t v pos
            (find_run_of_conflicts-false id command t.agent_runs free))
    ]

pub created :
    (faults : Faults) (now : Time) (id command : String) (payload : Bytes) (t t' : Tables)
    → prepare_run faults now id command payload t ≡ (t', ok true)
    → (find_run id t.agent_runs ≡ none) × (t' ≡ prepared now id command payload t)
created faults now id command payload t t' h =
    elim (prepare_run-cases faults now id command payload t) [
      | inl (same, not_new) ↦ absurd (not_new (ap (λ (r : Tables × Outcome Bool). r.1) h))
      | inr (free, done) ↦ (
        find_run_of_conflicts-false id command t.agent_runs free,
        ap (λ (r : Tables × Outcome Bool). r.0) (sym h ∙ done),
      )
    ]

cancelled : (now : Time) (id j : String) (t : Tables) → Option AgentRun
cancelled now id j t =
    if str_eq id j
    then Option.map (cancel_run now) (find_run j t.agent_runs)
    else find_run j t.agent_runs

find_run-cancel :
    (faults : Faults) (now : Time) (id j : String) (t : Tables)
    → faults 0 ≡ false
    → find_run j (cancel faults now id t).0.agent_runs ≡ cancelled now id j t
unfolding cancel cancelled
find_run-cancel faults now id j t fine = elim (Option-cases (find_run id t.agent_runs)) [
  | inl missing ↦ rw (fine, missing) (ground (arith, eq_iff id j))
  | inr (run, found) ↦
      rw (fine, found) (find_run-update id j (cancel_run now) t.agent_runs (λ r. refl))
]

-- `Cancel` marks the run, if it is known, and changes nothing else of any run or of the outbox; for
-- an unknown run it returns an error.
pub cancel_lem :
    (now : Time) (id : String) (t : Tables)
    → let (t', e) = cancel no_faults now id t in
      (t'.result_outbox ≡ t.result_outbox)
      × (e ≡ (if is_some (find_run id t.agent_runs) then none else some run_not_found))
      × ((j : String)
          → find_run j t'.agent_runs ≡ (
              if str_eq id j
              then Option.map (cancel_run now) (find_run j t.agent_runs)
              else find_run j t.agent_runs))
cancel_lem now id t = (
  unfold cancel in ground arith,
  unfold cancel in ground arith,
  λ j. unfold cancelled in find_run-cancel no_faults now id j t refl,
)

cancelled_waits :
    (o : Option AgentRun) (here : Bool) (now : Time) (q : Int64)
    → waits_for (if here then Option.map (cancel_run now) o else o) q ≡ waits_for o q
cancelled_waits none true now q = refl
cancelled_waits (some run) true now q = refl
cancelled_waits o false now q = refl

cancelled-IsBounded :
    (limit : ℕ) (o : Option AgentRun) (here : Bool) (now : Time)
    → IsBounded limit o
    → IsBounded limit (if here then Option.map (cancel_run now) o else o)
cancelled-IsBounded limit none true now b = tt
cancelled-IsBounded limit (some run) true now b = b
cancelled-IsBounded limit o false now b = b

pub cancel-IsConsistent :
    (limit : ℕ) (faults : Faults) (now : Time) (id : String) (t : Tables)
    → IsConsistent limit t
    → IsConsistent limit (cancel faults now id t).0
cancel-IsConsistent limit faults now id t v = elim (Bool-cases (faults 0)) [
  | inl failed ↦ unfold cancel in rw failed v
  | inr fine ↦ record {
    bounded = λ j. rw (find_run-cancel faults now id j t fine) (
        unfold cancelled in
        cancelled-IsBounded limit (find_run j t.agent_runs) (str_eq id j) now (v.bounded j));
    exact = λ j q.
        rw (find_run-cancel faults now id j t fine, same_outbox)
          (unfold cancelled in
            rw (cancelled_waits (find_run j t.agent_runs) (str_eq id j) now q) (v.exact j q));
  }
]
  where
    same_outbox : (cancel faults now id t).0.result_outbox ≡ t.result_outbox
    same_outbox = unfold cancel in ground arith
