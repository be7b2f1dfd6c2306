-- ===== src/Durable/Outbox.antt =====
-- What `AppendEvent` and `DurableAck` of internal/durable/store.go do to the outbox.

use mac_agent.Base.{
  ℕ, suc, ◌^◌, ◌<◌, ◌≤◌, String, ◌≡◌, ◌≢◌, refl, ap, ◌∙◌, true, false, Option, none, some, [], ◌∷◌,
  ◌++◌, Int64, is_some, str_eq, eq_iff, lt64, le64, ◌==◌, ◌&&◌, ◌||◌, if◌then◌else◌, arith,
  Option-cases, Bool-cases, ◌⊎◌, inl, inr,
}
use mac_agent.Protocol.Types.{Time, Message}
use mac_agent.Durable.{
  delete_events, StoreError, invalid_ack, Faults, insert_event, append_event, advance_run,
  event_row, durable_ack, ack_run,
}
use mac_agent.Durable.Schema.{AgentRun, Tables, find_run, update_run, find_row, delete_acked}
use mac_agent.Durable.Keys.{find_row-append, find_row-delete}
use mac_agent.Durable.Consistency.{
  IsConsistent, waits_for, bound_at, IsBounded-suc, appended_exact, appended-IsBounded, acked_exact,
  acked-IsBounded,
}

-- No database call fails.
abbrev pub no_faults : Faults
no_faults n = false

pub IsConsistent-suc : (limit : ℕ) (t : Tables) → IsConsistent limit t → IsConsistent (suc limit) t
IsConsistent-suc limit t v = record {
  bounded = λ id. IsBounded-suc limit (find_run id t.agent_runs) (v.bounded id);
  exact = v.exact;
}

-- The tables that the commit of `AppendEvent` leaves.
abbrev pub appended : Time → String → Message → Tables → Tables
appended now id m t = record t {
  agent_runs = update_run id (advance_run now m.type m.agent_sequence) t.agent_runs;
  result_outbox = t.result_outbox ++ event_row now id m ∷ [];
}

insert_event-cases :
    (faults : Faults) (now : Time) (id : String) (m : Message) (t : Tables)
    → (((insert_event faults now id m t).0 ≡ t) × ((insert_event faults now id m t).2 ≢ none))
      ⊎ (insert_event faults now id m t ≡ (appended now id m t, m, none))
unfolding insert_event
insert_event-cases faults now id m t = ground arith

append_event_found :
    (faults : Faults) (now : Time) (id : String) (m : Message) (t : Tables) (run : AgentRun)
    → (faults 0 || faults 1) ≡ false
    → find_run id t.agent_runs ≡ some run
    → append_event faults now id m t
      ≡ insert_event faults now id (record m { agent_sequence = run.next_agent_sequence }) t
unfolding append_event
append_event_found faults now id m t run e found = rw (e, found)

pub append_event-cases :
    (faults : Faults) (now : Time) (id : String) (m : Message) (t : Tables)
    → (((append_event faults now id m t).0 ≡ t) × ((append_event faults now id m t).2 ≢ none))
      ⊎ ((run : AgentRun) × (find_run id t.agent_runs ≡ some run)
          × (append_event faults now id m t ≡ (
            appended now id (record m { agent_sequence = run.next_agent_sequence }) t,
            record m { agent_sequence = run.next_agent_sequence },
            none,
          )))
append_event-cases faults now id m t = elim (Option-cases (find_run id t.agent_runs)) [
  | inl missing ↦ inl (unfold append_event in ground arith)
  | inr (run, found) ↦ elim (Bool-cases (faults 0 || faults 1)) [
    | inl e ↦ inl (unfold append_event in (rw e refl, rw e (λ p. cc)))
    | inr e ↦
        rw (append_event_found faults now id m t run e found)
          (elim (insert_event-cases faults now id
            (record m { agent_sequence = run.next_agent_sequence }) t) [
              | inl failed ↦ inl failed
              | inr done ↦ inr (run, found, done)
            ])
  ]
]

-- `AppendEvent` is all or nothing: when it returns an error the tables are as they were.
pub append_event-atomic :
    (faults : Faults) (now : Time) (id : String) (m : Message) (t : Tables)
    → (append_event faults now id m t).2 ≢ none
    → (append_event faults now id m t).0 ≡ t
append_event-atomic faults now id m t failed = elim (append_event-cases faults now id m t) [
  | inl (same, _) ↦ same
  | inr (run, found, done) ↦
      absurd (failed (ap (λ (r : Tables × Message × Option StoreError). r.2) done))
]

-- `AppendEvent` keeps the store consistent, whatever fails.
pub append_event-IsConsistent :
    (limit : ℕ) (faults : Faults) (now : Time) (id : String) (m : Message) (t : Tables)
    → IsConsistent limit t
    → limit < 2 ^ 63
    → IsConsistent (suc limit) (append_event faults now id m t).0
append_event-IsConsistent limit faults now id m t v small =
    elim (append_event-cases faults now id m t) [
      | inl (same, _) ↦ rw same (IsConsistent-suc limit t v)
      | inr (run, found, done) ↦
          let m' : Message = record m { agent_sequence = run.next_agent_sequence } in
          rw done (record {
            bounded = appended-IsBounded limit t v id run found now m' refl small;
            exact = appended_exact limit t v id run found now m' refl small;
          })
    ]

-- An append to a known run of a consistent store, while the database works: it is committed.
pub append_event_done :
    (limit : ℕ) (now : Time) (id : String) (m : Message) (t : Tables) (run : AgentRun)
    → IsConsistent limit t
    → find_run id t.agent_runs ≡ some run
    → let m' : Message = record m { agent_sequence = run.next_agent_sequence } in
      (is_some (find_row id run.next_agent_sequence t.result_outbox) ≡ false)
      × (append_event no_faults now id m t ≡ (appended now id m' t, m', none))
append_event_done limit now id m t run v found = (
  fresh,
  append_event_found no_faults now id m t run refl found ∙ (unfold insert_event in rw fresh refl),
)
  where
    fresh : is_some (find_row id run.next_agent_sequence t.result_outbox) ≡ false
    fresh =
        v.exact id run.next_agent_sequence
        ∙ ap (λ o. waits_for o run.next_agent_sequence) found
        ∙ ground arith

-- In a consistent store `AppendEvent` of a known run succeeds unless the database fails: the event
-- gets the run's next sequence, and its row is the only change to the outbox.
pub append_event-records :
    (limit : ℕ) (now : Time) (id : String) (m : Message) (t : Tables) (run : AgentRun)
    → IsConsistent limit t
    → find_run id t.agent_runs ≡ some run
    → let (t', m', e) = append_event no_faults now id m t in
      (e ≡ none)
      × (m' ≡ record m { agent_sequence = run.next_agent_sequence })
      × ((j : String) (q : Int64)
          → find_row j q t'.result_outbox ≡ (
              if str_eq id j && run.next_agent_sequence == q
              then some (event_row now id m')
              else find_row j q t.result_outbox))
append_event-records limit now id m t run v found =
    let (fresh, done) = append_event_done limit now id m t run v found in
    rw done (
      refl,
      refl,
      λ j q.
          rw (find_row-append j q t.result_outbox (event_row now id m'))
            (ground (arith, eq_iff id j, fresh)),
    )
  where
    m' : Message
    m' = record m { agent_sequence = run.next_agent_sequence }

abbrev pub acked_tables : Time → String → Int64 → Tables → Tables
acked_tables now id n t = record t {
  agent_runs = update_run id (ack_run now n) t.agent_runs;
  result_outbox = delete_acked id n t.result_outbox;
}

pub durable_ack-cases :
    (faults : Faults) (now : Time) (id : String) (n : Int64) (t : Tables)
    → (((durable_ack faults now id n t).0 ≡ t) × ((durable_ack faults now id n t).1 ≢ none))
      ⊎ ((run : AgentRun) × (find_run id t.agent_runs ≡ some run)
          × ((lt64 n 0 || le64 run.next_agent_sequence n) ≡ false)
          × (durable_ack faults now id n t ≡ (acked_tables now id n t, none)))
durable_ack-cases faults now id n t = elim (Option-cases (find_run id t.agent_runs)) [
  | inl missing ↦ inl (unfold durable_ack delete_events in ground arith)
  | inr (run, found) ↦ elim (Bool-cases (lt64 n 0 || le64 run.next_agent_sequence n)) [
    | inl e ↦ inl (unfold durable_ack delete_events in ground arith)
    | inr e ↦ elim (Bool-cases ((faults 0 || faults 1) || (faults 2 || (faults 3 || faults 4)))) [
      | inl failed ↦ inl (unfold durable_ack delete_events in ground arith)
      | inr fine ↦ inr (run, found, e, unfold durable_ack delete_events in ground arith)
    ]
  ]
]

-- A sequence that the test of `DurableAck` passes is below the run's next one.
in_range :
    (n next : Int64) → next < 2 ^ 63 → n < 2 ^ 64 → (lt64 n 0 || le64 next n) ≡ false → n < next
in_range n next small word h = ground arith

-- `DurableAck` keeps the store consistent, whatever fails.
pub durable_ack-IsConsistent :
    (limit : ℕ) (faults : Faults) (now : Time) (id : String) (n : Int64) (t : Tables)
    → IsConsistent limit t
    → limit < 2 ^ 63
    → n < 2 ^ 64
    → IsConsistent limit (durable_ack faults now id n t).0
durable_ack-IsConsistent limit faults now id n t v small word =
    elim (durable_ack-cases faults now id n t) [
      | inl (same, _) ↦ rw same v
      | inr (run, found, tested, done) ↦
          let (low, high) = bound_at limit t id run v found in
          let inside = in_range n run.next_agent_sequence (omega arith) word tested in
          rw done (record {
            bounded = acked-IsBounded limit t v id run found now n inside small;
            exact = acked_exact limit t v id run found now n inside small;
          })
    ]

-- `DurableAck` of a known run in a consistent store, when no database call fails: a sequence below
-- the run's next one removes the events of that run up to it and no other, and any other sequence,
-- negative ones included, is refused and changes nothing.
pub durable_ack-removes :
    (limit : ℕ) (now : Time) (id : String) (n : Int64) (t : Tables) (run : AgentRun)
    → IsConsistent limit t
    → limit < 2 ^ 63
    → n < 2 ^ 64
    → find_run id t.agent_runs ≡ some run
    → let (t', e) = durable_ack no_faults now id n t in
      (n < run.next_agent_sequence
        → (e ≡ none)
          × ((j : String) (q : Int64)
              → find_row j q t'.result_outbox
                ≡ (if str_eq id j && le64 q n then none else find_row j q t.result_outbox)))
      × (run.next_agent_sequence ≤ n → (t' ≡ t) × (e ≡ some (invalid_ack n id)))
durable_ack-removes limit now id n t run v small word found =
    let (low, high) = bound_at limit t id run v found in
    (
      λ inside.
          let tested = accepted n run.next_agent_sequence (omega arith) inside in
          unfold durable_ack delete_events in
          (
            rw (found, tested) refl,
            λ j q. rw (found, tested) (find_row-delete id j n q t.result_outbox),
          ),
      λ outside.
          let tested = refused n run.next_agent_sequence (omega arith) word outside in
          unfold durable_ack delete_events in (rw (found, tested) refl, rw (found, tested) refl),
    )
  where
    accepted : (n next : Int64) → next < 2 ^ 63 → n < next → (lt64 n 0 || le64 next n) ≡ false
    accepted n next small h = ground arith

    refused :
        (n next : Int64) → next < 2 ^ 63 → n < 2 ^ 64 → next ≤ n → (lt64 n 0 || le64 next n) ≡ true
    refused n next small word h = ground arith
