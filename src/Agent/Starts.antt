-- ===== src/Agent/Starts.antt =====
-- internal/agent/service.go: a command that starts a run is taken once, and an event of a run is
-- published once the store has it.
use mac_agent.Base.{
  none, ap, ◌≡◌, refl, ◌⊎◌, inl, inr, String, true, Option, some, List, [], ◌∷◌, ◌++◌, Bytes,
  bytes_eq, Option-cases,
}
use mac_agent.Agent.{deliver, append_and_publish, durable_event}
use mac_agent.Durable.{Faults, StoreError, event_row, append_event}
use mac_agent.Durable
use mac_agent.Durable.Outbox.{appended, append_event-cases}
use mac_agent.Durable.Schema.{AgentRun, Tables, find_run}
use mac_agent.Protocol.Types.{Time, Message}

-- The run that the store holds of the command.
abbrev pub IsStored : String → String → Bytes → Tables → Type 0
IsStored id command payload t =
    (run : AgentRun) × (find_run id t.agent_runs ≡ some run)
    × (run.start_command_id ≡ command)
    × (bytes_eq run.start_payload_json payload ≡ true)

-- The event as the store numbers it.
abbrev pub numbered : AgentRun → Message → Message
numbered run event = record event { agent_sequence = run.next_agent_sequence }

abbrev pub IsLost : Tables → Option Tables × List Message → Type 0
IsLost t r = r ≡ (some t, [])

abbrev pub IsRecorded : Time → String → Message → Tables → Option Tables × List Message → Type 0
IsRecorded now run_id event t r =
    (run : AgentRun) × (t' : Tables) × (find_run run_id t.agent_runs ≡ some run)
    × (r ≡ (some t', numbered run event ∷ []))
    × (t'.result_outbox ≡ t.result_outbox ++ event_row now run_id (numbered run event) ∷ [])

-- A durable event of a run that reaches the sink is published only with its row in the outbox, under
-- the sequence that the run gives it; where the store fails, nothing is published and nothing is
-- stored.
pub deliver-IsRecorded :
    (faults : Faults) (now : Time) (run_id : String) (event : Message) (t : Tables)
    → durable_event event.type ≡ true
    → IsLost t (deliver faults now run_id event (some t))
      ⊎ IsRecorded now run_id event t (deliver faults now run_id event (some t))
unfolding deliver append_and_publish
deliver-IsRecorded faults now run_id event t durable =
    elim (append_event-cases faults now run_id event t) [
      | inl (same, failed) ↦ elim (Option-cases (append_event faults now run_id event t).2) [
        | inl fine ↦ absurd (failed fine)
        | inr (e, error) ↦ inl (rw (durable, same, error, append_and_publish) refl)
      ]
      | inr (run, stored, done) ↦ inr (
        run,
        appended now run_id (numbered run event) t,
        stored,
        rw durable (
            ap
              (λ (r : Tables × Message × Option StoreError).
                (some r.0, elim r.2 [ none ↦ r.1 ∷ [] | some e ↦ [] ]))
              done),
        refl,
      )
    ]
