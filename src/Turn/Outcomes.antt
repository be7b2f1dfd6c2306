-- ===== src/Turn/Outcomes.antt =====
-- What the end of a turn does to its run in the store.
use mac_agent.Base.{
  ℕ, ◌≡◌, refl, ap, ◌∙◌, ◌⊎◌, inl, inr, String, true, Option, none, some, Bytes, Int64, eq_refl,
  if_both,
}
use mac_agent.Durable.{is_terminal, advance_run, append_event}
use mac_agent.Durable.Schema.{AgentRun, Tables, find_run}
use mac_agent.Durable.Consistency.{IsConsistent}
use mac_agent.Durable.Keys.{find_run-update}
use mac_agent.Durable.Outbox.{no_faults, appended, append_event_done}
use mac_agent.Protocol.Types.{Sender, Time, Message}
use mac_agent.Protocol.Payloads.{Payload}
use mac_agent.Runner.{Result, RunError}
use mac_agent.Turn.{GitResult, Collected, Execution, ok, err, terminal}
use mac_agent.Runner
use mac_agent.Turn.Items
use mac_agent.Turn.Items.{ContextError}
use mac_agent.Workspace.{working_directory}

Collected-cases :
    (r : Collected) → ((git : GitResult) × (r ≡ ok git)) ⊎ ((text : Bytes) × (r ≡ err text))
Collected-cases (ok git) = inl (git, refl)
Collected-cases (err text) = inr (text, refl)

advance_run-key :
    (now : Time) (type : String) (sequence : Int64) (run : AgentRun)
    → (advance_run now type sequence run).run_id ≡ run.run_id
advance_run-key now type sequence run =
    if_both (λ (r : AgentRun). r.run_id ≡ run.run_id) (is_terminal type) _ _ refl refl

module _ (marshal : Payload → Option Bytes) (sender : Sender) where
  module _ (error_text : RunError → Bytes) (collect : Bytes → Collected) where
    terminal-IsTerminal :
        (e : Execution) (elapsed : Int64) (ended : Option ContextError) (result : Result)
        (error : Option RunError)
        → is_terminal (terminal marshal sender error_text collect e elapsed ended result error).0
          ≡ true
    unfolding terminal is_terminal
    terminal-IsTerminal e elapsed (some Items.deadline_exceeded) result error = refl
    terminal-IsTerminal e elapsed (some Items.canceled) result error = refl
    terminal-IsTerminal e elapsed none result (some Runner.turn_interrupted) = refl
    terminal-IsTerminal e elapsed none result (some Runner.canceled) = refl
    terminal-IsTerminal e elapsed none result (some Runner.deadline_exceeded) = refl
    terminal-IsTerminal e elapsed none result (some Runner.client_required) = refl
    terminal-IsTerminal e elapsed none result (some Runner.turn_failed) = refl
    terminal-IsTerminal e elapsed none result (some (Runner.profile_not_allowed id)) = refl
    terminal-IsTerminal e elapsed none result (some (Runner.profile_unavailable id)) = refl
    terminal-IsTerminal e elapsed none result (some (Runner.unexpected_status status)) = refl
    terminal-IsTerminal e elapsed none result (some (Runner.thread_not_in_project thread project)) =
        refl
    terminal-IsTerminal e elapsed none result (some (Runner.failure text)) = refl
    terminal-IsTerminal e elapsed none result none =
        elim (Collected-cases (collect (working_directory e.project e.payload.thread_id))) [
          | inl (git, h) ↦ rw (h, terminal) refl
          | inr (text, h) ↦ rw (h, terminal) refl
        ]

    -- However a turn ends: when the message that ends it, of the type and the payload of `terminal`, is
    -- appended for a known run of a consistent store, and the database works, it is appended without an
    -- error, and the run is then terminal, with the sequence of this message as its final one.
    pub terminal-ends :
        (e : Execution) (elapsed : Int64) (ended : Option ContextError) (result : Result)
        (error : Option RunError) (limit : ℕ) (now : Time) (id : String) (m : Message) (t : Tables)
        (run : AgentRun)
        → m.type ≡ (terminal marshal sender error_text collect e elapsed ended result error).0
        → IsConsistent limit t
        → find_run id t.agent_runs ≡ some run
        → let (t', m', failure) = append_event no_faults now id m t in
          (failure ≡ none)
          × (run' : AgentRun) × (find_run id t'.agent_runs ≡ some run')
          × (run'.status ≡ "terminal")
          × (run'.final_sequence ≡ some m'.agent_sequence)
    terminal-ends e elapsed ended result error limit now id m t run same v found =
        let (_, done) = append_event_done limit now id m t run v found in
        let ends : is_terminal m.type ≡ true =
          ap is_terminal same ∙ terminal-IsTerminal e elapsed ended result error in
        let sequence = run.next_agent_sequence in
        let run' : find_run id
              (appended now id (record m { agent_sequence = sequence }) t).agent_runs
            ≡ some (advance_run now m.type sequence run) =
          find_run-update id id (advance_run now m.type sequence) t.agent_runs
            (λ r. advance_run-key now m.type sequence r)
          ∙ rw (eq_refl id, found) refl in
        rw done (refl, advance_run now m.type sequence run, run', rw ends refl, rw ends refl)
