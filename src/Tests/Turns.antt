-- ===== src/Tests/Turns.antt =====
-- internal/turn/controller.go on samples.
use mac_agent.Base.{ℕ, ◌≡◌, refl, Option, none, some, List, [], ◌∷◌, Bytes, codes}
use mac_agent.Durable.{append_event}
use mac_agent.Durable.Outbox.{no_faults}
use mac_agent.Durable.Schema.{AgentRun, find_run}
use mac_agent.Protocol.Commands.{TurnStartPayload}
use mac_agent.Protocol.Messages.{Stamp}
use mac_agent.Protocol.Payloads.{Payload}
use mac_agent.Protocol.Types.{Sender, Message, ThreadHistoryItem}
use mac_agent.Runner.{Event, Result, RunError, event_item_delta}
use mac_agent.Turn.{
  Collected, Execution, err, refused, claim, handle_event, terminal, new_controller,
}
use mac_agent.Turn.History.{
  System, claims, handles, IsReached, initial, step, IsSound, history-IsSound,
}
use mac_agent.Turn.Items.{Controller, blank_item}
use mac_agent.Turn.Outcomes.{terminal-ends}
use mac_agent.Tests.Stores.{output, stored, run, stored-IsConsistent, two_events}
use mac_agent.Turn.Snapshots.{IsFit, fit_live_snapshot, fit_live_snapshot_lem}
use mac_agent.Workspace.{Project}

abbrev pub json : Payload → Option Bytes
json p = some (codes "{}")

abbrev pub agent : Sender
agent = record { kind = "agent"; id = "mac" }

abbrev texts : RunError → Bytes
texts e = codes "error"

abbrev no_git : Bytes → Collected
no_git dir = err (codes "no repository")

abbrev pub stamp : Stamp
stamp = record { message_id = "m"; trace_id = "t"; now = 5 }

abbrev pub app : Project
app = record {
  id = "app";
  name = codes "App";
  path = codes "/app";
  root_paths = [];
  thread_cwds = [];
}

abbrev pub ask : TurnStartPayload
ask = record {
  command_id = "c";
  run_id = "r";
  project_id = "app";
  thread_id = "";
  prompt = codes "Fix it";
  permission_profile_id = "";
}

abbrev execution : Execution
execution = record { trace_id = "t"; project = app; payload = ask; started_at = 3 }

abbrev delta : Event
delta = record {
  kind = event_item_delta;
  thread_id = "thread";
  turn_id = "turn";
  stream = "assistant";
  text = codes "Hi";
  item_id = "i";
  field = "text";
  item = blank_item "" "";
}

-- A start, a delta of a first item, and an interrupt.
abbrev fresh : Controller
fresh = new_controller 2

abbrev begun : Controller
begun = (claim execution fresh).0

abbrev told : Controller
told = (handle_event json agent stamp execution delta begun).0

abbrev Reached : System → Type 0
Reached = IsReached json agent texts no_git 2

told-Reached : Reached (record { controller = told; executing = execution ∷ [] })
unfolding refused
told-Reached =
    step (record { controller = begun; executing = execution ∷ [] })
      (record { controller = told; executing = execution ∷ [] })
      (step (record { controller = fresh; executing = [] })
        (record { controller = begun; executing = execution ∷ [] }) initial
        (unfold claim in claims fresh [] execution refl))
      (handles begun [] [] execution stamp delta)

history-IsSound_example : IsSound (record { controller = told; executing = execution ∷ [] })
history-IsSound_example =
    history-IsSound json agent texts no_git 2
      (record { controller = told; executing = execution ∷ [] }) told-Reached

abbrev result : Result
result = record { thread_id = "thread"; turn_id = "turn"; duration = 9; summary = [] }

-- The last message of a turn that completes.
abbrev ending : Message
ending = record output { type = (terminal json agent texts no_git execution 9 none result none).0 }

terminal-ends_example :
    let (t', m', failure) = append_event no_faults 4 "r" ending stored in
    (failure ≡ none)
    × (run' : AgentRun) × (find_run "r" t'.agent_runs ≡ some run')
    × (run'.status ≡ "terminal")
    × (run'.final_sequence ≡ some m'.agent_sequence)
terminal-ends_example =
    terminal-ends json agent texts no_git execution 9 none result none 4 4 "r" ending stored run
      refl stored-IsConsistent two_events.0

-- Each item counts as 100 KiB.
abbrev size : List ThreadHistoryItem → Option ℕ
size [] = some 2
size (x ∷ []) = some 102400
size (x ∷ y ∷ rest) = some 204800

abbrev two_items : List ThreadHistoryItem
two_items = blank_item "a" "plan" ∷ blank_item "b" "plan" ∷ []

fit_live_snapshot_lem_example : IsFit size two_items (fit_live_snapshot size two_items)
fit_live_snapshot_lem_example = fit_live_snapshot_lem size two_items
