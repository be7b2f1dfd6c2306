-- ===== src/Turn.antt =====
-- internal/turn/controller.go: the controller that runs one turn at a time.
--
-- The mutex makes each locked part of a method one step, so that a method is a function from the
-- controller to the controller and to the messages that it passes to its sink. `Stamp` is what the
-- clock and the ids give to one message. The JSON of a payload, the text of an error and the git
-- collector are parameters.
pub mod Items
pub mod Indexed
pub mod Kept
pub mod Snapshots
pub mod History
pub mod Outcomes
use mac_agent.Base.{
  ℕ, String, Bool, true, false, Option, none, some, List, [], ◌∷◌, ◌++◌, Bytes, Int64, sub64, lt64,
  leb, ltb, ◌==◌, ◌*◌, ◌/◌, is_some, is_empty, no_bytes, str_eq, length, codes, not, ◌&&◌, ◌||◌,
  if◌then◌else◌,
}
use mac_agent.Buffer
use mac_agent.Buffer.{Ring}
use mac_agent.Protocol.Types.{Time, Sender, Message}
use mac_agent.Protocol.Payloads.{
  Payload, agent_status, turn_started, turn_output, turn_item_started, turn_item_delta,
  turn_item_completed, turn_interrupted, turn_completed, turn_failed,
}
use mac_agent.Protocol.Commands.{TurnStartPayload}
use mac_agent.Protocol.Messages.{Stamp, new_message}
use mac_agent.Protocol.MessageType
use mac_agent.Protocol.Status
use mac_agent.Runner.{
  Event, Result, RunError, event_started, event_output, event_item_started, event_item_delta,
  event_item_completed,
}
use mac_agent.Runner
use mac_agent.Workspace.{Project, Resolved, CatalogError, working_directory}
use mac_agent.Workspace
use Items.{ContextError, Controller, store_started_item, store_item_delta, store_completed_item}
use Items

pub record GitResult : Type 0 where
  pub changed_files : List Bytes
  pub diff : Bytes
  pub diff_truncated : Bool

-- What `Collect` returns: a result, or an error and its text.
pub data Collected : Type 0 where
  ok : GitResult → Collected
  err : Bytes → Collected

pub data StartError : Type 0 where
  trace_id_required project_id_required prompt_required prompt_too_long busy : StartError
  unresolved : CatalogError → StartError

abbrev pub max_prompt_bytes : ℕ
max_prompt_bytes = 16 * 1024

abbrev pub new_controller : Int64 → Controller
new_controller log_lines = record {
  logs = Buffer.new log_lines;
  live_items = [];
  live_item_index = [];
  last_sequence = 0;
  trace_id = "";
  project_id = "";
  thread_id = "";
  turn_id = "";
  started_at = 0;
  cancel = none;
  last_terminal = none;
}

-- What `execute` is called with.
pub record Execution : Type 0 where
  pub trace_id : String
  pub project : Project
  pub payload : TurnStartPayload
  pub started_at : Time

-- The guards of `Start` in front of its lock.
unfoldable pub refused : String → TurnStartPayload → Option StartError
refused trace_id payload =
    if is_empty trace_id
    then some trace_id_required
    else if is_empty payload.project_id
    then some project_id_required
    else if no_bytes payload.prompt
    then some prompt_required
    else if ltb max_prompt_bytes (length payload.prompt)
    then some prompt_too_long
    else none

abbrev pub begin : Execution → Controller → Controller
begin e c = record {
  logs = Buffer.reset c.logs;
  live_items = [];
  live_item_index = [];
  last_sequence = 0;
  trace_id = e.trace_id;
  project_id = e.project.id;
  thread_id = e.payload.thread_id;
  turn_id = "";
  started_at = e.started_at;
  cancel = some none;
  last_terminal = none;
}

pub data Started : Type 0 where
  ok : Execution → Started
  err : StartError → Started

-- The locked part of `Start`; a success is the goroutine that it starts.
unfoldable pub claim : Execution → Controller → Controller × Started
claim e c = if not (is_empty c.trace_id) then (c, err busy) else (begin e c, ok e)

-- A context is ended once: what comes later changes nothing.
abbrev pub end_context : ContextError → Option ContextError → Option ContextError
end_context e none = some e
end_context e (some first) = some first

unfoldable pub cancel_context : Controller → Controller
cancel_context c = elim c.cancel [
  | none ↦ c
  | some ended ↦ record c { cancel = some (end_context Items.canceled ended) }
]

-- `true` is success, `false` is `ErrTurnNotFound`.
unfoldable pub interrupt : String → String → Controller → Controller × Bool
interrupt thread_id turn_id c =
    if is_empty c.trace_id
      || not (is_some c.cancel)
      || not (str_eq c.thread_id thread_id)
      || not (str_eq c.turn_id turn_id)
    then (c, false)
    else (cancel_context c, true)

-- The deadline of the context of the running turn passes.
unfoldable pub expire : Controller → Controller
expire c = elim c.cancel [
  | none ↦ c
  | some ended ↦ record c { cancel = some (end_context Items.deadline_exceeded ended) }
]

unfoldable pub close : Controller → Controller
close c = cancel_context c

-- `Duration.Milliseconds`: the quotient is rounded toward 0.
abbrev pub milliseconds : Int64 → Int64
milliseconds d = if lt64 d 0 then sub64 0 (sub64 0 d / 1000000) else d / 1000000

-- The locked part of the handling of `EventStarted`.
unfoldable pub note_started : String → Event → Controller → Controller
note_started trace_id event c =
    if str_eq c.trace_id trace_id
    then record c { thread_id = event.thread_id; turn_id = event.turn_id }
    else c

-- The locked end of `execute`.
unfoldable pub finish : String → Message → Controller → Controller
finish trace_id terminal c =
    if str_eq c.trace_id trace_id
    then record c {
      trace_id = "";
      project_id = "";
      thread_id = "";
      turn_id = "";
      started_at = 0;
      cancel = none;
      last_terminal = some terminal;
      live_items = [];
      live_item_index = [];
    }
    else c

abbrev pub failed_payload : Execution → String → String → String → Bytes → Int64 → Payload
failed_payload e thread_id turn_id code message duration = turn_failed record {
  project_id = e.project.id;
  thread_id = thread_id;
  turn_id = turn_id;
  code = code;
  message = message;
  duration_ms = milliseconds duration;
}

module _ (marshal : Payload → Option Bytes) (sender : Sender) where
  -- The message, and what the sink is given. A nil sink drops it.
  unfoldable pub emit : Stamp → String → String → Payload → Message × List Message
  emit stamp type trace_id payload =
      let (message, error) = new_message marshal stamp type trace_id sender payload in
      (message, elim error [ none ↦ message ∷ [] | some e ↦ [] ])

  -- The running status, of a start that succeeded.
  abbrev pub announce : Stamp → Started → List Message
  announce stamp (err e) = []
  announce stamp (ok e) =
      (emit stamp MessageType.agent_status e.trace_id (
        agent_status record {
          status = Status.running;
          project_id = e.project.id;
          thread_id = e.payload.thread_id;
          turn_id = "";
        })).1

  -- `Start`: `now` is the time that it reads, `resolved` what the catalog returns.
  unfoldable pub start :
      Stamp
      → Time
      → Resolved
      → String
      → TurnStartPayload
      → Controller
      → Controller × Started × List Message
  start stamp now resolved trace_id payload c = elim (refused trace_id payload) [
    | some e ↦ (c, err e, [])
    | none ↦ elim resolved [
      | Workspace.err e ↦ (c, err (unresolved e), [])
      | Workspace.ok project ↦
          let e : Execution = record {
            trace_id = trace_id;
            project = project;
            payload = payload;
            started_at = now;
          } in
          let (c', started) = claim e c in (c', started, announce stamp started)
    ]
  ]

  -- An item is reported when it was stored.
  abbrev pub report :
      Stamp → String → String → (Int64 → Payload) → Controller × Int64 → Controller × List Message
  report stamp type trace_id payload (c, sequence) =
      (c, if sequence == 0 then [] else (emit stamp type trace_id (payload sequence)).1)

  -- The callback of `execute`.
  unfoldable pub handle_event : Stamp → Execution → Event → Controller → Controller × List Message
  handle_event stamp e event c =
      if str_eq event.kind event_started
      then (
        note_started e.trace_id event c,
        (emit stamp MessageType.turn_started e.trace_id (
            turn_started record {
              project_id = e.project.id;
              thread_id = event.thread_id;
              turn_id = event.turn_id;
              started_at = e.started_at;
            })).1,
      )
      else if str_eq event.kind event_output
      then (
        record c { logs = Buffer.add c.logs event.text },
        (emit stamp MessageType.turn_output e.trace_id (
            turn_output record {
              project_id = e.project.id;
              thread_id = event.thread_id;
              turn_id = event.turn_id;
              stream = event.stream;
              text = event.text;
            })).1,
      )
      else if str_eq event.kind event_item_started
      then report stamp MessageType.turn_item_started e.trace_id
          (λ sequence. turn_item_started record {
            project_id = e.project.id;
            thread_id = event.thread_id;
            turn_id = event.turn_id;
            sequence = sequence;
            item = event.item;
          })
          (store_started_item e.trace_id event.item c)
      else if str_eq event.kind event_item_delta
      then report stamp MessageType.turn_item_delta e.trace_id
          (λ sequence. turn_item_delta record {
            project_id = e.project.id;
            thread_id = event.thread_id;
            turn_id = event.turn_id;
            sequence = sequence;
            item_id = event.item_id;
            field = event.field;
            delta = event.text;
          })
          (store_item_delta e.trace_id event c)
      else if str_eq event.kind event_item_completed
      then report stamp MessageType.turn_item_done e.trace_id
          (λ sequence. turn_item_completed record {
            project_id = e.project.id;
            thread_id = event.thread_id;
            turn_id = event.turn_id;
            sequence = sequence;
            item = event.item;
          })
          (store_completed_item e.trace_id event.item c)
      else (c, [])

  module _ (error_text : RunError → Bytes) (collect : Bytes → Collected) where
    -- The type and the payload of the terminal message. `elapsed` is the time since the start;
    -- `ended` is the error of the context.
    unfoldable pub terminal :
        Execution → Int64 → Option ContextError → Result → Option RunError → String × Payload
    terminal e elapsed ended result error =
        let thread_id =
          if is_empty result.thread_id then e.payload.thread_id else result.thread_id in
        let failed : String → Bytes → String × Payload = λ code message. (
          MessageType.turn_failed,
          failed_payload e thread_id result.turn_id code message elapsed,
        ) in
        let interrupted : String × Payload = (
          MessageType.turn_interrupted,
          turn_interrupted record {
            project_id = e.project.id;
            thread_id = thread_id;
            turn_id = result.turn_id;
            duration_ms = milliseconds elapsed;
          },
        ) in
        elim ended [
          | some Items.deadline_exceeded ↦ failed "TURN_TIMEOUT" (codes "Codex turn timed out")
          | some Items.canceled ↦ interrupted
          | none ↦ elim error [
            | some Runner.turn_interrupted ↦ interrupted
            | some other ↦ failed "CODEX_TURN_FAILED" (error_text other)
            | none ↦ elim (collect (working_directory e.project e.payload.thread_id)) [
              | err text ↦ failed "RESULT_COLLECTION_FAILED" text
              | ok git ↦ (
                MessageType.turn_completed,
                turn_completed record {
                  project_id = e.project.id;
                  thread_id = thread_id;
                  turn_id = result.turn_id;
                  duration_ms = milliseconds result.duration;
                  summary = result.summary;
                  changed_files = git.changed_files;
                  diff = git.diff;
                  diff_truncated = git.diff_truncated;
                },
              )
            ]
          ]
        ]

    -- `execute` behind the run: the terminal message, then the idle status.
    unfoldable pub conclude :
        Stamp
        → Stamp
        → Execution
        → Int64
        → Option ContextError
        → Result
        → Option RunError
        → Controller
        → Controller × List Message
    conclude terminal_stamp idle_stamp e elapsed ended result error c =
        let (type, payload) = terminal e elapsed ended result error in
        let (message, sent) = emit terminal_stamp type e.trace_id payload in
        (
          finish e.trace_id message c,
          sent
              ++ (emit idle_stamp MessageType.agent_status e.trace_id (
                  agent_status record {
                    status = Status.idle;
                    project_id = "";
                    thread_id = "";
                    turn_id = "";
                  })).1,
        )
