-- ===== src/Runner/Server.antt =====
-- internal/runner/appserver.go: the runner that drives a turn of the app server.
--
-- The client is a record of its answers; the decoders of JSON and the normalising of an item are
-- parameters. The loop of `Run` is given what its `select` takes, one after the other.
use mac_agent.Base.{
  ◌*◌, ◌%◌, ◌^◌, String, Bool, true, false, Option, none, some, List, [], ◌∷◌, ◌++◌, Bytes, Int64,
  is_empty, no_bytes, str_eq, ◌&&◌, ◌||◌, if◌then◌else◌,
}
use mac_agent.Protocol.Types.{ThreadHistoryItem}
use mac_agent.CodexApp.{Notification, Thread, Turn, PermissionProfile}
use mac_agent.Runner.{
  Request, Event, Result, RunError, turn_interrupted, canceled, deadline_exceeded, turn_failed,
  profile_not_allowed, profile_unavailable, unexpected_status, thread_not_in_project, failure,
  event_started, event_output, event_item_started, event_item_delta, event_item_completed,
}
use mac_agent.Turn.Items.{ContextError, blank_item}
use mac_agent.Turn.Items

pub data Answer {ℓ} (A : Type ℓ) : Type ℓ where
  ok : A → Answer A
  err : RunError → Answer A

-- `AppServerClient`, less the handler of notifications and the interrupt, whose answer is dropped.
pub record AppServerClient : Type 0 where
  pub list_threads : Bytes → Answer (List Thread)
  pub list_permission_profiles : Bytes → Answer (List PermissionProfile)
  pub start_thread : Bytes → String → Answer Thread
  pub resume_thread : String → Bytes → String → Answer Thread
  pub start_turn : String → Bytes → Bytes → String → Answer Turn

pub record AppServerEvent : Type 0 where
  pub kind : String
  pub thread_id : String
  pub turn : Turn
  pub stream : String
  pub text : Bytes
  pub item_id : String
  pub field : String
  pub item : ThreadHistoryItem

-- The fields of the parameters that each kind of notification decodes.
pub record ItemParams : Type 0 where
  pub thread_id : String
  pub turn_id : String
  pub item : Bytes

pub record DeltaParams : Type 0 where
  pub thread_id : String
  pub turn_id : String
  pub item_id : String
  pub delta : Bytes
  pub message : Bytes

pub record CompletedParams : Type 0 where
  pub thread_id : String
  pub turn : Turn

abbrev pub turn_named : String → Turn
turn_named id = record {
  id = id;
  status = "";
  started_at = none;
  completed_at = none;
  duration_ms = none;
  items = [];
  error = none;
}

abbrev pub max_live_field_bytes : Int64
max_live_field_bytes = 24 * 1024

abbrev pub is_delta : String → Bool
is_delta method =
    str_eq method "item/agentMessage/delta"
    || str_eq method "item/commandExecution/outputDelta"
    || str_eq method "item/plan/delta"
    || str_eq method "item/reasoning/summaryTextDelta"
    || str_eq method "item/reasoning/textDelta"
    || str_eq method "item/mcpToolCall/progress"

-- The event of a delta that has an item and a text.
unfoldable pub delta_event : String → DeltaParams → Option AppServerEvent
delta_event method p =
    let text = if str_eq method "item/mcpToolCall/progress" then p.message else p.delta in
    if is_empty p.item_id || no_bytes text
    then none
    else some (record {
      kind = event_item_delta;
      thread_id = p.thread_id;
      turn = turn_named p.turn_id;
      stream =
          if str_eq method "item/agentMessage/delta"
          then "assistant"
          else if str_eq method "item/commandExecution/outputDelta"
          then "stdout"
          else "";
      text = text;
      item_id = p.item_id;
      field = if str_eq method "item/commandExecution/outputDelta" then "output" else "text";
      item = blank_item "" "";
    })

module _ (item_params : Bytes → Option ItemParams) (delta_params : Bytes → Option DeltaParams)
    (completed_params : Bytes → Option CompletedParams)
    (normalize : Bytes → Int64 → Option ThreadHistoryItem) where
  -- The event of an item that could be read.
  unfoldable pub item_event : String → ItemParams → Option AppServerEvent
  item_event method p = elim (normalize p.item max_live_field_bytes) [
    | none ↦ none
    | some item ↦ some (record {
      kind = if str_eq method "item/completed" then event_item_completed else event_item_started;
      thread_id = p.thread_id;
      turn = turn_named p.turn_id;
      stream = "";
      text = [];
      item_id = "";
      field = "";
      item = item;
    })
  ]

  unfoldable pub translate_notification : Notification → Option AppServerEvent
  translate_notification n =
      if str_eq n.method "item/started" || str_eq n.method "item/completed"
      then elim (item_params n.params) [ none ↦ none | some p ↦ item_event n.method p ]
      else if is_delta n.method
      then elim (delta_params n.params) [ none ↦ none | some p ↦ delta_event n.method p ]
      else if str_eq n.method "turn/completed"
      then elim (completed_params n.params) [
        | none ↦ none
        | some p ↦ some (record {
          kind = "completed";
          thread_id = p.thread_id;
          turn = p.turn;
          stream = "";
          text = [];
          item_id = "";
          field = "";
          item = blank_item "" "";
        })
      ]
      else none

-- `none` is Go's nil error. The first profile with the id decides.
unfoldable pub check_profile : String → List PermissionProfile → Option RunError
check_profile id [] = some (profile_unavailable id)
check_profile id (profile ∷ profiles) =
    if str_eq profile.id id
    then if profile.allowed then none else some (profile_not_allowed id)
    else check_profile id profiles

unfoldable pub validate_permission_profile : AppServerClient → Bytes → String → Option RunError
validate_permission_profile client cwd id =
    if is_empty id then none else elim (client.list_permission_profiles cwd) [
      | err e ↦ some e
      | ok profiles ↦ check_profile id profiles
    ]

unfoldable pub has_thread : String → List Thread → Bool
has_thread id [] = false
has_thread id (thread ∷ threads) = str_eq thread.id id || has_thread id threads

unfoldable pub resolve_thread : AppServerClient → Request → Answer Thread
resolve_thread client r =
    if is_empty r.thread_id
    then client.start_thread r.working_dir r.permission_profile_id
    else elim (client.list_threads r.working_dir) [
      | err e ↦ err e
      | ok threads ↦
          if has_thread r.thread_id threads
          then client.resume_thread r.thread_id r.working_dir r.permission_profile_id
          else err (thread_not_in_project r.thread_id r.project_id)
    ]

-- What one `select` of the loop takes.
pub data Selected : Type 0 where
  event : AppServerEvent → Selected
  done : ContextError → Selected

abbrev pub blank_event : String → String → String → Event
blank_event kind thread_id turn_id = record {
  kind = kind;
  thread_id = thread_id;
  turn_id = turn_id;
  stream = "";
  text = [];
  item_id = "";
  field = "";
  item = blank_item "" "";
}

-- The events that the second switch emits.
unfoldable pub emitted : String → String → AppServerEvent → List Event
emitted thread_id turn_id e =
    if str_eq e.kind event_output
    then record (blank_event event_output thread_id turn_id) { stream = e.stream; text = e.text }
      ∷ []
    else if str_eq e.kind event_item_started
    then record (blank_event event_item_started thread_id turn_id) { item = e.item } ∷ []
    else if str_eq e.kind event_item_delta
    then record (blank_event event_item_delta thread_id turn_id) {
      stream = e.stream;
      item_id = e.item_id;
      field = e.field;
      text = e.text;
    }
      ∷ (if is_empty e.stream
          then []
          else record (blank_event event_output thread_id turn_id) {
            stream = e.stream;
            text = e.text;
          }
            ∷ [])
    else if str_eq e.kind event_item_completed
    then record (blank_event event_item_completed thread_id turn_id) { item = e.item } ∷ []
    else []

-- What an event adds to the summary.
unfoldable pub summarized : AppServerEvent → Bytes
summarized e =
    if (str_eq e.kind event_output || str_eq e.kind event_item_delta) && str_eq e.stream "assistant"
    then e.text
    else []

-- The error of a turn that has completed; an error without a text is a general failure.
abbrev pub failure_of : Option Bytes → RunError
failure_of none = turn_failed
failure_of (some message) = if no_bytes message then turn_failed else failure message

unfoldable pub turn_error : Turn → Option RunError
turn_error t =
    if str_eq t.status "completed"
    then none
    else if str_eq t.status "interrupted"
    then some turn_interrupted
    else if str_eq t.status "failed"
    then some (failure_of t.error)
    else some (unexpected_status t.status)

-- What the run returns, and whether it has interrupted the turn.
pub record Ended : Type 0 where
  pub result : Result
  pub error : Option RunError
  pub interrupts : Bool

abbrev pub context_error : ContextError → RunError
context_error Items.canceled = canceled
context_error Items.deadline_exceeded = deadline_exceeded

-- `time.Duration(ms) * time.Millisecond`, which wraps.
abbrev pub in_nanoseconds : Int64 → Int64
in_nanoseconds ms = (ms * 1000000) % 2 ^ 64

-- Whether an event is of the turn that the run has started.
unfoldable pub is_mine : (thread_id turn_id : String) → AppServerEvent → Bool
is_mine thread_id turn_id e = str_eq e.thread_id thread_id && str_eq e.turn.id turn_id

-- `elapsed` is the time since the start when the run ends; `trim` is `strings.TrimSpace`.
module _ (trim : Bytes → Bytes) (elapsed : Int64) (thread_id turn_id : String) where
  unfoldable pub completed : Turn → Bytes → Ended
  completed turn summary = record {
    result = record {
      thread_id = thread_id;
      turn_id = turn_id;
      duration = elim turn.duration_ms [ none ↦ elapsed | some ms ↦ in_nanoseconds ms ];
      summary = trim summary;
    };
    error = turn_error turn;
    interrupts = false;
  }

  unfoldable pub stopped : ContextError → Bytes → Ended
  stopped e summary = record {
    result = record {
      thread_id = thread_id;
      turn_id = turn_id;
      duration = elapsed;
      summary = trim summary;
    };
    error = some (context_error e);
    interrupts = true;
  }

  -- The events of other threads and turns are dropped. `none` is a loop that still waits.
  unfoldable pub loop : Bytes → List Selected → List Event × Option Ended
  loop summary [] = ([], none)
  loop summary (done e ∷ rest) = ([], some (stopped e summary))
  loop summary (event e ∷ rest) =
      let mine = is_mine thread_id turn_id e in
      let completes = mine && str_eq e.kind "completed" in
      let later = loop (if mine then summary ++ summarized e else summary) rest in
      if completes
      then ([], some (completed e.turn summary))
      else ((if mine then emitted thread_id turn_id e else []) ++ later.0, later.1)

abbrev pub no_result : String → RunError → Ended
no_result thread_id e = record {
  result = record { thread_id = thread_id; turn_id = ""; duration = 0; summary = [] };
  error = some e;
  interrupts = false;
}

-- `Run`, of a client and an `emit` that are there.
unfoldable pub run :
    (trim : Bytes → Bytes)
    → Int64
    → AppServerClient
    → Request
    → List Selected
    → List Event × Option Ended
run trim elapsed client r selected =
    elim (validate_permission_profile client r.working_dir r.permission_profile_id) [
      | some e ↦ ([], some (no_result "" e))
      | none ↦ elim (resolve_thread client r) [
        | err e ↦ ([], some (no_result "" e))
        | ok thread ↦
            elim (client.start_turn thread.id r.working_dir r.prompt r.permission_profile_id) [
              | err e ↦ ([], some (no_result thread.id e))
              | ok turn ↦
                  let looped = loop trim elapsed thread.id turn.id [] selected in
                  (blank_event event_started thread.id turn.id ∷ looped.0, looped.1)
            ]
      ]
    ]
