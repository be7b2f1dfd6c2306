-- ===== src/Runner.antt =====
-- internal/runner/runner.go: what a turn asks of a runner, and what a runner reports.
pub mod Server
pub mod Accounts
pub mod Guards
use mac_agent.Base.{String, Option, List, Bytes, Int64}
use mac_agent.Protocol.Types.{ThreadHistoryItem}

pub record Request : Type 0 where
  pub project_id : String
  pub thread_id : String
  pub prompt : Bytes
  pub working_dir : Bytes
  pub permission_profile_id : String

pub record Event : Type 0 where
  pub kind : String
  pub thread_id : String
  pub turn_id : String
  pub stream : String
  pub text : Bytes
  pub item_id : String
  pub field : String
  pub item : ThreadHistoryItem

-- The duration is in nanoseconds.
pub record Result : Type 0 where
  pub thread_id : String
  pub turn_id : String
  pub duration : Int64
  pub summary : Bytes

-- The errors of a run: `ErrTurnInterrupted`, those of a context, those that `AppServer` makes of what
-- they quote, and a text, of a failed turn or from the client.
pub data RunError : Type 0 where
  turn_interrupted canceled deadline_exceeded client_required turn_failed : RunError
  profile_not_allowed profile_unavailable unexpected_status : String → RunError
  thread_not_in_project : String → String → RunError
  failure : Bytes → RunError

abbrev pub event_started : String
event_started = "started"

abbrev pub event_output : String
event_output = "output"

abbrev pub event_item_started : String
event_item_started = "item_started"

abbrev pub event_item_delta : String
event_item_delta = "item_delta"

abbrev pub event_item_completed : String
event_item_completed = "item_completed"
