-- ===== src/Agent.antt =====
-- internal/agent/service.go: the service that answers the relay's messages.
--
-- The state is the controller's and the store's; the messages that an operation hands to `publish` are
-- its output, in order, and what `publish` answers counts only where the code looks at it. Of a store
-- call, `faults` says which of its database calls fail, by the call's place in the operation; of a
-- message, `stamp` is what the clock and the ids give it, by its place.
pub mod Queries
pub mod Commands
pub mod Handle
pub mod Bootstrap
pub mod Cases
pub mod Answers
pub mod Starts
pub mod Batches
pub mod Completions
pub mod Plans
use mac_agent.Base.{
  ℕ, String, Bool, true, false, Option, none, some, List, [], ◌∷◌, ◌++◌, Bytes, str_eq, ◌||◌,
  if◌then◌else◌,
}
use mac_agent.Durable.{Faults, StoreError, append_event}
use mac_agent.Durable
use mac_agent.Durable.Pending.{pending}
use mac_agent.Durable.Schema.{Tables}
use mac_agent.Protocol.Commands.{
  ExecutionProfileListPayload, ThreadListPayload, ThreadReadPayload, SourceReadPayload,
  TurnStartPayload, RuntimeAckPayload, BootstrapStartPayload, BootstrapAckPayload,
  TurnInterruptPayload, TurnAcknowledgedPayload,
}
use mac_agent.Protocol.Messages.{Stamp, new_message}
use mac_agent.Protocol.MessageType
use mac_agent.Protocol.Payloads.{
  Payload, ExecutionProfileSnapshotPayload, ThreadDetailPayload, SourceSnapshotPayload,
  turn_rejected, source_read_failed, agent_hello, agent_status, agent_capabilities, turn_snapshot,
}
use mac_agent.Protocol.Status
use mac_agent.Protocol.Types.{Time, Sender, Message, AgentCapabilitiesPayload, Project, Thread}
use mac_agent.Turn.{StartError}
use mac_agent.Turn.Items.{Controller}
use mac_agent.Turn.Snapshots.{Snapshot}
use mac_agent.Workspace.{Resolved}

-- A value, or the text of an error.
pub data Result {ℓ} (A : Type ℓ) : Type ℓ where
  ok : A → Result A
  err : Bytes → Result A

-- A source reader answers a snapshot, a `sourceReadError`, or another error.
pub data SourceResult : Type 0 where
  read : SourceSnapshotPayload → SourceResult
  refused : String → Bytes → SourceResult
  failed : SourceResult

-- What `Inventory` answers.
pub record Inventory : Type 0 where
  pub projects : Result (List Project)
  pub threads : String → Result (List Thread)
  pub read_thread : String → String → Result ThreadDetailPayload
  pub execution_profiles : String → Result ExecutionProfileSnapshotPayload

-- `PayloadAs` at each type.
pub record Decoders : Type 0 where
  pub profile_list : Bytes → Result ExecutionProfileListPayload
  pub thread_list : Bytes → Result ThreadListPayload
  pub thread_read : Bytes → Result ThreadReadPayload
  pub source_read : Bytes → Result SourceReadPayload
  pub turn_start : Bytes → Result TurnStartPayload
  pub turn_interrupt : Bytes → Result TurnInterruptPayload
  pub turn_acknowledged : Bytes → Result TurnAcknowledgedPayload
  pub runtime_ack : Bytes → Result RuntimeAckPayload
  pub bootstrap_start : Bytes → Result BootstrapStartPayload
  pub bootstrap_ack : Bytes → Result BootstrapAckPayload

-- The fields of `Service` that do not change, with what its parts and the libraries answer.
pub record Service : Type 0 where
  pub name : String
  pub version : String
  pub sender : Sender
  pub capabilities : AgentCapabilitiesPayload
  pub source_reader : Option (SourceReadPayload → SourceResult)
  pub resolve : String → Resolved
  pub decoders : Decoders
  pub marshal : Payload → Option Bytes
  pub command_json : TurnStartPayload → Bytes
  pub store_text : StoreError → Bytes
  pub start_text : StartError → Bytes
  pub unsupported_text : String → Bytes

-- What the clock, the ids, the database and the inventory do in one operation. The inventory keeps a
-- cache of previews, so another operation may get other answers; an operation asks it for the threads
-- of a project once.
pub record Chances : Type 0 where
  pub stamp : ℕ → Stamp
  pub now : ℕ → Time
  pub ids : ℕ → String
  pub faults : ℕ → Faults
  pub inventory : Inventory

-- What changes: the controller, the tables of the store, where there is one, and the channels of the
-- bootstraps that run, each of which holds at most one acknowledgement.
pub record State : Type 0 where
  pub controller : Controller
  pub durable : Option Tables
  pub bootstrap_acks : List (String × Option BootstrapAckPayload)

-- `message`. A panic on an error of `NewMessage` would end the agent, and this function says nothing of
-- that case: `Protocol.Validity.new_message-IsWellFormed` shows that there is no error for a usable
-- sender and stamp and a payload that has a JSON form.
unfoldable pub message : Service → Stamp → String → String → Payload → Message
message s stamp type trace_id payload =
    (new_message s.marshal stamp type trace_id s.sender payload).0

abbrev pub rejection : Service → Stamp → String → String → Bytes → Message
rejection s stamp trace_id code text = message s stamp MessageType.turn_rejected trace_id (
    turn_rejected record {
      code = code;
      message = text;
      required_capabilities = [];
      recovery_action = "";
      execution_context = some s.capabilities;
    })

-- `reject`
unfoldable pub reject : Service → Stamp → String → String → Bytes → List Message
reject s stamp trace_id code text = rejection s stamp trace_id code text ∷ []

-- `publishSourceFailure`
unfoldable pub source_failure : Service → Stamp → String → String → Bytes → List Message
source_failure s stamp trace_id code text =
    message s stamp MessageType.source_read_failed trace_id
      (source_read_failed record { code = code; message = text })
    ∷ []

unfoldable pub durable_event : String → Bool
durable_event type =
    str_eq type MessageType.turn_started
    || str_eq type MessageType.turn_output
    || str_eq type MessageType.turn_item_started
    || str_eq type MessageType.turn_item_delta
    || str_eq type MessageType.turn_item_done
    || str_eq type MessageType.turn_completed
    || str_eq type MessageType.turn_failed
    || str_eq type MessageType.turn_interrupted

unfoldable pub is_terminal_status : String → Bool
is_terminal_status status =
    str_eq status "completed" || str_eq status "failed" || str_eq status "interrupted"

-- A message that is published when it was appended to the outbox.
unfoldable pub append_and_publish :
    Faults → Time → String → Message → Tables → Tables × List Message
append_and_publish faults now run_id event t =
    let (t', appended, error) = append_event faults now run_id event t in
    (t', elim error [ none ↦ appended ∷ [] | some e ↦ [] ])

abbrev pub present : Tables × List Message → Option Tables × List Message
present (t, published) = (some t, published)

-- The sink of a run: a durable event is published as the store numbered it, and not at all when the
-- store failed; any other event is published as it is.
unfoldable pub deliver :
    Faults → Time → String → Message → Option Tables → Option Tables × List Message
deliver faults now run_id event none = (none, event ∷ [])
deliver faults now run_id event (some t) =
    if durable_event event.type
    then present (append_and_publish faults now run_id event t)
    else (some t, event ∷ [])

-- `rejectRun`
unfoldable pub reject_run :
    Faults → Time → Message → String → Option Tables → Option Tables × List Message
reject_run faults now rejected run_id none = (none, rejected ∷ [])
reject_run faults now rejected run_id (some t) =
    present (append_and_publish faults now run_id rejected t)

-- What `Pending` returns, or nothing on an error.
unfoldable pub replay : Faults → (ℕ → String) → Tables → List Message
replay faults ids t = elim (pending faults ids t) [
  | Durable.ok messages ↦ messages
  | Durable.err e ↦ []
]

-- One tick of `StartDurableReplay`.
unfoldable pub tick : Faults → (ℕ → String) → State → List Message
tick faults ids s = elim s.durable [ none ↦ [] | some t ↦ replay faults ids t ]

-- `InitialMessages`: `snapshot` is the controller's.
unfoldable pub initial_messages : Service → Chances → Snapshot → State → List Message
initial_messages s chances snapshot state =
    let pending_messages : List Message = elim state.durable [
      | none ↦ []
      | some t ↦ replay (chances.faults 0) chances.ids t
    ] in
    let last : List Message = elim snapshot.last_terminal [
      | none ↦ []
      | some terminal ↦ terminal ∷ []
    ] in
    message s (chances.stamp 0) MessageType.agent_hello "agent"
        (agent_hello record { name = s.name; version = s.version; status = snapshot.status })
      ∷ message s (chances.stamp 1) MessageType.agent_status snapshot.trace_id (
          agent_status record {
            status = snapshot.status;
            project_id = snapshot.project_id;
            thread_id = snapshot.thread_id;
            turn_id = snapshot.turn_id;
          })
      ∷ message s (chances.stamp 2) MessageType.agent_capabilities "agent"
          (agent_capabilities s.capabilities)
      ∷ pending_messages
    ++ (if str_eq snapshot.status Status.running
        then message s (chances.stamp 3) MessageType.turn_snapshot snapshot.trace_id (
            turn_snapshot record {
              project_id = snapshot.project_id;
              thread_id = snapshot.thread_id;
              turn_id = snapshot.turn_id;
              status = snapshot.status;
              started_at = snapshot.started_at;
              recent_output = snapshot.recent_output;
              live_items = snapshot.live_items;
              last_sequence = snapshot.last_sequence;
              live_items_truncated = snapshot.live_items_truncated;
            })
          ∷ []
        else last)
