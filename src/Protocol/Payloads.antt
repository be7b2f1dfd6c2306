-- ===== src/Protocol/Payloads.antt =====
-- internal/protocol/message.go: the payloads that the agent sends.
use mac_agent.Base.{String, Bool, Option, List, Bytes, Int64}
use mac_agent.Protocol.Types.{
  Time, Project, Thread, ThreadHistoryItem, ThreadDetail, ExecutionProfile,
  AgentCapabilitiesPayload,
}

pub record AgentHelloPayload : Type 0 where
  pub name : String
  pub version : String
  pub status : String

pub record AgentStatusPayload : Type 0 where
  pub status : String
  pub project_id : String
  pub thread_id : String
  pub turn_id : String

pub record ExecutionProfileSnapshotPayload : Type 0 where
  pub project_id : String
  pub default_profile_id : String
  pub profiles : List ExecutionProfile

pub record ProjectSnapshotPayload : Type 0 where
  pub projects : List Project

pub record ThreadSnapshotPayload : Type 0 where
  pub project_id : String
  pub threads : List Thread

pub record ThreadDetailPayload : Type 0 where
  pub project_id : String
  pub thread : ThreadDetail
  pub truncated : Bool

pub record SourceSnapshotPayload : Type 0 where
  pub project_id : String
  pub path : Bytes
  pub content : Bytes
  pub start_line : Int64
  pub end_line : Int64
  pub total_lines : Int64
  pub focus_line : Int64
  pub truncated : Bool
  pub sha256 : String
  pub modified_at : Time

pub record SourceReadFailedPayload : Type 0 where
  pub code : String
  pub message : Bytes

pub record RunAcceptedPayload : Type 0 where
  pub command_id : String
  pub run_id : String

pub record BootstrapBatchPayload : Type 0 where
  pub command_id : String
  pub sync_id : String
  pub snapshot_id : String
  pub batch_no : Int64
  pub checksum : String
  pub total_sessions : Int64
  pub processed_sessions : Int64
  pub reconciliation_safe : Bool
  pub project : Option Project
  pub thread : Option ThreadDetail
  pub done : Bool

pub record TurnStartedPayload : Type 0 where
  pub project_id : String
  pub thread_id : String
  pub turn_id : String
  pub started_at : Time

pub record TurnOutputPayload : Type 0 where
  pub project_id : String
  pub thread_id : String
  pub turn_id : String
  pub stream : String
  pub text : Bytes

pub record TurnItemStartedPayload : Type 0 where
  pub project_id : String
  pub thread_id : String
  pub turn_id : String
  pub sequence : Int64
  pub item : ThreadHistoryItem

pub record TurnItemDeltaPayload : Type 0 where
  pub project_id : String
  pub thread_id : String
  pub turn_id : String
  pub sequence : Int64
  pub item_id : String
  pub field : String
  pub delta : Bytes

pub record TurnItemCompletedPayload : Type 0 where
  pub project_id : String
  pub thread_id : String
  pub turn_id : String
  pub sequence : Int64
  pub item : ThreadHistoryItem

pub record TurnSnapshotPayload : Type 0 where
  pub project_id : String
  pub thread_id : String
  pub turn_id : String
  pub status : String
  pub started_at : Time
  pub recent_output : List Bytes
  pub live_items : List ThreadHistoryItem
  pub last_sequence : Int64
  pub live_items_truncated : Bool

pub record TurnInterruptedPayload : Type 0 where
  pub project_id : String
  pub thread_id : String
  pub turn_id : String
  pub duration_ms : Int64

pub record TurnCompletedPayload : Type 0 where
  pub project_id : String
  pub thread_id : String
  pub turn_id : String
  pub duration_ms : Int64
  pub summary : Bytes
  pub changed_files : List Bytes
  pub diff : Bytes
  pub diff_truncated : Bool

pub record TurnFailedPayload : Type 0 where
  pub project_id : String
  pub thread_id : String
  pub turn_id : String
  pub code : String
  pub message : Bytes
  pub duration_ms : Int64

pub record TurnRejectedPayload : Type 0 where
  pub code : String
  pub message : Bytes
  pub required_capabilities : List String
  pub recovery_action : String
  pub execution_context : Option AgentCapabilitiesPayload

-- What `NewMessage` is given as its `payload any`.
pub data Payload : Type 0 where
  agent_hello : AgentHelloPayload → Payload
  agent_status : AgentStatusPayload → Payload
  execution_profile_snapshot : ExecutionProfileSnapshotPayload → Payload
  project_snapshot : ProjectSnapshotPayload → Payload
  thread_snapshot : ThreadSnapshotPayload → Payload
  thread_detail : ThreadDetailPayload → Payload
  source_snapshot : SourceSnapshotPayload → Payload
  source_read_failed : SourceReadFailedPayload → Payload
  run_accepted : RunAcceptedPayload → Payload
  bootstrap_batch : BootstrapBatchPayload → Payload
  turn_started : TurnStartedPayload → Payload
  turn_output : TurnOutputPayload → Payload
  turn_item_started : TurnItemStartedPayload → Payload
  turn_item_delta : TurnItemDeltaPayload → Payload
  turn_item_completed : TurnItemCompletedPayload → Payload
  turn_snapshot : TurnSnapshotPayload → Payload
  turn_interrupted : TurnInterruptedPayload → Payload
  turn_completed : TurnCompletedPayload → Payload
  turn_failed : TurnFailedPayload → Payload
  turn_rejected : TurnRejectedPayload → Payload
  agent_capabilities : AgentCapabilitiesPayload → Payload
