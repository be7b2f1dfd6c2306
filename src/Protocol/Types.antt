-- ===== src/Protocol/Types.antt =====
-- internal/protocol/message.go: `Message`, and the records that payloads hold.
-- A `time.Time` is the number of nanoseconds since the zero time, year 1 in UTC. Ids, statuses and
-- codes are texts; what the agent measures or cuts is bytes.
use mac_agent.Base.{ℕ, String, Bool, Option, List, Bytes, Int64}

abbrev pub Time : Type 0
Time = ℕ

abbrev pub protocol_version : String
protocol_version = "2.0"

pub record Sender : Type 0 where
  pub kind : String
  pub id : String

pub record Message : Type 0 where
  pub spec_version : String
  pub message_id : String
  pub type : String
  pub occurred_at : Time
  pub trace_id : String
  pub sender : Sender
  pub payload : Bytes
  pub agent_sequence : Int64

pub record AgentCapabilitiesPayload : Type 0 where
  pub restricted : Bool
  pub sandbox_mode : String
  pub approval_policy : String
  pub writable_scope : String
  pub network_access : Bool
  pub can_request_approval : Bool
  pub host_process_control : Bool
  pub user_library_write : Bool
  pub xcode_device_control : Bool
  pub supports_permission_profiles : Bool
  pub supports_source_read : Bool

pub record ExecutionProfile : Type 0 where
  pub id : String
  pub description : Bytes
  pub allowed : Bool

pub record Project : Type 0 where
  pub id : String
  pub name : Bytes
  pub path : Bytes
  pub thread_count : Int64
  pub updated_at : Option Time

pub record Thread : Type 0 where
  pub id : String
  pub project_id : String
  pub title : Bytes
  pub preview : Bytes
  pub latest_message_preview : Bytes
  pub status : String
  pub source : String
  pub updated_at : Time

pub record ThreadFileChange : Type 0 where
  pub path : Bytes
  pub kind : String
  pub diff : Bytes

pub record ThreadHistoryItem : Type 0 where
  pub id : String
  pub type : String
  pub role : String
  pub phase : String
  pub status : String
  pub text : Bytes
  pub name : Bytes
  pub command : Bytes
  pub cwd : Bytes
  pub output : Bytes
  pub path : Bytes
  pub query : Bytes
  pub exit_code : Option Int64
  pub duration_ms : Option Int64
  pub changes : List ThreadFileChange
  pub truncated : Bool

pub record ThreadHistoryTurn : Type 0 where
  pub id : String
  pub status : String
  pub started_at : Option Time
  pub completed_at : Option Time
  pub duration_ms : Option Int64
  pub error : Bytes
  pub items : List ThreadHistoryItem
  pub truncated : Bool

pub record ThreadDetail : Type 0 where
  pub id : String
  pub project_id : String
  pub title : Bytes
  pub preview : Bytes
  pub status : String
  pub source : String
  pub created_at : Time
  pub updated_at : Time
  pub turns : List ThreadHistoryTurn
