-- ===== src/Protocol/Commands.antt =====
-- internal/protocol/message.go: the payloads that the agent receives.
use mac_agent.Base.{String, Bytes, Int64}

pub record ExecutionProfileListPayload : Type 0 where
  pub project_id : String

pub record ThreadListPayload : Type 0 where
  pub project_id : String

pub record ThreadReadPayload : Type 0 where
  pub project_id : String
  pub thread_id : String

pub record SourceReadPayload : Type 0 where
  pub project_id : String
  pub path : Bytes
  pub focus_line : Int64
  pub context_lines : Int64

pub record TurnStartPayload : Type 0 where
  pub command_id : String
  pub run_id : String
  pub project_id : String
  pub thread_id : String
  pub prompt : Bytes
  pub permission_profile_id : String

pub record RuntimeAckPayload : Type 0 where
  pub run_id : String
  pub agent_sequence : Int64

pub record BootstrapStartPayload : Type 0 where
  pub command_id : String
  pub sync_id : String

pub record BootstrapAckPayload : Type 0 where
  pub sync_id : String
  pub batch_no : Int64
  pub checksum : String

pub record TurnInterruptPayload : Type 0 where
  pub thread_id : String
  pub turn_id : String

pub record TurnAcknowledgedPayload : Type 0 where
  pub turn_id : String
  pub status : String
