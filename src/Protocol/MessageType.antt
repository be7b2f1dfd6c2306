-- ===== src/Protocol/MessageType.antt =====
-- internal/protocol/message.go: the constants `TypeAgentHello` to `TypeBootstrapDurableAck`.
use mac_agent.Base.{String}

abbrev pub agent_hello : String
agent_hello = "agent.hello"

abbrev pub agent_status : String
agent_status = "agent.status"

abbrev pub agent_capabilities : String
agent_capabilities = "agent.capabilities"

abbrev pub execution_profile_list : String
execution_profile_list = "execution.profile.list"

abbrev pub execution_profile_snapshot : String
execution_profile_snapshot = "execution.profile.snapshot"

abbrev pub project_list : String
project_list = "project.list"

abbrev pub project_snapshot : String
project_snapshot = "project.snapshot"

abbrev pub thread_list : String
thread_list = "thread.list"

abbrev pub thread_snapshot : String
thread_snapshot = "thread.snapshot"

abbrev pub thread_read : String
thread_read = "thread.read"

abbrev pub thread_detail : String
thread_detail = "thread.detail"

abbrev pub source_read : String
source_read = "source.read"

abbrev pub source_snapshot : String
source_snapshot = "source.snapshot"

abbrev pub source_read_failed : String
source_read_failed = "source.read.failed"

abbrev pub turn_start : String
turn_start = "turn.start"

abbrev pub turn_started : String
turn_started = "turn.started"

abbrev pub turn_output : String
turn_output = "turn.output"

abbrev pub turn_item_started : String
turn_item_started = "turn.item.started"

abbrev pub turn_item_delta : String
turn_item_delta = "turn.item.delta"

abbrev pub turn_item_done : String
turn_item_done = "turn.item.completed"

abbrev pub turn_snapshot : String
turn_snapshot = "turn.snapshot"

abbrev pub turn_interrupt : String
turn_interrupt = "turn.interrupt"

abbrev pub turn_interrupted : String
turn_interrupted = "turn.interrupted"

abbrev pub turn_completed : String
turn_completed = "turn.completed"

abbrev pub turn_failed : String
turn_failed = "turn.failed"

abbrev pub turn_rejected : String
turn_rejected = "turn.rejected"

abbrev pub turn_acknowledged : String
turn_acknowledged = "turn.acknowledged"

abbrev pub run_accepted : String
run_accepted = "run.accepted"

abbrev pub runtime_received_ack : String
runtime_received_ack = "runtime.received_ack"

abbrev pub runtime_durable_ack : String
runtime_durable_ack = "runtime.durable_ack"

abbrev pub bootstrap_start : String
bootstrap_start = "bootstrap.start"

abbrev pub bootstrap_batch : String
bootstrap_batch = "bootstrap.batch"

abbrev pub bootstrap_durable_ack : String
bootstrap_durable_ack = "bootstrap.durable_ack"
