-- ===== src/Protocol/Status.antt =====
-- internal/protocol/message.go: the constants `StatusIdle` to `StatusInterrupted`.
use mac_agent.Base.{String}

abbrev pub idle : String
idle = "idle"

abbrev pub running : String
running = "running"

abbrev pub completed : String
completed = "completed"

abbrev pub failed : String
failed = "failed"

abbrev pub interrupted : String
interrupted = "interrupted"
