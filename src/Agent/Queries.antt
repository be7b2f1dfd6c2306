-- ===== src/Agent/Queries.antt =====
-- internal/agent/service.go: the cases of `Handle` that answer a question, and change nothing.
use mac_agent.Base.{
  String, none, some, List, [], ◌∷◌, Bytes, codes, is_empty, no_bytes, ◌||◌, if◌then◌else◌,
}
use mac_agent.Protocol.MessageType
use mac_agent.Protocol.Payloads.{
  execution_profile_snapshot, project_snapshot, thread_snapshot, thread_detail, source_snapshot,
}
use mac_agent.Protocol.Types.{Message}
use mac_agent.Agent.{
  SourceResult, ok, err, read, refused, failed, Service, Chances, message, reject, source_failure,
}

module _ (s : Service) (chances : Chances) where
  abbrev pub refuse : Message → String → Bytes → List Message
  refuse m code text = reject s (chances.stamp 0) m.trace_id code text

  unfoldable pub list_profiles : Message → List Message
  list_profiles m = elim (s.decoders.profile_list m.payload) [
    | err text ↦ refuse m "MESSAGE_INVALID" text
    | ok p ↦
        if is_empty p.project_id
        then refuse m "MESSAGE_INVALID" (codes "project_id is required")
        else elim (chances.inventory.execution_profiles p.project_id) [
          | err text ↦ refuse m "EXECUTION_PROFILE_LIST_FAILED" text
          | ok snapshot ↦
              message s (chances.stamp 0) MessageType.execution_profile_snapshot m.trace_id
                (execution_profile_snapshot snapshot)
              ∷ []
        ]
  ]

  unfoldable pub list_projects : Message → List Message
  list_projects m = elim chances.inventory.projects [
    | err text ↦ refuse m "PROJECT_LIST_FAILED" text
    | ok projects ↦
        message s (chances.stamp 0) MessageType.project_snapshot m.trace_id
          (project_snapshot record { projects = projects })
        ∷ []
  ]

  unfoldable pub list_threads : Message → List Message
  list_threads m = elim (s.decoders.thread_list m.payload) [
    | err text ↦ refuse m "MESSAGE_INVALID" text
    | ok p ↦ elim (chances.inventory.threads p.project_id) [
      | err text ↦ refuse m "THREAD_LIST_FAILED" text
      | ok threads ↦
          message s (chances.stamp 0) MessageType.thread_snapshot m.trace_id
            (thread_snapshot record { project_id = p.project_id; threads = threads })
          ∷ []
    ]
  ]

  unfoldable pub read_thread : Message → List Message
  read_thread m = elim (s.decoders.thread_read m.payload) [
    | err text ↦ refuse m "MESSAGE_INVALID" text
    | ok p ↦
        if is_empty p.project_id || is_empty p.thread_id
        then refuse m "MESSAGE_INVALID" (codes "project_id and thread_id are required")
        else elim (chances.inventory.read_thread p.project_id p.thread_id) [
          | err text ↦ refuse m "THREAD_READ_FAILED" text
          | ok detail ↦
              message s (chances.stamp 0) MessageType.thread_detail m.trace_id
                (thread_detail detail)
              ∷ []
        ]
  ]

  abbrev fail_source : Message → String → Bytes → List Message
  fail_source m code text = source_failure s (chances.stamp 0) m.trace_id code text

  unfoldable pub answer_source : Message → SourceResult → List Message
  answer_source m (refused code text) = fail_source m code text
  answer_source m failed =
      fail_source m "SOURCE_READ_FAILED" (codes "The source file could not be read.")
  answer_source m (read snapshot) =
      message s (chances.stamp 0) MessageType.source_snapshot m.trace_id (source_snapshot snapshot)
      ∷ []

  unfoldable pub read_source : Message → List Message
  read_source m = elim (s.decoders.source_read m.payload) [
    | err text ↦ fail_source m "SOURCE_INVALID" (codes "A project and source path are required.")
    | ok p ↦
        if is_empty p.project_id || no_bytes p.path
        then fail_source m "SOURCE_INVALID" (codes "A project and source path are required.")
        else elim s.source_reader [
          | none ↦
              fail_source m "SOURCE_UNAVAILABLE"
                (codes "Source reading is unavailable on this Mac Agent.")
          | some reader ↦ answer_source m (reader p)
        ]
  ]
