-- ===== src/Agent/Answers.antt =====
-- A question is answered once, and changes nothing.
use mathlib.Core.Path.{subst}
use mac_agent.Base.{
  by_test, ◌≡◌, refl, sym, ◌⊎◌, inl, inr, String, Bool, false, Option, none, some, List, [], ◌∷◌,
  Bytes, is_empty, no_bytes, ◌||◌,
}
use mac_agent.Agent.{
  ok, err, Result, SourceResult, read, refused, failed, Service, Chances, State, message, reject,
  source_failure,
}
use mac_agent.Agent.Cases.{Grants, by_request, by_answer, undecoded, lacking, unanswered}
use mac_agent.Agent.Commands.{Handled}
use mac_agent.Agent.Handle.{handle}
use mac_agent.Agent.Queries.{
  list_profiles, list_projects, list_threads, read_thread, answer_source, read_source,
}
use mac_agent.Protocol.MessageType
use mac_agent.Protocol.Payloads.{
  Payload, execution_profile_snapshot, project_snapshot, thread_snapshot, thread_detail,
  source_snapshot, turn_rejected, source_read_failed, SourceSnapshotPayload,
}
use mac_agent.Protocol.Commands.{SourceReadPayload}
use mac_agent.Protocol.Types.{Message}

-- The questions, with the types of the message that asks, of the answer and of the refusal.
pub data Question : Type 0 where
  profiles projects threads thread source : Question

abbrev pub asked : Question → String
asked profiles = MessageType.execution_profile_list
asked projects = MessageType.project_list
asked threads = MessageType.thread_list
asked thread = MessageType.thread_read
asked source = MessageType.source_read

abbrev pub answered : Question → String
answered profiles = MessageType.execution_profile_snapshot
answered projects = MessageType.project_snapshot
answered threads = MessageType.thread_snapshot
answered thread = MessageType.thread_detail
answered source = MessageType.source_snapshot

abbrev pub refusal : Question → String
refusal source = MessageType.source_read_failed
refusal _ = MessageType.turn_rejected

-- What the reader of sources answers, when there is one: a snapshot or a refusal.
abbrev pub snapshot_of : SourceResult → Result SourceSnapshotPayload
snapshot_of (read snapshot) = ok snapshot
snapshot_of (refused code text) = err text
snapshot_of failed = err []

abbrev pub source_of :
    Option (SourceReadPayload → SourceResult) → SourceReadPayload → Result SourceSnapshotPayload
source_of none p = err []
source_of (some reader) p = snapshot_of (reader p)

module _ (s : Service) (chances : Chances) where
  -- What grants a payload to a question: the request can be read, has the ids that it needs, and the
  -- inventory, or the reader of sources, answers just what the payload holds, for just these ids.
  abbrev pub Granted : Question → Message → Payload → Type 0
  Granted profiles m =
      Grants (s.decoders.profile_list m.payload) (λ p. is_empty p.project_id)
        (λ p. chances.inventory.execution_profiles p.project_id)
        (λ p snapshot. execution_profile_snapshot snapshot)
  Granted projects m =
      Grants (ok tt) (λ p. false) (λ p. chances.inventory.projects)
        (λ p projects. project_snapshot record { projects = projects })
  Granted threads m =
      Grants (s.decoders.thread_list m.payload) (λ p. false)
        (λ p. chances.inventory.threads p.project_id)
        (λ p threads. thread_snapshot record { project_id = p.project_id; threads = threads })
  Granted thread m =
      Grants (s.decoders.thread_read m.payload) (λ p. is_empty p.project_id || is_empty p.thread_id)
        (λ p. chances.inventory.read_thread p.project_id p.thread_id)
        (λ p detail. thread_detail detail)
  Granted source m =
      Grants (s.decoders.source_read m.payload) (λ p. is_empty p.project_id || no_bytes p.path)
        (source_of s.source_reader) (λ p snapshot. source_snapshot snapshot)

  -- The refusal of a question, with a code and a text.
  abbrev pub refused_with : Question → String → Bytes → Payload
  refused_with source code text = source_read_failed record { code = code; message = text }
  refused_with _ code text = turn_rejected record {
    code = code;
    message = text;
    required_capabilities = [];
    recovery_action = "";
    execution_context = some s.capabilities;
  }

  abbrev pub IsGranted : Question → Message → List Message → Type 0
  IsGranted q m published =
      (payload : Payload) × Granted q m payload
      × (published ≡ message s (chances.stamp 0) (answered q) m.trace_id payload ∷ [])

  abbrev pub IsRefused : Question → Message → List Message → Type 0
  IsRefused q m published =
      ((payload : Payload) → Granted q m payload → ⊥)
      × (code : String) × (text : Bytes) × (published
          ≡ message s (chances.stamp 0) (refusal q) m.trace_id (refused_with q code text) ∷ [])

  -- One message: what is granted, or the refusal of a question to which nothing is granted.
  abbrev pub IsOneAnswer : Question → Message → List Message → Type 0
  IsOneAnswer q m published = IsGranted q m published ⊎ IsRefused q m published

  abbrev declined : Question → Message → List Message
  declined q m = message s (chances.stamp 0) (refusal q) m.trace_id (refused_with q "" []) ∷ []

  list_profiles-IsOneAnswer : (m : Message) → IsOneAnswer profiles m (list_profiles s chances m)
  unfolding list_profiles reject
  list_profiles-IsOneAnswer m =
      by_request (IsOneAnswer profiles m) (s.decoders.profile_list m.payload)
        (λ p. is_empty p.project_id) (λ p. chances.inventory.execution_profiles p.project_id)
        (λ p snapshot. execution_profile_snapshot snapshot) _ _ _ _
        (λ text nothing. inr (nothing, _, _, refl)) (λ nothing. inr (nothing, _, _, refl))
        (λ text nothing. inr (nothing, _, _, refl)) (λ p b g. inl (_, g, refl))

  list_projects-IsOneAnswer : (m : Message) → IsOneAnswer projects m (list_projects s chances m)
  unfolding list_projects reject
  list_projects-IsOneAnswer m =
      by_request (IsOneAnswer projects m) (ok tt) (λ p. false) (λ p. chances.inventory.projects)
        (λ p projects. project_snapshot record { projects = projects })
        (λ text. declined projects m) (declined projects m) _ _
        (λ text nothing. inr (nothing, _, _, refl)) (λ nothing. inr (nothing, _, _, refl))
        (λ text nothing. inr (nothing, _, _, refl)) (λ p b g. inl (_, g, refl))

  list_threads-IsOneAnswer : (m : Message) → IsOneAnswer threads m (list_threads s chances m)
  unfolding list_threads reject
  list_threads-IsOneAnswer m =
      by_request (IsOneAnswer threads m) (s.decoders.thread_list m.payload) (λ p. false)
        (λ p. chances.inventory.threads p.project_id)
        (λ p threads. thread_snapshot record { project_id = p.project_id; threads = threads }) _
        (declined threads m) _ _ (λ text nothing. inr (nothing, _, _, refl))
        (λ nothing. inr (nothing, _, _, refl)) (λ text nothing. inr (nothing, _, _, refl))
        (λ p b g. inl (_, g, refl))

  read_thread-IsOneAnswer : (m : Message) → IsOneAnswer thread m (read_thread s chances m)
  unfolding read_thread reject
  read_thread-IsOneAnswer m =
      by_request (IsOneAnswer thread m) (s.decoders.thread_read m.payload)
        (λ p. is_empty p.project_id || is_empty p.thread_id)
        (λ p. chances.inventory.read_thread p.project_id p.thread_id)
        (λ p detail. thread_detail detail) _ _ _ _ (λ text nothing. inr (nothing, _, _, refl))
        (λ nothing. inr (nothing, _, _, refl)) (λ text nothing. inr (nothing, _, _, refl))
        (λ p b g. inl (_, g, refl))

  abbrev NoSource : Message → Type 0
  NoSource m = (payload : Payload) → Granted source m payload → ⊥

  by_source :
      (m : Message) (r : SourceResult)
      → ((text : Bytes) → snapshot_of r ≡ err text → NoSource m)
      → ((x : SourceSnapshotPayload) → snapshot_of r ≡ ok x → Granted source m (source_snapshot x))
      → IsOneAnswer source m (answer_source s chances m r)
  unfolding answer_source source_failure
  by_source m (read snapshot) nothing holds = inl (_, holds snapshot refl, refl)
  by_source m (refused code text) nothing holds = inr (nothing text refl, _, _, refl)
  by_source m failed nothing holds = inr (nothing [] refl, _, _, refl)

  by_reader :
      (m : Message) (p : SourceReadPayload) (o : Option (SourceReadPayload → SourceResult))
      (d : List Message)
      → ((text : Bytes) → source_of o p ≡ err text → NoSource m)
      → ((x : SourceSnapshotPayload) → source_of o p ≡ ok x → Granted source m (source_snapshot x))
      → (NoSource m → IsOneAnswer source m d)
      → IsOneAnswer source m
          (elim o [ none ↦ d | some reader ↦ answer_source s chances m (reader p) ])
  by_reader m p none d nothing holds missing = missing (nothing [] refl)
  by_reader m p (some reader) d nothing holds missing = by_source m (reader p) nothing holds

  read_source-IsOneAnswer : (m : Message) → IsOneAnswer source m (read_source s chances m)
  unfolding read_source source_failure
  read_source-IsOneAnswer m =
      let decoded = s.decoders.source_read m.payload in
      let lacks : SourceReadPayload → Bool = λ p. is_empty p.project_id || no_bytes p.path in
      let answer : SourceReadPayload → Result SourceSnapshotPayload = source_of s.source_reader in
      let put : SourceReadPayload → SourceSnapshotPayload → Payload =
        λ p snapshot. source_snapshot snapshot in
      by_answer (IsOneAnswer source m) decoded _ _
        (λ text e. inr (undecoded decoded text lacks answer put e, _, _, refl))
        (λ p e.
          by_test (IsOneAnswer source m) (lacks p) _ _
            (λ t. inr (lacking decoded p lacks answer put e t, _, _, refl))
            (λ fair.
              by_reader m p s.source_reader _
                (λ text a. unanswered decoded p lacks answer put text e a)
                (λ x a. (p, x, e, fair, a, refl)) (λ nothing. inr (nothing, _, _, refl))))

  -- The service is as it was, but for one answer.
  abbrev pub IsAnswered : Question → Message → State → Handled → Type 0
  IsAnswered q m state h =
      (h.state ≡ state) × (h.turn ≡ none) × (h.bootstrap ≡ none) × IsOneAnswer q m h.published

  retyped :
      (q : Question) (m : Message) (state : State)
      → IsAnswered q m state (handle s chances (record m { type = asked q }) state)
  unfolding handle list_profiles list_projects list_threads read_thread read_source answer_source
  retyped profiles m state = (refl, refl, refl, list_profiles-IsOneAnswer m)
  retyped projects m state = (refl, refl, refl, list_projects-IsOneAnswer m)
  retyped threads m state = (refl, refl, refl, list_threads-IsOneAnswer m)
  retyped thread m state = (refl, refl, refl, read_thread-IsOneAnswer m)
  retyped source m state = (refl, refl, refl, read_source-IsOneAnswer m)

  -- A question is answered by one message, on its trace. When the request can be read, has the ids
  -- that it needs, and the inventory, or the reader of sources, answers for these ids, the message has
  -- the type of the answer, and its payload holds just what was answered. In every other case, and
  -- only there, it is the refusal, with some code and text. What the service holds stays as it is, and
  -- no turn and no bootstrap is started.
  pub handle-IsAnswered :
      (q : Question) (m : Message) (state : State)
      → m.type ≡ asked q
      → IsAnswered q m state (handle s chances m state)
  handle-IsAnswered q m state e =
      subst (λ t. IsAnswered q m state (handle s chances (record m { type = t }) state)) (sym e)
        (retyped q m state)
