-- ===== src/Protocol/Validity.antt =====
-- What `Validate`, `NewMessage` and `Decode` of internal/protocol/message.go promise.
use mac_agent.Base.{
  String, ◌≡◌, refl, ◌≢◌, ◌↔◌, Option, none, some, [], Bytes, arith, eq_iff, is_empty,
  if◌then◌else◌,
}
use mac_agent.Protocol.Types.{Sender, Message}
use mac_agent.Protocol.Payloads.{Payload}
use mac_agent.Protocol.Messages.{Stamp, ok, validate, new_message, decode}

-- What the other side may rely on.
pub record IsWellFormed (m : Message) : Type 0 where
  pub version : m.spec_version ≡ "2.0"
  pub has_id : m.message_id ≢ ""
  pub has_type : m.type ≢ ""
  pub has_time : m.occurred_at ≢ 0
  pub has_trace : m.trace_id ≢ ""
  pub has_kind : m.sender.kind ≢ ""
  pub has_sender : m.sender.id ≢ ""
  pub has_payload : m.payload ≢ []

validate_sound : (m : Message) → validate m ≡ none → IsWellFormed m
unfolding validate
validate_sound m h = ground (
  arith,
  eq_iff m.spec_version "2.0",
  eq_iff m.message_id "",
  eq_iff m.type "",
  eq_iff m.trace_id "",
  eq_iff m.sender.kind "",
  eq_iff m.sender.id "",
)

validate_complete : (m : Message) → IsWellFormed m → validate m ≡ none
unfolding validate
validate_complete m w = ground (
  arith,
  eq_iff m.spec_version "2.0",
  eq_iff m.message_id "",
  eq_iff m.type "",
  eq_iff m.trace_id "",
  eq_iff m.sender.kind "",
  eq_iff m.sender.id "",
)

-- `Validate` accepts a message exactly when every field that the protocol requires is set and the
-- version is 2.0.
pub validate_iff : (m : Message) → (validate m ≡ none) ↔ IsWellFormed m
validate_iff m = (validate_sound m, validate_complete m)

-- A message that `Decode` returns is well formed, whatever the bytes and the JSON decoder.
pub decode-IsWellFormed :
    (unmarshal : Bytes → Option Message) (raw : Bytes) {m : Message}
    → decode unmarshal raw ≡ ok m
    → (unmarshal raw ≡ some m) × IsWellFormed m
unfolding decode
decode-IsWellFormed unmarshal raw {m} h = (ground arith, validate_sound m (ground arith))

-- The message that `NewMessage` builds from a usable stamp, a type and a sender is well formed and
-- carries its type, sender, payload and the trace that the caller gave (a new one for "").
pub new_message-IsWellFormed :
    (marshal : Payload → Option Bytes) (stamp : Stamp) (type trace : String) (sender : Sender)
    (payload : Payload) {raw : Bytes}
    → marshal payload ≡ some raw
    → raw ≢ []
    → stamp.message_id ≢ ""
    → stamp.trace_id ≢ ""
    → stamp.now ≢ 0
    → type ≢ ""
    → sender.kind ≢ ""
    → sender.id ≢ ""
    → let (m, e) = new_message marshal stamp type trace sender payload in
      (e ≡ none)
      × IsWellFormed m
      × (m.type ≡ type)
      × (m.sender ≡ sender)
      × (m.payload ≡ raw)
      × (m.trace_id ≡ (if is_empty trace then stamp.trace_id else trace))
unfolding new_message
new_message-IsWellFormed marshal stamp type trace sender payload {raw} h nr ni nt nn ny nk ns =
    rw (h, new_message) (validate_complete _ formed, formed, refl, refl, refl, refl)
  where
    formed : IsWellFormed (record {
      spec_version = "2.0";
      message_id = stamp.message_id;
      type = type;
      occurred_at = stamp.now;
      trace_id = if is_empty trace then stamp.trace_id else trace;
      sender = sender;
      payload = raw;
      agent_sequence = 0;
    })
    formed = record {
      version = refl;
      has_id = ni;
      has_type = ny;
      has_time = nn;
      has_trace = ground (arith, eq_iff trace "");
      has_kind = nk;
      has_sender = ns;
      has_payload = nr;
    }
