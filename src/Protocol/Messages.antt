-- ===== src/Protocol/Messages.antt =====
-- internal/protocol/message.go: `NewMessage`, `Decode`, `PayloadAs` and `Validate`.
use mac_agent.Base.{
  String, Option, none, some, Bytes, is_empty, no_bytes, [], ◌==◌, ◌||◌, str_eq, if◌then◌else◌, not,
}
use mac_agent.Protocol.Types.{Time, Sender, Message, protocol_version}
use mac_agent.Protocol.Payloads.{Payload}

-- The errors of `NewMessage`, `Decode` and `Validate`.
pub data MessageError : Type 0 where
  marshal_failed decode_failed : MessageError
  unsupported_spec_version : String → MessageError
  message_id_required type_required occurred_at_required trace_id_required : MessageError
  sender_required payload_required : MessageError

-- What the clock and the generator of ids return to one call of `NewMessage`.
pub record Stamp : Type 0 where
  pub message_id : String
  pub trace_id : String
  pub now : Time

abbrev pub empty_message : Message
empty_message = record {
  spec_version = "";
  message_id = "";
  type = "";
  occurred_at = 0;
  trace_id = "";
  sender = record { kind = ""; id = "" };
  payload = [];
  agent_sequence = 0;
}

-- `none` is Go's nil error.
unfoldable pub validate : Message → Option MessageError
validate m =
    if not (str_eq m.spec_version protocol_version)
    then some (unsupported_spec_version m.spec_version)
    else if is_empty m.message_id
    then some message_id_required
    else if is_empty m.type
    then some type_required
    else if m.occurred_at == 0
    then some occurred_at_required
    else if is_empty m.trace_id
    then some trace_id_required
    else if is_empty m.sender.kind || is_empty m.sender.id
    then some sender_required
    else if no_bytes m.payload
    then some payload_required
    else none

-- `json.Marshal` of a payload.
module _ (marshal : Payload → Option Bytes) where
  unfoldable pub new_message :
      Stamp → String → String → Sender → Payload → Message × Option MessageError
  new_message stamp message_type trace_id sender payload = elim (marshal payload) [
    | none ↦ (empty_message, some marshal_failed)
    | some raw ↦
        let message : Message = record {
          spec_version = protocol_version;
          message_id = stamp.message_id;
          type = message_type;
          occurred_at = stamp.now;
          trace_id = if is_empty trace_id then stamp.trace_id else trace_id;
          sender = sender;
          payload = raw;
          agent_sequence = 0;
        } in
        (message, validate message)
  ]

pub data Decoded {ℓ} (A : Type ℓ) : Type ℓ where
  ok : A → Decoded A
  err : MessageError → Decoded A

-- `json.Unmarshal` of a message.
module _ (unmarshal : Bytes → Option Message) where
  unfoldable pub decode : Bytes → Decoded Message
  decode raw = elim (unmarshal raw) [
    | none ↦ err decode_failed
    | some message ↦ elim (validate message) [ some e ↦ err e | none ↦ ok message ]
  ]
