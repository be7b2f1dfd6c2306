-- ===== src/Tests/Protocol.antt =====
-- internal/protocol/message.go on samples.
use mac_agent.Base.{
  false, ℕ, String, ◌≡◌, ◌≢◌, ◌↔◌, refl, Option, none, some, [], ◌∷◌, Bytes, codes, length, get_or,
  ◌+◌, ◌%◌, arith, eq_iff, is_empty, if◌then◌else◌,
}
use mac_agent.Protocol.Types.{Sender, Message}
use mac_agent.Protocol.Payloads.{Payload}
use mac_agent.Protocol.MessageType
use mac_agent.Protocol.Messages.{
  Stamp, err, validate, new_message, decode, unsupported_spec_version,
}
use mac_agent.Protocol.Ids.{new_id, mark_version, hex}
use mac_agent.Protocol.Validity.{IsWellFormed, validate_iff, new_message-IsWellFormed}
use mac_agent.Protocol.Ids.{new_id-IsVersion4}

abbrev pub sender : Sender
sender = record { kind = "device"; id = "local-mac" }

abbrev idle : Payload
idle =
    Payload.agent_status (record { status = "idle"; project_id = ""; thread_id = ""; turn_id = "" })

abbrev marshal : Payload → Option Bytes
marshal p = some (codes "{}")

abbrev stamp : Stamp
stamp = record { message_id = "m1"; trace_id = "t1"; now = 5 }

abbrev pub status_message : Message
status_message = record {
  spec_version = "2.0";
  message_id = "m1";
  type = "agent.status";
  occurred_at = 5;
  trace_id = "t1";
  sender = sender;
  payload = codes "{}";
  agent_sequence = 0;
}

built : new_message marshal stamp MessageType.agent_status "" sender idle ≡ (status_message, none)
unfolding new_message validate
built = refl

rejected :
    decode (λ raw. some (record status_message { spec_version = "1.0" })) []
    ≡ err (unsupported_spec_version "1.0")
unfolding decode validate
rejected = refl

validate_iff_example : (validate status_message ≡ none) ↔ IsWellFormed status_message
validate_iff_example = validate_iff status_message

not_empty : (s : String) → is_empty s ≡ false → s ≢ ""
not_empty s h = ground (arith, eq_iff s "")

new_message-IsWellFormed_example :
    let (m, e) = new_message marshal stamp "agent.status" "" sender idle in
    (e ≡ none)
    × IsWellFormed m
    × (m.type ≡ "agent.status")
    × (m.sender ≡ sender)
    × (m.payload ≡ codes "{}")
    × (m.trace_id ≡ (if is_empty "" then stamp.trace_id else ""))
new_message-IsWellFormed_example =
    new_message-IsWellFormed marshal stamp "agent.status" "" sender idle refl (cc)
      (not_empty "m1" refl) (not_empty "t1" refl) (omega arith) (not_empty "agent.status" refl)
      (not_empty "device" refl) (not_empty "local-mac" refl)

abbrev random : Bytes
random = 0 ∷ 17 ∷ 34 ∷ 51 ∷ 68 ∷ 85 ∷ 255 ∷ 119 ∷ 255 ∷ 153 ∷ 170 ∷ 187 ∷ 204 ∷ 221 ∷ 238 ∷ 255 ∷ []

id_of_random : new_id random ≡ codes "0011223344554f77bf99aabbccddeeff"
unfolding new_id
id_of_random = refl

new_id-IsVersion4_example :
    (new_id random ≡ hex (mark_version random))
    × (length (new_id random) ≡ 32)
    × (get_or (mark_version random) 6 0 ≡ get_or random 6 0 % 16 + 64)
    × (get_or (mark_version random) 8 0 ≡ get_or random 8 0 % 64 + 128)
    × ((i : ℕ) → i ≢ 6 → i ≢ 8 → get_or (mark_version random) i 0 ≡ get_or random i 0)
new_id-IsVersion4_example = new_id-IsVersion4 random refl (omega arith) (omega arith)
