-- ===== src/Durable/Pending.antt =====
-- `Pending` of internal/durable/store.go: the events to send again.
use mac_agent.Base.{
  ℕ, suc, String, Bool, true, false, none, some, List, [], ◌∷◌, Bytes, codes, keep_if, lt64, le64,
  ltb, ◌==◌, ◌&&◌, ◌||◌, str_eq, if◌then◌else◌,
}
use mac_agent.Protocol.Types.{Message, protocol_version}
use mac_agent.Durable.{Faults, Outcome, ok, err, database_failed}
use mac_agent.Durable.Schema.{OutboxRow, Tables, find_run}

-- SQLite's order of texts: byte by byte, which for UTF-8 is code point by code point.
unfoldable pub text_le : Bytes → Bytes → Bool
text_le [] t = true
text_le (a ∷ s) [] = false
text_le (a ∷ s) (b ∷ t) = ltb a b || (a == b && text_le s t)

-- ORDER BY o.run_id,o.agent_sequence
unfoldable pub row_le : OutboxRow → OutboxRow → Bool
row_le a b =
    if str_eq a.run_id b.run_id
    then le64 a.agent_sequence b.agent_sequence
    else text_le (codes a.run_id) (codes b.run_id)

unfoldable pub insert_row : OutboxRow → List OutboxRow → List OutboxRow
insert_row row [] = row ∷ []
insert_row row (other ∷ rows) =
    let rest = insert_row row rows in if row_le row other then row ∷ other ∷ rows else other ∷ rest

unfoldable pub order_rows : List OutboxRow → List OutboxRow
unfolding insert_row row_le
order_rows [] = []
order_rows (row ∷ rows) = insert_row row (order_rows rows)

-- JOIN agent_runs r ON r.run_id=o.run_id WHERE o.agent_sequence>r.durable_acked_sequence
unfoldable pub is_pending : Tables → OutboxRow → Bool
is_pending t row = elim (find_run row.run_id t.agent_runs) [
  | none ↦ false
  | some run ↦ lt64 run.durable_acked_sequence row.agent_sequence
]

unfoldable pub pending_rows : Tables → List OutboxRow
unfolding order_rows is_pending
pending_rows t = order_rows (keep_if (is_pending t) t.result_outbox)

abbrev pub event_message : String → OutboxRow → Message
event_message new_id row = record {
  spec_version = protocol_version;
  message_id = new_id;
  type = row.event_type;
  occurred_at = row.occurred_at;
  trace_id = row.run_id;
  sender = record { kind = "device"; id = "local-mac" };
  payload = row.payload_json;
  agent_sequence = row.agent_sequence;
}

-- `ids` is what `NewID` returns, from the `n`-th call on.
unfoldable pub event_messages : (ℕ → String) → ℕ → List OutboxRow → List Message
event_messages ids n [] = []
event_messages ids n (row ∷ rows) = event_message (ids n) row ∷ event_messages ids (suc n) rows

unfoldable pub pending : Faults → (ℕ → String) → Tables → Outcome (List Message)
unfolding pending_rows event_messages
pending faults ids t =
    if faults 0 || faults 1 then err database_failed else ok (event_messages ids 0 (pending_rows t))
