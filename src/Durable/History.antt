-- ===== src/Durable/History.antt =====
-- Any sequence of calls of internal/durable/store.go, with any failures of the database.
use native.Mathlib.Nat.{add-zero, add-suc, suc-add}
use mac_agent.Base.{
  ℕ, suc, ◌+◌, ◌^◌, ◌<◌, ◌≤◌, String, ◌≡◌, refl, Bool, false, some, List, [], ◌∷◌, Bytes, Int64,
  str_eq, le64, length, All, ◌&&◌, arith, inl, inr,
}
use mac_agent.Protocol.Types.{Time, Message}
use mac_agent.Durable.{Faults, event_row, prepare_run, append_event, durable_ack, cancel}
use mac_agent.Durable.Schema.{OutboxRow, Tables, migrated, find_row}
use mac_agent.Durable.Bootstrap.{prepare_bootstrap, ack_bootstrap}
use mac_agent.Durable.Keys.{find_row-append, find_row-delete}
use mac_agent.Durable.Consistency.{IsConsistent, migrated-IsConsistent}
use mac_agent.Durable.Outbox.{
  append_event-IsConsistent, append_event-cases, durable_ack-cases, durable_ack-IsConsistent,
  IsConsistent-suc,
}
use mac_agent.Durable.Runs.{prepare_run-IsConsistent, cancel-IsConsistent}

-- A call with its arguments.
pub data Call : Type 0 where
  prepare : Time → String → String → Bytes → Call
  append : Time → String → Message → Call
  ack : Time → String → Int64 → Call
  stop : Time → String → Call
  prepare_sync : Time → String → String → String → Call
  ack_sync : Time → String → Int64 → String → Bool → Call

-- The tables after a call.
abbrev pub after : Faults → Call → Tables → Tables
after faults (prepare now id command payload) t = (prepare_run faults now id command payload t).0
after faults (append now id m) t = (append_event faults now id m t).0
after faults (ack now id n) t = (durable_ack faults now id n t).0
after faults (stop now id) t = (cancel faults now id t).0
after faults (prepare_sync now snapshot id command) t =
    (prepare_bootstrap faults now snapshot id command t).0
after faults (ack_sync now id batch checksum done) t =
    (ack_bootstrap faults now id batch checksum done t).0

abbrev pub history : List (Faults × Call) → Tables → Tables
history [] t = t
history ((faults, call) ∷ calls) t = history calls (after faults call t)

-- An acknowledged sequence is a 64-bit word.
abbrev pub IsWord : Faults × Call → Type 0
IsWord (faults, ack now id n) = n < 2 ^ 64
IsWord (faults, prepare now id command payload) = Unit
IsWord (faults, append now id m) = Unit
IsWord (faults, stop now id) = Unit
IsWord (faults, prepare_sync now snapshot id command) = Unit
IsWord (faults, ack_sync now id batch checksum done) = Unit

-- The calls about syncs leave runs and events alone.
abbrev pub SameRuns : Tables → Tables → Type 0
SameRuns a b = (a.agent_runs ≡ b.agent_runs) × (a.result_outbox ≡ b.result_outbox)

pub SameRuns-prepare :
    (faults : Faults) (now : Time) (snapshot id command : String) (t : Tables)
    → SameRuns (prepare_bootstrap faults now snapshot id command t).0 t
unfolding prepare_bootstrap
SameRuns-prepare faults now snapshot id command t = (ground arith, ground arith)

pub SameRuns-ack :
    (faults : Faults) (now : Time) (id : String) (batch : Int64) (checksum : String) (done : Bool)
    (t : Tables)
    → SameRuns (ack_bootstrap faults now id batch checksum done t).0 t
unfolding ack_bootstrap
SameRuns-ack faults now id batch checksum done t = (ground arith, ground arith)

IsConsistent-same :
    (limit : ℕ) (a b : Tables) → SameRuns a b → IsConsistent limit b → IsConsistent limit a
IsConsistent-same limit a b (runs, rows) v = record {
  bounded = λ id. rw runs (v.bounded id);
  exact = λ id q. rw (runs, rows) (v.exact id q);
}

-- One call.
after-IsConsistent :
    (limit : ℕ) (faults : Faults) (call : Call) (t : Tables)
    → IsWord (faults, call)
    → IsConsistent limit t
    → 0 < limit
    → limit < 2 ^ 63
    → IsConsistent (suc limit) (after faults call t)
after-IsConsistent limit faults (prepare now id command payload) t w v pos small =
    IsConsistent-suc limit _ (prepare_run-IsConsistent limit faults now id command payload t v pos)
after-IsConsistent limit faults (append now id m) t w v pos small =
    append_event-IsConsistent limit faults now id m t v small
after-IsConsistent limit faults (ack now id n) t w v pos small =
    IsConsistent-suc limit _ (durable_ack-IsConsistent limit faults now id n t v small w)
after-IsConsistent limit faults (stop now id) t w v pos small =
    IsConsistent-suc limit _ (cancel-IsConsistent limit faults now id t v)
after-IsConsistent limit faults (prepare_sync now snapshot id command) t w v pos small =
    IsConsistent-suc limit _
      (IsConsistent-same limit _ t (SameRuns-prepare faults now snapshot id command t) v)
after-IsConsistent limit faults (ack_sync now id batch checksum done) t w v pos small =
    IsConsistent-suc limit _
      (IsConsistent-same limit _ t (SameRuns-ack faults now id batch checksum done t) v)

pub history_from :
    (limit : ℕ) (calls : List (Faults × Call)) (t : Tables)
    → All IsWord calls
    → IsConsistent limit t
    → 0 < limit
    → limit + length calls ≤ 2 ^ 63
    → IsConsistent (limit + length calls) (history calls t)
history_from limit [] t w v pos small = rw add-zero v
history_from limit ((faults, call) ∷ calls) t w v pos small =
    rw (add-suc, ← suc-add)
      (history_from (suc limit) calls (after faults call t) w.1
        (after-IsConsistent limit faults call t w.0 v pos (omega arith)) (omega arith)
        (omega arith))

-- After any sequence of fewer than 2 ^ 63 calls on a new store, whichever database calls failed, the
-- outbox of each run holds an event exactly for each sequence above the acknowledged one and below
-- the next one.
pub history-IsConsistent :
    (calls : List (Faults × Call))
    → All IsWord calls
    → length calls < 2 ^ 63
    → IsConsistent (1 + length calls) (history calls migrated)
history-IsConsistent calls w small =
    history_from 1 calls migrated w migrated-IsConsistent (omega arith) (omega arith)

-- A call that does not acknowledge the event.
abbrev pub SparesEvent : String → Int64 → Faults × Call → Type 0
SparesEvent id q (faults, ack now j n) = (str_eq j id && le64 q n) ≡ false
SparesEvent id q (faults, prepare now j command payload) = Unit
SparesEvent id q (faults, append now j m) = Unit
SparesEvent id q (faults, stop now j) = Unit
SparesEvent id q (faults, prepare_sync now snapshot j command) = Unit
SparesEvent id q (faults, ack_sync now j batch checksum done) = Unit

append_keeps :
    (id : String) (q : Int64) (row : OutboxRow) (faults : Faults) (now : Time) (j : String)
    (m : Message) (t : Tables)
    → find_row id q t.result_outbox ≡ some row
    → find_row id q (append_event faults now j m t).0.result_outbox ≡ some row
append_keeps id q row faults now j m t h = elim (append_event-cases faults now j m t) [
  | inl (same, _) ↦ rw same h
  | inr (run, found, done) ↦
      let m' : Message = record m { agent_sequence = run.next_agent_sequence } in
      rw (done, find_row-append id q t.result_outbox (event_row now j m'), h) refl
]

ack_keeps :
    (id : String) (q : Int64) (row : OutboxRow) (faults : Faults) (now : Time) (j : String)
    (n : Int64) (t : Tables)
    → (str_eq j id && le64 q n) ≡ false
    → find_row id q t.result_outbox ≡ some row
    → find_row id q (durable_ack faults now j n t).0.result_outbox ≡ some row
ack_keeps id q row faults now j n t w h = elim (durable_ack-cases faults now j n t) [
  | inl (same, _) ↦ rw same h
  | inr (run, found, tested, done) ↦ rw (done, find_row-delete j id n q t.result_outbox, w) h
]

after_keeps :
    (id : String) (q : Int64) (row : OutboxRow) (faults : Faults) (call : Call) (t : Tables)
    → SparesEvent id q (faults, call)
    → find_row id q t.result_outbox ≡ some row
    → find_row id q (after faults call t).result_outbox ≡ some row
after_keeps id q row faults (prepare now j command payload) t w h =
    unfold prepare_run in ground arith
after_keeps id q row faults (append now j m) t w h = append_keeps id q row faults now j m t h
after_keeps id q row faults (ack now j n) t w h = ack_keeps id q row faults now j n t w h
after_keeps id q row faults (stop now j) t w h = unfold cancel in ground arith
after_keeps id q row faults (prepare_sync now snapshot j command) t w h =
    rw (SameRuns-prepare faults now snapshot j command t).1 h
after_keeps id q row faults (ack_sync now j batch checksum done) t w h =
    rw (SameRuns-ack faults now j batch checksum done t).1 h

-- An event in the outbox stays there, as it was written, through any calls and failures that do not
-- acknowledge it.
pub event_survives :
    (id : String) (q : Int64) (row : OutboxRow) (calls : List (Faults × Call)) (t : Tables)
    → find_row id q t.result_outbox ≡ some row
    → All (SparesEvent id q) calls
    → find_row id q (history calls t).result_outbox ≡ some row
event_survives id q row [] t h w = h
event_survives id q row ((faults, call) ∷ calls) t h w =
    event_survives id q row calls (after faults call t) (after_keeps id q row faults call t w.0 h)
      w.1
