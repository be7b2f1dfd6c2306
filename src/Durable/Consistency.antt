-- ===== src/Durable/Consistency.antt =====
-- The outbox of internal/durable/store.go holds, of each run, exactly the events above its
-- acknowledged sequence and below its next one.

use mathlib.Core.Path.{subst}
use mac_agent.Base.{
  ℕ, suc, ◌^◌, ◌<◌, ◌≤◌, String, ◌≡◌, refl, ap, ◌∙◌, Bool, true, false, Option, none, some, [], ◌∷◌,
  Int64, is_some, str_eq, eq_iff, ltb, ◌==◌, ◌&&◌, ◌||◌, not, le64, arith, Bool-cases, ◌++◌, inl,
  inr,
}
use mac_agent.Protocol.Types.{Time, Message}
use mac_agent.Durable.{advance_run, event_row, ack_run}
use mac_agent.Durable.Schema.{
  AgentRun, Tables, migrated, find_run, update_run, find_row, delete_acked,
}
use mac_agent.Durable.Keys.{find_run-update, find_row-append, find_row-delete}

-- Whether the run still waits for the acknowledgement of an event.
abbrev pub waits_for : Option AgentRun → Int64 → Bool
waits_for none sequence = false
waits_for (some run) sequence =
    ltb run.durable_acked_sequence sequence && ltb sequence run.next_agent_sequence

abbrev pub IsBounded : ℕ → Option AgentRun → Type 0
IsBounded limit none = Unit
IsBounded limit (some run) =
    (run.durable_acked_sequence < run.next_agent_sequence) × (run.next_agent_sequence ≤ limit)

-- `limit` bounds the sequences, so that none wraps while it stays below 2 ^ 63.
pub record IsConsistent (limit : ℕ) (t : Tables) : Type 0 where
  pub bounded : (id : String) → IsBounded limit (find_run id t.agent_runs)
  pub exact :
      (id : String) (q : Int64)
      → is_some (find_row id q t.result_outbox) ≡ waits_for (find_run id t.agent_runs) q

pub migrated-IsConsistent : IsConsistent 1 migrated
unfolding find_run find_row
migrated-IsConsistent = record { bounded = λ id. tt; exact = λ id q. refl }

pub bound_at :
    (limit : ℕ) (t : Tables) (id : String) (run : AgentRun)
    → IsConsistent limit t
    → find_run id t.agent_runs ≡ some run
    → (run.durable_acked_sequence < run.next_agent_sequence) × (run.next_agent_sequence ≤ limit)
bound_at limit t id run v found = subst (IsBounded limit) found (v.bounded id)

-- After the UPDATE of `AppendEvent` the run waits for one more event, the new one.
advance_run-waits :
    (run : AgentRun) (now : Time) (type : String) (q : Int64)
    → run.durable_acked_sequence < run.next_agent_sequence
    → run.next_agent_sequence < 2 ^ 63
    → waits_for (some (advance_run now type run.next_agent_sequence run)) q
      ≡ (waits_for (some run) q || run.next_agent_sequence == q)
advance_run-waits run now type q low high = ground arith

advance_run-key :
    (now : Time) (type : String) (sequence : Int64) (run : AgentRun)
    → (advance_run now type sequence run).run_id ≡ run.run_id
advance_run-key now type sequence run = ground arith

pub moved :
    (id j : String) (run : AgentRun) (t : Tables)
    → find_run id t.agent_runs ≡ some run
    → str_eq id j ≡ true
    → find_run j t.agent_runs ≡ some run
moved id j run t found here = rw ((eq_iff id j).0 here) at found

-- After the UPDATE of `DurableAck` the run waits for the later events only.
ack_run-waits :
    (run : AgentRun) (now : Time) (n q : Int64)
    → run.durable_acked_sequence < run.next_agent_sequence
    → run.next_agent_sequence < 2 ^ 63
    → n < run.next_agent_sequence
    → waits_for (some (ack_run now n run)) q ≡ (waits_for (some run) q && not (le64 q n))
ack_run-waits run now n q low high inside = ground arith

pub IsBounded-suc :
    (limit : ℕ) (found : Option AgentRun) → IsBounded limit found → IsBounded (suc limit) found
IsBounded-suc limit none b = tt
IsBounded-suc limit (some run) b = omega arith

advance_run-IsBounded :
    (limit : ℕ) (run : AgentRun) (now : Time) (type : String)
    → run.durable_acked_sequence < run.next_agent_sequence
    → run.next_agent_sequence ≤ limit
    → limit < 2 ^ 63
    → IsBounded (suc limit) (some (advance_run now type run.next_agent_sequence run))
advance_run-IsBounded limit run now type low high small = ground arith

ack_run-IsBounded :
    (limit : ℕ) (run : AgentRun) (now : Time) (n : Int64)
    → run.durable_acked_sequence < run.next_agent_sequence
    → run.next_agent_sequence ≤ limit
    → n < run.next_agent_sequence
    → limit < 2 ^ 63
    → IsBounded limit (some (ack_run now n run))
ack_run-IsBounded limit run now n low high inside small = ground arith

-- What changes one run and the rows of that run, as the new run waits for them, stays exact.
module _ (limit : ℕ) (t : Tables) (v : IsConsistent limit t) (id : String) (run : AgentRun)
    (found : find_run id t.agent_runs ≡ some run) where
  pub appended_exact :
      (now : Time) (m : Message)
      → m.agent_sequence ≡ run.next_agent_sequence
      → limit < 2 ^ 63
      → (j : String) (q : Int64)
      → is_some (find_row j q (t.result_outbox ++ event_row now id m ∷ []))
        ≡ waits_for
            (find_run j (update_run id (advance_run now m.type m.agent_sequence) t.agent_runs))
            q
  appended_exact now m same small j q =
      let (low, high) = bound_at limit t id run v found in
      rw
        (
          find_row-append j q t.result_outbox (event_row now id m),
          find_run-update id j (advance_run now m.type m.agent_sequence) t.agent_runs
              (advance_run-key now m.type m.agent_sequence),
          same,
        )
        (elim (Bool-cases (str_eq id j)) [
          | inl here ↦
              let fj : find_run j t.agent_runs ≡ some run = moved id j run t found here in
              let ex : is_some (find_row j q t.result_outbox) ≡ waits_for (some run) q =
                v.exact j q ∙ ap (λ o. waits_for o q) fj in
              rw (here, fj)
                (ground (arith, ex, advance_run-waits run now m.type q low (omega arith)))
          | inr other ↦ rw other (ground (arith, v.exact j q))
        ])

  pub appended-IsBounded :
      (now : Time) (m : Message)
      → m.agent_sequence ≡ run.next_agent_sequence
      → limit < 2 ^ 63
      → (j : String)
      → IsBounded
          (suc limit)
          (find_run j (update_run id (advance_run now m.type m.agent_sequence) t.agent_runs))
  appended-IsBounded now m same small j =
      let (low, high) = bound_at limit t id run v found in
      rw
        (
          find_run-update id j (advance_run now m.type m.agent_sequence) t.agent_runs
              (advance_run-key now m.type m.agent_sequence),
          same,
        )
        (elim (Bool-cases (str_eq id j)) [
          | inl here ↦
              rw (here, moved id j run t found here)
                (advance_run-IsBounded limit run now m.type low high small)
          | inr other ↦ rw other (IsBounded-suc limit (find_run j t.agent_runs) (v.bounded j))
        ])

  pub acked_exact :
      (now : Time) (n : Int64)
      → n < run.next_agent_sequence
      → limit < 2 ^ 63
      → (j : String) (q : Int64)
      → is_some (find_row j q (delete_acked id n t.result_outbox))
        ≡ waits_for (find_run j (update_run id (ack_run now n) t.agent_runs)) q
  acked_exact now n inside small j q =
      let (low, high) = bound_at limit t id run v found in
      rw
        (
          find_row-delete id j n q t.result_outbox,
          find_run-update id j (ack_run now n) t.agent_runs (λ r. refl),
        )
        (elim (Bool-cases (str_eq id j)) [
          | inl here ↦
              let fj : find_run j t.agent_runs ≡ some run = moved id j run t found here in
              let ex : is_some (find_row j q t.result_outbox) ≡ waits_for (some run) q =
                v.exact j q ∙ ap (λ o. waits_for o q) fj in
              rw (here, fj) (ground (arith, ex, ack_run-waits run now n q low (omega arith) inside))
          | inr other ↦ rw other (ground (arith, v.exact j q))
        ])

  pub acked-IsBounded :
      (now : Time) (n : Int64)
      → n < run.next_agent_sequence
      → limit < 2 ^ 63
      → (j : String) → IsBounded limit (find_run j (update_run id (ack_run now n) t.agent_runs))
  acked-IsBounded now n inside small j =
      let (low, high) = bound_at limit t id run v found in
      rw (find_run-update id j (ack_run now n) t.agent_runs (λ r. refl))
        (elim (Bool-cases (str_eq id j)) [
          | inl here ↦
              rw (here, moved id j run t found here)
                (ack_run-IsBounded limit run now n low high inside small)
          | inr other ↦ rw other (v.bounded j)
        ])
