-- ===== src/Durable/Replay.antt =====
-- `Pending` of internal/durable/store.go returns every event that is not acknowledged, in order.
use mathlib.Core.List.{Perm}
use mathlib.Core.List.Perm
use mac_agent.Base.{
  ℕ, ◌^◌, ◌<◌, ◌≡◌, refl, sym, ap, ◌∙◌, true, false, Option, List, [], ◌∷◌, Bytes, is_some, eq_iff,
  eq_refl, codes, keep_if, All, arith, Option-cases, Bool-cases, inl, inr,
}
use mac_agent.Durable.Schema.{AgentRun, OutboxRow, Tables, find_run, find_row}
use mac_agent.Durable.Consistency.{IsConsistent, waits_for, bound_at}
use mac_agent.Durable.Pending.{text_le, row_le, insert_row, order_rows, is_pending, pending_rows}

-- Each row is not after the next.
abbrev pub IsOrdered : List OutboxRow → Type 0
IsOrdered [] = Unit
IsOrdered (row ∷ []) = Unit
IsOrdered (row ∷ other ∷ rows) = (row_le row other ≡ true) × IsOrdered (other ∷ rows)

text_le_total : (s t : Bytes) → text_le s t ≡ false → text_le t s ≡ true
unfolding text_le
text_le_total [] t h = ground arith
text_le_total (a ∷ s) [] h = refl
text_le_total (a ∷ s) (b ∷ t) h = ground (arith, text_le_total s t)

row_le_total : (a b : OutboxRow) → row_le a b ≡ false → row_le b a ≡ true
unfolding row_le
row_le_total a b h = ground (
  arith,
  eq_iff a.run_id b.run_id,
  eq_iff b.run_id a.run_id,
  text_le_total (codes a.run_id) (codes b.run_id),
)

insert_row-IsOrdered :
    (row : OutboxRow) (rows : List OutboxRow) → IsOrdered rows → IsOrdered (insert_row row rows)
unfolding insert_row
insert_row-IsOrdered row [] h = tt
insert_row-IsOrdered row (other ∷ []) h = ground (arith, row_le_total row other)
insert_row-IsOrdered row (other ∷ third ∷ rows) h = ground (
  arith,
  row_le_total row other,
  row_le_total row third,
  insert_row-IsOrdered row (third ∷ rows) h.1,
)

order_rows-IsOrdered : (rows : List OutboxRow) → IsOrdered (order_rows rows)
unfolding order_rows
order_rows-IsOrdered [] = tt
order_rows-IsOrdered (row ∷ rows) =
    insert_row-IsOrdered row (order_rows rows) (order_rows-IsOrdered rows)

insert_row-perm :
    (row : OutboxRow) (rows : List OutboxRow) → Perm (insert_row row rows) (row ∷ rows)
unfolding insert_row
insert_row-perm row [] = Perm.refl (row ∷ [])
insert_row-perm row (other ∷ rows) = elim (Bool-cases (row_le row other)) [
  | inl h ↦ rw h (Perm.refl (row ∷ other ∷ rows))
  | inr h ↦
      rw h (Perm.trans (Perm.cons other (insert_row-perm row rows)) (Perm.swap row other rows))
]

order_rows-perm : (rows : List OutboxRow) → Perm (order_rows rows) rows
unfolding order_rows
order_rows-perm [] = Perm.refl []
order_rows-perm (row ∷ rows) =
    Perm.trans (insert_row-perm row (order_rows rows)) (Perm.cons row (order_rows-perm rows))

-- Each row is found by its key.
abbrev IsFound : List OutboxRow → OutboxRow → Type 0
IsFound rows row = is_some (find_row row.run_id row.agent_sequence rows) ≡ true

weaken :
    (first : OutboxRow) (rows some_rows : List OutboxRow)
    → All (IsFound rows) some_rows
    → All (IsFound (first ∷ rows)) some_rows
unfolding find_row
weaken first rows [] h = tt
weaken first rows (row ∷ some_rows) (here, rest) = (ground arith, weaken first rows some_rows rest)

All-IsFound : (rows : List OutboxRow) → All (IsFound rows) rows
unfolding find_row
All-IsFound [] = tt
All-IsFound (row ∷ rows) =
    (ground (arith, eq_refl row.run_id), weaken row rows rows (All-IsFound rows))

module _ (limit : ℕ) (t : Tables) (v : IsConsistent limit t) (small : limit < 2 ^ 63) where
  found_pending : (row : OutboxRow) → IsFound t.result_outbox row → is_pending t row ≡ true
  found_pending row h = elim (Option-cases (find_run row.run_id t.agent_runs)) [
    | inl missing ↦ absurd (cc (waiting missing))
    | inr (run, found) ↦
        let (low, high) = bound_at limit t row.run_id run v found in
        let w = waiting found in unfold is_pending in rw (found, is_pending) (ground arith)
  ]
    where
      waiting :
          {o : Option AgentRun}
          → find_run row.run_id t.agent_runs ≡ o
          → waits_for o row.agent_sequence ≡ true
      waiting e =
          ap (λ o. waits_for o row.agent_sequence) (sym e)
          ∙ sym (v.exact row.run_id row.agent_sequence)
          ∙ h

  keep_pending :
      (rows : List OutboxRow)
      → All (IsFound t.result_outbox) rows
      → keep_if (is_pending t) rows ≡ rows
  keep_pending [] h = refl
  keep_pending (row ∷ rows) h = rw (found_pending row h.0) (ap (◌∷◌ row) (keep_pending rows h.1))

  -- In a consistent store `Pending` selects every row of the outbox, each as often as it is there,
  -- in the order of the runs and, within a run, of the sequences.
  pub pending_rows_lem : Perm (pending_rows t) t.result_outbox × IsOrdered (pending_rows t)
  unfolding pending_rows
  pending_rows_lem = (
    rw (keep_pending t.result_outbox (All-IsFound t.result_outbox))
        (order_rows-perm t.result_outbox),
    order_rows-IsOrdered (keep_if (is_pending t) t.result_outbox),
  )
