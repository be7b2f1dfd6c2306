-- ===== src/Inventory/Fitting.antt =====
-- internal/inventory/service.go: `fitThreadDetail`, which cuts a thread to the size that it may have.
use mac_agent.Base.{
  ℕ, zero, suc, ◌+◌, ◌*◌, ◌≤◌, ◌≡◌, ◌⊎◌, Bool, true, false, Option, none, some, List, [], ◌∷◌, All,
  Bytes, length, leb, if◌then◌else◌,
}
use mac_agent.Inventory.Details.{truncate_utf8}
use mac_agent.Protocol.Payloads.{ThreadDetailPayload}
use mac_agent.Protocol.Types.{ThreadFileChange, ThreadHistoryItem, ThreadHistoryTurn}

abbrev pub max_thread_detail_bytes : ℕ
max_thread_detail_bytes = 200 * 1024

abbrev pub max_fitted_bytes : ℕ
max_fitted_bytes = 4096

abbrev pub fitted : Bytes → Bytes
fitted text = (truncate_utf8 text max_fitted_bytes).0

-- What one pass makes of an item, of the items of a turn and of the turns; `true` is `continue`.
unfoldable pub fit_item : ThreadHistoryItem → List ThreadFileChange → ThreadHistoryItem × Bool
fit_item item [] = (
  record item {
    truncated = true;
    text = fitted item.text;
    output = fitted item.output;
    changes = [];
  },
  false,
)
fit_item item (change ∷ []) = (
  record item {
    truncated = true;
    text = fitted item.text;
    output = fitted item.output;
    changes = record change { diff = fitted change.diff } ∷ [];
  },
  false,
)
fit_item item (change ∷ next ∷ rest) =
    (record item { truncated = true; changes = next ∷ rest }, true)

unfoldable pub fit_items : List ThreadHistoryItem → List ThreadHistoryItem × Bool
fit_items [] = ([], false)
fit_items (item ∷ []) = let (fit, again) = fit_item item item.changes in (fit ∷ [], again)
fit_items (item ∷ next ∷ rest) = (next ∷ rest, true)

unfoldable pub fit_turns : List ThreadHistoryTurn → List ThreadHistoryTurn × Bool
fit_turns [] = ([], false)
fit_turns (turn ∷ []) =
    let (items, again) = fit_items turn.items in
    (record turn { truncated = true; items = items } ∷ [], again)
fit_turns (turn ∷ next ∷ rest) = (next ∷ rest, true)

-- What is left to drop.
unfoldable pub weight_of_items : List ThreadHistoryItem → ℕ
weight_of_items [] = 0
weight_of_items (item ∷ items) = suc (length item.changes) + weight_of_items items

unfoldable pub weight : List ThreadHistoryTurn → ℕ
weight [] = 0
weight (turn ∷ turns) = suc (weight_of_items turn.items) + weight turns

abbrev pub with_turns : ThreadDetailPayload → List ThreadHistoryTurn → ThreadDetailPayload
with_turns p turns = record p { truncated = true; thread = record p.thread { turns = turns } }

module _ (encoded_size : ThreadDetailPayload → ℕ) where
  abbrev pub fits : ThreadDetailPayload → Bool
  fits p = leb (encoded_size p) max_thread_detail_bytes

  -- The loop, of at most as many passes.
  unfoldable pub fit_within : ℕ → ThreadDetailPayload → Option ThreadDetailPayload
  fit_within zero p = none
  fit_within (suc passes) p =
      let (turns, again) = fit_turns p.thread.turns in
      let later = fit_within passes (with_turns p turns) in
      if fits p then some p else if again then later else some (with_turns p turns)

  -- `fitThreadDetail`: each pass but the last drops something.
  unfoldable pub fit_thread_detail : ThreadDetailPayload → Option ThreadDetailPayload
  fit_thread_detail p = fit_within (suc (weight p.thread.turns)) p

  abbrev pub IsLeastItem : ThreadHistoryItem → Type 0
  IsLeastItem item =
      (length item.text ≤ max_fitted_bytes)
      × (length item.output ≤ max_fitted_bytes)
      × (length item.changes ≤ 1)
      × All (λ c. length c.diff ≤ max_fitted_bytes) item.changes

  abbrev pub IsLeastTurn : ThreadHistoryTurn → Type 0
  IsLeastTurn turn = (length turn.items ≤ 1) × All IsLeastItem turn.items

  abbrev pub IsLeast : List ThreadHistoryTurn → Type 0
  IsLeast turns = (length turns ≤ 1) × All IsLeastTurn turns

module _ (encoded_size : ThreadDetailPayload → ℕ) where
  -- It is as it was and fits, or it is marked, and fits or is one that no pass shortens.
  abbrev pub IsFitted : ThreadDetailPayload → ThreadDetailPayload → Type 0
  IsFitted p q =
      ((q ≡ p) ⊎ (q.truncated ≡ true))
      × ((fits encoded_size q ≡ true) ⊎ IsLeast encoded_size q.thread.turns)

  abbrev pub Answers : ThreadDetailPayload → Option ThreadDetailPayload → Type 0
  Answers p o = (q : ThreadDetailPayload) × (o ≡ some q) × IsFitted p q
