-- ===== src/Turn/Snapshots.antt =====
-- internal/turn/controller.go: `Snapshot`, and the cut of its items to the size that it may have.
use mac_agent.Base.{
  ℕ, suc, String, Bool, true, false, Option, none, some, List, [], ◌∷◌, Bytes, Int64, ◌*◌, ◌≡◌,
  refl, ap, is_empty, leb, length, if◌then◌else◌, Bool-cases, ◌≤◌, ◌<◌, arith, drop, zero, inl, inr,
  length-drop,
}
use mac_agent.Buffer
use mac_agent.Protocol.Types.{Time, Message, ThreadHistoryItem}
use mac_agent.Protocol.Status
use mac_agent.Turn.Items.{Controller}

pub record Snapshot : Type 0 where
  pub trace_id : String
  pub project_id : String
  pub thread_id : String
  pub turn_id : String
  pub status : String
  pub started_at : Time
  pub recent_output : List Bytes
  pub live_items : List ThreadHistoryItem
  pub last_sequence : Int64
  pub live_items_truncated : Bool
  pub last_terminal : Option Message

abbrev pub max_live_snapshot_bytes : ℕ
max_live_snapshot_bytes = 180 * 1024

-- The length of the JSON of the items, where there is one.
module _ (json_size : List ThreadHistoryItem → Option ℕ) where
  abbrev pub fits : List ThreadHistoryItem → Bool
  fits items = elim (json_size items) [
    | none ↦ false
    | some size ↦ leb size max_live_snapshot_bytes
  ]

  unfoldable pub fit_live_snapshot : List ThreadHistoryItem → List ThreadHistoryItem × Bool
  fit_live_snapshot [] = ([], false)
  fit_live_snapshot (item ∷ items) =
      let rest = fit_live_snapshot items in
      if fits (item ∷ items) then (item ∷ items, false) else (rest.0, true)

  unfoldable pub snapshot : Controller → Snapshot
  snapshot c =
      let (items, truncated) = fit_live_snapshot c.live_items in
      record {
        trace_id = c.trace_id;
        project_id = c.project_id;
        thread_id = c.thread_id;
        turn_id = c.turn_id;
        status = if is_empty c.trace_id then Status.idle else Status.running;
        started_at = c.started_at;
        recent_output = Buffer.values c.logs;
        live_items = items;
        last_sequence = c.last_sequence;
        live_items_truncated = truncated;
        last_terminal = c.last_terminal;
      }

  -- What is kept is the longest suffix that fits, or nothing when none does.
  abbrev pub IsLongestFitting : List ThreadHistoryItem → List ThreadHistoryItem → Type 0
  IsLongestFitting items kept =
      (n : ℕ) × (kept ≡ drop n items)
      × (n ≤ length items)
      × ((m : ℕ) → m < n → fits (drop m items) ≡ false)
      × (n < length items → fits kept ≡ true)

  abbrev pub IsFit : List ThreadHistoryItem → List ThreadHistoryItem × Bool → Type 0
  IsFit items (kept, truncated) =
      IsLongestFitting items kept × (truncated ≡ leb (suc (length kept)) (length items))

  -- The items of a snapshot are the longest suffix of the live items whose JSON has at most 180 KiB,
  -- or none when no suffix of at least one item has that; the mark says whether an item is missing.
  pub fit_live_snapshot_lem :
      (items : List ThreadHistoryItem) → IsFit items (fit_live_snapshot items)
  unfolding fit_live_snapshot
  fit_live_snapshot_lem [] =
      ((0, refl, omega arith, λ m h. absurd (omega arith), λ h. absurd (omega arith)), refl)
  fit_live_snapshot_lem (item ∷ items) = elim (Bool-cases (fits (item ∷ items))) [
    | inl whole_fits ↦
        let whole : IsFit (item ∷ items) (item ∷ items, false) =
          ((0, refl, omega arith, λ m h. absurd (omega arith), λ h. whole_fits), ground arith) in
        rw whole_fits whole
    | inr cut ↦
        let ((n, kept, inside, missing, last), mark) = fit_live_snapshot_lem items in
        let dropped : IsFit (item ∷ items) ((fit_live_snapshot items).0, true) = (
          (suc n, kept, omega arith, first_missing n missing cut, λ h. last (omega arith)),
          ground (arith, kept, length-drop n items, ap length kept),
        ) in
        rw cut dropped
  ]
    where
      first_missing :
          (n : ℕ)
          → ((m : ℕ) → m < n → fits (drop m items) ≡ false)
          → fits (item ∷ items) ≡ false
          → (m : ℕ) → m < suc n
          → fits (drop m (item ∷ items)) ≡ false
      first_missing n missing first zero h = first
      first_missing n missing first (suc m) h = missing m (omega arith)
