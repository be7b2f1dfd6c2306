-- ===== src/Inventory/Previews.antt =====
-- internal/inventory/service.go: `latestMessagePreview` and its cache.
--
-- The cache is a list of its entries. Of a full cache, Go deletes any one entry: `victim` says which.
use mac_agent.Base.{
  ℕ, zero, suc, String, Bool, Option, none, some, List, [], ◌∷◌, Bytes, Int64, length, no_bytes,
  str_eq, leb, ◌==◌, not, ◌&&◌, ◌||◌, if◌then◌else◌,
}
use mac_agent.Agent.{Result, ok, err}
use mac_agent.CodexApp.{Turn, Thread}
use mac_agent.Inventory.Details.{Texts, max_latest_preview_bytes, compact_preview, normalize_item}
use mac_agent.Protocol.Types.{ThreadHistoryItem}

-- `latestPreviewEntry`, with its key.
pub record PreviewEntry : Type 0 where
  pub thread_id : String
  pub updated_at : Int64
  pub text : Bytes

abbrev pub latest_preview_cache_size : ℕ
latest_preview_cache_size = 512

unfoldable pub find_entry : String → List PreviewEntry → Option PreviewEntry
find_entry id [] = none
find_entry id (entry ∷ entries) =
    if str_eq entry.thread_id id then some entry else find_entry id entries

unfoldable pub remove_at : ℕ → List PreviewEntry → List PreviewEntry
remove_at n [] = []
remove_at zero (entry ∷ entries) = entries
remove_at (suc n) (entry ∷ entries) = entry ∷ remove_at n entries

unfoldable pub put_entry : PreviewEntry → List PreviewEntry → List PreviewEntry
put_entry entry [] = entry ∷ []
put_entry entry (old ∷ entries) =
    let rest = put_entry entry entries in
    if str_eq old.thread_id entry.thread_id then entry ∷ entries else old ∷ rest

module _ (texts : Texts) where
  -- An item of a conversation that is no commentary.
  abbrev pub is_conversation : ThreadHistoryItem → Bool
  is_conversation item =
      (str_eq item.type "userMessage" || str_eq item.type "agentMessage")
      && not (str_eq item.type "agentMessage" && str_eq item.phase "commentary")

  -- The text that an item shows, or none.
  unfoldable pub item_preview : Bytes → Bytes
  item_preview raw = elim (normalize_item texts raw max_latest_preview_bytes) [
    | none ↦ []
    | some item ↦ if is_conversation item then compact_preview texts item.text else []
  ]

  -- The last item of a turn that shows a text.
  unfoldable pub turn_preview : List Bytes → Bytes
  turn_preview [] = []
  turn_preview (raw ∷ raws) =
      let later = turn_preview raws in if no_bytes later then item_preview raw else later

  -- `latestConversationText`
  unfoldable pub latest_conversation_text : List Turn → Bytes
  latest_conversation_text [] = []
  latest_conversation_text (turn ∷ turns) =
      let preview = turn_preview turn.items in
      let older = latest_conversation_text turns in if no_bytes preview then older else preview

  abbrev pub kept : (List PreviewEntry → ℕ) → List PreviewEntry → List PreviewEntry
  kept victim cache =
      if leb latest_preview_cache_size (length cache) then remove_at (victim cache) cache else cache

  -- What `latestMessagePreview` does behind the look in the cache.
  unfoldable pub fresh_preview :
      (List PreviewEntry → ℕ)
      → Result (List Turn)
      → Thread
      → List PreviewEntry
      → Bytes × List PreviewEntry
  fresh_preview victim (err text) thread cache = (compact_preview texts thread.preview, cache)
  fresh_preview victim (ok turns) thread cache =
      let latest = latest_conversation_text turns in
      let preview = if no_bytes latest then compact_preview texts thread.preview else latest in
      (
        preview,
        put_entry (record { thread_id = thread.id; updated_at = thread.updated_at; text = preview })
            (kept victim cache),
      )

  -- `latestMessagePreview`: `turns` is the app server's answer.
  unfoldable pub latest_message_preview :
      (List PreviewEntry → ℕ)
      → Result (List Turn)
      → Thread
      → List PreviewEntry
      → Bytes × List PreviewEntry
  latest_message_preview victim turns thread cache =
      let fresh = fresh_preview victim turns thread cache in
      elim (find_entry thread.id cache) [
        | none ↦ fresh
        | some entry ↦ if entry.updated_at == thread.updated_at then (entry.text, cache) else fresh
      ]
