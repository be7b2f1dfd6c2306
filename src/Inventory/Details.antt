-- ===== src/Inventory/Details.antt =====
-- internal/inventory/service.go: the cutting of texts, and the history of a thread.

use mac_agent.Base.{
  ℕ, zero, suc, ◌-◌, ◌*◌, String, Bool, true, false, Option, none, some, List, [], ◌∷◌, ◌++◌, Bytes,
  Int64, codes, length, get_or, take, leb, ◌||◌, if◌then◌else◌,
}
use mac_agent.CodexApp.{Turn, Thread, status_name, source_name, title}
use mac_agent.CodexItem.{RawItem, Content, normalize}
use mac_agent.Protocol.Payloads.{ThreadDetailPayload}
use mac_agent.Protocol.Types.{Time, ThreadHistoryItem, ThreadHistoryTurn}
use mac_agent.Utf8.{is_continuation}

abbrev pub max_history_field_bytes : ℕ
max_history_field_bytes = 24 * 1024

abbrev pub max_latest_preview_bytes : ℕ
max_latest_preview_bytes = 512

-- `for end > 0 && value[end]&0xc0 == 0x80 { end-- }`, of an end inside the value.
unfoldable pub back_up : Bytes → ℕ → ℕ
back_up value zero = zero
back_up value (suc end) =
    let rest = back_up value end in
    if is_continuation (get_or value (suc end) 0) then rest else suc end

-- `truncateUTF8` of a limit of at least 3: below, it slices out of range.
unfoldable pub truncate_utf8 : Bytes → ℕ → Bytes × Bool
truncate_utf8 value limit =
    if leb (length value) limit
    then (value, false)
    else (take (back_up value (limit - length (codes "..."))) value ++ codes "...", true)

-- The decoders and functions of the libraries.
pub record Texts : Type 0 where
  pub contents_of : Bytes → List Content
  pub texts_of : Bytes → List Bytes
  pub base_name : Bytes → Bytes
  pub decode : Bytes → Option RawItem
  pub type_of : Bytes → Option String
  pub as_text : Bytes → Option String
  pub custom_of : Bytes → Option String
  pub first_runes : Bytes → Option Bytes
  pub joined_fields : Bytes → Bytes
  pub unix : Int64 → Time

module _ (texts : Texts) where
  -- `compactPreview`
  abbrev pub compact_preview : Bytes → Bytes
  compact_preview value = (truncate_utf8 (texts.joined_fields value) max_latest_preview_bytes).0

  abbrev pub normalize_item : Bytes → ℕ → Option ThreadHistoryItem
  normalize_item raw limit =
      normalize texts.contents_of texts.texts_of texts.base_name texts.decode raw limit

  abbrev unix_option : Option Int64 → Option Time
  unix_option none = none
  unix_option (some seconds) = some (texts.unix seconds)

  unfoldable pub normalize_items : List Bytes → List ThreadHistoryItem
  normalize_items [] = []
  normalize_items (raw ∷ raws) = elim (normalize_item raw max_history_field_bytes) [
    | none ↦ normalize_items raws
    | some item ↦ item ∷ normalize_items raws
  ]

  -- The text of a turn's error, and whether it was cut.
  abbrev clipped_error : Option Bytes → Bytes × Bool
  clipped_error none = ([], false)
  clipped_error (some message) = truncate_utf8 message max_history_field_bytes

  -- `normalizeTurn`
  unfoldable pub normalize_turn : Turn → ThreadHistoryTurn
  normalize_turn turn =
      let (error, clipped) = clipped_error turn.error in
      record {
        id = turn.id;
        status = turn.status;
        started_at = unix_option turn.started_at;
        completed_at = unix_option turn.completed_at;
        duration_ms = turn.duration_ms;
        error = error;
        items = normalize_items turn.items;
        truncated = clipped;
      }

  unfoldable pub normalize_turns : List Turn → List ThreadHistoryTurn
  normalize_turns [] = []
  normalize_turns (turn ∷ turns) = normalize_turn turn ∷ normalize_turns turns

  -- The payload of `ReadThread`, before it is fitted.
  unfoldable pub thread_detail : String → Thread → ThreadDetailPayload
  thread_detail project_id thread =
      let (name, title_truncated) =
        truncate_utf8 (title texts.first_runes thread) max_history_field_bytes in
      let (preview, preview_truncated) = truncate_utf8 thread.preview max_history_field_bytes in
      record {
        project_id = project_id;
        thread = record {
          id = thread.id;
          project_id = project_id;
          title = name;
          preview = preview;
          status = status_name texts.type_of thread;
          source = source_name texts.as_text texts.custom_of thread;
          created_at = texts.unix thread.created_at;
          updated_at = texts.unix thread.updated_at;
          turns = normalize_turns thread.turns;
        };
        truncated = title_truncated || preview_truncated;
      }
