-- ===== src/Turn/Items.antt =====
-- internal/turn/controller.go: the state of the controller and the items of the turn that runs.
use mac_agent.Base.{
  ℕ, String, Bool, false, Option, none, some, List, [], ◌∷◌, ◌++◌, Bytes, Int64, add64, is_empty,
  no_bytes, str_eq, length, get_or, set, not, ◌||◌, if◌then◌else◌,
}
use mac_agent.Buffer.{Ring}
use mac_agent.Protocol.Types.{Time, Message, ThreadHistoryItem}
use mac_agent.Runner.{Event}
use mac_agent.Utf8.{append_live_delta}

-- What `ctx.Err()` returns of a context that is done.
pub data ContextError : Type 0 where
  canceled deadline_exceeded : ContextError

-- `Controller`, less what `NewController` fixes. `cancel` is the context that its function cancels,
-- with what has ended it. A nil slice or map and an empty one are the same value.
pub record Controller : Type 0 where
  pub logs : Ring
  pub live_items : List ThreadHistoryItem
  pub live_item_index : List (String × ℕ)
  pub last_sequence : Int64
  pub trace_id : String
  pub project_id : String
  pub thread_id : String
  pub turn_id : String
  pub started_at : Time
  pub cancel : Option (Option ContextError)
  pub last_terminal : Option Message

unfoldable pub find_index : String → List (String × ℕ) → Option ℕ
find_index id [] = none
find_index id ((key, index) ∷ entries) = if str_eq key id then some index else find_index id entries

-- `c.liveItemIndex[id] = len(c.liveItems)` and the append of a new item.
abbrev pub append_item : ThreadHistoryItem → Controller → Controller
append_item item c = record c {
  live_item_index = (item.id, length c.live_items) ∷ c.live_item_index;
  live_items = c.live_items ++ item ∷ [];
}

-- The item takes the place of the one with its id, or comes last.
unfoldable pub put_item : ThreadHistoryItem → Controller → Controller
put_item item c = elim (find_index item.id c.live_item_index) [
  | some index ↦ record c { live_items = set c.live_items index item }
  | none ↦ append_item item c
]

abbrev pub count : Controller → Controller
count c = record c { last_sequence = add64 c.last_sequence 1 }

-- The sequence 0 says that nothing was stored.
unfoldable pub store_started_item : String → ThreadHistoryItem → Controller → Controller × Int64
store_started_item trace_id item c =
    if is_empty item.id || not (str_eq c.trace_id trace_id)
    then (c, 0)
    else (put_item item (count c), (count c).last_sequence)

unfoldable pub store_completed_item : String → ThreadHistoryItem → Controller → Controller × Int64
store_completed_item trace_id item c =
    if is_empty item.id || not (str_eq c.trace_id trace_id)
    then (c, 0)
    else (put_item item (count c), (count c).last_sequence)

abbrev pub blank_item : String → String → ThreadHistoryItem
blank_item id type = record {
  id = id;
  type = type;
  role = "";
  phase = "";
  status = "";
  text = [];
  name = [];
  command = [];
  cwd = [];
  output = [];
  path = [];
  query = [];
  exit_code = none;
  duration_ms = none;
  changes = [];
  truncated = false;
}

abbrev pub delta_item_type : Event → String
delta_item_type event =
    if str_eq event.stream "assistant"
    then "agentMessage"
    else if str_eq event.field "output"
    then "commandExecution"
    else "activity"

abbrev pub add_output : Bytes × Bool → ThreadHistoryItem → ThreadHistoryItem
add_output (output, truncated) item = record item { output = output; truncated = truncated }

abbrev pub add_text : Bytes × Bool → ThreadHistoryItem → ThreadHistoryItem
add_text (text, truncated) item = record item { text = text; truncated = truncated }

unfoldable pub add_delta : Event → ThreadHistoryItem → ThreadHistoryItem
add_delta event item =
    if str_eq event.field "output"
    then add_output (append_live_delta item.output event.text item.truncated) item
    else add_text (append_live_delta item.text event.text item.truncated) item

-- An index out of range, which would panic, changes nothing; the invariant of `Turn.Indexed` rules
-- it out.
abbrev pub delta_at : Event → ℕ → Controller → Controller
delta_at event index c = record c {
  live_items =
      set c.live_items index (add_delta event (get_or c.live_items index (blank_item "" "")));
}

unfoldable pub put_delta : Event → Controller → Controller
put_delta event c = elim (find_index event.item_id c.live_item_index) [
  | some index ↦ delta_at event index c
  | none ↦
      delta_at event (length c.live_items)
        (append_item (blank_item event.item_id (delta_item_type event)) c)
]

unfoldable pub store_item_delta : String → Event → Controller → Controller × Int64
store_item_delta trace_id event c =
    if is_empty event.item_id || no_bytes event.text || not (str_eq c.trace_id trace_id)
    then (c, 0)
    else (count (put_delta event c), (count c).last_sequence)
