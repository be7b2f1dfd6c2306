-- ===== src/Tests/Runs.antt =====
-- internal/runner/appserver.go and internal/codexitem/normalize.go on samples.
use mac_agent.Base.{
  ap, str_eq, All, ◌≡◌, refl, String, true, false, none, some, List, [], ◌∷◌, ◌++◌, Bytes, codes,
  map, arith, ◌≢◌,
}
use mac_agent.CodexApp.{Thread, PermissionProfile}
use mac_agent.CodexItem.{
  RawItem, Content, fill, copied, normalize_raw, clip_item, clip_changes, join,
}
use mac_agent.CodexItem.Fields.{normalize_raw-kept}
use mac_agent.Protocol.Types.{ThreadHistoryItem}
use mac_agent.Runner.{Request, turn_interrupted, event_item_delta}
use mac_agent.Runner.Accounts.{
  Continues, Leaves, IsCompleted, IsStopped, loop-Completes, loop-stops,
}
use mac_agent.Runner.Guards.{AllowsProfile, KnowsThread, run-guarded}
use mac_agent.Runner.Server.{
  ok, AppServerClient, AppServerEvent, event, done, completed, loop, run, turn_named, is_mine,
  emitted, summarized, turn_error, validate_permission_profile, check_profile, resolve_thread,
  has_thread,
}
use mac_agent.Turn.Items.{blank_item}
use mac_agent.Turn.Items
use mac_agent.Utf8.{truncate_utf8}

abbrev thread : Thread
thread = record {
  id = "thread";
  name = none;
  cwd = codes "/app";
  preview = [];
  status = [];
  source = [];
  created_at = 1;
  updated_at = 2;
  turns = [];
}

abbrev reader : PermissionProfile
reader = record { id = "reader"; description = none; allowed = true }

abbrev client : AppServerClient
client = record {
  list_threads = λ dir. ok (thread ∷ []);
  list_permission_profiles = λ dir. ok (reader ∷ []);
  start_thread = λ dir profile. ok thread;
  resume_thread = λ id dir profile. ok thread;
  start_turn = λ id dir prompt profile. ok (turn_named "turn");
}

abbrev request : Request
request = record {
  project_id = "app";
  thread_id = "thread";
  prompt = codes "Fix it";
  working_dir = codes "/app";
  permission_profile_id = "reader";
}

abbrev says : String → Bytes → AppServerEvent
says turn_id text = record {
  kind = event_item_delta;
  thread_id = "thread";
  turn = turn_named turn_id;
  stream = "assistant";
  text = text;
  item_id = "i";
  field = "text";
  item = blank_item "" "";
}

-- A word of the turn, one of another turn, and the end of the turn.
abbrev words : List AppServerEvent
words = says "turn" (codes "Hi") ∷ says "other" (codes "No") ∷ []

abbrev last : AppServerEvent
last = record (says "turn" []) {
  kind = "completed";
  turn = record (turn_named "turn") { status = "interrupted" };
}

abbrev same : Bytes → Bytes
same text = text

go_on : All (Continues "thread" "turn") words
go_on = (
  λ h. let no : false ≡ true = ap (λ k. str_eq k "completed") h.1 in ground (arith, no),
  (λ h. let no : false ≡ true = ap (λ k. str_eq k "completed") h.1 in ground (arith, no), tt),
)

loop-Completes_example :
    Leaves same 9 "thread" "turn"
      (IsCompleted "thread" "turn" same last.turn)
      words
      (loop same 9 "thread" "turn" [] (map event words ++ event last ∷ []))
loop-Completes_example =
    loop-Completes same 9 "thread" "turn" words last [] go_on ((refl, refl), refl)

loop-stops_example :
    Leaves same 9 "thread" "turn"
      (IsStopped "thread" "turn" same Items.canceled)
      words
      (loop same 9 "thread" "turn" [] (map event words ++ done Items.canceled ∷ []))
loop-stops_example = loop-stops same 9 "thread" "turn" words Items.canceled [] go_on

-- The summary of the sample is its own word, and its turn is interrupted.
summary :
    (run same 9 client request (map event words ++ event last ∷ [])).1
    ≡ some (record {
      result = record {
        thread_id = "thread";
        turn_id = "turn";
        duration = 9;
        summary = codes "Hi";
      };
      error = some turn_interrupted;
      interrupts = false;
    })
unfolding run loop is_mine emitted summarized turn_error completed validate_permission_profile
    check_profile resolve_thread has_thread
summary = refl

starts : (run same 9 client request []).0 ≢ []
unfolding run loop validate_permission_profile check_profile resolve_thread has_thread
starts h = ground (arith, h)

run-guarded_example : AllowsProfile client request × KnowsThread client request
run-guarded_example = run-guarded same 9 client request [] starts

abbrev source : RawItem
source = record {
  id = "i";
  type = "reasoning";
  text = [];
  phase = "";
  status = "";
  command = [];
  cwd = [];
  aggregated_output = codes "done";
  exit_code = none;
  duration_ms = none;
  tool = [];
  server = [];
  prompt = [];
  query = [];
  path = [];
  saved_path = [];
  result = [];
  review = [];
  summary = codes "one" ∷ [];
  content = codes "x";
  changes = [];
}

abbrev no_contents : Bytes → List Content
no_contents raw = []

abbrev one_text : Bytes → List Bytes
one_text raw = codes "two" ∷ []

unflagged : (normalize_raw no_contents one_text same source 100).truncated ≡ false
unfolding normalize_raw clip_item clip_changes fill join truncate_utf8
unflagged = refl

normalize_raw-kept_example : normalize_raw no_contents one_text same source 100 ≡ (
    let filled : ThreadHistoryItem = fill no_contents one_text same source (copied source) in
    record filled { changes = filled.changes ++ source.changes; truncated = false })
normalize_raw-kept_example = normalize_raw-kept no_contents one_text same source 100 unflagged
