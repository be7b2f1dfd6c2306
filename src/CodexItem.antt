-- ===== src/CodexItem.antt =====
-- internal/codexitem/normalize.go: the items of the app server as the items of the protocol. The
-- decoders of the field `content` and `filepath.Base` are parameters. A decoder that fails gives
-- what it has decoded.
pub mod Fields
use mac_agent.Base.{
  ℕ, String, Bool, true, false, Option, none, some, List, [], ◌∷◌, ◌++◌, Bytes, Int64, codes,
  bytes_eq, no_bytes, is_empty, str_eq, ◌==◌, ◌||◌, if◌then◌else◌, map,
}
use mac_agent.Protocol.Types.{ThreadFileChange, ThreadHistoryItem}
use mac_agent.Utf8.{truncate_utf8}

pub record RawItem : Type 0 where
  pub id : String
  pub type : String
  pub text : Bytes
  pub phase : String
  pub status : String
  pub command : Bytes
  pub cwd : Bytes
  pub aggregated_output : Bytes
  pub exit_code : Option Int64
  pub duration_ms : Option Int64
  pub tool : Bytes
  pub server : Bytes
  pub prompt : Bytes
  pub query : Bytes
  pub path : Bytes
  pub saved_path : Bytes
  pub result : Bytes
  pub review : Bytes
  pub summary : List Bytes
  pub content : Bytes
  pub changes : List ThreadFileChange

-- One part of a user message.
pub record Content : Type 0 where
  pub type : Bytes
  pub text : Bytes
  pub path : Bytes
  pub name : Bytes

-- `strings.Join`
unfoldable pub join : Bytes → List Bytes → Bytes
join separator [] = []
join separator (part ∷ []) = part
join separator (part ∷ next ∷ parts) = part ++ separator ++ join separator (next ∷ parts)

-- `strings.Trim(…, "/")`
unfoldable pub trim_left : Bytes → Bytes
trim_left [] = []
trim_left (b ∷ text) = let rest = trim_left text in if b == 47 then rest else b ∷ text

unfoldable pub trim_right : Bytes → Bytes
trim_right [] = []
trim_right (b ∷ text) =
    let rest = trim_right text in
    if b == 47 then (if no_bytes rest then [] else b ∷ rest) else b ∷ rest

-- The parts that the switch on `content.Type` adds.
unfoldable pub part : (base : Bytes → Bytes) → Content → List Bytes
part base c =
    if bytes_eq c.type (codes "text")
    then c.text ∷ []
    else if bytes_eq c.type (codes "localImage")
        || bytes_eq c.type (codes "localAudio")
        || bytes_eq c.type (codes "skill")
        || bytes_eq c.type (codes "mention")
    then (codes "["
        ++ c.type
        ++ codes ": "
        ++ (if no_bytes c.name then base c.path else c.name)
        ++ codes "]")
      ∷ []
    else if bytes_eq c.type (codes "image") || bytes_eq c.type (codes "audio")
    then (codes "[" ++ c.type ++ codes "]") ∷ []
    else []

unfoldable pub parts : (base : Bytes → Bytes) → List Content → List Bytes
parts base [] = []
parts base (c ∷ cs) = part base c ++ parts base cs

-- The item in front of the switch.
abbrev pub copied : RawItem → ThreadHistoryItem
copied source = record {
  id = source.id;
  type = source.type;
  role = "";
  phase = source.phase;
  status = source.status;
  text = [];
  name = [];
  command = source.command;
  cwd = source.cwd;
  output = source.aggregated_output;
  path = source.path;
  query = source.query;
  exit_code = source.exit_code;
  duration_ms = source.duration_ms;
  changes = [];
  truncated = false;
}

-- A field that is cut, and whether it or an earlier one was.
abbrev pub clip : Int64 → Bytes → Bool → Bytes × Bool
clip limit value truncated =
    let (text, clipped) = truncate_utf8 value limit in (text, truncated || clipped)

unfoldable pub clip_changes : Int64 → List ThreadFileChange → Bool → List ThreadFileChange × Bool
clip_changes limit [] truncated = ([], truncated)
clip_changes limit (change ∷ changes) truncated =
    let (path, path_clipped) = clip limit change.path truncated in
    let (diff, diff_clipped) = clip limit change.diff path_clipped in
    let (rest, clipped) = clip_changes limit changes diff_clipped in
    (record { path = path; kind = change.kind; diff = diff } ∷ rest, clipped)

-- The fields are cut in the order of the code.
unfoldable pub clip_item : Int64 → ThreadHistoryItem → ThreadHistoryItem
clip_item limit item =
    let (text, t0) = truncate_utf8 item.text limit in
    let (name, t1) = clip limit item.name t0 in
    let (command, t2) = clip limit item.command t1 in
    let (cwd, t3) = clip limit item.cwd t2 in
    let (output, t4) = clip limit item.output t3 in
    let (path, t5) = clip limit item.path t4 in
    let (query, t6) = clip limit item.query t5 in
    let (changes, truncated) = clip_changes limit item.changes t6 in
    record item {
      text = text;
      name = name;
      command = command;
      cwd = cwd;
      output = output;
      path = path;
      query = query;
      changes = changes;
      truncated = truncated;
    }

module _ (contents_of : Bytes → List Content) (texts_of : Bytes → List Bytes)
    (base : Bytes → Bytes) where
  -- The switch on the type.
  unfoldable pub fill : RawItem → ThreadHistoryItem → ThreadHistoryItem
  fill source item =
      if str_eq source.type "userMessage"
      then record item {
        role = "user";
        text = join (codes "\n") (parts base (contents_of source.content));
      }
      else if str_eq source.type "agentMessage" || str_eq source.type "plan"
      then record item { role = "assistant"; text = source.text }
      else if str_eq source.type "reasoning"
      then record item {
        role = "assistant";
        text = join (codes "\n") (source.summary ++ texts_of source.content);
      }
      else if str_eq source.type "mcpToolCall"
      then record item { name = trim_right (trim_left (source.server ++ codes "/" ++ source.tool)) }
      else if str_eq source.type "dynamicToolCall" || str_eq source.type "collabAgentToolCall"
      then record item { name = source.tool; text = source.prompt }
      else if str_eq source.type "imageView"
      then record item { path = source.path }
      else if str_eq source.type "imageGeneration"
      then record item { path = source.saved_path; text = source.result }
      else if str_eq source.type "enteredReviewMode" || str_eq source.type "exitedReviewMode"
      then record item { text = source.review }
      else item

  unfoldable pub normalize_raw : RawItem → Int64 → ThreadHistoryItem
  normalize_raw source limit =
      let filled : ThreadHistoryItem = fill source (copied source) in
      clip_item limit (record filled { changes = filled.changes ++ source.changes })

  -- `decode` is `json.Unmarshal` of an item.
  unfoldable pub normalize :
      (decode : Bytes → Option RawItem) → Bytes → Int64 → Option ThreadHistoryItem
  normalize decode raw limit = elim (decode raw) [
    | none ↦ none
    | some source ↦
        if is_empty source.id || is_empty source.type
        then none
        else some (normalize_raw source limit)
  ]
