-- ===== src/Tests/Sources.antt =====
-- internal/source/reader.go on samples.
use mac_agent.Base.{arith, ◌-◌, String, Bool, true, false, some, List, [], ◌∷◌, Bytes, codes}
use mac_agent.CodexItem.{join}
use mac_agent.Protocol.Commands.{SourceReadPayload}
use mac_agent.Protocol.Payloads.{SourceSnapshotPayload}
use mac_agent.Source.{Files, found, ok}
use mac_agent.Source.Lines.{clamp_focus, clamp_context, source_window, shrink}
use mac_agent.Source.Window.{IsWindow, IsShrunk, window_lem}
use mac_agent.Workspace.{Resolved}
use mac_agent.Workspace
use mac_agent.Tests.Turns.{app}

-- One file, of two lines.
abbrev one_file : Files
one_file = record {
  trim = λ text. text;
  lower = λ text. text;
  is_abs = λ path. false;
  clean = λ path. path;
  join = λ root path. codes "/app/a.go";
  rel = λ root path. some (codes "a.go");
  eval_symlinks = λ path. some path;
  stat = λ path. found (record { is_regular = true; size = 4; mod_time = 1 });
  read_file = λ path. some (codes "ab\nc\n");
  valid_utf8 = λ text. true;
  digest = λ text. "d";
}

abbrev request : SourceReadPayload
request = record { project_id = "app"; path = codes "a.go"; focus_line = 9; context_lines = 0 }

abbrev answer : SourceSnapshotPayload
answer = record {
  project_id = "app";
  path = codes "a.go";
  content = codes "ab\nc";
  start_line = 1;
  end_line = 2;
  total_lines = 2;
  focus_line = 2;
  truncated = false;
  sha256 = "d";
  modified_at = 1;
}

abbrev has_id : String → Bool
has_id id = false

abbrev known : String → Resolved
known id = Workspace.ok app

abbrev lines : List Bytes
lines = codes "ab" ∷ codes "c" ∷ []

window_lem_example :
    let line = clamp_focus 9 2 in
    let first = source_window lines line (clamp_context 0) in
    let window = shrink (first.1 - first.0) lines line first in
    IsWindow 2 line window × IsShrunk lines window
window_lem_example = window_lem lines 9 0 (omega arith) (omega arith) (omega arith) (omega arith)
