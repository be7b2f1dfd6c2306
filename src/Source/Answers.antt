-- ===== src/Source/Answers.antt =====
-- What a request to read a source file may be answered with.
use mac_agent.Base.{◌≤◌, ◌≡◌, String, true, false, some, Bytes, length}
use mac_agent.Protocol.Commands.{SourceReadPayload}
use mac_agent.Protocol.Payloads.{SourceSnapshotPayload}
use mac_agent.Workspace.{Project, Resolved}
use mac_agent.Workspace
use mac_agent.Source.{ok, FileInfo, found, Files, roots_of, sensitive_path}
use mac_agent.Source.Paths.{IsBelowOne}
use mac_agent.Source.Lines.{max_response_bytes, split_lines, window_content}

module _ (files : Files) where
  abbrev pub IsExcerpt : Bytes → SourceSnapshotPayload → Type 0
  IsExcerpt raw s =
      (s.sha256 ≡ files.digest raw)
      × (s.total_lines ≡ length (split_lines raw))
      × (s.content ≡ window_content (split_lines raw) s.start_line s.end_line)

  abbrev IsFair : String → Bytes → SourceSnapshotPayload → Type 0
  IsFair project relative s =
      (s.project_id ≡ project) × (s.path ≡ relative) × (length s.content ≤ max_response_bytes)

  -- An answer shows lines of the file at a canonical path: the path is a file there, and of what is
  -- read from that path the answer has the hash, the number of lines and the lines from its first to
  -- its last one.
  abbrev pub IsRead : Bytes → SourceSnapshotPayload → Type 0
  IsRead path s =
      (info : FileInfo) × (raw : Bytes) × (files.stat path ≡ found info)
      × (info.is_regular ≡ true)
      × (files.read_file path ≡ some raw)
      × IsExcerpt raw s

  -- An answer holds a part of a file of the project that may be shown: for some canonical path below
  -- one of the project's roots, the answer's path is that path relative to the root, it is not a
  -- sensitive one, the answer's content has at most 32 KiB, and it shows lines of the file there.
  abbrev pub IsAnswer : (String → Resolved) → SourceReadPayload → SourceSnapshotPayload → Type 0
  IsAnswer resolve request s =
      (p : Project) × (path : Bytes) × (resolve request.project_id ≡ Workspace.ok p)
      × IsBelowOne files (roots_of p) (path, s.path)
      × (sensitive_path files s.path ≡ false)
      × (length s.content ≤ max_response_bytes)
      × IsRead path s
