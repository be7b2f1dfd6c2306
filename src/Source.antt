-- ===== src/Source.antt =====
-- internal/source/reader.go: the reading of a part of a source file.
--
-- The file system, `filepath`, `strings.TrimSpace`, `strings.ToLower`, `utf8.Valid` and the digest
-- are parameters. The separator of paths is "/", so `ToSlash` and `FromSlash` change nothing.
pub mod Lines
pub mod Window
pub mod Paths
pub mod Answers
use mac_agent.Base.{
  ℕ, ◌-◌, String, Bool, true, false, Option, none, some, List, [], ◌∷◌, ◌++◌, Bytes, Int64, lt64,
  length, codes, no_bytes, bytes_eq, ltb, ◌==◌, ◌&&◌, ◌||◌, not, is_some, take, drop, if◌then◌else◌,
}
use mac_agent.Protocol.Types.{Time}
use mac_agent.Protocol.Commands.{SourceReadPayload}
use mac_agent.Protocol.Payloads.{SourceSnapshotPayload}
use mac_agent.Workspace.{Project, Resolved}
use mac_agent.Workspace
use Lines.{
  max_source_bytes, max_response_bytes, split, split_lines, window_content, clamp_focus,
  clamp_context, source_window, shrink,
}

pub record ReadError : Type 0 where
  pub code : String
  pub message : String

pub data Answer {ℓ} (A : Type ℓ) : Type ℓ where
  ok : A → Answer A
  err : ReadError → Answer A

abbrev pub read_error : String → String → ReadError
read_error code message = record { code = code; message = message }

-- `os.Stat`: the information, `fs.ErrNotExist` or another error.
pub record FileInfo : Type 0 where
  pub is_regular : Bool
  pub size : Int64
  pub mod_time : Time

pub data Stat : Type 0 where
  found : FileInfo → Stat
  missing failed : Stat

-- The functions on paths and the file system.
pub record Files : Type 0 where
  pub trim : Bytes → Bytes
  pub lower : Bytes → Bytes
  pub is_abs : Bytes → Bool
  pub clean : Bytes → Bytes
  pub join : Bytes → Bytes → Bytes
  pub rel : Bytes → Bytes → Option Bytes
  pub eval_symlinks : Bytes → Option Bytes
  pub stat : Bytes → Stat
  pub read_file : Bytes → Option Bytes
  pub valid_utf8 : Bytes → Bool
  pub digest : Bytes → String

unfoldable pub has_prefix : Bytes → Bytes → Bool
has_prefix [] text = true
has_prefix (p ∷ prefix) [] = false
has_prefix (p ∷ prefix) (b ∷ text) = p == b && has_prefix prefix text

unfoldable pub has_suffix : Bytes → Bytes → Bool
has_suffix suffix text = bytes_eq (drop (length text - length suffix) text) suffix

unfoldable pub has_byte : ℕ → Bytes → Bool
has_byte b [] = false
has_byte b (c ∷ text) = c == b || has_byte b text

-- The names that may not be shown.
unfoldable pub any_of : (Bytes → Bool) → List Bytes → Bool
any_of test [] = false
any_of test (x ∷ xs) = test x || any_of test xs

abbrev pub is_secret_directory : Bytes → Bool
is_secret_directory part =
    any_of (bytes_eq part) (codes ".git" ∷ codes ".ssh" ∷ codes ".aws" ∷ codes ".gnupg" ∷ [])

abbrev pub is_secret_file : Bytes → Bool
is_secret_file base =
    any_of (bytes_eq base) (
      codes ".env"
      ∷ codes ".npmrc"
      ∷ codes ".pypirc"
      ∷ codes "credentials"
      ∷ codes "credentials.json"
      ∷ codes "id_rsa"
      ∷ codes "id_ed25519"
      ∷ [])
    || has_prefix (codes ".env.") base
    || any_of (λ suffix. has_suffix suffix base)
        (codes ".pem" ∷ codes ".key" ∷ codes ".p12" ∷ codes ".pfx" ∷ codes ".mobileprovision" ∷ [])

unfoldable pub last_part : List Bytes → Bytes
last_part [] = []
last_part (part ∷ []) = part
last_part (part ∷ next ∷ parts) = last_part (next ∷ parts)

-- `project.RootPaths`, or the path of a project without them.
abbrev pub roots_of : Project → List Bytes
roots_of p = elim p.root_paths [
  | [] ↦ if no_bytes p.path then [] else p.path ∷ []
  | root ∷ roots ↦ root ∷ roots
]

module _ (files : Files) where
  unfoldable pub sensitive_path : Bytes → Bool
  sensitive_path path =
      let parts = split 47 (files.lower path) in
      any_of is_secret_directory parts || is_secret_file (last_part parts)

  -- A path that leads out of where it starts.
  abbrev pub leaves : Bytes → Bool
  leaves relative = bytes_eq relative (codes "..") || has_prefix (codes "../") relative

  abbrev pub stays : Option Bytes → Bool
  stays none = false
  stays (some relative) = not (leaves relative)

  unfoldable pub path_within : Bytes → Bytes → Bool
  path_within root path = stays (files.rel (files.clean root) (files.clean path))

  -- The canonical path and the one relative to the root.
  unfoldable pub resolve_within_root : Bytes → Bytes → Option (Bytes × Bytes)
  resolve_within_root root candidate = elim (files.eval_symlinks root) [
    | none ↦ none
    | some canonical_root ↦ elim (files.eval_symlinks candidate) [
      | none ↦ none
      | some canonical ↦
          if not (path_within canonical_root canonical)
          then none
          else elim (files.rel canonical_root canonical) [
            | none ↦ none
            | some relative ↦
                if bytes_eq relative (codes ".") then none else some (canonical, relative)
          ]
    ]
  ]

  -- The first root that has the candidate.
  unfoldable pub first_within : (Bytes → Bytes) → List Bytes → Option (Bytes × Bytes)
  first_within candidate [] = none
  first_within candidate (root ∷ roots) =
      let rest = first_within candidate roots in
      elim (resolve_within_root root (candidate root)) [ none ↦ rest | some located ↦ some located ]

  abbrev pub or_error : String → String → Option (Bytes × Bytes) → Answer (Bytes × Bytes)
  or_error code message none = err (read_error code message)
  or_error code message (some located) = ok located

  unfoldable pub resolve_project_file : Project → Bytes → Answer (Bytes × Bytes)
  resolve_project_file p path =
      let requested = files.trim path in
      let clean = files.clean requested in
      if files.is_abs requested
      then or_error "SOURCE_FORBIDDEN" "The source path is outside the selected project."
          (first_within (λ root. requested) (roots_of p))
      else if bytes_eq clean (codes ".") || leaves clean
      then err (read_error "SOURCE_FORBIDDEN" "The source path is outside the selected project.")
      else or_error "SOURCE_NOT_FOUND" "The referenced file no longer exists."
          (first_within (λ root. files.join root clean) (roots_of p))

  -- The part of `Read` behind the reading of the file.
  unfoldable pub excerpt :
      SourceReadPayload → Bytes → FileInfo → Bytes → Answer SourceSnapshotPayload
  excerpt request relative info raw =
      let lines = split_lines raw in
      let focus = clamp_focus request.focus_line (length lines) in
      let first = source_window lines focus (clamp_context request.context_lines) in
      let window = shrink (first.1 - first.0) lines focus first in
      let content = window_content lines window.0 window.1 in
      if ltb max_response_bytes (length content)
      then err (read_error "SOURCE_TOO_LARGE" "The selected source line is too large to preview.")
      else ok (record {
        project_id = request.project_id;
        path = relative;
        content = content;
        start_line = window.0;
        end_line = window.1;
        total_lines = length lines;
        focus_line = focus;
        truncated = lt64 1 window.0 || lt64 window.1 (length lines);
        sha256 = files.digest raw;
        modified_at = info.mod_time;
      })

  unfoldable pub read_found :
      SourceReadPayload → Bytes → Bytes → FileInfo → Answer SourceSnapshotPayload
  read_found request path relative info =
      if not info.is_regular
      then err (read_error "SOURCE_INVALID" "The reference is not a readable regular file.")
      else if lt64 max_source_bytes info.size
      then err (read_error "SOURCE_TOO_LARGE" "The source file is too large to preview.")
      else elim (files.read_file path) [
        | none ↦ err (read_error "SOURCE_READ_FAILED" "The source file could not be read.")
        | some raw ↦
            if has_byte 0 raw || not (files.valid_utf8 raw)
            then err
                (read_error "SOURCE_BINARY" "Binary files cannot be shown in the source viewer.")
            else excerpt request relative info raw
      ]

  unfoldable pub read_resolved : SourceReadPayload → Bytes × Bytes → Answer SourceSnapshotPayload
  read_resolved request (path, relative) =
      if sensitive_path relative
      then err (read_error "SOURCE_FORBIDDEN" "This file is not available in the source viewer.")
      else elim (files.stat path) [
        | missing ↦ err (read_error "SOURCE_NOT_FOUND" "The referenced file no longer exists.")
        | failed ↦ err (read_error "SOURCE_INVALID" "The reference is not a readable regular file.")
        | found info ↦ read_found request path relative info
      ]

  -- `blank_id` is whether `strings.TrimSpace` of the project's id is empty.
  unfoldable pub read :
      (blank_id : String → Bool)
      → (resolve : String → Resolved) → SourceReadPayload
      → Answer SourceSnapshotPayload
  read blank_id resolve request =
      if blank_id request.project_id
        || no_bytes (files.trim request.path)
        || has_byte 0 request.path
      then err (read_error "SOURCE_INVALID" "A project and source path are required.")
      else elim (resolve request.project_id) [
        | Workspace.err e ↦
            err (read_error "PROJECT_NOT_FOUND" "The selected project is unavailable.")
        | Workspace.ok project ↦ elim (resolve_project_file project request.path) [
          | err e ↦ err e
          | ok located ↦ read_resolved request located
        ]
      ]
