-- ===== src/CodexApp.antt =====
-- internal/codexapp/client.go: the data of the app server.
pub mod Connection
pub mod Replies
pub mod Pages
use mac_agent.Base.{
  no_bytes, codes, ◌++◌, String, Bool, Option, none, some, List, Bytes, Int64, is_empty,
  if◌then◌else◌,
}

pub record Notification : Type 0 where
  pub method : String
  pub params : Bytes

pub record Turn : Type 0 where
  pub id : String
  pub status : String
  pub started_at : Option Int64
  pub completed_at : Option Int64
  pub duration_ms : Option Int64
  pub items : List Bytes
  pub error : Option Bytes

pub record Thread : Type 0 where
  pub id : String
  pub name : Option Bytes
  pub cwd : Bytes
  pub preview : Bytes
  pub status : Bytes
  pub source : Bytes
  pub created_at : Int64
  pub updated_at : Int64
  pub turns : List Turn

pub record PermissionProfile : Type 0 where
  pub id : String
  pub description : Option Bytes
  pub allowed : Bool

-- A JSON text that decodes to a text other than the empty one.
abbrev pub named : Option String → Option String
named none = none
named (some name) = if is_empty name then none else some name

-- `type_of` is the field `type` of a JSON object, where the JSON is one.
unfoldable pub status_name : (type_of : Bytes → Option String) → Thread → String
status_name type_of t = elim (named (type_of t.status)) [ none ↦ "unknown" | some name ↦ name ]

-- `as_text` decodes a JSON text, `custom_of` the field `custom` of a JSON object.
unfoldable pub source_name : (as_text custom_of : Bytes → Option String) → Thread → String
source_name as_text custom_of t = elim (named (as_text t.source)) [
  | some name ↦ name
  | none ↦ elim (named (custom_of t.source)) [ none ↦ "unknown" | some name ↦ name ]
]

-- `Title`: `first_runes` is the text of the first 80 characters of a longer text.
unfoldable pub title : (first_runes : Bytes → Option Bytes) → Thread → Bytes
title first_runes t =
    let preview =
      if no_bytes t.preview then codes "Untitled session" else elim (first_runes t.preview) [
        | none ↦ t.preview
        | some shorter ↦ shorter ++ codes "..."
      ] in
    elim t.name [ none ↦ preview | some name ↦ if no_bytes name then preview else name ]
