-- ===== src/CodexApp/Pages.antt =====
-- internal/codexapp/client.go: the requests of the methods of `Client`, and the lists that come in
-- pages. `fetch` is what the app server answers to the request of a page, by its number and cursor.
use mac_agent.Base.{
  ℕ, zero, suc, String, Bool, true, false, Option, none, some, List, [], ◌++◌, Int64, is_empty,
  lt64, if◌then◌else◌,
}

pub record Page {ℓ} (A : Type ℓ) : Type ℓ where
  pub items : List A
  pub next_cursor : Option String

abbrev pub has_next : Option String → Bool
has_next none = false
has_next (some cursor) = if is_empty cursor then false else true

module _ {ℓ} {A : Type ℓ} (fetch : ℕ → Option String → Option (Page A)) where
  abbrev pub put_page : List A → Option (List A) → Option (List A)
  put_page items none = none
  put_page items (some rest) = some (items ++ rest)

  -- The loops of `ListThreads` and `ListPermissionProfiles`, with the pages left.
  unfoldable pub list_pages : ℕ → ℕ → Option String → Option (List A)
  list_pages zero page cursor = some []
  list_pages (suc left) page cursor = elim (fetch page cursor) [
    | none ↦ none
    | some response ↦
        let rest = list_pages left (suc page) response.next_cursor in
        if has_next response.next_cursor then put_page response.items rest else some response.items
  ]

  -- `ListThreads` and `ListPermissionProfiles`.
  abbrev pub list_all : Option (List A)
  list_all = list_pages 100 0 none

-- The parameters that say what a turn may do.
pub record ExecutionParams : Type 0 where
  pub sandbox : Option String
  pub approval_policy : Option String
  pub permissions : Option String

abbrev pub remote_sandbox_mode : String
remote_sandbox_mode = "workspace-write"

abbrev pub remote_approval_policy : String
remote_approval_policy = "never"

-- `threadExecutionParams`
abbrev pub thread_execution_params : String → ExecutionParams
thread_execution_params profile_id =
    if is_empty profile_id
    then record {
      sandbox = some remote_sandbox_mode;
      approval_policy = some remote_approval_policy;
      permissions = none;
    }
    else record { sandbox = none; approval_policy = none; permissions = some profile_id }

-- The same of `StartTurn`, which names no sandbox.
abbrev pub turn_execution_params : String → ExecutionParams
turn_execution_params profile_id =
    if is_empty profile_id
    then record {
      sandbox = none;
      approval_policy = some remote_approval_policy;
      permissions = none;
    }
    else record { sandbox = none; approval_policy = none; permissions = some profile_id }

-- The limit of `ListLatestTurns`.
abbrev pub turns_limit : Int64 → Int64
turns_limit limit = if lt64 limit 1 then 1 else limit
