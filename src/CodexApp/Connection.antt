-- ===== src/CodexApp/Connection.antt =====
-- internal/codexapp/client.go: the calls of the app server that wait for their responses.
--
-- `nextID` counts calls, of which there are never 2 ^ 63. A call in flight holds what its channel of
-- one place holds; a method, or its locked part, is one step.
use mac_agent.Base.{
  ℕ, suc, Bool, false, Option, none, some, List, [], ◌∷◌, Bytes, is_some, no_bytes, ◌==◌, ◌||◌,
  if◌then◌else◌,
}

-- An `rpcMessage` that answers a call.
pub record Response : Type 0 where
  pub id : ℕ
  pub error : Option Bytes
  pub result : Bytes

-- Why the connection has ended, or what `Call` returns otherwise.
pub data CallError : Type 0 where
  closed undecodable stopped write_failed canceled : CallError
  refused : Bytes → CallError

pub record Call : Type 0 where
  pub id : ℕ
  pub inbox : Option Response

pub record Connection : Type 0 where
  pub next_id : ℕ
  pub pending : List ℕ
  pub read_err : Option CallError
  pub calls : List Call

abbrev pub connected : Connection
connected = record { next_id = 0; pending = []; read_err = none; calls = [] }

unfoldable pub has : ℕ → List ℕ → Bool
has id [] = false
has id (n ∷ ids) = n == id || has id ids

-- `delete(c.pending, id)`
unfoldable pub remove : ℕ → List ℕ → List ℕ
remove id [] = []
remove id (n ∷ ids) = let rest = remove id ids in if n == id then rest else n ∷ rest

unfoldable pub remove_call : ℕ → List Call → List Call
remove_call id [] = []
remove_call id (call ∷ calls) =
    let rest = remove_call id calls in if call.id == id then rest else call ∷ rest

-- `channel <- message`
abbrev pub give_one : Response → Call → Call
give_one r call = if call.id == r.id then record call { inbox = some r } else call

unfoldable pub give : Response → List Call → List Call
give r [] = []
give r (call ∷ calls) = give_one r call ∷ give r calls

-- The count and the first locked part of `Call`, as one step.
unfoldable pub begin : Connection → Connection
begin c =
    let id = suc c.next_id in
    if is_some c.read_err then record c { next_id = id } else record {
      next_id = id;
      pending = id ∷ c.pending;
      read_err = none;
      calls = record { id = id; inbox = none } ∷ c.calls;
    }

-- A response that the read loop reads.
unfoldable pub receive : Response → Connection → Connection
receive r c =
    if has r.id c.pending
    then record c { pending = remove r.id c.pending; calls = give r c.calls }
    else c

-- `removePending`, and the return of its call: its write failed, or its context ended.
unfoldable pub give_up : ℕ → Connection → Connection
give_up id c = record c { pending = remove id c.pending; calls = remove_call id c.calls }

-- `finish`: only the first counts.
unfoldable pub finish : CallError → Connection → Connection
finish e c = if is_some c.read_err then c else record c { read_err = some e; pending = [] }

-- What `Call` returns of a response, where it decodes what it was given.
unfoldable pub answer : (Bytes → Bool) → Response → Option CallError
answer decodes r = elim r.error [
  | some e ↦ some (refused e)
  | none ↦ if no_bytes r.result || decodes r.result then none else some undecodable
]

-- The return of a call that has its response, or whose connection has ended.
abbrev pub leave : ℕ → Connection → Connection
leave id c = record c { calls = remove_call id c.calls }
