-- ===== src/CodexApp/Replies.antt =====
-- What every call of the app server gets.
use mathlib.Core.Path.{subst}
use mac_agent.Base.{
  by_test, ◌≡◌, refl, ap, ◌⊎◌, inl, inr, ℕ, suc, ◌≤◌, Bool, true, false, Option, none, some, List,
  [], ◌∷◌, All, is_some, ◌==◌, if◌then◌else◌, arith,
}
use mac_agent.CodexApp.Connection.{
  Response, CallError, Call, Connection, connected, has, remove, remove_call, give_one, give, begin,
  receive, give_up, finish, leave,
}

pub data Step : Connection → Connection → Type 0 where
  begins : (c : Connection) → Step c (begin c)
  receives : (r : Response) (c : Connection) → Step c (receive r c)
  gives_up : (id : ℕ) (c : Connection) → Step c (give_up id c)
  finishes : (e : CallError) (c : Connection) → Step c (finish e c)
  leaves : (id : ℕ) (c : Connection) → Step c (leave id c)

pub data IsReached : Connection → Type 0 where
  initial : IsReached connected
  step : (c d : Connection) → IsReached c → Step c d → IsReached d

-- A call waits for a response that can still come, or for none because the connection has ended.
abbrev Waits : Bool → List ℕ → ℕ → Type 0
Waits ended pending id = (ended ≡ true) ⊎ (has id pending ≡ true)

-- A call in flight waits, or holds the response of its own id, and then gets no other.
abbrev IsServed : ℕ → Bool → List ℕ → ℕ → Option Response → Type 0
IsServed next ended pending id none = (id ≤ next) × Waits ended pending id
IsServed next ended pending id (some r) = (id ≤ next) × (r.id ≡ id) × (has id pending ≡ false)

abbrev AllServed : ℕ → Bool → List ℕ → List Call → Type 0
AllServed next ended pending calls =
    All (λ call. IsServed next ended pending call.id call.inbox) calls

abbrev pub IsSound : Connection → Type 0
IsSound c =
    AllServed c.next_id (is_some c.read_err) c.pending c.calls
    × (is_some c.read_err ≡ true → c.pending ≡ [])

has-remove :
    (id n : ℕ) (ids : List ℕ) → has id (remove n ids) ≡ (if n == id then false else has id ids)
unfolding has remove
has-remove id n [] = ground arith
has-remove id n (m ∷ ids) = ground (arith, has-remove id n ids)

IsServed-begin :
    (next : ℕ) (pending : List ℕ) (id : ℕ) (inbox : Option Response)
    → IsServed next false pending id inbox
    → IsServed (suc next) false (suc next ∷ pending) id inbox
unfolding has
IsServed-begin next pending id none (le, inl ended) = absurd (ground (arith, ended))
IsServed-begin next pending id none (le, inr waits) = (omega arith, inr (ground (arith, waits)))
IsServed-begin next pending id (some r) (le, same, gone) =
    (omega arith, same, ground (arith, le, gone))

IsServed-later :
    (next : ℕ) (ended : Bool) (pending : List ℕ) (id : ℕ) (inbox : Option Response)
    → IsServed next ended pending id inbox
    → IsServed (suc next) ended pending id inbox
IsServed-later next ended pending id none (le, waits) = (omega arith, waits)
IsServed-later next ended pending id (some r) (le, same, gone) = (omega arith, same, gone)

IsServed-le :
    (next : ℕ) (ended : Bool) (pending : List ℕ) (id : ℕ) (inbox : Option Response)
    → IsServed next ended pending id inbox
    → id ≤ next
IsServed-le next ended pending id none (le, waits) = le
IsServed-le next ended pending id (some r) (le, same, gone) = le

-- The end of the connection ends every wait.
IsServed-finish :
    (next : ℕ) (ended : Bool) (pending : List ℕ) (id : ℕ) (inbox : Option Response)
    → IsServed next ended pending id inbox
    → IsServed next true [] id inbox
unfolding has
IsServed-finish next ended pending id none (le, waits) = (le, inl refl)
IsServed-finish next ended pending id (some r) (le, same, gone) = (le, same, refl)

-- Another call is not pending any more.
IsServed-remove :
    (next : ℕ) (ended : Bool) (pending : List ℕ) (n id : ℕ) (inbox : Option Response)
    → (id == n) ≡ false
    → IsServed next ended pending id inbox
    → IsServed next ended (remove n pending) id inbox
IsServed-remove next ended pending n id none other (le, inl over) = (le, inl over)
IsServed-remove next ended pending n id none other (le, inr waits) =
    (le, inr (ground (arith, has-remove id n pending, other, waits)))
IsServed-remove next ended pending n id (some r) other (le, same, gone) =
    (le, same, ground (arith, has-remove id n pending, gone))

IsServed-give :
    (next : ℕ) (ended : Bool) (pending : List ℕ) (r : Response) (call : Call)
    → IsServed next ended pending call.id call.inbox
    → IsServed next ended (remove r.id pending) (give_one r call).id (give_one r call).inbox
IsServed-give next ended pending r call served =
    by_test (λ (k : Call). IsServed next ended (remove r.id pending) k.id k.inbox) (call.id == r.id)
      (record call { inbox = some r }) call
      (λ t. (
        IsServed-le next ended pending call.id call.inbox served,
        ground (arith, t),
        ground (arith, has-remove call.id r.id pending, t),
      ))
      (λ other. IsServed-remove next ended pending r.id call.id call.inbox other served)

All-step :
    (P Q : Call → Type 0)
    → ((call : Call) → P call → Q call)
    → (calls : List Call) → All P calls
    → All Q calls
All-step P Q h [] all = tt
All-step P Q h (call ∷ calls) (p, all) = (h call p, All-step P Q h calls all)

All-give :
    (next : ℕ) (ended : Bool) (pending : List ℕ) (r : Response) (calls : List Call)
    → AllServed next ended pending calls
    → AllServed next ended (remove r.id pending) (give r calls)
unfolding give
All-give next ended pending r [] all = tt
All-give next ended pending r (call ∷ calls) (p, all) =
    (IsServed-give next ended pending r call p, All-give next ended pending r calls all)

-- What is left when the calls of an id are gone.
All-remove_call :
    (P Q : Call → Type 0) (id : ℕ) (calls : List Call)
    → ((call : Call) → (call.id == id) ≡ false → P call → Q call)
    → All P calls
    → All Q (remove_call id calls)
unfolding remove_call
All-remove_call P Q id [] h all = tt
All-remove_call P Q id (call ∷ calls) h (p, all) =
    by_test (All Q) (call.id == id) _ _ (λ t. All-remove_call P Q id calls h all)
      (λ other. (h call other p, All-remove_call P Q id calls h all))

Step-IsSound : (c d : Connection) → Step c d → IsSound c → IsSound d
unfolding begin receive give_up finish remove has
Step-IsSound c d (begins c') (all, over) =
    by_test IsSound (is_some c.read_err) _ _
      (λ t. (
        All-step _ _
            (λ call. IsServed-later c.next_id (is_some c.read_err) c.pending call.id call.inbox)
            c.calls all,
        over,
      ))
      (λ f. (
        (
          (omega arith, inr (ground arith)),
          All-step _ _ (λ call. IsServed-begin c.next_id c.pending call.id call.inbox) c.calls
              (subst (λ b. AllServed c.next_id b c.pending c.calls) f all),
        ),
        λ h. absurd (ground (arith, h)),
      ))
Step-IsSound c d (receives r c') (all, over) =
    by_test IsSound (has r.id c.pending) _ _
      (λ t. (
        All-give c.next_id (is_some c.read_err) c.pending r c.calls all,
        λ e. ap (remove r.id) (over e),
      ))
      (λ f. (all, over))
Step-IsSound c d (gives_up id c') (all, over) = (
  All-remove_call _ _ id c.calls
      (λ call other.
        IsServed-remove c.next_id (is_some c.read_err) c.pending id call.id call.inbox other)
      all,
  λ e. ap (remove id) (over e),
)
Step-IsSound c d (finishes e c') (all, over) =
    by_test IsSound (is_some c.read_err) _ _ (λ t. (all, over))
      (λ f. (
        All-step _ _
            (λ call. IsServed-finish c.next_id (is_some c.read_err) c.pending call.id call.inbox)
            c.calls all,
        λ h. refl,
      ))
Step-IsSound c d (leaves id c') (all, over) =
    (All-remove_call _ _ id c.calls (λ call other p. p) all, over)

-- After any interleaving of calls, responses, failed writes, ended contexts, returns and the end of
-- the connection: each call in flight holds the response of its own id, and then no other can come,
-- or it waits, and then its id is pending or the connection has ended, with which its wait ends; and
-- nothing is pending when the connection has ended.
pub reached-IsSound : (c : Connection) → IsReached c → IsSound c
reached-IsSound c initial = (tt, λ h. refl)
reached-IsSound d (step c d' before taken) = Step-IsSound c d taken (reached-IsSound c before)
