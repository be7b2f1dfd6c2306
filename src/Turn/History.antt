-- ===== src/Turn/History.antt =====
-- internal/turn/controller.go: every interleaving of the calls of a controller with the goroutines
-- that its starts leave running.
use mathlib.Core.Path.{subst}
use mac_agent.Base.{
  if_both, ◌≡◌, refl, sym, ap, ◌∙◌, ◌≢◌, ◌⊎◌, inl, inr, String, Bool, true, false, Option, none,
  List, [], ◌∷◌, ◌++◌, Bytes, Int64, is_empty, is_some, str_eq, eq_iff, Bool-cases, Option-cases,
  arith,
}
use mac_agent.Protocol.Types.{Sender, Message}
use mac_agent.Protocol.Payloads.{Payload}
use mac_agent.Protocol.Messages.{Stamp}
use mac_agent.Runner.{Event, Result, RunError}
use mac_agent.Turn.{
  expire, Collected, Execution, Started, ok, err, refused, claim, cancel_context, interrupt, close,
  finish, handle_event, conclude, new_controller,
}
use mac_agent.Turn.Items.{ContextError, Controller}
use mac_agent.Turn.Kept.{handle_event-Keeps}
use mac_agent.Turn.Indexed.{IsIndexed, IsIndex, IsIndex-nil}

-- The controller, and the executions that have been started and have not concluded.
pub record System : Type 0 where
  pub controller : Controller
  pub executing : List Execution

-- A successful start leaves a goroutine running.
abbrev pub launch : Started → List Execution → List Execution
launch (ok e) executing = executing ++ e ∷ []
launch (err e) executing = executing

module _ (marshal : Payload → Option Bytes) (sender : Sender) (error_text : RunError → Bytes)
    (collect : Bytes → Collected) where
  pub data Step : System → System → Type 0 where
    claims :
        (c : Controller) (executing : List Execution) (e : Execution)
        → refused e.trace_id e.payload ≡ none
        → Step
            (record { controller = c; executing = executing })
            (record { controller = (claim e c).0; executing = launch (claim e c).1 executing })
    interrupts :
        (c : Controller) (executing : List Execution) (thread_id turn_id : String)
        → Step
            (record { controller = c; executing = executing })
            (record { controller = (interrupt thread_id turn_id c).0; executing = executing })
    closes :
        (c : Controller) (executing : List Execution)
        → Step
            (record { controller = c; executing = executing })
            (record { controller = close c; executing = executing })
    expires :
        (c : Controller) (executing : List Execution)
        → Step
            (record { controller = c; executing = executing })
            (record { controller = expire c; executing = executing })
    handles :
        (c : Controller) (before after : List Execution) (e : Execution) (stamp : Stamp)
        (event : Event)
        → Step
            (record { controller = c; executing = before ++ e ∷ after })
            (record {
              controller = (handle_event marshal sender stamp e event c).0;
              executing = before ++ e ∷ after;
            })
    concludes :
        (c : Controller) (before after : List Execution) (e : Execution) (s t : Stamp)
        (elapsed : Int64) (ended : Option ContextError) (result : Result) (error : Option RunError)
        → Step
            (record { controller = c; executing = before ++ e ∷ after })
            (record {
              controller =
                  (conclude marshal sender error_text collect s t e elapsed ended result error c).0;
              executing = before ++ after;
            })

  -- What any sequence of steps reaches from a new controller.
  pub data IsReached (log_lines : Int64) : System → Type 0 where
    initial : IsReached log_lines (record { controller = new_controller log_lines; executing = [] })
    step : (s t : System) → IsReached log_lines s → Step s t → IsReached log_lines t

abbrev IsIdle : System → Type 0
IsIdle s =
    (s.controller.trace_id ≡ "")
    × (s.executing ≡ [])
    × (s.controller.live_items ≡ [])
    × (is_some s.controller.cancel ≡ false)

abbrev IsRunning : System → Type 0
IsRunning s =
    (e : Execution) × (s.executing ≡ e ∷ [])
    × (s.controller.trace_id ≡ e.trace_id)
    × (is_empty e.trace_id ≡ false)
    × (is_some s.controller.cancel ≡ true)

-- The index is right, and either nothing runs and nothing is left of a turn, or exactly one execution
-- runs, that of the controller's trace, and it can be cancelled.
abbrev pub IsSound : System → Type 0
IsSound s = IsIndexed s.controller × (IsIdle s ⊎ IsRunning s)

end-not_nil : (before after : List Execution) (e : Execution) → before ++ e ∷ after ≢ []
end-not_nil [] after e h = ground arith
end-not_nil (x ∷ before) after e h = ground arith

cons-injective : (x y : Execution) (xs ys : List Execution) → x ∷ xs ≡ y ∷ ys → (x ≡ y) × (xs ≡ ys)
cons-injective x y xs ys h =
    (ap (λ l. elim l [ [] ↦ x | z ∷ zs ↦ z ]) h, ap (λ l. elim l [ [] ↦ xs | z ∷ zs ↦ zs ]) h)

-- The execution of a list of one.
alone :
    (before after : List Execution) (e f : Execution)
    → before ++ e ∷ after ≡ f ∷ []
    → (e ≡ f) × (before ++ after ≡ [])
alone [] after e f h = cons-injective e f after [] h
alone (x ∷ before) after e f h =
    absurd (end-not_nil before after e (cons-injective x f (before ++ e ∷ after) [] h).1)

-- What changes neither the trace, the items nor whether there is a context keeps soundness.
Steady : Controller → Controller → Type 0
Steady c c' =
    (c'.trace_id ≡ c.trace_id)
    × (c'.live_items ≡ c.live_items)
    × (c'.live_item_index ≡ c.live_item_index)
    × (is_some c'.cancel ≡ is_some c.cancel)

Steady-IsSound :
    (c c' : Controller) (executing : List Execution)
    → Steady c c'
    → IsSound (record { controller = c; executing = executing })
    → IsSound (record { controller = c'; executing = executing })
unfolding Steady
Steady-IsSound c c' executing (trace, items, index, context) (indexed, state) = (
  subst (λ x. IsIndex x c'.live_items) (sym index)
      (subst (λ x. IsIndex c.live_item_index x) (sym items) indexed),
  elim state [
    | inl (t, ex, i, k) ↦ inl (trace ∙ t, ex, items ∙ i, context ∙ k)
    | inr (e, ex, t, ne, k) ↦ inr (e, ex, trace ∙ t, ne, context ∙ k)
  ],
)

cancel_context-Steady : (c : Controller) → Steady c (cancel_context c)
unfolding Steady cancel_context
cancel_context-Steady c = elim (Option-cases c.cancel) [
  | inl e ↦ rw (e, cancel_context) (refl, refl, refl, ap is_some e)
  | inr (ended, e) ↦ rw (e, cancel_context) (refl, refl, refl, refl)
]

expire-Steady : (c : Controller) → Steady c (expire c)
unfolding Steady expire
expire-Steady c = elim (Option-cases c.cancel) [
  | inl e ↦ rw (e, expire) (refl, refl, refl, ap is_some e)
  | inr (ended, e) ↦ rw (e, expire) (refl, refl, refl, refl)
]

interrupt-Steady :
    (thread_id turn_id : String) (c : Controller) → Steady c (interrupt thread_id turn_id c).0
unfolding Steady interrupt
interrupt-Steady thread_id turn_id c =
    if_both {A = Controller × Bool} (λ r. Steady c r.0) _ (c, false) (cancel_context c, true)
      (refl, refl, refl, refl) (cancel_context-Steady c)

-- `Start` has refused an empty trace.
admitted-trace : (e : Execution) → refused e.trace_id e.payload ≡ none → is_empty e.trace_id ≡ false
unfolding refused
admitted-trace e h = ground arith

claim-IsSound :
    (c : Controller) (executing : List Execution) (e : Execution)
    → is_empty e.trace_id ≡ false
    → IsSound (record { controller = c; executing = executing })
    → IsSound (record { controller = (claim e c).0; executing = launch (claim e c).1 executing })
unfolding claim
claim-IsSound c executing e named (indexed, state) = elim (Bool-cases (is_empty c.trace_id)) [
  | inr busy ↦ rw (busy, claim) (indexed, state)
  | inl free ↦
      let none_runs : executing ≡ [] = elim state [
        | inl (t, ex, i, k) ↦ ex
        | inr (f, ex, t, ne, k) ↦ absurd (ground (arith, free, ne, ap is_empty t))
      ] in
      rw (free, claim) (IsIndex-nil, inr (e, ap (λ l. l ++ e ∷ []) none_runs, refl, named, refl))
]

-- What `finish` leaves when the controller runs the turn.
finish-IsSound :
    (c : Controller) (executing : List Execution) (trace_id : String) (message : Message)
    → c.trace_id ≡ trace_id
    → executing ≡ []
    → IsSound (record { controller = finish trace_id message c; executing = executing })
unfolding finish
finish-IsSound c executing trace_id message t ex =
    let same : str_eq c.trace_id trace_id ≡ true = (eq_iff c.trace_id trace_id).1 t in
    rw (same, finish) (IsIndex-nil, inl (refl, ex, refl, refl))

module _ (marshal : Payload → Option Bytes) (sender : Sender) (error_text : RunError → Bytes)
    (collect : Bytes → Collected) where
  Step-IsSound : (s t : System) → Step marshal sender error_text collect s t → IsSound s → IsSound t
  unfolding close conclude
  Step-IsSound s t (claims c executing e admitted) sound =
      claim-IsSound c executing e (admitted-trace e admitted) sound
  Step-IsSound s t (interrupts c executing thread_id turn_id) sound =
      Steady-IsSound c _ executing (interrupt-Steady thread_id turn_id c) sound
  Step-IsSound s t (closes c executing) sound =
      Steady-IsSound c _ executing (cancel_context-Steady c) sound
  Step-IsSound s t (expires c executing) sound =
      Steady-IsSound c _ executing (expire-Steady c) sound
  Step-IsSound s t (handles c before after e stamp event) (indexed, state) =
      let (trace, context, keeps) = handle_event-Keeps marshal sender stamp e event c in
      (
        keeps indexed,
        elim state [
          | inl (tr, ex, i, k) ↦ absurd (end-not_nil before after e ex)
          | inr (f, ex, tr, ne, k) ↦ inr (f, ex, trace ∙ tr, ne, ap is_some context ∙ k)
        ],
      )
  Step-IsSound s t (concludes c before after e s1 s2 elapsed ended result error) (indexed, state) =
      elim state [
        | inl (tr, ex, i, k) ↦ absurd (end-not_nil before after e ex)
        | inr (f, ex, tr, ne, k) ↦
            let (same, rest) = alone before after e f ex in
            finish-IsSound c (before ++ after) e.trace_id _ (tr ∙ ap (λ x. x.trace_id) (sym same))
              rest
      ]

  -- After any interleaving of starts, interrupts, closes, passing deadlines, events and conclusions
  -- of turns, in any order: the index of the live items is exactly the map from their ids to their
  -- places, and either no turn executes, and then no trace, item or context is left, or exactly one
  -- turn executes, and its trace is the controller's, which has a context to cancel.
  pub history-IsSound :
      (log_lines : Int64) (s : System)
      → IsReached marshal sender error_text collect log_lines s
      → IsSound s
  history-IsSound log_lines s initial = (IsIndex-nil, inl (refl, refl, refl, refl))
  history-IsSound log_lines t (step s t' before taken) =
      Step-IsSound s t taken (history-IsSound log_lines s before)
