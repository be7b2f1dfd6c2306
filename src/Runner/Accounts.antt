-- ===== src/Runner/Accounts.antt =====
-- What a run does with the events of its turn.
use mathlib.Core.Path.{subst}
use mac_agent.Base.{
  text-cases, by_text, eq_iff, ◌↔◌, ◌||◌, ◌≡◌, ◌≢◌, refl, sym, ap, ◌∙◌, ◌⊎◌, inl, inr, String, true,
  false, Option, none, some, List, [], ◌∷◌, ◌++◌, append-nil, append_assoc, Bytes, Int64, All, map,
  is_empty, str_eq, Bool-cases, if◌then◌else◌, arith,
}
use mac_agent.CodexApp.{Turn}
use mac_agent.Runner.{Event, turn_interrupted, canceled, deadline_exceeded}
use mac_agent.Turn.Items.{ContextError, blank_item}
use mac_agent.Turn.Items
use mac_agent.Runner.Server.{
  AppServerEvent, Selected, event, done, emitted, summarized, Ended, is_mine, completed, stopped,
  loop, blank_event, turn_error,
}

-- What a turn's own event adds to the summary: the text of the assistant.
pub data Says (e : AppServerEvent) : Bytes → Type 0 where
  speaks : (e.kind ≡ "output") ⊎ (e.kind ≡ "item_delta") → e.stream ≡ "assistant" → Says e e.text
  other_kind : e.kind ≢ "output" → e.kind ≢ "item_delta" → Says e []
  other_stream : e.stream ≢ "assistant" → Says e []

module _ (thread_id turn_id : String) where
  -- What a turn's own event makes the run emit, under the ids of the run.
  pub data Gives (e : AppServerEvent) : List Event → Type 0 where
    gives_output :
        e.kind ≡ "output"
        → Gives e (
            record {
              kind = "output";
              thread_id = thread_id;
              turn_id = turn_id;
              stream = e.stream;
              text = e.text;
              item_id = "";
              field = "";
              item = blank_item "" "";
            }
            ∷ [])
    gives_item :
        (e.kind ≡ "item_started") ⊎ (e.kind ≡ "item_completed")
        → Gives e (
            record {
              kind = e.kind;
              thread_id = thread_id;
              turn_id = turn_id;
              stream = "";
              text = [];
              item_id = "";
              field = "";
              item = e.item;
            }
            ∷ [])
    gives_delta :
        (more : List Event)
        → e.kind ≡ "item_delta"
        → ((e.stream ≡ "") × (more ≡ []))
          ⊎ ((e.stream ≢ "")
              × (more
                  ≡ record {
                    kind = "output";
                    thread_id = thread_id;
                    turn_id = turn_id;
                    stream = e.stream;
                    text = e.text;
                    item_id = "";
                    field = "";
                    item = blank_item "" "";
                  }
                    ∷ []))
        → Gives e (
            record {
              kind = "item_delta";
              thread_id = thread_id;
              turn_id = turn_id;
              stream = e.stream;
              text = e.text;
              item_id = e.item_id;
              field = e.field;
              item = blank_item "" "";
            }
            ∷ more)
    gives_nothing :
        e.kind ≢ "output"
        → e.kind ≢ "item_started"
        → e.kind ≢ "item_delta"
        → e.kind ≢ "item_completed"
        → Gives e []

  abbrev pub IsOwn : AppServerEvent → Type 0
  IsOwn e = (e.thread_id ≡ thread_id) × (e.turn.id ≡ turn_id)

  -- The events and the summary that are due for some events, by those of the run's own turn.
  pub data Accounts : List AppServerEvent → List Event → Bytes → Type 0 where
    nothing : Accounts [] [] []
    foreign :
        (e : AppServerEvent) (es : List AppServerEvent) (out : List Event) (text : Bytes)
        → (e.thread_id ≢ thread_id) ⊎ (e.turn.id ≢ turn_id)
        → Accounts es out text
        → Accounts (e ∷ es) out text
    own :
        (e : AppServerEvent) (es : List AppServerEvent) (given out : List Event) (said text : Bytes)
        → IsOwn e
        → Gives e given
        → Says e said
        → Accounts es out text
        → Accounts (e ∷ es) (given ++ out) (said ++ text)

  -- An event that completes the run's turn, and one that does not.
  abbrev pub Completes : AppServerEvent → Type 0
  Completes e = IsOwn e × (e.kind ≡ "completed")

  abbrev pub Continues : AppServerEvent → Type 0
  Continues e = Completes e → ⊥

  -- A result of the run, with its summary.
  abbrev IsResult : (Bytes → Bytes) → Bytes → Ended → Type 0
  IsResult trim text ended =
      (ended.result.thread_id ≡ thread_id)
      × (ended.result.turn_id ≡ turn_id)
      × (ended.result.summary ≡ trim text)

  -- The outcome of a completed turn: no error just when its status is "completed".
  abbrev pub IsCompleted : (Bytes → Bytes) → Turn → Bytes → Ended → Type 0
  IsCompleted trim turn text ended =
      IsResult trim text ended
      × ((ended.error ≡ none) ↔ (turn.status ≡ "completed"))
      × (turn.status ≡ "interrupted" → ended.error ≡ some turn_interrupted)
      × (ended.interrupts ≡ false)

  -- The outcome of a run whose context is done.
  abbrev pub IsStopped : (Bytes → Bytes) → ContextError → Bytes → Ended → Type 0
  IsStopped trim e text ended =
      IsResult trim text ended
      × (ended.error ≡ elim e [
        | Items.canceled ↦ some canceled
        | Items.deadline_exceeded ↦ some deadline_exceeded
      ])
      × (ended.interrupts ≡ true)

summarized-Says : (e : AppServerEvent) → Says e (summarized e)
unfolding summarized
summarized-Says e = elim (text-cases e.stream "assistant") [
  | inr (other, f) ↦ elim (Bool-cases (str_eq e.kind "output" || str_eq e.kind "item_delta")) [
    | inl k ↦ rw (k, f) (other_stream other)
    | inr k ↦ rw k (other_stream other)
  ]
  | inl (assistant, t) ↦ elim (text-cases e.kind "output") [
    | inl (is_output, k) ↦ rw (k, t) (speaks (inl is_output) assistant)
    | inr (no_output, k) ↦ elim (text-cases e.kind "item_delta") [
      | inl (is_delta, d) ↦ rw (k, d, t) (speaks (inr is_delta) assistant)
      | inr (no_delta, d) ↦ rw (k, d) (other_kind no_output no_delta)
    ]
  ]
]

echoed :
    (stream : String) (x : Event)
    → let more = if is_empty stream then [] else x ∷ [] in
      ((stream ≡ "") × (more ≡ [])) ⊎ ((stream ≢ "") × (more ≡ x ∷ []))
echoed stream x =
    by_text (λ l. ((stream ≡ "") × (l ≡ [])) ⊎ ((stream ≢ "") × (l ≡ x ∷ []))) stream "" [] (x ∷ [])
      (λ e. inl (e, refl)) (λ n. inr (n, refl))

emitted-Gives :
    (thread_id turn_id : String) (e : AppServerEvent)
    → Gives thread_id turn_id e (emitted thread_id turn_id e)
unfolding emitted
emitted-Gives thread_id turn_id e =
    let P : List Event → Type 0 = Gives thread_id turn_id e in
    by_text P e.kind "output" _ _ gives_output (λ no_output.
      by_text P e.kind "item_started" _ _
        (λ started.
          subst (λ k. P (record (blank_event k thread_id turn_id) { item = e.item } ∷ [])) started
            (gives_item (inl started)))
        (λ no_start.
          by_text P e.kind "item_delta" _ _ (λ is_delta. gives_delta _ is_delta (echoed e.stream _))
            (λ no_delta.
              by_text P e.kind "item_completed" _ _
                (λ completed.
                  subst (λ k. P (record (blank_event k thread_id turn_id) { item = e.item } ∷ []))
                    completed (gives_item (inr completed)))
                (λ no_completion. gives_nothing no_output no_start no_delta no_completion))))

completed-IsCompleted :
    (trim : Bytes → Bytes) (elapsed : Int64) (thread_id turn_id : String) (turn : Turn)
    (text : Bytes)
    → IsCompleted thread_id turn_id trim turn text
        (completed trim elapsed thread_id turn_id turn text)
unfolding completed turn_error
completed-IsCompleted trim elapsed thread_id turn_id turn text = (
  (refl, refl, refl),
  (
    λ h. ground (arith, eq_iff turn.status "completed", h),
    λ h. ground (arith, eq_iff turn.status "completed", h),
  ),
  λ h. rw (h, turn_error) refl,
  refl,
)

stopped-IsStopped :
    (trim : Bytes → Bytes) (elapsed : Int64) (thread_id turn_id : String) (e : ContextError)
    (text : Bytes)
    → IsStopped thread_id turn_id trim e text (stopped trim elapsed thread_id turn_id e text)
unfolding stopped
stopped-IsStopped trim elapsed thread_id turn_id Items.canceled text =
    ((refl, refl, refl), refl, refl)
stopped-IsStopped trim elapsed thread_id turn_id Items.deadline_exceeded text =
    ((refl, refl, refl), refl, refl)

IsOwn-cases :
    (thread_id turn_id : String) (e : AppServerEvent)
    → (IsOwn thread_id turn_id e × (is_mine thread_id turn_id e ≡ true))
      ⊎ (((e.thread_id ≢ thread_id) ⊎ (e.turn.id ≢ turn_id))
          × (is_mine thread_id turn_id e ≡ false))
unfolding is_mine
IsOwn-cases thread_id turn_id e = elim (text-cases e.thread_id thread_id) [
  | inr (other, f) ↦ inr (inl other, rw f refl)
  | inl (same, t) ↦ elim (text-cases e.turn.id turn_id) [
    | inr (other, f) ↦ inr (inr other, rw (t, f) refl)
    | inl (turn, u) ↦ inl ((same, turn), rw (t, u) refl)
  ]
]

module _ (trim : Bytes → Bytes) (elapsed : Int64) (thread_id turn_id : String) where
  abbrev looped : Bytes → List Selected → List Event × Option Ended
  looped = loop trim elapsed thread_id turn_id

  -- The loop behind some events, from a summary on: what it has emitted and added by then.
  abbrev Behind : List AppServerEvent → List Selected → Bytes → Type 0
  Behind es rest summary =
      (out : List Event) × (text : Bytes) × Accounts thread_id turn_id es out text
      × (looped summary (map event es ++ rest)
          ≡ (out ++ (looped (summary ++ text) rest).0, (looped (summary ++ text) rest).1))

  loop-Behind :
      (es : List AppServerEvent) (rest : List Selected) (summary : Bytes)
      → All (Continues thread_id turn_id) es
      → Behind es rest summary
  unfolding loop
  loop-Behind [] rest summary h =
      ([], [], nothing, ap (λ s. looped s rest) (sym (append-nil summary)))
  loop-Behind (e ∷ es) rest summary (goes_on, h) = elim (IsOwn-cases thread_id turn_id e) [
    | inr (other, f) ↦
        let (out, text, due, same) = loop-Behind es rest summary h in
        (out, text, foreign e es out text other due, rw (f, loop) same)
    | inl (is_own, t) ↦ elim (text-cases e.kind "completed") [
      | inl (last, k) ↦ absurd (goes_on (is_own, last))
      | inr (not_last, k) ↦
          let said = summarized e in
          let given = emitted thread_id turn_id e in
          let (out, text, due, same) = loop-Behind es rest (summary ++ said) h in
          (
            given ++ out,
            said ++ text,
            own e es given out said text is_own (emitted-Gives thread_id turn_id e)
                (summarized-Says e) due,
            rw (t, k, loop)
                (ap (λ (r : List Event × Option Ended). (given ++ r.0, r.1)) same
                  ∙ ap (λ l. (l, (looped ((summary ++ said) ++ text) rest).1))
                      (sym (append_assoc given out (looped ((summary ++ said) ++ text) rest).0))
                  ∙ ap (λ s. ((given ++ out) ++ (looped s rest).0, (looped s rest).1))
                      (append_assoc summary said text)),
          )
    ]
  ]

  -- What the loop leaves, with the end of the run.
  abbrev pub Leaves :
      (Bytes → Ended → Type 0) → List AppServerEvent → List Event × Option Ended → Type 0
  Leaves IsEnd es r =
      (out : List Event) × (text : Bytes) × (ended : Ended) × Accounts thread_id turn_id es out text
      × (r ≡ (out, some ended))
      × IsEnd text ended

  -- A run whose turn completes, whatever else arrives. Of the events before the first that completes
  -- the run's own turn, those of the run's thread and turn make it emit, in order and under the run's
  -- ids, what their kinds say, and the others nothing; the summary of the result is the trimmed text
  -- of the assistant in these events; and the run has no error just when the turn's status is
  -- "completed".
  pub loop-Completes :
      (es : List AppServerEvent) (last : AppServerEvent) (rest : List Selected)
      → All (Continues thread_id turn_id) es
      → Completes thread_id turn_id last
      → Leaves
          (IsCompleted thread_id turn_id trim last.turn)
          es
          (loop trim elapsed thread_id turn_id [] (map event es ++ event last ∷ rest))
  loop-Completes es last rest goes_on ((same_thread, same_turn), ends) =
      let (out, text, due, same) = loop-Behind es (event last ∷ rest) [] goes_on in
      let end : looped text (event last ∷ rest)
          ≡ ([], some (completed trim elapsed thread_id turn_id last.turn text)) =
        unfold loop in
        unfold is_mine in
        rw
          (
            (eq_iff last.thread_id thread_id).1 same_thread,
            (eq_iff last.turn.id turn_id).1 same_turn,
            (eq_iff last.kind "completed").1 ends,
          )
          refl in
      (
        out,
        text,
        completed trim elapsed thread_id turn_id last.turn text,
        due,
        same
            ∙ ap (λ (r : List Event × Option Ended). (out ++ r.0, r.1)) end
            ∙ ap (λ l. (l, some (completed trim elapsed thread_id turn_id last.turn text)))
                (append-nil out),
        completed-IsCompleted trim elapsed thread_id turn_id last.turn text,
      )

  -- A run whose context is done first accounts in the same way for the events before, interrupts its
  -- turn, and returns the error of the context, canceled or past its deadline.
  pub loop-stops :
      (es : List AppServerEvent) (e : ContextError) (rest : List Selected)
      → All (Continues thread_id turn_id) es
      → Leaves
          (IsStopped thread_id turn_id trim e)
          es
          (loop trim elapsed thread_id turn_id [] (map event es ++ done e ∷ rest))
  loop-stops es e rest goes_on =
      let (out, text, due, same) = loop-Behind es (done e ∷ rest) [] goes_on in
      let end : looped text (done e ∷ rest)
          ≡ ([], some (stopped trim elapsed thread_id turn_id e text)) =
        unfold loop in refl in
      (
        out,
        text,
        stopped trim elapsed thread_id turn_id e text,
        due,
        same
            ∙ ap (λ (r : List Event × Option Ended). (out ++ r.0, r.1)) end
            ∙ ap (λ l. (l, some (stopped trim elapsed thread_id turn_id e text))) (append-nil out),
        stopped-IsStopped trim elapsed thread_id turn_id e text,
      )
