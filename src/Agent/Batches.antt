-- ===== src/Agent/Batches.antt =====
-- What a bootstrap sends, and when it completes.
use mathlib.Core.Path.{subst}
use mac_agent.Base.{
  ◌≡◌, refl, sym, ap, ◌∙◌, inl, inr, String, Bool, true, false, Option, none, some, List, [], ◌∷◌,
  ◌++◌, append_assoc, append-nil, map, All, Int64, add64, le64, eq_refl, keep_if, not, Bool-cases,
  arith,
}
use mac_agent.Agent.{Service, Chances}
use mac_agent.Agent.Bootstrap.{
  go_on, Job, Waited, acked, Sent, behind, signed, batch_message, matches, acknowledged, await,
  send_bootstrap_batch, processed_after, batch_of, final_batch, send_jobs,
}
use mac_agent.Durable.Schema.{Tables}
use mac_agent.Protocol.Commands.{BootstrapStartPayload, BootstrapAckPayload}
use mac_agent.Protocol.Payloads.{BootstrapBatchPayload}
use mac_agent.Protocol.Types.{Message}

-- Some messages were sent, in order, and all of them if the answer is yes.
abbrev pub SendsSome : List Message → Sent → Type 0
SendsSome due sent =
    (unsent : List Message) × (due ≡ sent.published ++ unsent)
    × (sent.answer ≡ some true → unsent ≡ [])

go_on-SendsSome :
    (answer : Option Bool) (first due : List Message) (sent later : Sent)
    → sent.answer ≡ answer
    → sent.published ≡ first
    → SendsSome due later
    → SendsSome (first ++ due) (go_on answer sent later)
unfolding go_on
go_on-SendsSome none first due sent later a e (unsent, split, all) =
    (due, ap (λ l. l ++ due) (sym e), λ h. absurd (no_answer a h))
  where
    no_answer : sent.answer ≡ none → sent.answer ≡ some true → ⊥
    no_answer a h = ground (arith, a, h)
go_on-SendsSome (some false) first due sent later a e (unsent, split, all) =
    (due, ap (λ l. l ++ due) (sym e), λ h. absurd (refused a h))
  where
    refused : sent.answer ≡ some false → sent.answer ≡ some true → ⊥
    refused a h = ground (arith, a, h)
go_on-SendsSome (some true) first due sent later a e (unsent, split, all) = (
  unsent,
  ap (λ l. first ++ l) split
      ∙ sym (append_assoc first later.published unsent)
      ∙ ap (λ l. l ++ later.published ++ unsent) (sym e),
  all,
)

module _ (s : Service) (chances : Chances) (accepts : Message → Bool)
    (digest : BootstrapBatchPayload → String) where
  await-published :
      (b : BootstrapBatchPayload) (inputs : List Waited) (t : Tables)
      → (await s chances accepts digest b inputs t).published ≡ []
  unfolding await
  await-published b [] t = refl
  await-published b (acked ack ∷ rest) t = elim (Bool-cases (matches ack b)) [
    | inl e ↦ rw e refl
    | inr e ↦ rw e (await-published b rest t)
  ]
  await-published b (_ ∷ rest) t = refl

  module _ (command : BootstrapStartPayload) (snapshot_id : String) (total : Int64)
      (last : Int64) where
    -- Every batch of a bootstrap, in order.
    unfoldable pub plan : List Job → Int64 → Int64 → List BootstrapBatchPayload
    plan [] n p =
        signed digest (final_batch s chances accepts digest command snapshot_id total last n p) ∷ []
    plan (job ∷ jobs) n p =
        signed digest (batch_of s chances accepts digest command snapshot_id total last job n p)
        ∷ plan jobs (add64 n 1)
            (processed_after s chances accepts digest command snapshot_id total last job p)

    -- The batches that have not been acknowledged before.
    abbrev pub is_due : BootstrapBatchPayload → Bool
    is_due b = not (le64 b.batch_no last)

    abbrev pub messages : List BootstrapBatchPayload → List Message
    messages bs = map (batch_message s chances) (keep_if is_due bs)

    send_bootstrap_batch-SendsSome :
        (u : BootstrapBatchPayload) (inputs : List Waited) (t : Tables)
        → (send_bootstrap_batch s chances accepts digest u last inputs t).published
          ≡ messages (signed digest u ∷ [])
    unfolding send_bootstrap_batch
    send_bootstrap_batch-SendsSome u inputs t =
        let b = signed digest u in
        elim (Bool-cases (le64 b.batch_no last)) [
          | inl old ↦ rw old refl
          | inr due ↦ elim (Bool-cases (accepts (batch_message s chances b))) [
            | inl fine ↦ rw (due, fine, await-published b inputs t) refl
            | inr full ↦ rw (due, full) refl
          ]
        ]

    messages-append :
        (b : BootstrapBatchPayload) (bs : List BootstrapBatchPayload)
        → messages (b ∷ bs) ≡ messages (b ∷ []) ++ messages bs
    messages-append b bs = elim (Bool-cases (le64 b.batch_no last)) [
      | inl old ↦ rw old refl
      | inr due ↦ rw due refl
    ]

    abbrev sending : List Job → Int64 → Int64 → List Waited → Tables → Sent
    sending = send_jobs s chances accepts digest command snapshot_id total last

    abbrev first_of : Job → Int64 → Int64 → BootstrapBatchPayload
    first_of = batch_of s chances accepts digest command snapshot_id total last

    abbrev next_processed : Job → Int64 → Int64
    next_processed = processed_after s chances accepts digest command snapshot_id total last

    -- Whatever is acknowledged, refused or missing: the messages of a bootstrap are, in order and each
    -- once, the first ones of the batches that are not yet durable, and all of them when it answers yes.
    pub send_jobs-SendsSome :
        (jobs : List Job) (n p : Int64) (inputs : List Waited) (t : Tables)
        → SendsSome (messages (plan jobs n p)) (sending jobs n p inputs t)
    unfolding plan send_jobs
    send_jobs-SendsSome [] n p inputs t =
        ([], sym (append-nil _ ∙ send_bootstrap_batch-SendsSome _ inputs t), λ h. refl)
    send_jobs-SendsSome (job ∷ jobs) n p inputs t =
        let sent = send_bootstrap_batch s chances accepts digest (first_of job n p) last inputs t in
        subst (λ l. SendsSome l (sending (job ∷ jobs) n p inputs t))
          (sym (
            messages-append (signed digest (first_of job n p))
              (plan jobs (add64 n 1) (next_processed job p))))
          (go_on-SendsSome sent.answer (messages (signed digest (first_of job n p) ∷ []))
            (messages (plan jobs (add64 n 1) (next_processed job p))) sent
            (sending jobs (add64 n 1) (next_processed job p) sent.rest sent.tables) refl
            (send_bootstrap_batch-SendsSome (first_of job n p) inputs t)
            (send_jobs-SendsSome jobs (add64 n 1) (next_processed job p) sent.rest sent.tables))

    -- The acknowledgement that a batch waits for.
    abbrev pub ack_of : BootstrapBatchPayload → BootstrapAckPayload
    ack_of b = record { sync_id = b.sync_id; batch_no = b.batch_no; checksum = b.checksum }

    abbrev pub acks : List BootstrapBatchPayload → List Waited
    acks bs = map (λ b. acked (ack_of b)) (keep_if is_due bs)

    -- The store after the acknowledgement of some batches.
    unfoldable pub all_acknowledged : List BootstrapBatchPayload → Tables → Tables
    all_acknowledged [] t = t
    all_acknowledged (b ∷ bs) t = all_acknowledged bs (acknowledged s chances b t)

    abbrev pub IsAccepted : BootstrapBatchPayload → Type 0
    IsAccepted b = accepts (batch_message s chances b) ≡ true

    matches_self : (b : BootstrapBatchPayload) → matches (ack_of b) b ≡ true
    matches_self b = ground (arith, eq_refl b.checksum)

    -- What a batch leaves when its acknowledgement comes next.
    send_bootstrap_batch-acked :
        (u : BootstrapBatchPayload) (rest : List Waited) (t : Tables)
        → IsAccepted (signed digest u)
        → send_bootstrap_batch s chances accepts digest u last
            (acks (signed digest u ∷ []) ++ rest)
            t
          ≡ record {
            tables = all_acknowledged (keep_if is_due (signed digest u ∷ [])) t;
            published = messages (signed digest u ∷ []);
            rest = rest;
            answer = some true;
          }
    unfolding send_bootstrap_batch await all_acknowledged
    send_bootstrap_batch-acked u rest t fine =
        let b = signed digest u in
        let same : matches (ack_of b) b ≡ true = matches_self b in
        elim (Bool-cases (le64 b.batch_no last)) [
          | inl old ↦ rw old refl
          | inr due ↦ rw (due, fine, same) refl
        ]

    -- What a bootstrap leaves that has sent, and has had acknowledged, the due ones of some batches.
    abbrev pub complete : List BootstrapBatchPayload → List Waited → Tables → Sent
    complete bs rest t = record {
      tables = all_acknowledged (keep_if is_due bs) t;
      published = messages bs;
      rest = rest;
      answer = some true;
    }

    complete-cons :
        (b : BootstrapBatchPayload) (bs : List BootstrapBatchPayload) (rest : List Waited)
        (t : Tables)
        → behind
            (messages (b ∷ []))
            (complete bs rest (all_acknowledged (keep_if is_due (b ∷ [])) t))
          ≡ complete (b ∷ bs) rest t
    unfolding all_acknowledged
    complete-cons b bs rest t = elim (Bool-cases (le64 b.batch_no last)) [
      | inl old ↦ rw old refl
      | inr due ↦ rw due refl
    ]

    acks-cons :
        (b : BootstrapBatchPayload) (bs : List BootstrapBatchPayload) (rest : List Waited)
        → acks (b ∷ bs) ++ rest ≡ acks (b ∷ []) ++ (acks bs ++ rest)
    acks-cons b bs rest = elim (Bool-cases (le64 b.batch_no last)) [
      | inl old ↦ rw old refl
      | inr due ↦ rw due refl
    ]

    -- When the acknowledgement of each batch that is not yet durable comes, in order, and `publish`
    -- takes every batch: the bootstrap ends, with the answer yes, having sent each of these batches
    -- and handed each acknowledgement to `AckBootstrap` once, in this order, and having used up these
    -- acknowledgements only. Whatever `AckBootstrap` answers is dropped, so the answer is yes also
    -- when the store has failed to record an acknowledgement.
    pub send_jobs-complete :
        (jobs : List Job) (n p : Int64) (rest : List Waited) (t : Tables)
        → All IsAccepted (plan jobs n p)
        → sending jobs n p (acks (plan jobs n p) ++ rest) t ≡ complete (plan jobs n p) rest t
    unfolding plan send_jobs
    send_jobs-complete [] n p rest t (fine, done) = send_bootstrap_batch-acked _ rest t fine
    send_jobs-complete (job ∷ jobs) n p rest t (fine, more) =
        let u = first_of job n p in
        let b = signed digest u in
        let bs = plan jobs (add64 n 1) (next_processed job p) in
        let continue : Sent → Sent = λ sent.
          go_on sent.answer sent
            (sending jobs (add64 n 1) (next_processed job p) sent.rest sent.tables) in
        let step = send_bootstrap_batch-acked u (acks bs ++ rest) t fine in
        let t' = all_acknowledged (keep_if is_due (b ∷ [])) t in
        ap (λ inputs. continue (send_bootstrap_batch s chances accepts digest u last inputs t))
          (acks-cons b bs rest)
        ∙ ap continue step
        ∙ ap (λ later. go_on (some true) (complete (b ∷ []) (acks bs ++ rest) t) later)
            (send_jobs-complete jobs (add64 n 1) (next_processed job p) rest t' more)
        ∙ (unfold go_on in complete-cons b bs rest t)
