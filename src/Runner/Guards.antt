-- ===== src/Runner/Guards.antt =====
-- What a run needs in order to start a turn.

use mac_agent.Base.{
  ◌≡◌, ◌≢◌, refl, sym, ◌∙◌, ◌⊎◌, inl, inr, true, none, some, List, [], Bytes, Int64, is_empty,
  Bool-cases, Option-cases, arith,
}
use mac_agent.CodexApp.{Thread, PermissionProfile}
use mac_agent.Runner.{Request, RunError, thread_not_in_project}
use mac_agent.Runner.Server.{
  Answer, ok, err, AppServerClient, check_profile, validate_permission_profile, has_thread,
  resolve_thread, Selected, run,
}

Answer-cases {ℓ} :
    {A : Type ℓ} (a : Answer A) → ((x : A) × (a ≡ ok x)) ⊎ ((e : RunError) × (a ≡ err e))
Answer-cases (ok x) = inl (x, refl)
Answer-cases (err e) = inr (e, refl)

ok-not_err : (x : Thread) (e : RunError) → ok x ≢ err e
ok-not_err x e h = ground arith

-- The profile that a request names, if any, is listed and allowed.
abbrev pub AllowsProfile : AppServerClient → Request → Type 0
AllowsProfile client r =
    (is_empty r.permission_profile_id ≡ true)
    ⊎ ((profiles : List PermissionProfile) × (client.list_permission_profiles r.working_dir
          ≡ ok profiles)
        × (check_profile r.permission_profile_id profiles ≡ none))

-- The thread that a request names, if any, is listed.
abbrev pub KnowsThread : AppServerClient → Request → Type 0
KnowsThread client r =
    (is_empty r.thread_id ≡ true)
    ⊎ ((threads : List Thread) × (client.list_threads r.working_dir ≡ ok threads)
        × (has_thread r.thread_id threads ≡ true))

allowed :
    (client : AppServerClient) (r : Request)
    → validate_permission_profile client r.working_dir r.permission_profile_id ≡ none
    → AllowsProfile client r
unfolding validate_permission_profile
allowed client r fine = elim (Bool-cases (is_empty r.permission_profile_id)) [
  | inl unnamed ↦ inl unnamed
  | inr named ↦ elim (Answer-cases (client.list_permission_profiles r.working_dir)) [
    | inl (profiles, listed) ↦
        let checked : validate_permission_profile client r.working_dir r.permission_profile_id
            ≡ check_profile r.permission_profile_id profiles =
          rw (validate_permission_profile, named, listed) refl in
        inr (profiles, listed, sym checked ∙ fine)
    | inr (e, failed) ↦
        let refusal : validate_permission_profile client r.working_dir r.permission_profile_id
            ≡ some e =
          rw (validate_permission_profile, named, failed) refl in
        absurd (ground (arith, fine, refusal))
  ]
]

known :
    (client : AppServerClient) (r : Request) (thread : Thread)
    → resolve_thread client r ≡ ok thread
    → KnowsThread client r
unfolding resolve_thread
known client r thread found = elim (Bool-cases (is_empty r.thread_id)) [
  | inl unnamed ↦ inl unnamed
  | inr named ↦ elim (Answer-cases (client.list_threads r.working_dir)) [
    | inl (threads, listed) ↦ elim (Bool-cases (has_thread r.thread_id threads)) [
      | inl has ↦ inr (threads, listed, has)
      | inr lacks ↦
          let refusal : resolve_thread client r
              ≡ err (thread_not_in_project r.thread_id r.project_id) =
            rw (resolve_thread, named, listed, lacks) refl in
          absurd (ok-not_err thread _ (sym found ∙ refusal))
    ]
    | inr (e, failed) ↦
        let refusal : resolve_thread client r ≡ err e = rw (resolve_thread, named, failed) refl in
        absurd (ok-not_err thread _ (sym found ∙ refusal))
  ]
]

-- A run that emits anything has been allowed to: the profile that it names, if any, is the first of
-- its id among those listed for the directory and is allowed, and the thread that it names, if any, is
-- one of those listed for the directory.
pub run-guarded :
    (trim : Bytes → Bytes) (elapsed : Int64) (client : AppServerClient) (r : Request)
    (selected : List Selected)
    → (run trim elapsed client r selected).0 ≢ []
    → AllowsProfile client r × KnowsThread client r
unfolding run
run-guarded trim elapsed client r selected emits = (
  elim (Option-cases (validate_permission_profile client r.working_dir r.permission_profile_id)) [
    | inl fine ↦ allowed client r fine
    | inr (e, refusal) ↦ absurd (emits (rw (run, refusal) refl))
  ],
  elim (Option-cases (validate_permission_profile client r.working_dir r.permission_profile_id)) [
    | inr (e, refusal) ↦ absurd (emits (rw (run, refusal) refl))
    | inl fine ↦ elim (Answer-cases (resolve_thread client r)) [
      | inl (thread, found) ↦ known client r thread found
      | inr (e, failed) ↦ absurd (emits (rw (run, fine, failed) refl))
    ]
  ],
)
