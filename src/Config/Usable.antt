-- ===== src/Config/Usable.antt =====
-- What can be wrong with a configuration that the environment gave.
use mathlib.Core.Path.{subst}
use mac_agent.Base.{
  by_test, by_some, ◌≡◌, refl, false, none, some, List, [], ◌∷◌, Bytes, codes, no_bytes, lt64, le64,
  if◌then◌else◌, arith,
}
use mac_agent.Config.{
  Loaded, ok, err, ConfigError, Environment, Config, relay_required, timeout_not_positive, has_none,
  validate_turn, validate_serve, split_workspace_roots, env_or_default, default_workspace_root,
  resolve_codex_state_file, roots_or_default, with_lines, with_timeout, from_env,
}

by_loaded {ℓ κ μ} :
    {A : Type ℓ} {B : Type κ} (P : B → Type μ) (r : Loaded A) (f : ConfigError → B) (g : A → B)
    → ((e : ConfigError) → P (f e))
    → ((a : A) → r ≡ ok a → P (g a))
    → P (elim r [ err e ↦ f e | ok a ↦ g a ])
by_loaded P (ok a) f g p q = q a refl
by_loaded P (err e) f g p q = p e

module _ (e : Environment) where
  -- All but the relay and the timeout are usable.
  abbrev IsComplete : Config → Type 0
  IsComplete c =
      (c.relay_url ≡ e.getenv "AGENT_RELAY_URL")
      × (has_none c.workspace_roots ≡ false)
      × (no_bytes c.codex_state_file ≡ false)
      × (no_bytes c.codex_binary ≡ false)
      × (lt64 c.log_buffer_lines 1 ≡ false)

  abbrev IsLoaded : Loaded Config → Type 0
  IsLoaded (ok c) = IsComplete c
  IsLoaded (err error) = Unit

  abbrev IsText : Loaded Bytes → Type 0
  IsText (ok text) = no_bytes text ≡ false
  IsText (err error) = Unit

  abbrev IsSome : Loaded (List Bytes) → Type 0
  IsSome (ok roots) = has_none roots ≡ false
  IsSome (err error) = Unit

  -- `filepath.Join` of a name is not empty.
  abbrev pub Joins : Type 0
  Joins = (a : Bytes) (b : Bytes) → no_bytes b ≡ false → no_bytes (e.join a b) ≡ false

  resolve_codex_state_file-IsText : Joins → IsText (resolve_codex_state_file e)
  unfolding resolve_codex_state_file
  resolve_codex_state_file-IsText joins =
      by_test IsText (no_bytes (e.trim (e.getenv "AGENT_CODEX_STATE_FILE"))) _ _
        (λ t.
          by_test IsText (no_bytes (e.trim (e.getenv "CODEX_HOME"))) _ _
            (λ u. by_some IsText e.home_dir _ _ tt (λ home h. joins _ _ refl))
            (λ u. joins _ _ refl))
        (λ t. t)

  roots_or_default-IsSome : (roots : List Bytes) → IsSome (roots_or_default e roots)
  unfolding roots_or_default
  roots_or_default-IsSome [] =
      by_loaded IsSome (default_workspace_root e) _ _ (λ x. tt) (λ root h. refl)
  roots_or_default-IsSome (root ∷ roots) = refl

  binary-lem : no_bytes (env_or_default e "AGENT_CODEX_BINARY" (codes "codex")) ≡ false
  binary-lem =
      by_test (λ b. no_bytes b ≡ false) (no_bytes (e.getenv "AGENT_CODEX_BINARY")) _ _ (λ t. refl)
        (λ t. t)

  with_lines-IsLoaded : (c : Config) → IsComplete c → IsLoaded (with_lines e c)
  unfolding with_lines
  with_lines-IsLoaded c (relay, roots, state, binary, lines) =
      by_test IsLoaded (no_bytes (e.getenv "AGENT_LOG_BUFFER_LINES")) _ _
        (λ t. (relay, roots, state, binary, lines))
        (λ t. by_some IsLoaded (e.atoi (e.getenv "AGENT_LOG_BUFFER_LINES")) _ _ tt (λ n h.
          by_test IsLoaded (lt64 n 1) _ _ (λ u. tt) (λ u. (relay, roots, state, binary, u))))

  with_timeout-IsLoaded : (c : Config) → IsComplete c → IsLoaded (with_timeout e c)
  unfolding with_timeout
  with_timeout-IsLoaded c complete =
      by_test IsLoaded (no_bytes (e.getenv "AGENT_TURN_TIMEOUT")) _ _
        (λ t. with_lines-IsLoaded c complete)
        (λ t.
          by_some IsLoaded (e.parse_duration (e.getenv "AGENT_TURN_TIMEOUT")) _ _ tt
            (λ d h. with_lines-IsLoaded (record c { turn_timeout = d }) complete))

  from_env-IsLoaded : Joins → IsLoaded (from_env e)
  unfolding from_env
  from_env-IsLoaded joins =
      by_loaded IsLoaded (resolve_codex_state_file e) _ _ (λ x. tt)
        (λ state h.
          by_loaded IsLoaded
            (roots_or_default e (split_workspace_roots e (e.getenv "AGENT_WORKSPACE_ROOTS"))) _ _
            (λ x. tt)
            (λ roots k. with_timeout-IsLoaded _ (
              refl,
              subst IsSome k (roots_or_default-IsSome _),
              subst IsText h (resolve_codex_state_file-IsText joins),
              binary-lem,
              refl,
            )))

  validate_serve_complete :
      (c : Config)
      → IsComplete c
      → validate_serve c ≡ (
          if no_bytes (e.getenv "AGENT_RELAY_URL")
          then some relay_required
          else if le64 c.turn_timeout 0
          then some timeout_not_positive
          else none)
  unfolding validate_serve validate_turn
  validate_serve_complete c (relay, roots, state, binary, lines) =
      rw (relay, roots, state, binary, lines) ground arith

  -- A configuration that the environment gave is refused by `ValidateServe` only for a missing relay
  -- or for a timeout that is not positive: its roots, state file, binary and buffer are usable,
  -- where `filepath.Join` of a name is not empty.
  pub validate_serve-from_env :
      (c : Config)
      → Joins
      → from_env e ≡ ok c
      → validate_serve c ≡ (
          if no_bytes (e.getenv "AGENT_RELAY_URL")
          then some relay_required
          else if le64 c.turn_timeout 0
          then some timeout_not_positive
          else none)
  validate_serve-from_env c joins h =
      validate_serve_complete c (subst IsLoaded h (from_env-IsLoaded joins))
