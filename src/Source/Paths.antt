-- ===== src/Source/Paths.antt =====
-- What the guards of a success say, and where the files of a project are found.

use mac_agent.Base.{
  ℕ, ◌≤◌, ◌≡◌, ◌≢◌, inl, inr, refl, sym, ap, ◌∙◌, String, Bool, true, false, Option, none, some,
  List, [], ◌∷◌, suc, get_elem?, Bytes, codes, bytes_eq, ltb, not, ◌||◌, if◌then◌else◌, Bool-cases,
  Option-cases, arith,
}
use mac_agent.Workspace.{Project}
use mac_agent.Source.{
  ReadError, Answer, ok, err, Files, roots_of, path_within, resolve_within_root, first_within,
  or_error, resolve_project_file, leaves, read_error,
}

pub err-not_ok {ℓ} : {A : Type ℓ} (e : ReadError) (a : A) → err e ≢ ok a
err-not_ok e a h = ground arith

-- A guard in front of a success was passed.
pub ltb-false : (a b : ℕ) → ltb a b ≡ false → b ≤ a
ltb-false a b h = ground (arith, h)

pub passed {ℓ} :
    {A : Type ℓ} (guard : Bool) (e : ReadError) (rest : Answer A) (a : A)
    → (if guard then err e else rest) ≡ ok a
    → (guard ≡ false) × (rest ≡ ok a)
passed true e rest a h = absurd (err-not_ok e a h)
passed false e rest a h = (refl, h)

pub passed_option {ℓ κ} :
    {A : Type ℓ} {B : Type κ} (o : Option A) (e : ReadError) (f : A → Answer B) (b : B)
    → (elim o [ none ↦ err e | some a ↦ f a ]) ≡ ok b
    → (a : A) × (o ≡ some a) × (f a ≡ ok b)
passed_option none e f b h = absurd (err-not_ok e b h)
passed_option (some a) e f b h = (a, refl, h)

pub ok-injective {ℓ} : {A : Type ℓ} (a b : A) → ok a ≡ ok b → a ≡ b
ok-injective a b h = ap (λ r. elim r [ err e ↦ a | ok x ↦ x ]) h

some_of {ℓ κ} :
    {A : Type ℓ} {B : Type κ} (o : Option A) (f : A → Option B) (b : B)
    → (elim o [ none ↦ none | some a ↦ f a ]) ≡ some b
    → (a : A) × (o ≡ some a) × (f a ≡ some b)
some_of none f b h = ground arith
some_of (some a) f b h = (a, refl, h)

kept {ℓ} :
    {B : Type ℓ} (guard : Bool) (rest : Option B) (b : B)
    → (if guard then none else rest) ≡ some b
    → (guard ≡ false) × (rest ≡ some b)
kept true rest b h = ground arith
kept false rest b h = (refl, h)

module _ (files : Files) where
  -- A canonical path and its form relative to the canonical form of a root.
  abbrev pub IsBelow : Bytes → Bytes × Bytes → Type 0
  IsBelow root (path, relative) =
      (canonical_root : Bytes) × (files.eval_symlinks root ≡ some canonical_root)
      × (path_within files canonical_root path ≡ true)
      × (files.rel canonical_root path ≡ some relative)

  resolve_within_root-IsBelow :
      (root candidate : Bytes) (located : Bytes × Bytes)
      → resolve_within_root files root candidate ≡ some located
      → IsBelow root located
  unfolding resolve_within_root
  resolve_within_root-IsBelow root candidate (path, relative) h =
      let (canonical_root, at_root, h1) = some_of (files.eval_symlinks root) _ (path, relative) h in
      let (canonical, at, h2) = some_of (files.eval_symlinks candidate) _ (path, relative) h1 in
      let (within, h3) =
        kept (not (path_within files canonical_root canonical)) _ (path, relative) h2 in
      let (rel, is_rel, h4) = some_of (files.rel canonical_root canonical) _ (path, relative) h3 in
      let (inside, h5) =
        kept (bytes_eq rel (codes ".")) (some (canonical, rel)) (path, relative) h4 in
      let same_path : path ≡ canonical =
        sym (ap (λ o. elim o [ none ↦ canonical | some p ↦ p.0 ]) h5) in
      let same_relative : rel ≡ relative = ap (λ o. elim o [ none ↦ rel | some p ↦ p.1 ]) h5 in
      (
        canonical_root,
        at_root,
        ap (path_within files canonical_root) same_path ∙ ground (arith, within),
        ap (files.rel canonical_root) same_path ∙ is_rel ∙ ap some same_relative,
      )

  -- One of the roots has the path below it.
  abbrev pub IsBelowOne : List Bytes → Bytes × Bytes → Type 0
  IsBelowOne roots located =
      (i : ℕ) × (root : Bytes) × (get_elem? roots i ≡ some root) × IsBelow root located

  first_within-IsBelowOne :
      (candidate : Bytes → Bytes) (roots : List Bytes) (located : Bytes × Bytes)
      → first_within files candidate roots ≡ some located
      → IsBelowOne roots located
  unfolding first_within
  first_within-IsBelowOne candidate [] located h = ground arith
  first_within-IsBelowOne candidate (root ∷ roots) located h =
      elim (Option-cases (resolve_within_root files root (candidate root))) [
        | inl other ↦
            let next : first_within files candidate (root ∷ roots)
                ≡ first_within files candidate roots =
              rw (first_within, other) refl in
            let (i, r, at, below) =
              first_within-IsBelowOne candidate roots located (sym next ∙ h) in
            (suc i, r, at, below)
        | inr (here, e) ↦
            let first : first_within files candidate (root ∷ roots) ≡ some here =
              rw (first_within, e) refl in
            (
              0,
              root,
              refl,
              resolve_within_root-IsBelow root (candidate root) located (e ∙ sym first ∙ h),
            )
      ]

  located_by :
      (code message : String) (o : Option (Bytes × Bytes)) (located : Bytes × Bytes)
      → or_error files code message o ≡ ok located
      → o ≡ some located
  located_by code message none located h = absurd (err-not_ok _ located h)
  located_by code message (some l) located h = ap some (ok-injective l located h)

  pub resolve_project_file-IsBelowOne :
      (p : Project) (path : Bytes) (located : Bytes × Bytes)
      → resolve_project_file files p path ≡ ok located
      → IsBelowOne (roots_of p) located
  unfolding resolve_project_file
  resolve_project_file-IsBelowOne p path located h =
      let requested = files.trim path in
      let clean = files.clean requested in
      let anywhere = first_within files (λ root. requested) (roots_of p) in
      let below = first_within files (λ root. files.join root clean) (roots_of p) in
      let outside : Bool = bytes_eq clean (codes ".") || leaves files clean in
      let relative_answer : Answer (Bytes × Bytes) =
        or_error files "SOURCE_NOT_FOUND" "The referenced file no longer exists." below in
      elim (Bool-cases (files.is_abs requested)) [
        | inl absolute ↦
            let e : resolve_project_file files p path
                ≡ or_error files "SOURCE_FORBIDDEN"
                    "The source path is outside the selected project." anywhere =
              rw (resolve_project_file, absolute) refl in
            first_within-IsBelowOne (λ root. requested) (roots_of p) located
              (located_by _ _ anywhere located (sym e ∙ h))
        | inr relative ↦
            let e : resolve_project_file files p path ≡ (
                if outside
                then err (
                    read_error "SOURCE_FORBIDDEN"
                      "The source path is outside the selected project.")
                else relative_answer) =
              rw (resolve_project_file, relative) refl in
            let (inside, answer) = passed outside _ relative_answer located (sym e ∙ h) in
            first_within-IsBelowOne (λ root. files.join root clean) (roots_of p) located
              (located_by _ _ below located answer)
      ]
