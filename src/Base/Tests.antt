-- ===== src/Base/Tests.antt =====
-- Boolean tests on the native numbers and on texts, and the conditional.
use Prim.Native.Nat.{ℕ, zero, suc, ◌<◌, compare, Ordering}
use Prim.Native.String.{String}
use mathlib.Core.Path.{◌≡◌, refl}
use mathlib.Core.Logic.{◌≢◌, ◌↔◌, ◌⊎◌, inl, inr}
use mathlib.Core.Bool.{Bool, true, false, ◌&&◌}
use mathlib.Core.Option.{Option, none, some}
use mathlib.Core.List.{List, [], ◌∷◌}
use native.Mathlib.Omega.{arith}
use text.Mathlib.Text
use text.Mathlib.TextEquality.{eq_iff}

abbrev pub ltb : ℕ → ℕ → Bool
ltb a b = elim (compare a b) [ Ordering.lt ↦ true | _ ↦ false ]

abbrev pub leb : ℕ → ℕ → Bool
leb a b = elim (compare a b) [ Ordering.gt ↦ false | _ ↦ true ]

infix 50 ◌==◌
abbrev pub ◌==◌ : ℕ → ℕ → Bool
a == b = elim (compare a b) [ Ordering.eq ↦ true | _ ↦ false ]

infix 1 if◌then◌else◌
abbrev pub if◌then◌else◌ {ℓ} : {A : Type ℓ} → Bool → A → A → A
if true then x else y = x
if false then x else y = y

-- A fact of both branches is a fact of the test.
pub if_both {ℓ κ} :
    {A : Type ℓ} (P : A → Type κ) (b : Bool) (x y : A) → P x → P y → P (if b then x else y)
if_both P true x y p q = p
if_both P false x y p q = q

-- The same, of a fact that may use the test's value.
pub by_test {ℓ κ} :
    {A : Type ℓ} (P : A → Type κ) (b : Bool) (x y : A)
    → (b ≡ true → P x)
    → (b ≡ false → P y)
    → P (if b then x else y)
by_test P true x y p q = p refl
by_test P false x y p q = q refl

-- To prove a fact of a case distinction, prove it of each case.
pub by_option {ℓ κ μ} :
    {A : Type ℓ} {B : Type κ} (P : B → Type μ) (o : Option A) (d : B) (g : A → B)
    → P d
    → ((a : A) → P (g a))
    → P (elim o [ none ↦ d | some a ↦ g a ])
by_option P none d g p q = p
by_option P (some a) d g p q = q a

pub by_some {ℓ κ μ} :
    {A : Type ℓ} {B : Type κ} (P : B → Type μ) (o : Option A) (d : B) (g : A → B)
    → P d
    → ((a : A) → o ≡ some a → P (g a))
    → P (elim o [ none ↦ d | some a ↦ g a ])
by_some P none d g p q = p
by_some P (some a) d g p q = q a refl

pub by_list {ℓ κ μ} :
    {A : Type ℓ} {B : Type κ} (P : B → Type μ) (xs : List A) (d : B) (g : A → List A → B)
    → P d
    → ((x : A) (rest : List A) → xs ≡ x ∷ rest → P (g x rest))
    → P (elim xs [ [] ↦ d | x ∷ rest ↦ g x rest ])
by_list P [] d g p q = p
by_list P (x ∷ rest) d g p q = q x rest refl

pub ==_iff : (a b : ℕ) → ((a == b) ≡ true) ↔ (a ≡ b)
==_iff a b = ground arith

-- Equality of texts.
abbrev pub str_eq : String → String → Bool
str_eq s t = Text.◌==◌ s t

-- `s == ""`
abbrev pub is_empty : String → Bool
is_empty s = str_eq s ""

pub str_eq-false : (s t : String) → s ≢ t → str_eq s t ≡ false
str_eq-false s t h = ground (arith, eq_iff s t)

-- To split on a computed value and keep the equation.
pub Bool-cases : (b : Bool) → (b ≡ true) ⊎ (b ≡ false)
Bool-cases true = inl refl
Bool-cases false = inr refl

pub text-cases : (s t : String) → ((s ≡ t) × (str_eq s t ≡ true)) ⊎ ((s ≢ t) × (str_eq s t ≡ false))
text-cases s t = elim (Bool-cases (str_eq s t)) [
  | inl e ↦ inl ((eq_iff s t).0 e, e)
  | inr e ↦ inr (λ h. ground (arith, (eq_iff s t).1 h, e), e)
]

-- The same as `by_test`, of a test for equality.
pub by_text {ℓ κ} :
    {A : Type ℓ} (P : A → Type κ) (s t : String) (x y : A)
    → (s ≡ t → P x)
    → (s ≢ t → P y)
    → P (if str_eq s t then x else y)
by_text P s t x y p q =
    by_test P (str_eq s t) x y (λ e. p ((eq_iff s t).0 e))
      (λ e. q (λ h. ground (arith, (eq_iff s t).1 h, e)))

pub Option-cases {ℓ} : {A : Type ℓ} (o : Option A) → (o ≡ none) ⊎ ((a : A) × (o ≡ some a))
Option-cases none = inl refl
Option-cases (some a) = inr (a, refl)

abbrev pub is_some {ℓ} : {A : Type ℓ} → Option A → Bool
is_some none = false
is_some (some a) = true

-- A Boolean predicate of every byte value, or of every number under another bound, is decided by
-- running it on each.
unfoldable pub each_under : (ℕ → Bool) → ℕ → Bool
each_under test zero = true
each_under test (suc bound) = each_under test bound && test bound

pub each_under_lem :
    (test : ℕ → Bool) (bound value : ℕ)
    → value < bound
    → each_under test bound ≡ true
    → test value ≡ true
unfolding each_under
each_under_lem test zero value inside all = absurd (omega arith)
each_under_lem test (suc bound) value inside all = elim (Bool-cases (value == bound)) [
  | inl last ↦ let at : value ≡ bound = (==_iff value bound).0 last in ground (arith, at)
  | inr other ↦ ground (arith, each_under_lem test bound value, ==_iff value bound)
]
