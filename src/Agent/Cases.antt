-- ===== src/Agent/Cases.antt =====
-- Case distinctions on what a part answers.
use mac_agent.Base.{
  ◌≡◌, refl, sym, ap, ◌∙◌, Bool, true, false, Bytes, by_test, if◌then◌else◌, arith,
}
use mac_agent.Agent.{Result, ok, err}

ok-injective {ℓ} : {A : Type ℓ} (a b : A) → ok a ≡ ok b → a ≡ b
ok-injective a b h = ap (λ r. elim r [ ok x ↦ x | err text ↦ a ]) h

err-not_ok {ℓ} : {A : Type ℓ} (text : Bytes) (a : A) → err text ≡ ok a → ⊥
err-not_ok text a h =
    let no : false ≡ true = ap (λ r. elim r [ ok x ↦ true | err t ↦ false ]) h in ground (arith, no)

pub by_answer {ℓ κ} :
    {B : Type ℓ} {C : Type κ} (P : C → Type κ) (r : Result B) (f : Bytes → C) (g : B → C)
    → ((text : Bytes) → r ≡ err text → P (f text))
    → ((b : B) → r ≡ ok b → P (g b))
    → P (elim r [ err text ↦ f text | ok b ↦ g b ])
by_answer P (ok b) f g p q = q b refl
by_answer P (err text) f g p q = p text refl

module _ {ℓ κ μ} {A : Type ℓ} {B : Type κ} {X : Type μ} where
  -- A request is granted the value `x`: it can be read, it lacks nothing, the part that is asked
  -- answers it, and `x` holds this answer.
  abbrev pub Grants : Result A → (A → Bool) → (A → Result B) → (A → B → X) → X → Type (ℓ ⊔ κ ⊔ μ)
  Grants decoded lacks answer put x =
      (a : A) × (b : B) × (decoded ≡ ok a) × (lacks a ≡ false) × (answer a ≡ ok b) × (x ≡ put a b)

  abbrev pub GrantsNothing : Result A → (A → Bool) → (A → Result B) → (A → B → X) → Type (ℓ ⊔ κ ⊔ μ)
  GrantsNothing decoded lacks answer put = (x : X) → Grants decoded lacks answer put x → ⊥

  pub undecoded :
      (decoded : Result A) (text : Bytes) (lacks : A → Bool) (answer : A → Result B)
      (put : A → B → X)
      → decoded ≡ err text
      → GrantsNothing decoded lacks answer put
  undecoded decoded text lacks answer put e x (a, b, same, _, _, _) =
      err-not_ok text a (sym e ∙ same)

  pub lacking :
      (decoded : Result A) (a : A) (lacks : A → Bool) (answer : A → Result B) (put : A → B → X)
      → decoded ≡ ok a
      → lacks a ≡ true
      → GrantsNothing decoded lacks answer put
  lacking decoded a lacks answer put e h x (a', b, same, fair, _, _) =
      let no : true ≡ false = sym h ∙ ap lacks (ok-injective a a' (sym e ∙ same)) ∙ fair in
      ground (arith, no)

  pub unanswered :
      (decoded : Result A) (a : A) (lacks : A → Bool) (answer : A → Result B) (put : A → B → X)
      (text : Bytes)
      → decoded ≡ ok a
      → answer a ≡ err text
      → GrantsNothing decoded lacks answer put
  unanswered decoded a lacks answer put text e h x (a', b, same, _, answered, _) =
      err-not_ok text b (sym h ∙ ap answer (ok-injective a a' (sym e ∙ same)) ∙ answered)

  -- To prove a fact of the answer to a request, prove it of each refusal, which grants nothing, and of
  -- what is granted.
  pub by_request {ν} :
      {C : Type ν} (P : C → Type ν) (decoded : Result A) (lacks : A → Bool) (answer : A → Result B)
      (put : A → B → X) (f : Bytes → C) (d : C) (h : Bytes → C) (g : A → B → C)
      → ((text : Bytes) → GrantsNothing decoded lacks answer put → P (f text))
      → (GrantsNothing decoded lacks answer put → P d)
      → ((text : Bytes) → GrantsNothing decoded lacks answer put → P (h text))
      → ((a : A) (b : B) → Grants decoded lacks answer put (put a b) → P (g a b))
      → P (elim decoded [
        | err text ↦ f text
        | ok a ↦ if lacks a then d else elim (answer a) [ err text ↦ h text | ok b ↦ g a b ]
      ])
  by_request P decoded lacks answer put f d h g p q r s =
      by_answer P decoded _ _ (λ text e. p text (undecoded decoded text lacks answer put e))
        (λ a e.
          by_test P (lacks a) _ _ (λ t. q (lacking decoded a lacks answer put e t))
            (λ fair.
              by_answer P (answer a) _ _
                (λ text n. r text (unanswered decoded a lacks answer put text e n))
                (λ b n. s a b (a, b, e, fair, n, refl))))
