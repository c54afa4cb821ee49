-- ===== src/Prelude/Outcome.antt =====
-- The result of a call that can fail: a value or an error, chained by do blocks.
use daxib.Prelude.{◌⊎◌, inl, inr, ◌≡◌, refl, Bool, true, false, Option, none, some}

pub data Outcome {ε ℓ} (E : Type ε) (A : Type ℓ) : Type (ε ⊔ ℓ) where
  err : E → Outcome E A
  ok : A → Outcome E A

module _ {ε ℓ κ} {E : Type ε} {A : Type ℓ} {B : Type κ} where
  infixl 5 ◌>>=◌
  abbrev pub ◌>>=◌ : Outcome E A → (A → Outcome E B) → Outcome E B
  err e >>= next = err e
  ok a >>= next = next a

  -- Where a chain succeeds, so did its first step.
  pub bind-split :
      (first : Outcome E A) (next : A → Outcome E B) {b : B}
      → (first >>= next) ≡ ok b
      → (a : A) × (first ≡ ok a) × (next a ≡ ok b)
  bind-split (err e) next h = cc
  bind-split (ok a) next h = (a, refl, h)

module _ {ε} {E : Type ε} where
  infixl 5 ◌>>◌
  abbrev pub ◌>>◌ {κ} : {B : Type κ} → Outcome E (Unit {0}) → Outcome E B → Outcome E B
  check >> rest = check >>= λ u. rest

  abbrev pub require : Bool → E → Outcome E (Unit {0})
  require b e = elim b [ true ↦ ok tt | false ↦ err e ]

  abbrev pub or_fail {ℓ} : {A : Type ℓ} → Option A → E → Outcome E A
  or_fail none e = err e
  or_fail (some a) e = ok a

pub or_fail-ok {ε ℓ} :
    {E : Type ε} {A : Type ℓ} (o : Option A) (e : E) {a : A} → or_fail o e ≡ ok a → o ≡ some a
or_fail-ok none e h = cc
or_fail-ok (some b) e h = cc

pub Outcome-cases {ε ℓ} :
    {E : Type ε} {A : Type ℓ} (o : Outcome E A) → ((e : E) × (o ≡ err e)) ⊎ ((a : A) × (o ≡ ok a))
Outcome-cases (err e) = inl (e, refl)
Outcome-cases (ok a) = inr (a, refl)
