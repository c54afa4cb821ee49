-- ===== src/Prelude/Subsets.antt =====
-- Lists up to order: what a reordered part of a list keeps.
use mathlib.Core.List.{Permᴰ, Sublistᴰ, Subperm}
use mathlib.Core.Logic.{∥∥₁_elim, ∥∥₁_map, ∥∥₁_prop}
use mathlib.Core.Path.{subst}
use daxib.Prelude.{ℕ, ◌+◌, ◌≤◌, ◌≡◌, refl, sym, arith, List, [], ◌∷◌, map, length, ap}

-- Every element satisfies a predicate.
abbrev pub All {ℓ κ} : {A : Type ℓ} → (A → Type κ) → List A → Type κ
All P [] = Unit
All P (x ∷ xs) = P x × All P xs

abbrev pub total : List ℕ → ℕ
total [] = 0
total (x ∷ xs) = x + total xs

module _ {ℓ κ} {A : Type ℓ} (P : A → Type κ) where
  pub All-Perm : {xs ys : List A} → Permᴰ xs ys → All P xs → All P ys
  All-Perm Permᴰ.nil a = a
  All-Perm (Permᴰ.cons e p) a = (subst P e a.0, All-Perm p a.1)
  All-Perm (Permᴰ.swap e f) a = (subst P f a.1.0, (subst P e a.0, a.1.1))
  All-Perm (Permᴰ.trans p q) a = All-Perm q (All-Perm p a)

  pub All-Sublist : {xs ys : List A} → Sublistᴰ xs ys → All P ys → All P xs
  All-Sublist Sublistᴰ.slnil a = a
  All-Sublist (Sublistᴰ.cons s) a = All-Sublist s a.1
  All-Sublist (Sublistᴰ.cons-cons e s) a = (subst P (sym e) a.0, All-Sublist s a.1)

  pub All-Subperm : {xs ys : List A} → Subperm xs ys → All P ys → ∥ All P xs ∥₁
  All-Subperm s a =
      ∥∥₁_elim s ∥∥₁_prop (λ w.
        ∥∥₁_elim w.2 ∥∥₁_prop (λ sub. ∥∥₁_map w.1 (λ perm. All-Perm perm (All-Sublist sub a))))

module _ {ℓ} {A : Type ℓ} (f : A → ℕ) where
  pub total-Perm : {xs ys : List A} → Permᴰ xs ys → total (map f xs) ≡ total (map f ys)
  total-Perm Permᴰ.nil = refl
  total-Perm (Permᴰ.cons e p) = grind (arith, total-Perm p)
  total-Perm (Permᴰ.swap e g) = grind arith
  total-Perm (Permᴰ.trans p q) = omega (arith, total-Perm p, total-Perm q)

module _ {ℓ} {A : Type ℓ} where
  pub length-Perm : {xs ys : List A} → Permᴰ xs ys → length xs ≡ length ys
  length-Perm Permᴰ.nil = refl
  length-Perm (Permᴰ.cons e p) = omega (arith, length-Perm p)
  length-Perm (Permᴰ.swap e g) = refl
  length-Perm (Permᴰ.trans p q) = omega (arith, length-Perm p, length-Perm q)

module _ {ℓ κ} {A : Type ℓ} {B : Type κ} (f : A → B) where
  pub map-Sublist : {xs ys : List A} → Sublistᴰ xs ys → Sublistᴰ (map f xs) (map f ys)
  map-Sublist Sublistᴰ.slnil = Sublistᴰ.slnil
  map-Sublist (Sublistᴰ.cons s) = Sublistᴰ.cons (map-Sublist s)
  map-Sublist (Sublistᴰ.cons-cons e s) = Sublistᴰ.cons-cons (ap f e) (map-Sublist s)

  pub map-Perm : {xs ys : List A} → Permᴰ xs ys → Permᴰ (map f xs) (map f ys)
  map-Perm Permᴰ.nil = Permᴰ.nil
  map-Perm (Permᴰ.cons e p) = Permᴰ.cons (ap f e) (map-Perm p)
  map-Perm (Permᴰ.swap e g) = Permᴰ.swap (ap f e) (ap f g)
  map-Perm (Permᴰ.trans p q) = Permᴰ.trans (map-Perm p) (map-Perm q)

pub total-Sublist {ℓ} :
    {A : Type ℓ} (f : A → ℕ) {xs ys : List A} → Sublistᴰ xs ys → total (map f xs) ≤ total (map f ys)
total-Sublist f Sublistᴰ.slnil = omega arith
total-Sublist f (Sublistᴰ.cons s) = omega (arith, total-Sublist f s)
total-Sublist f (Sublistᴰ.cons-cons e s) = omega (arith, total-Sublist f s, ap f e)

-- Two lists, element by element.
abbrev pub Zipped {ℓ κ} : {A : Type ℓ} {B : Type κ} → (A → B → Type 0) → List A → List B → Type 0
Zipped R [] [] = Unit
Zipped R (x ∷ xs) (y ∷ ys) = R x y × Zipped R xs ys
Zipped R [] (y ∷ ys) = ⊥
Zipped R (x ∷ xs) [] = ⊥
