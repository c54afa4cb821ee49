-- ===== src/Coinselect/Bnb/Chosen.antt =====
-- The subsets of a list, as increasing lists of indices.
use daxib.Prelude.{ℕ, suc, ◌≤◌, ◌<◌, ◌^◌, ◌≡◌, refl, ap, arith, List, [], ◌∷◌, map}
use daxib.Prelude.Subsets.{total}
use daxib.Prelude.Int.{pos}
use daxib.Prelude.Int64.{add64-pos}
use mathlib.Core.List.{Sublistᴰ}
use daxib.Coinselect.Bnb.{suffix_sum}

-- `sel` are indices of the list, counted from `d`, and `items` the elements there.
pub data Chosen {ℓ} {A : Type ℓ} : ℕ → List A → List ℕ → List A → Type ℓ where
  none_left : {d : ℕ} → Chosen d [] [] []
  skip :
      {d : ℕ} {x : A} {xs : List A} {sel : List ℕ} {items : List A}
      → Chosen (suc d) xs sel items
      → Chosen d (x ∷ xs) sel items
  take :
      {d : ℕ} {x : A} {xs : List A} {sel : List ℕ} {items : List A}
      → Chosen (suc d) xs sel items
      → Chosen d (x ∷ xs) (d ∷ sel) (x ∷ items)

pub Chosen-nothing {ℓ} : {A : Type ℓ} (d : ℕ) (xs : List A) → Chosen d xs [] []
Chosen-nothing d [] = none_left
Chosen-nothing d (x ∷ xs) = skip (Chosen-nothing (suc d) xs)

pub Chosen-total-le :
    {d : ℕ} {xs : List ℕ} {sel : List ℕ} {items : List ℕ}
    → Chosen d xs sel items
    → total items ≤ total xs
Chosen-total-le none_left = omega arith
Chosen-total-le (skip c) = omega (arith, Chosen-total-le c)
Chosen-total-le (take c) = omega (arith, Chosen-total-le c)

-- With no wrap-around a suffix sum is the sum.
pub suffix_sum-pos : (xs : List ℕ) → total xs < 2 ^ 63 → suffix_sum (map pos xs) ≡ pos (total xs)
unfolding suffix_sum
suffix_sum-pos [] h = refl
suffix_sum-pos (x ∷ xs) h =
    rw (suffix_sum-pos xs (omega arith), add64-pos (total xs) x (omega arith))
      (ap pos (omega arith))

-- Of the images of a list, the same indices are chosen in the list.
pub Chosen-unmap {ℓ κ} :
    {A : Type ℓ} {B : Type κ} (f : A → B) {d : ℕ} (xs : List A) {sel : List ℕ} {items : List B}
    → Chosen d (map f xs) sel items
    → (ys : List A) × Chosen d xs sel ys × (map f ys ≡ items)
Chosen-unmap f [] none_left = ([], none_left, refl)
Chosen-unmap f (x ∷ xs) (skip c) = let (ys, c', e) = Chosen-unmap f xs c in (ys, skip c', e)
Chosen-unmap f (x ∷ xs) (take c) =
    let (ys, c', e) = Chosen-unmap f xs c in (x ∷ ys, take c', ap (λ l. f x ∷ l) e)

pub Chosen-Sublist {ℓ} :
    {A : Type ℓ} {d : ℕ} {xs : List A} {sel : List ℕ} {ys : List A}
    → Chosen d xs sel ys
    → Sublistᴰ ys xs
Chosen-Sublist none_left = Sublistᴰ.slnil
Chosen-Sublist (skip c) = Sublistᴰ.cons (Chosen-Sublist c)
Chosen-Sublist (take c) = Sublistᴰ.cons-cons refl (Chosen-Sublist c)

pub Chosen-map {ℓ κ} :
    {A : Type ℓ} {B : Type κ} (f : A → B) {d : ℕ} {xs : List A} {sel : List ℕ} {ys : List A}
    → Chosen d xs sel ys
    → Chosen d (map f xs) sel (map f ys)
Chosen-map f none_left = none_left
Chosen-map f (skip c) = skip (Chosen-map f c)
Chosen-map f (take c) = take (Chosen-map f c)
