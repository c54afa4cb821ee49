-- ===== src/Prelude/Sort.antt =====
-- sort.SliceStable as an insertion sort (a stable sort has one result), and Go's order on strings.
use mathlib.Core.List.{Permᴰ}
use mathlib.Core.List.Permᴰ
use daxib.Prelude.{Bool, true, false, List, [], ◌∷◌, ltb, if◌then◌else◌, Text, refl}

-- `x` came before the elements of the list: it stays before those that do not go before it.
abbrev pub insert {ℓ} : {A : Type ℓ} → (A → A → Bool) → A → List A → List A
insert less x [] = x ∷ []
insert less x (y ∷ ys) = let rest = insert less x ys in if less y x then y ∷ rest else x ∷ y ∷ ys

unfoldable pub sort {ℓ} : {A : Type ℓ} → (A → A → Bool) → List A → List A
sort less [] = []
sort less (x ∷ xs) = insert less x (sort less xs)

unfoldable pub text_lt : Text → Text → Bool
text_lt [] [] = false
text_lt [] (d ∷ t) = true
text_lt (c ∷ s) [] = false
text_lt (c ∷ s) (d ∷ t) = if ltb c d then true else if ltb d c then false else text_lt s t

module _ {ℓ} {A : Type ℓ} (less : A → A → Bool) where
  insert-Perm : (x : A) (ys : List A) → Permᴰ (insert less x ys) (x ∷ ys)
  insert-Perm x [] = Permᴰ.refl _
  insert-Perm x (y ∷ ys) =
      elim (less y x)
        as (λ b. Permᴰ (if b then y ∷ insert less x ys else x ∷ y ∷ ys) (x ∷ y ∷ ys)) [
          | true ↦ Permᴰ.trans (Permᴰ.cons refl (insert-Perm x ys)) (Permᴰ.swap refl refl)
          | false ↦ Permᴰ.refl _
        ]

  pub sort-Perm : (xs : List A) → Permᴰ (sort less xs) xs
  unfolding sort
  sort-Perm [] = Permᴰ.refl _
  sort-Perm (x ∷ xs) = Permᴰ.trans (insert-Perm x (sort less xs)) (Permᴰ.cons refl (sort-Perm xs))
