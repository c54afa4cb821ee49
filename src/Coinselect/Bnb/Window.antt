-- ===== src/Coinselect/Bnb/Window.antt =====
-- The subsets that branch and bound records (bnb of internal/coinselect/select.go).
use daxib.Prelude.{
  ℕ, suc, ◌+◌, ◌≤◌, ◌<◌, ◌^◌, ◌≡◌, ap, ◌≢◌, ◌⊎◌, arith, List, [], ◌∷◌, ◌++◌, map, length, Option,
  none, some, true, false, if◌then◌else◌,
}
use mathlib.Core.Path.{subst}
use mathlib.Core.List.{append-nil, append_assoc}
use daxib.Prelude.Subsets.{total}
use daxib.Prelude.Int.{ℤ, pos}
use daxib.Prelude.Int64.{add64, add64-pos}
use daxib.Coinselect.Bnb.{
  Best, Search, stop, found, branch, visit, improves, record_best, dfs, search, bnb,
  max_bnb_iterations,
}
use daxib.Coinselect.Bnb.Chosen.{Chosen, skip, take, Chosen-nothing, suffix_sum-pos}

-- What a visit decides, where no sum wraps around.
pub visit-pos :
    (t u s : ℕ) (xs : List ℕ)
    → s + total xs < 2 ^ 63
    → ((visit (pos t) (pos u) (pos s) (map pos xs) ≡ stop)
        × ((u < s) ⊎ (s + total xs < t) ⊎ ((xs ≡ []) × (s < t))))
      ⊎ ((visit (pos t) (pos u) (pos s) (map pos xs) ≡ found) × (s ≤ u) × (t ≤ s))
      ⊎ ((visit (pos t) (pos u) (pos s) (map pos xs) ≡ branch) × (s < t) × (s ≤ u))
unfolding visit
visit-pos t u s [] h = ground arith
visit-pos t u s (x ∷ xs) h =
    rw (suffix_sum-pos (x ∷ xs) (omega arith), add64-pos s (total (x ∷ xs)) h) (ground arith)

-- A predicate on the best subset, if there is one.
abbrev pub Holds : (List ℕ → ℤ → Type 0) → Option Best → Type 0
Holds Q none = Unit {0}
Holds Q (some b) = Q b.sel b.sum

-- The window of the subsets of `xs`, added to a start.
abbrev pub Reaches : (t u : ℕ) (Q : List ℕ → ℤ → Type 0) → List ℕ → (d s : ℕ) → List ℕ → Type 0
Reaches t u Q xs d s cur =
    (sel items : List ℕ)
    → Chosen d xs sel items
    → t ≤ s + total items
    → s + total items ≤ u
    → Q (cur ++ sel) (pos (s + total items))

record_best-Holds :
    (Q : List ℕ → ℤ → Type 0) (cur : List ℕ) (sum : ℤ) (st : Search)
    → Q cur sum
    → Holds Q st.best
    → Holds Q (record_best cur sum st).best
unfolding record_best
record_best-Holds Q cur sum st q h =
    elim (improves st.best (length cur) sum)
      as (λ b.
        Holds Q
          (if b then record st { best = some (record { sel = cur; sum = sum }) } else st).best) [
            | true ↦ q
            | false ↦ h
          ]

add_assoc : (a b c : ℕ) → a + b + c ≡ a + (b + c)
add_assoc a b c = omega arith

add_zero : (a : ℕ) → a + 0 ≡ a
add_zero a = omega arith

Reaches-taken :
    (t u : ℕ) (Q : List ℕ → ℤ → Type 0) (x : ℕ) (xs : List ℕ) (d s : ℕ) (cur : List ℕ)
    → Reaches t u Q (x ∷ xs) d s cur
    → Reaches t u Q xs (suc d) (s + x) (cur ++ (d ∷ []))
Reaches-taken t u Q x xs d s cur r sel items c lo hi =
    rw (append_assoc cur (d ∷ []) sel, add_assoc s x (total items))
      (r (d ∷ sel) (x ∷ items) (take c) (omega arith) (omega arith))

Reaches-found :
    (t u : ℕ) (Q : List ℕ → ℤ → Type 0) (xs : List ℕ) (d s : ℕ) (cur : List ℕ)
    → Reaches t u Q xs d s cur
    → s ≤ u
    → t ≤ s
    → Q cur (pos s)
Reaches-found t u Q xs d s cur r hi lo =
    subst (λ l. Q l (pos s)) (append-nil cur)
      (subst (λ n. Q (cur ++ []) (pos n)) (add_zero s)
        (r [] [] (Chosen-nothing d xs) (omega arith) (omega arith)))

pub visit_found :
    (t u s : ℕ) (xs : List ℕ)
    → s + total xs < 2 ^ 63
    → visit (pos t) (pos u) (pos s) (map pos xs) ≡ found
    → (s ≤ u) × (t ≤ s)
visit_found t u s xs bound h = grind (arith, visit-pos t u s xs bound)

-- The branches of one call of dfs, without and with a value left.
pub dfs_nil_cases :
    (P : Search → Type 0) (t u : ℤ) (d : ℕ) (sum : ℤ) (cur : List ℕ) (st : Search)
    → let st1 = record st { iters = suc st.iters } in
      (max_bnb_iterations ≤ st.iters → P st)
      → (visit t u sum [] ≢ found → P st1)
      → (visit t u sum [] ≡ found → P (record_best cur sum st1))
      → P (dfs t u [] d sum cur st)
unfolding dfs
dfs_nil_cases P t u d sum cur st capped stopped recorded = ground arith

pub dfs_cons_cases :
    (P : Search → Type 0) (t u x : ℤ) (xs : List ℤ) (d : ℕ) (sum : ℤ) (cur : List ℕ) (st : Search)
    → let st1 = record st { iters = suc st.iters } in
      (max_bnb_iterations ≤ st.iters → P st)
      → (visit t u sum (x ∷ xs) ≡ stop → P st1)
      → (visit t u sum (x ∷ xs) ≡ found → P (record_best cur sum st1))
      → (visit t u sum (x ∷ xs) ≡ branch
          → P (dfs t u xs (suc d) sum cur (dfs t u xs (suc d) (add64 sum x) (cur ++ (d ∷ [])) st1)))
      → P (dfs t u (x ∷ xs) d sum cur st)
unfolding dfs
dfs_cons_cases P t u x xs d sum cur st capped stopped recorded branched = ground arith

-- A property of every subset in the window, with its sum, is one of the best subset found.
pub dfs-Holds :
    (t u : ℕ) (Q : List ℕ → ℤ → Type 0) (xs : List ℕ) (d s : ℕ) (cur : List ℕ) (st : Search)
    → s + total xs < 2 ^ 63
    → Reaches t u Q xs d s cur
    → Holds Q st.best
    → Holds Q (dfs (pos t) (pos u) (map pos xs) d (pos s) cur st).best
dfs-Holds t u Q [] d s cur st bound r q =
    dfs_nil_cases (λ st'. Holds Q st'.best) (pos t) (pos u) d (pos s) cur st (λ h. q) (λ h. q)
      (λ h.
        let (hi, lo) = visit_found t u s [] bound h in
        record_best-Holds Q cur (pos s) _ (Reaches-found t u Q [] d s cur r hi lo) q)
dfs-Holds t u Q (x ∷ xs) d s cur st bound r q =
    dfs_cons_cases (λ st'. Holds Q st'.best) (pos t) (pos u) (pos x) (map pos xs) d (pos s) cur st
      (λ h. q) (λ h. q)
      (λ h.
        let (hi, lo) = visit_found t u s (x ∷ xs) bound h in
        record_best-Holds Q cur (pos s) _ (Reaches-found t u Q (x ∷ xs) d s cur r hi lo) q)
      (λ h.
        dfs-Holds t u Q xs (suc d) s cur _ (omega arith) (λ sel items c. r sel items (skip c))
          (rw (add64-pos s x (omega arith)) (
            dfs-Holds t u Q xs (suc d) (s + x) (cur ++ (d ∷ [])) _ (omega arith)
              (Reaches-taken t u Q x xs d s cur r) q)))

-- A subset in the window, with its sum.
abbrev pub InWindow : (t u : ℕ) → List ℕ → List ℕ → ℤ → Type 0
InWindow t u xs sel sum =
    (items : List ℕ) × Chosen 0 xs sel items
    × (t ≤ total items)
    × (total items ≤ u)
    × (sum ≡ pos (total items))

pub search-InWindow :
    (t u : ℕ) (xs : List ℕ)
    → total xs < 2 ^ 63
    → Holds (InWindow t u xs) (search (map pos xs) (pos t) (pos u)).best
unfolding search
search-InWindow t u xs bound =
    dfs-Holds t u (InWindow t u xs) xs 0 0 [] _ (omega arith)
      (λ sel items c lo hi. (items, c, omega arith, omega arith, ap pos (omega arith))) tt

Holds-sel :
    (Q : List ℕ → ℤ → Type 0) (o : Option Best) (sel : List ℕ)
    → Holds Q o
    → elim o [ none ↦ none | some b ↦ some b.sel ] ≡ some sel
    → (sum : ℤ) × Q sel sum
Holds-sel Q none sel q h = cc
Holds-sel Q (some b) sel q h = let e : b.sel ≡ sel = cc in (b.sum, subst (λ l. Q l b.sum) e q)

-- Where no sum of the values wraps around, what bnb returns is a subset of the values, as
-- increasing indices, whose sum lies in the window.
pub bnb-InWindow :
    (t u : ℕ) (xs sel : List ℕ)
    → total xs < 2 ^ 63
    → bnb (map pos xs) (pos t) (pos u) ≡ some sel
    → (items : List ℕ) × Chosen 0 xs sel items × (t ≤ total items) × (total items ≤ u)
unfolding bnb
bnb-InWindow t u xs sel bound h =
    let w = Holds-sel (InWindow t u xs) _ sel (search-InWindow t u xs bound) h in
    let (items, c, lo, hi, e) = w.1 in (items, c, lo, hi)
