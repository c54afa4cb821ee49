-- ===== src/Coinselect/Bnb/Fewest.antt =====
-- The order in which branch and bound prefers subsets (bnb of internal/coinselect/select.go): fewer
-- indices, then the smaller sum.
use daxib.Prelude.{
  ℕ, suc, ◌+◌, ◌≤◌, ◌<◌, ◌^◌, ◌≡◌, ◌≢◌, ◌⊎◌, inl, inr, refl, arith, List, [], ◌∷◌, ◌++◌, map,
  length, Option, none, some, length-append,
}
use daxib.Prelude.Subsets.{total}
use daxib.Prelude.Int.{ℤ, pos, ◌≤ℤ◌}
use daxib.Prelude.Int64.{add64, add64-pos}
use daxib.Coinselect.Bnb.{
  Best, Search, found, branch, visit, improves, record_best, dfs, search, bnb, max_bnb_iterations,
}
use daxib.Coinselect.Bnb.Chosen.{Chosen, skip, take, Chosen-total-le}
use daxib.Coinselect.Bnb.Window.{
  Holds, InWindow, search-InWindow, visit-pos, dfs_nil_cases, dfs_cons_cases,
}

-- The best subset has at most `count` indices, and where it has as many its sum is at most `sum`.
unfoldable pub Beats : Option Best → ℕ → ℤ → Type 0
Beats none count sum = ⊥
Beats (some b) count sum = (length b.sel < count) ⊎ ((length b.sel ≡ count) × (b.sum ≤ℤ sum))

Beats-mono :
    (o : Option Best) (c c' : ℕ) (v v' : ℤ) → c ≤ c' → v ≤ℤ v' → Beats o c v → Beats o c' v'
unfolding Beats
Beats-mono none c c' v v' h k b = b
Beats-mono (some b) c c' v v' h k (inl lt) = inl (omega arith)
Beats-mono (some b) c c' v v' h k (inr (e, le)) = ground arith

record_best-Beats_self :
    (cur : List ℕ) (sum : ℤ) (st : Search) → Beats (record_best cur sum st).best (length cur) sum
unfolding record_best improves Beats
record_best-Beats_self cur sum st = ground arith

record_best-Beats :
    (cur : List ℕ) (sum : ℤ) (st : Search) (c : ℕ) (v : ℤ)
    → Beats st.best c v
    → Beats (record_best cur sum st).best c v
unfolding record_best improves Beats
record_best-Beats cur sum st c v h = ground arith

pub record_best-iters :
    (cur : List ℕ) (sum : ℤ) (st : Search) → (record_best cur sum st).iters ≡ st.iters
unfolding record_best
record_best-iters cur sum st = ground arith

-- A later visit keeps what the best subset beats, and the visits are counted up.
dfs-Beats :
    (t u : ℤ) (xs : List ℤ) (d : ℕ) (sum : ℤ) (cur : List ℕ) (st : Search) (c : ℕ) (v : ℤ)
    → Beats st.best c v
    → Beats (dfs t u xs d sum cur st).best c v
dfs-Beats t u [] d sum cur st c v h =
    dfs_nil_cases (λ st'. Beats st'.best c v) t u d sum cur st (λ e. h) (λ e. h)
      (λ e. record_best-Beats cur sum _ c v h)
dfs-Beats t u (x ∷ xs) d sum cur st c v h =
    dfs_cons_cases (λ st'. Beats st'.best c v) t u x xs d sum cur st (λ e. h) (λ e. h)
      (λ e. record_best-Beats cur sum _ c v h)
      (λ e. dfs-Beats t u xs (suc d) sum cur _ c v (dfs-Beats t u xs (suc d) _ _ _ c v h))

dfs-iters_le :
    (t u : ℤ) (xs : List ℤ) (d : ℕ) (sum : ℤ) (cur : List ℕ) (st : Search)
    → st.iters ≤ (dfs t u xs d sum cur st).iters
dfs-iters_le t u [] d sum cur st =
    dfs_nil_cases (λ st'. st.iters ≤ st'.iters) t u d sum cur st (λ e. omega arith)
      (λ e. omega arith)
      (λ e. rw (record_best-iters cur sum (record st { iters = suc st.iters })) (omega arith))
dfs-iters_le t u (x ∷ xs) d sum cur st =
    dfs_cons_cases (λ st'. st.iters ≤ st'.iters) t u x xs d sum cur st (λ e. omega arith)
      (λ e. omega arith)
      (λ e. rw (record_best-iters cur sum (record st { iters = suc st.iters })) (omega arith))
      (λ e.
        let st1 = record st { iters = suc st.iters } in
        let taken = dfs t u xs (suc d) (add64 sum x) (cur ++ (d ∷ [])) st1 in
        omega (
          arith,
          dfs-iters_le t u xs (suc d) (add64 sum x) (cur ++ (d ∷ [])) st1,
          dfs-iters_le t u xs (suc d) sum cur taken,
        ))

-- A subset recorded on the way beats its extensions.
found-Beats :
    (cur sel : List ℕ) (s v : ℕ) (st : Search)
    → s ≤ v
    → Beats (record_best cur (pos s) st).best (length cur + length sel) (pos v)
found-Beats cur sel s v st h =
    Beats-mono _ (length cur) _ (pos s) (pos v) (omega arith) (omega arith)
      (record_best-Beats_self cur (pos s) st)

stop-beyond :
    (t u s : ℕ) (xs items sel : List ℕ) (d : ℕ)
    → s + total xs < 2 ^ 63
    → visit (pos t) (pos u) (pos s) (map pos xs) ≢ found
    → visit (pos t) (pos u) (pos s) (map pos xs) ≢ branch
    → Chosen d xs sel items
    → t ≤ s + total items
    → s + total items ≤ u
    → ⊥
stop-beyond t u s xs items sel d bound nf nb c lo hi =
    grind (arith, visit-pos t u s xs bound, Chosen-total-le c)

visit_nil : (t u s : ℤ) → visit t u s [] ≢ branch
unfolding visit
visit_nil t u s = ground arith

-- What dfs leaves beats a subset with `count` more indices and the sum `v`, if it was not stopped.
abbrev Done : ℕ → ℕ → Search → Type 0
Done count v st = st.iters < max_bnb_iterations → Beats st.best count (pos v)

-- The cases of dfs where it does not branch.
shallow :
    (t u x s : ℕ) (xs : List ℕ) (d : ℕ) (cur : List ℕ) (st : Search) {sel items : List ℕ}
    → s + total (x ∷ xs) < 2 ^ 63
    → Chosen d (x ∷ xs) sel items
    → t ≤ s + total items
    → s + total items ≤ u
    → let st1 = record st { iters = suc st.iters } in
      Done (length cur + length sel) (s + total items) (
        dfs
          (pos t)
          (pos u)
          (map pos xs)
          (suc d)
          (pos s)
          cur
          (dfs (pos t) (pos u) (map pos xs) (suc d) (pos (s + x)) (cur ++ (d ∷ [])) st1))
      → Done
          (length cur + length sel)
          (s + total items)
          (dfs (pos t) (pos u) (map pos (x ∷ xs)) d (pos s) cur st)
shallow t u x s xs d cur st {sel} {items} bound c lo hi deep =
    dfs_cons_cases (Done (length cur + length sel) (s + total items)) (pos t) (pos u) (pos x)
      (map pos xs) d (pos s) cur st (λ e k. absurd (omega arith))
      (λ e k. absurd (stop-beyond t u s (x ∷ xs) items sel d bound (λ q. cc) (λ q. cc) c lo hi))
      (λ e k. found-Beats cur sel s (s + total items) _ (omega arith))
      (λ e. rw (add64-pos s x (omega arith)) deep)

pub dfs-Fewest :
    (t u : ℕ) (xs : List ℕ) (d s : ℕ) (cur : List ℕ) (st : Search) {sel items : List ℕ}
    → s + total xs < 2 ^ 63
    → Chosen d xs sel items
    → t ≤ s + total items
    → s + total items ≤ u
    → Done
        (length cur + length sel)
        (s + total items)
        (dfs (pos t) (pos u) (map pos xs) d (pos s) cur st)
dfs-Fewest t u [] d s cur st {sel} {items} bound c lo hi =
    dfs_nil_cases (Done (length cur + length sel) (s + total items)) (pos t) (pos u) d (pos s) cur
      st (λ e k. absurd (omega arith))
      (λ e k. absurd (stop-beyond t u s [] items sel d bound e (visit_nil _ _ _) c lo hi))
      (λ e k. found-Beats cur sel s (s + total items) _ (omega arith))
dfs-Fewest t u (x ∷ xs) d s cur st bound (skip c) lo hi =
    shallow t u x s xs d cur st bound (skip c) lo hi
      (dfs-Fewest t u xs (suc d) s cur _ (omega arith) c lo hi)
dfs-Fewest t u (x ∷ xs) d s cur st bound (take {sel = sel} {items = items} c) lo hi =
    shallow t u x s xs d cur st bound (take c) lo hi (λ k. dfs-Beats _ _ _ _ _ _ _ _ _ (
      Beats-mono _ (length (cur ++ (d ∷ [])) + length sel) _ (pos (s + x + total items)) _
        (omega (arith, length-append cur (d ∷ []))) (omega arith)
        (dfs-Fewest t u xs (suc d) (s + x) (cur ++ (d ∷ [])) _ (omega arith) c (omega arith)
          (omega arith)
          (omega (
            arith,
            dfs-iters_le (pos t) (pos u) (map pos xs) (suc d) (pos s) cur (
                dfs (pos t) (pos u) (map pos xs) (suc d) (pos (s + x)) (cur ++ (d ∷ []))
                  (record st { iters = suc st.iters })),
          )))))

-- Fewest indices, then the smallest sum.
abbrev pub NoBetter : List ℕ → List ℕ → (sel items : List ℕ) → Type 0
NoBetter best_sel best_items sel items =
    (length best_sel < length sel)
    ⊎ ((length best_sel ≡ length sel) × (total best_items ≤ total items))

Beats-sel :
    (t u : ℕ) (xs : List ℕ) (o : Option Best) (sel items : List ℕ)
    → Holds (InWindow t u xs) o
    → Beats o (length sel) (pos (total items))
    → (best : List ℕ) × (best_items : List ℕ) × (elim o [ none ↦ none | some b ↦ some b.sel ]
        ≡ some best)
      × Chosen 0 xs best best_items
      × (t ≤ total best_items)
      × (total best_items ≤ u)
      × NoBetter best best_items sel items
unfolding Beats
Beats-sel t u xs none sel items q h = absurd h
Beats-sel t u xs (some b) sel items (best_items, c, lo, hi, e) h =
    (b.sel, best_items, refl, c, lo, hi, ground arith)

-- Where no sum wraps around and the cap on the visits is not met, bnb finds a subset in the window
-- whenever there is one, and the one it returns has the fewest indices of all, and among those the
-- smallest sum.
pub bnb-Fewest :
    (t u : ℕ) (xs sel items : List ℕ)
    → total xs < 2 ^ 63
    → (search (map pos xs) (pos t) (pos u)).iters < max_bnb_iterations
    → Chosen 0 xs sel items
    → t ≤ total items
    → total items ≤ u
    → (best : List ℕ) × (best_items : List ℕ) × (bnb (map pos xs) (pos t) (pos u) ≡ some best)
      × Chosen 0 xs best best_items
      × (t ≤ total best_items)
      × (total best_items ≤ u)
      × NoBetter best best_items sel items
unfolding bnb search
bnb-Fewest t u xs sel items bound visits c lo hi =
    Beats-sel t u xs _ sel items (search-InWindow t u xs bound) (
      Beats-mono _ (0 + length sel) (length sel) (pos (0 + total items)) (pos (total items))
        (omega arith) (omega arith)
        (dfs-Fewest t u xs 0 0 [] _ (omega arith) c (omega arith) (omega arith) visits))
