-- ===== src/Coinselect/Bnb/Visits.antt =====
-- How many visits branch and bound makes (bnb of internal/coinselect/select.go).
use daxib.Prelude.{ℕ, zero, suc, ◌+◌, ◌≤◌, ◌<◌, arith, List, [], ◌∷◌, ◌++◌, length, none}
use daxib.Prelude.Int.{ℤ, pos}
use daxib.Prelude.Int64.{add64}
use daxib.Coinselect.Bnb.{Search, dfs, search, max_bnb_iterations}
use daxib.Coinselect.Bnb.Window.{dfs_nil_cases, dfs_cons_cases}
use daxib.Coinselect.Bnb.Fewest.{record_best-iters}

-- The nodes of the full binary tree over n values.
abbrev nodes : ℕ → ℕ
nodes zero = 1
nodes (suc n) = 1 + nodes n + nodes n

nodes_mono : (n m : ℕ) → n ≤ m → nodes n ≤ nodes m
nodes_mono zero zero h = omega arith
nodes_mono zero (suc m) h = omega (arith, nodes_mono zero m (omega arith))
nodes_mono (suc n) zero h = absurd (omega arith)
nodes_mono (suc n) (suc m) h = omega (arith, nodes_mono n m (omega arith))

dfs-iters_nodes :
    (t u : ℤ) (xs : List ℤ) (d : ℕ) (sum : ℤ) (cur : List ℕ) (st : Search)
    → (dfs t u xs d sum cur st).iters ≤ st.iters + nodes (length xs)
dfs-iters_nodes t u [] d sum cur st =
    dfs_nil_cases (λ st'. st'.iters ≤ st.iters + 1) t u d sum cur st (λ e. omega arith)
      (λ e. omega arith)
      (λ e. rw (record_best-iters cur sum (record st { iters = suc st.iters })) (omega arith))
dfs-iters_nodes t u (x ∷ xs) d sum cur st =
    dfs_cons_cases (λ st'. st'.iters ≤ st.iters + nodes (suc (length xs))) t u x xs d sum cur st
      (λ e. omega arith) (λ e. omega arith)
      (λ e. rw (record_best-iters cur sum (record st { iters = suc st.iters })) (omega arith))
      (λ e.
        let st1 = record st { iters = suc st.iters } in
        let taken = dfs t u xs (suc d) (add64 sum x) (cur ++ (d ∷ [])) st1 in
        omega (
          arith,
          dfs-iters_nodes t u xs (suc d) (add64 sum x) (cur ++ (d ∷ [])) st1,
          dfs-iters_nodes t u xs (suc d) sum cur taken,
        ))

-- On at most fifteen values the search ends before the cap on its visits, whatever the values are.
pub search-iters-lt_cap :
    (xs : List ℤ) (t u : ℤ) → length xs ≤ 15 → (search xs t u).iters < max_bnb_iterations
unfolding search
search-iters-lt_cap xs t u h = omega (
  arith,
  dfs-iters_nodes t u xs 0 (pos 0) [] (record { iters = 0; best = none }),
  nodes_mono (length xs) 15 h,
)
