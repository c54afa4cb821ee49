-- ===== src/Coinselect/Bnb.antt =====
-- The branch-and-bound search of coin selection (internal/coinselect/select.go, bnb).
pub mod Chosen
pub mod Window
pub mod Fewest
pub mod Visits
use daxib.Prelude.{
  ℕ, suc, Bool, ◌||◌, ◌&&◌, not, List, [], ◌∷◌, ◌++◌, Option, none, some, ltb, leb, ◌==◌, length,
  if◌then◌else◌,
}
use daxib.Prelude.Int.{ℤ, pos, ltb_ℤ}
use daxib.Prelude.Int64.{add64}

abbrev pub max_bnb_iterations : ℕ
max_bnb_iterations = 100000

-- bestSel and bestSum; bestCount is the number of indices.
pub record Best : Type 0 where
  pub sel : List ℕ
  pub sum : ℤ

-- What the closure dfs changes: `none` is haveBest = false.
pub record Search : Type 0 where
  pub iters : ℕ
  pub best : Option Best

-- suffix[i], on the values from i on.
unfoldable pub suffix_sum : List ℤ → ℤ
suffix_sum [] = pos 0
suffix_sum (x ∷ xs) = add64 (suffix_sum xs) x

-- Whether a subset in the window replaces the best one.
unfoldable pub improves : Option Best → ℕ → ℤ → Bool
improves none count sum = Bool.true
improves (some b) count sum = ltb count (length b.sel) || (count == length b.sel && ltb_ℤ sum b.sum)

-- The tests of dfs before it branches.
pub data Visit : Type 0 where
  stop found branch : Visit

unfoldable pub visit : ℤ → ℤ → ℤ → List ℤ → Visit
visit target upper_bound sum rest =
    if ltb_ℤ upper_bound sum
    then stop
    else if not (ltb_ℤ sum target)
    then found
    else let out_of_reach = ltb_ℤ (add64 sum (suffix_sum rest)) target in
      elim rest [ [] ↦ stop | _ ∷ _ ↦ if out_of_reach then stop else branch ]

unfoldable pub record_best : List ℕ → ℤ → Search → Search
record_best cur sum st =
    if improves st.best (length cur) sum
    then record st { best = some (record { sel = cur; sum = sum }) }
    else st

-- dfs, on the values from depth on.
unfoldable pub dfs : (target upper_bound : ℤ) → List ℤ → ℕ → ℤ → List ℕ → Search → Search
dfs target upper_bound [] depth sum cur st =
    if leb max_bnb_iterations st.iters
    then st
    else let st1 = record st { iters = suc st.iters } in
      elim (visit target upper_bound sum []) [
        | stop ↦ st1
        | found ↦ record_best cur sum st1
        | branch ↦ st1
      ]
dfs target upper_bound (x ∷ rest) depth sum cur st =
    if leb max_bnb_iterations st.iters
    then st
    else let st1 = record st { iters = suc st.iters } in
      elim (visit target upper_bound sum (x ∷ rest)) [
        | stop ↦ st1
        | found ↦ record_best cur sum st1
        | branch ↦
            let taken =
              dfs target upper_bound rest (suc depth) (add64 sum x) (cur ++ (depth ∷ [])) st1 in
            dfs target upper_bound rest (suc depth) sum cur taken
      ]

-- The search that bnb runs.
unfoldable pub search : List ℤ → ℤ → ℤ → Search
search eff_vals target upper_bound =
    dfs target upper_bound eff_vals 0 (pos 0) [] (record { iters = 0; best = none })

unfoldable pub bnb : List ℤ → ℤ → ℤ → Option (List ℕ)
bnb eff_vals target upper_bound = elim (search eff_vals target upper_bound).best [
  | none ↦ none
  | some b ↦ some b.sel
]
