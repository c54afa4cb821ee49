-- ===== src/Coinselect/Tests.antt =====
-- Tests of coin selection, and the instances at which its theorems apply.
use daxib.Prelude.{
  ℕ, ◌+◌, ◌*◌, ◌≤◌, ◌<◌, ◌^◌, ◌≡◌, refl, arith, List, [], ◌∷◌, map, length, some, codes, Option,
  Bool, true, false,
}
use daxib.Prelude.Int.{ℤ, pos, negsuc}
use daxib.Prelude.Int64.{sub64}
use daxib.Prelude.Outcome.{Outcome, err}
use daxib.Prelude.Subsets.{total}
use daxib.Coinselect.{Coin, Params, Selection, SelectError, insufficient, dust_output}
use daxib.Coinselect.Dust.{dust_threshold_for_script}
use daxib.Coinselect.Bnb.{bnb, search, max_bnb_iterations}
use daxib.Coinselect.Bnb.Chosen.{Chosen, skip, take, none_left}
use daxib.Coinselect.Bnb.Fewest.{bnb-Fewest, NoBetter}
use daxib.Coinselect.Bnb.Visits.{search-iters-lt_cap}
use daxib.Coinselect.Select.{select, keep_economic, fee_rate_of, recip_vb_of}
use daxib.Coinselect.Select.Accumulate.{Good, cost}
use daxib.Coinselect.Select.Valid.{select-Good, select-err}

abbrev coin_of : ℕ → ℤ → Coin
coin_of i v = record { outpoint = i ∷ codes ":0"; branch = 0; index = i; value_sat = v }

abbrev coins : List Coin
coins =
    coin_of 97 (pos 100000)
    ∷ coin_of 98 (pos 60000)
    ∷ coin_of 99 (pos 300)
    ∷ coin_of 100 (negsuc 4)
    ∷ []

abbrev params : Params
params = record { target = pos 120000; fee_rate_sat_vb = pos 5; recipient_v_bytes = pos 43 }

abbrev too_much : Params
too_much = record { target = pos 160000; fee_rate_sat_vb = pos 5; recipient_v_bytes = pos 43 }

test_select : Outcome SelectError Selection
test_select = select coins params

select-Good_example : Good params coins (select coins params)
unfolding fee_rate_of recip_vb_of keep_economic sub64
select-Good_example = select-Good coins params refl (omega arith) (omega arith) (omega arith)

abbrev values : List ℕ
values = 50 ∷ 30 ∷ 20 ∷ 10 ∷ []

bnb-finds : bnb (map pos values) (pos 60) (pos 62) ≡ some (0 ∷ 3 ∷ [])
unfolding bnb search daxib.Coinselect.Bnb.dfs daxib.Coinselect.Bnb.visit daxib.Prelude.Int64.add64
    daxib.Coinselect.Bnb.suffix_sum daxib.Coinselect.Bnb.record_best daxib.Coinselect.Bnb.improves
bnb-finds = refl

p2wpkh_dust : dust_threshold_for_script (0 ∷ 20 ∷ codes "abcdefghijklmnopqrst") ≡ pos 294
unfolding dust_threshold_for_script daxib.Prelude.Int64.mul64
    daxib.Coinselect.Dust.is_witness_program_bytes daxib.Prelude.Int64.add64
    daxib.Coinselect.var_int_size
p2wpkh_dust = refl

bnb-Fewest_example :
    (best : List ℕ) × (best_items : List ℕ) × (bnb (map pos values) (pos 60) (pos 62) ≡ some best)
    × Chosen 0 values best best_items
    × (60 ≤ total best_items)
    × (total best_items ≤ 62)
    × NoBetter best best_items (1 ∷ 2 ∷ 3 ∷ []) (30 ∷ 20 ∷ 10 ∷ [])
bnb-Fewest_example =
    bnb-Fewest 60 62 values (1 ∷ 2 ∷ 3 ∷ []) (30 ∷ 20 ∷ 10 ∷ []) (omega arith)
      (search-iters-lt_cap (map pos values) (pos 60) (pos 62) (omega arith))
      (skip (take (take (take none_left)))) (omega arith) (omega arith)

select-err_example :
    select coins too_much
    ≡ err (insufficient (pos 160000) (pos (160000 + cost too_much 1 0)) (pos 160000))
unfolding fee_rate_of recip_vb_of keep_economic sub64
select-err_example = select-err coins too_much refl (omega arith) (omega arith) (omega arith)
