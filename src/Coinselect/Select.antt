-- ===== src/Coinselect/Select.antt =====
-- Select (internal/coinselect/select.go): the gates, the economic coins in their order, then
-- branch and bound, the accumulation with change, and the spend without change.
pub mod Economic
pub mod Accumulate
pub mod Valid
pub mod Success
use daxib.Prelude.{
  ℕ, suc, ◌+◌, Bool, true, false, ◌||◌, ◌&&◌, not, List, [], ◌∷◌, ◌++◌, map, Option, none, some,
  ltb, ◌==◌, length, get_elem?, if◌then◌else◌, Text,
}
use daxib.Prelude.Int.{ℤ, pos, ltb_ℤ}
use daxib.Prelude.Int64.{add64, sub64}
use daxib.Prelude.Outcome.{Outcome, ok, err}
use daxib.Prelude.Sort.{sort, text_lt}
use daxib.Coinselect.{
  Coin, Params, Selection, SelectError, bad_amount, dust_output, insufficient, p2wpkh_input_v_bytes,
  p2wpkh_output_v_bytes, dust_threshold_p2wpkh, estimate_vsize_out, fee_for,
}
use daxib.Coinselect.Bnb.{bnb}

-- The local type ec.
pub record Kept : Type 0 where
  pub coin : Coin
  pub eff_val : ℤ

-- sortInputs
unfoldable pub sort_inputs : List Coin → List Coin
sort_inputs coins = sort (λ a b. text_lt a.outpoint b.outpoint) coins

-- The filter loop: the economic coins and their effective values.
unfoldable pub keep_economic : ℤ → List Coin → List Kept
keep_economic input_fee [] = []
keep_economic input_fee (c ∷ cs) =
    let rest = keep_economic input_fee cs in
    let ev = sub64 c.value_sat input_fee in
    if not (ltb_ℤ (pos 0) c.value_sat)
    then rest
    else if not (ltb_ℤ (pos 0) ev)
    then rest
    else record { coin = c; eff_val = ev } ∷ rest

-- A running sum, from `acc` on.
unfoldable pub sum_from : ℤ → List ℤ → ℤ
sum_from acc [] = acc
sum_from acc (x ∷ xs) = sum_from (add64 acc x) xs

-- The order of the candidates: effective value first, larger before smaller, then the outpoint.
unfoldable pub before : Kept → Kept → Bool
before a b =
    if ltb_ℤ a.eff_val b.eff_val || ltb_ℤ b.eff_val a.eff_val
    then ltb_ℤ b.eff_val a.eff_val
    else text_lt a.coin.outpoint b.coin.outpoint

-- The coins at the indices that bnb gives.
unfoldable pub pick {ℓ} : {A : Type ℓ} → List A → List ℕ → List A
pick xs [] = []
pick xs (i ∷ sel) = elim (get_elem? xs i) [ none ↦ pick xs sel | some x ↦ x ∷ pick xs sel ]

-- What the run computes once from the parameters.
unfoldable pub fee_rate_of : Params → ℤ
fee_rate_of p = if ltb_ℤ p.fee_rate_sat_vb (pos 1) then pos 1 else p.fee_rate_sat_vb

unfoldable pub recip_vb_of : Params → ℤ
recip_vb_of p =
    if ltb_ℤ (pos 0) p.recipient_v_bytes then p.recipient_v_bytes else p2wpkh_output_v_bytes

unfoldable pub vsize_of : Params → ℕ → ℤ → ℤ
vsize_of p nin outs = estimate_vsize_out (pos nin) (recip_vb_of p) outs

unfoldable pub fee_of : Params → ℕ → ℤ → ℤ
fee_of p nin outs = fee_for (vsize_of p nin outs) (fee_rate_of p)

unfoldable pub changeless : Params → List Coin → ℤ → Selection
changeless p picked sum_val = record {
  inputs = sort_inputs picked;
  change_sat = pos 0;
  fee_sat = sub64 sum_val p.target;
  vsize_vb = vsize_of p (length picked) (pos 0);
  has_change = false;
}

unfoldable pub with_change : Params → List Coin → ℤ → Selection
with_change p picked sum_val =
    let fee = fee_of p (length picked) (pos 1) in
    record {
      inputs = sort_inputs picked;
      change_sat = sub64 (sub64 sum_val p.target) fee;
      fee_sat = fee;
      vsize_vb = vsize_of p (length picked) (pos 1);
      has_change = true;
    }

unfoldable pub needed : Params → ℕ → ℤ
needed p nin = add64 (add64 p.target (fee_of p nin (pos 1))) dust_threshold_p2wpkh

-- The accumulation loop; with no coin left, the spend without change or the failure.
unfoldable pub accumulate : Params → List Coin → ℤ → List Coin → Outcome SelectError Selection
accumulate p picked sum_val [] =
    let needed_no_change = add64 p.target (fee_of p (length picked) (pos 0)) in
    if not (ltb_ℤ sum_val needed_no_change)
    then ok (changeless p picked sum_val)
    else err (insufficient sum_val needed_no_change p.target)
accumulate p picked sum_val (c ∷ cs) =
    let picked' = picked ++ (c ∷ []) in
    let sum_val' = add64 sum_val c.value_sat in
    let rest = accumulate p picked' sum_val' cs in
    if not (ltb_ℤ sum_val' (needed p (length picked')))
    then ok (with_change p picked' sum_val')
    else rest

unfoldable pub values : List Coin → List ℤ
values coins = map (λ c. c.value_sat) coins

unfoldable pub bnb_target : Params → ℤ
bnb_target p = add64 p.target (fee_of p 0 (pos 0))

unfoldable pub upper_bound : Params → ℤ
upper_bound p =
    let cost_of_change = fee_for p2wpkh_output_v_bytes (fee_rate_of p) in
    sub64 (add64 (add64 (bnb_target p) cost_of_change) dust_threshold_p2wpkh) (pos 1)

-- The part after the insufficiency gate.
unfoldable pub choose : Params → List Kept → Outcome SelectError Selection
choose p kept =
    let sorted = sort before kept in
    let coins_by_idx = map (λ k. k.coin) sorted in
    elim (bnb (map (λ k. k.eff_val) sorted) (bnb_target p) (upper_bound p)) [
      | some sel ↦
          let picked = pick coins_by_idx sel in
          ok (changeless p picked (sum_from (pos 0) (values picked)))
      | none ↦ accumulate p [] (pos 0) coins_by_idx
    ]

unfoldable pub select : List Coin → Params → Outcome SelectError Selection
select coins p =
    if not (ltb_ℤ (pos 0) p.target)
    then err (bad_amount p.target)
    else if ltb_ℤ p.target dust_threshold_p2wpkh
    then err (dust_output p.target)
    else let kept = keep_economic (fee_for p2wpkh_input_v_bytes (fee_rate_of p)) coins in
      let total_avail = sum_from (pos 0) (values (map (λ k. k.coin) kept)) in
      let total_eff = sum_from (pos 0) (map (λ k. k.eff_val) kept) in
      if ltb_ℤ total_eff (bnb_target p)
      then err (insufficient total_avail (add64 p.target (fee_of p 1 (pos 0))) p.target)
      else choose p kept
