-- ===== src/Service/FeeRate.antt =====
-- Fee rates (parseFeeRate and resolveFeeRate of internal/service/fee.go, resolveBumpRate of
-- internal/service/tx_replace.go). Texts are ASCII.
pub mod Bounds
use daxib.Prelude.{
  ℕ, ◌-◌, Bool, true, false, not, [], ◌∷◌, ◌||◌, ltb, ◌==◌, if◌then◌else◌, Text, codes, text_eq,
  is_empty,
}
use daxib.Prelude.Int.{ℤ, pos, ltb_ℤ}
use daxib.Prelude.Int64.{add64, mul64}
use daxib.Prelude.Outcome.{Outcome, ok, err, ◌>>=◌, ◌>>◌, require}
use daxib.Amounts.{trim_char}

pub data FeeRateError : Type 0 where
  not_integer over_cap below_floor unknown_speed : FeeRateError

-- minRelayFeeRate
abbrev pub min_relay_fee_rate : ℤ
min_relay_fee_rate = pos 1

-- maxFeeRate
abbrev pub max_fee_rate : ℤ
max_fee_rate = pos 10000000

-- The loop of parseFeeRate.
unfoldable pub add_rate_digits : ℤ → Text → Outcome FeeRateError ℤ
add_rate_digits rate [] = ok rate
add_rate_digits rate (c ∷ s) =
    let rate' = add64 (mul64 rate (pos 10)) (pos (c - b'0')) in
    let rest = add_rate_digits rate' s in
    if ltb c b'0' || ltb b'9' c
    then err not_integer
    else if ltb_ℤ max_fee_rate rate'
    then err over_cap
    else rest

-- parseFeeRate
unfoldable pub parse_fee_rate : Text → Outcome FeeRateError ℤ
parse_fee_rate s =
    let body = trim_char b'+' s in
    if is_empty body then err not_integer else do
      rate ← add_rate_digits (pos 0) body
      require (not (ltb_ℤ rate min_relay_fee_rate)) below_floor
      ok rate

-- domain.FeeEstimates, without its table by target.
pub record FeeEstimates : Type 0 where
  pub slow : ℤ
  pub normal : ℤ
  pub fast : ℤ

abbrev pub at_least : ℤ → ℤ → ℤ
at_least lo n = if ltb_ℤ n lo then lo else n

abbrev pub at_most : ℤ → ℤ → ℤ
at_most hi n = if ltb_ℤ hi n then hi else n

-- resolveFeeRate; the default speed is "normal".
unfoldable pub resolve_fee_rate : (rate speed : Text) → FeeEstimates → Outcome FeeRateError ℤ
resolve_fee_rate rate speed est =
    if not (is_empty rate)
    then parse_fee_rate rate
    else if text_eq speed (codes "slow")
    then ok (at_least min_relay_fee_rate est.slow)
    else if text_eq speed (codes "fast")
    then ok (at_least min_relay_fee_rate est.fast)
    else if is_empty speed || text_eq speed (codes "normal")
    then ok (at_least min_relay_fee_rate est.normal)
    else err unknown_speed

-- resolveBumpRate
unfoldable pub resolve_bump_rate : Text → (orig_rate : ℤ) → FeeEstimates → Outcome FeeRateError ℤ
resolve_bump_rate rate orig_rate est =
    if not (is_empty rate)
    then parse_fee_rate rate
    else let bump = add64 orig_rate (pos 1) in
      let bump' = if ltb_ℤ bump est.fast then est.fast else bump in
      ok (at_most max_fee_rate (at_least min_relay_fee_rate bump'))
