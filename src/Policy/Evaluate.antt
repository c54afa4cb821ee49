-- ===== src/Policy/Evaluate.antt =====
-- The pure rule set (internal/policy/evaluate.go): a spend is checked against the resolved limits of
-- its network, and the first violation in order is returned. An instant is a number of nanoseconds.
-- `Reason` is a fixed text for each code and is not modelled; `Data` is a constructor for each code.
pub mod Limits
pub mod Addresses
pub mod InForce
pub mod FirstViolation
use daxib.Prelude.{
  ℕ, ◌+◌, ◌*◌, ◌^◌, Bool, true, false, ◌&&◌, ◌||◌, not, List, [], ◌∷◌, Option, none, some,
  if◌then◌else◌, Text, codes, text_eq, is_empty, equal_fold,
}
use daxib.Prelude.Int.{ℤ, pos, ◌+ℤ◌, ltb_ℤ}
use daxib.Prelude.Int64.{add64, sub64}
use daxib.Policy.Body.{Policy, PinEntry, or_zero}
use Limits.{ResolvedLimits, resolve_limits}

pub record Check : Type 0 where
  pub network : Text
  pub recipient : Text
  pub amount_sat : ℤ
  pub fee_sat : ℤ
  pub fee_rate : ℤ
  pub change_addr : Text
  pub prior_spent_sat : ℤ

-- spendSat, in int64
unfoldable pub spend_sat : Check → ℤ
unfolding add64
spend_sat c = add64 c.amount_sat c.fee_sat

-- windowCharge, in int64
unfoldable pub window_charge : Check → ℤ
unfolding add64 sub64
window_charge c =
    let v = sub64 (add64 c.amount_sat c.fee_sat) c.prior_spent_sat in
    if ltb_ℤ v (pos 0) then pos 0 else v

pub data Code : Type 0 where
  denied_denylisted denied_not_allowlisted denied_tx_limit denied_day_limit denied_fee_rate : Code

-- The `Data` of a denial.
pub data Details : Type 0 where
  no_details : Details
  denylisted : Text → Details
  not_allowlisted : (address : Text) (include_self : Bool) → Details
  tx_limit : (limit attempted : ℤ) (network : Text) → Details
  day_limit : (limit used attempted : ℤ) (retry_after : ℕ) (network : Text) → Details
  fee_cap : (cap attempted : ℤ) (network : Text) → Details

pub record Decision : Type 0 where
  pub allowed : Bool
  pub code : Option Code
  pub retry_after : Option ℕ
  pub details : Details

abbrev pub allow : Decision
allow = record { allowed = true; code = none; retry_after = none; details = no_details }

abbrev pub deny : Code → Details → Decision
deny c d = record { allowed = false; code = some c; retry_after = none; details = d }

-- matchPinAddr
unfoldable pub match_pin_addr : List PinEntry → Text → Bool
match_pin_addr [] dest = false
match_pin_addr (p ∷ ps) dest =
    (text_eq p.source (codes "address") && equal_fold p.address dest) || match_pin_addr ps dest

unfoldable pub any_fold : List Text → Text → Bool
any_fold [] dest = false
any_fold (a ∷ as') dest = equal_fold a dest || any_fold as' dest

-- The transaction's own change address.
unfoldable pub is_change : Check → Bool
is_change req = not (is_empty req.change_addr) && equal_fold req.change_addr req.recipient

-- isSelf
unfoldable pub is_self : Policy → Check → Bool
unfolding is_change any_fold
is_self p req = is_change req || any_fold p.self_addresses req.recipient

-- The allowlist gate of stage 2.
unfoldable pub admitted : Policy → Check → Bool → Bool
unfolding match_pin_addr is_change is_self
admitted p req include_self =
    match_pin_addr p.allowlist req.recipient || (is_change req || (include_self && is_self p req))

-- 24 hours.
abbrev pub window : ℕ
window = 24 * 3600 * 10 ^ 9

unfoldable pub check_fee_rate : ResolvedLimits → Check → Decision
check_fee_rate lim req = elim lim.max_fee_rate [
  | none ↦ allow
  | some cap ↦
      if ltb_ℤ cap req.fee_rate
      then deny denied_fee_rate (fee_cap cap req.fee_rate req.network)
      else allow
]

unfoldable pub check_day : ResolvedLimits → Check → Option ℤ → ℕ → Decision
check_day lim req spent now = elim lim.max_day [
  | none ↦ check_fee_rate lim req
  | some limit ↦
      if ltb_ℤ limit (or_zero spent +ℤ window_charge req)
      then record {
        allowed = false;
        code = some denied_day_limit;
        retry_after = some (now + window);
        details = day_limit limit (or_zero spent) (window_charge req) (now + window) req.network;
      }
      else check_fee_rate lim req
]

unfoldable pub check_tx : ResolvedLimits → Check → Option ℤ → ℕ → Decision
check_tx lim req spent now = elim lim.max_tx [
  | none ↦ check_day lim req spent now
  | some limit ↦
      if ltb_ℤ limit (spend_sat req)
      then deny denied_tx_limit (tx_limit limit (spend_sat req) req.network)
      else check_day lim req spent now
]

-- Evaluate; an absent `spent` is a nil window total, which counts as zero.
unfoldable pub evaluate : Policy → Check → Option ℤ → ℕ → Decision
evaluate p req spent now =
    let lim = resolve_limits p req.network in
    if match_pin_addr p.denylist req.recipient
    then deny denied_denylisted (denylisted req.recipient)
    else if lim.allowlist_on && not (admitted p req lim.include_self)
    then deny denied_not_allowlisted (not_allowlisted req.recipient lim.include_self)
    else check_tx lim req spent now
