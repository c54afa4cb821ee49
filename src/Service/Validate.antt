-- ===== src/Service/Validate.antt =====
-- The checks of a send before any call of a backend (validateSendInputs, validateSpeed and
-- recipientDustThreshold of internal/service/send.go).
pub mod Accepts
use daxib.Prelude.{
  Bool, true, false, ◌||◌, not, Option, none, some, if◌then◌else◌, Text, codes, text_eq, is_empty,
}
use daxib.Prelude.Int.{ℤ, pos, ltb_ℤ}
use daxib.Prelude.Outcome.{Outcome, ok, err, ◌>>=◌, ◌>>◌, require, or_fail}
use daxib.Amounts.{AmountError, parse_amount_to_sats}
use daxib.Coinselect.{dust_threshold_p2wpkh}
use daxib.Coinselect.Dust.{dust_threshold_for_script}
use daxib.Service.Funding.{Btc, BuildError, amount_not_positive, bad_address, parsed}
use daxib.Service.FeeRate.{FeeRateError, unknown_speed, parse_fee_rate}

pub data InputError : Type 0 where
  bad_input : BuildError → InputError
  dust_output : (amount_sat threshold : ℤ) → InputError
  bad_fee_rate : FeeRateError → InputError

-- validateSpeed
unfoldable pub validate_speed : Text → Outcome FeeRateError (Unit {0})
validate_speed speed =
    require
      (is_empty speed
        || text_eq speed (codes "slow")
        || text_eq speed (codes "normal")
        || text_eq speed (codes "fast"))
      unknown_speed

-- recipientDustThreshold
unfoldable pub recipient_dust_threshold : Btc → Text → ℤ
recipient_dust_threshold b addr = elim (b.pay_to_addr_script addr) [
  | none ↦ dust_threshold_p2wpkh
  | some script ↦ dust_threshold_for_script script
]

abbrev pub as_input {ℓ} : {A : Type ℓ} → Outcome BuildError A → Outcome InputError A
as_input (err e) = err (bad_input e)
as_input (ok a) = ok a

abbrev pub as_fee_rate {ℓ} : {A : Type ℓ} → Outcome FeeRateError A → Outcome InputError (Unit {0})
as_fee_rate (err e) = err (bad_fee_rate e)
as_fee_rate (ok a) = ok tt

-- validateSendInputs, on the fields of the request.
unfoldable pub validate_send_inputs :
    Btc → (amount to fee_rate speed : Text) → Outcome InputError (Unit {0})
validate_send_inputs b amount to fee_rate speed = do
  amount_sat ← as_input (parsed (parse_amount_to_sats amount))
  require (ltb_ℤ (pos 0) amount_sat) (bad_input amount_not_positive)
  addr ← or_fail (b.decode_address to) (bad_input bad_address)
  require (b.is_for_net addr) (bad_input bad_address)
  require (not (ltb_ℤ amount_sat (recipient_dust_threshold b addr)))
      (dust_output amount_sat (recipient_dust_threshold b addr))
  if not (is_empty fee_rate)
      then as_fee_rate (parse_fee_rate fee_rate)
      else as_fee_rate (validate_speed speed)
