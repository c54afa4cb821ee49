-- ===== src/Policy/Body.antt =====
-- The decoded policy body (internal/policy/body.go) and the tri-state limits.
use daxib.Prelude.{ℕ, Bool, List, Option, none, some, Text}
use daxib.Prelude.Int.{ℤ, pos}
use daxib.Prelude.Decimal.{set_string}

-- A `*string` limit: a nil pointer, the null sentinel, or a text.
pub data Limit : Type 0 where
  absent : Limit
  null : Limit
  text : Text → Limit

-- A `*bool`.
pub data Flag : Type 0 where
  unset : Flag
  flag : Bool → Flag

pub record Limits : Type 0 where
  pub max_tx_sat : Limit
  pub max_day_sat : Limit
  pub max_fee_rate : Limit
  pub allowlist_on : Flag
  pub include_self : Flag

pub record NetworkRule : Type 0 where
  pub network : Text
  pub limits : Limits

pub record Rules : Type 0 where
  pub default : Limits
  pub networks : List NetworkRule

pub record PinEntry : Type 0 where
  pub source : Text
  pub address : Text
  pub label : Text
  pub added_at : Text

pub record Policy : Type 0 where
  pub version : ℤ
  pub nonce : ℕ
  pub updated_at : Text
  pub written_by : Text
  pub rules : Rules
  pub allowlist : List PinEntry
  pub denylist : List PinEntry
  pub self_addresses : List Text

-- A missing amount counts as zero, and a limit text that does not parse is the limit zero.
unfoldable pub or_zero : Option ℤ → ℤ
or_zero none = pos 0
or_zero (some v) = v

-- parseSat: `none` is "no limit".
unfoldable pub parse_sat : Limit → Option ℤ
unfolding or_zero set_string
parse_sat absent = none
parse_sat null = none
parse_sat (text s) = some (or_zero (set_string s))

-- overrideSat
unfoldable pub override_sat : Option ℤ → Limit → Option ℤ
unfolding or_zero set_string
override_sat current absent = current
override_sat current null = none
override_sat current (text s) = some (or_zero (set_string s))

-- boolOr
unfoldable pub bool_or : Flag → Bool → Bool
bool_or unset d = d
bool_or (flag b) d = b
