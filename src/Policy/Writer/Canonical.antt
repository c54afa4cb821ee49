-- ===== src/Policy/Writer/Canonical.antt =====
-- What the canonical writer (writeBody of internal/policy/body.go) keeps of a policy.
use daxib.Prelude.{false}
use daxib.Prelude.Sort.{sort}
use daxib.Policy.Body.{Policy, Limit, absent, null, text, Flag, unset, flag}
use daxib.Policy.Body
use daxib.Policy.Writer.{sorted_lower, network_lt, pin_lt}

abbrev pub no_limit : Limit → Limit
no_limit absent = null
no_limit null = null
no_limit (text s) = text s

abbrev pub off : Flag → Flag
off unset = flag false
off (flag b) = flag b

-- The default block, where every field is written.
abbrev pub default_block : Body.Limits → Body.Limits
default_block l = record {
  max_tx_sat = no_limit l.max_tx_sat;
  max_day_sat = no_limit l.max_day_sat;
  max_fee_rate = no_limit l.max_fee_rate;
  allowlist_on = off l.allowlist_on;
  include_self = off l.include_self;
}

-- The policy that the written body stands for.
unfoldable pub canonical : Policy → Policy
canonical p = record p {
  rules = record {
    default = default_block p.rules.default;
    networks = sort network_lt p.rules.networks;
  };
  allowlist = sort pin_lt p.allowlist;
  denylist = sort pin_lt p.denylist;
  self_addresses = sorted_lower p.self_addresses;
}
