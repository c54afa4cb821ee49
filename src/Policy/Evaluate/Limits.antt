-- ===== src/Policy/Evaluate/Limits.antt =====
-- The effective limits of a network (resolveLimits of internal/policy/evaluate.go): the default
-- block with the first matching per-network block over it.
use daxib.Prelude.{Bool, false, List, [], ◌∷◌, Option, if◌then◌else◌, Text, equal_fold}
use daxib.Prelude.Int.{ℤ}
use daxib.Policy.Body.{Policy, NetworkRule, parse_sat, override_sat, bool_or}
use daxib.Policy.Body

pub record ResolvedLimits : Type 0 where
  pub max_tx : Option ℤ
  pub max_day : Option ℤ
  pub max_fee_rate : Option ℤ
  pub allowlist_on : Bool
  pub include_self : Bool

-- The default block.
unfoldable pub default_limits : Body.Limits → ResolvedLimits
unfolding parse_sat bool_or
default_limits d = record {
  max_tx = parse_sat d.max_tx_sat;
  max_day = parse_sat d.max_day_sat;
  max_fee_rate = parse_sat d.max_fee_rate;
  allowlist_on = bool_or d.allowlist_on false;
  include_self = bool_or d.include_self false;
}

-- One per-network block laid over the limits.
unfoldable pub override_limits : ResolvedLimits → Body.Limits → ResolvedLimits
unfolding override_sat bool_or
override_limits r n = record {
  max_tx = override_sat r.max_tx n.max_tx_sat;
  max_day = override_sat r.max_day n.max_day_sat;
  max_fee_rate = override_sat r.max_fee_rate n.max_fee_rate;
  allowlist_on = bool_or n.allowlist_on r.allowlist_on;
  include_self = bool_or n.include_self r.include_self;
}

-- The loop over the networks: the first block of that name is applied, and the loop ends.
unfoldable pub apply_networks : ResolvedLimits → List NetworkRule → Text → ResolvedLimits
unfolding override_limits
apply_networks r [] network = r
apply_networks r (n ∷ ns) network =
    if equal_fold n.network network then override_limits r n.limits else apply_networks r ns network

-- resolveLimits
unfoldable pub resolve_limits : Policy → Text → ResolvedLimits
unfolding default_limits apply_networks
resolve_limits p network = apply_networks (default_limits p.rules.default) p.rules.networks network
