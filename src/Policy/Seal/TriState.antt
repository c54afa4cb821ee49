-- ===== src/Policy/Seal/TriState.antt =====
-- The second reading of a policy body (reconcileTriState of internal/policy/body.go): a limit that is
-- present and null becomes the null sentinel, so that it is not taken for an absent one.
use daxib.Prelude.{
  ◌||◌, List, [], ◌∷◌, Option, none, some, ◌==◌, if◌then◌else◌, Text, codes, text_eq,
}
use mathlib.Core.List.{reverse}
use daxib.Policy.Body.{Policy, NetworkRule, Limit, null}
use daxib.Policy.Body

-- A JSON object as a map of raw values; `none` is an empty or unreadable message.
pub record RawObject : Type 0 where
  pub value : Text → Option Text

pub record Probe : Type 0 where
  pub default : Option RawObject
  pub networks : List (Option RawObject)

-- bytes.TrimSpace over the white space of JSON.
skip_space : Text → Text
skip_space [] = []
skip_space (c ∷ s) =
    let rest = skip_space s in
    if (c == b' ' || c == b'\n') || (c == b'\t' || c == b'\r') then rest else c ∷ s

unfoldable pub trim_space : Text → Text
unfolding skip_space
trim_space s = reverse (skip_space (reverse (skip_space s)))

-- setNullIfPresent
unfoldable pub set_null_if_present : RawObject → Text → Limit → Limit
unfolding trim_space text_eq
set_null_if_present m key dst = elim (m.value key) [
  | none ↦ dst
  | some v ↦ if text_eq (trim_space v) (codes "null") then null else dst
]

-- applyTriState
unfoldable pub apply_tri_state : Option RawObject → Body.Limits → Body.Limits
unfolding set_null_if_present
apply_tri_state none lim = lim
apply_tri_state (some m) lim = record lim {
  max_tx_sat = set_null_if_present m (codes "max_tx_sat") lim.max_tx_sat;
  max_day_sat = set_null_if_present m (codes "max_day_sat") lim.max_day_sat;
  max_fee_rate = set_null_if_present m (codes "max_fee_rate_sat_vb") lim.max_fee_rate;
}

-- The loop over the networks, up to the shorter of the two lists.
unfoldable pub apply_to_networks : List (Option RawObject) → List NetworkRule → List NetworkRule
unfolding apply_tri_state
apply_to_networks [] ns = ns
apply_to_networks (m ∷ ms) [] = []
apply_to_networks (m ∷ ms) (n ∷ ns) =
    record n { limits = apply_tri_state m n.limits } ∷ apply_to_networks ms ns

-- reconcileTriState
unfoldable pub reconcile_tri_state : Option Probe → Policy → Policy
unfolding apply_tri_state apply_to_networks
reconcile_tri_state none p = p
reconcile_tri_state (some probe) p = record p {
  rules = record {
    default = apply_tri_state probe.default p.rules.default;
    networks = apply_to_networks probe.networks p.rules.networks;
  };
}
