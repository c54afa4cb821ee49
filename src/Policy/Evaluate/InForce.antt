-- ===== src/Policy/Evaluate/InForce.antt =====
-- Which limit is in force on a network, and the limits that do not parse.
use daxib.Prelude.{
  ℕ, ◌≡◌, ◌∙◌, ◌⊎◌, inl, inr, Bool, false, List, [], ◌∷◌, Option, none, some, arith, Bool-cases,
  if◌then◌else◌, Text, equal_fold,
}
use daxib.Prelude.Int.{ℤ, pos, ◌+ℤ◌, ◌≤ℤ◌}
use daxib.Prelude.Decimal.{set_string}
use daxib.Policy.Body.{
  Policy, NetworkRule, Limit, absent, null, text, Flag, unset, flag, or_zero, parse_sat,
  override_sat, bool_or,
}
use daxib.Policy.Body
use daxib.Policy.Evaluate.{
  Check, evaluate, check_tx, check_day, check_fee_rate, spend_sat, window_charge,
}
use daxib.Policy.Evaluate.Limits.{
  ResolvedLimits, default_limits, override_limits, apply_networks, resolve_limits,
}

-- The block of the first rule for a network.
abbrev pub rule_of : Text → List NetworkRule → Option Body.Limits
rule_of network [] = none
rule_of network (n ∷ ns) =
    if equal_fold n.network network then some n.limits else rule_of network ns

-- A network's own limit stands in front of the default, where it is there; null lifts the limit.
abbrev pub in_force : Limit → Option Limit → Limit
in_force d none = d
in_force d (some absent) = d
in_force d (some l) = l

abbrev pub flag_in_force : Flag → Option Flag → Bool
flag_in_force d (some (flag b)) = b
flag_in_force (flag b) _ = b
flag_in_force unset _ = false

-- A field of the block that a network has, if it has one.
abbrev pub own {ℓ} : {A : Type ℓ} → (Body.Limits → A) → Option Body.Limits → Option A
own f none = none
own f (some l) = some (f l)

abbrev pub Resolved : Body.Limits → Option Body.Limits → ResolvedLimits → Type 0
Resolved d n r =
    (r.max_tx ≡ parse_sat (in_force d.max_tx_sat (own (λ l. l.max_tx_sat) n)))
    × (r.max_day ≡ parse_sat (in_force d.max_day_sat (own (λ l. l.max_day_sat) n)))
    × (r.max_fee_rate ≡ parse_sat (in_force d.max_fee_rate (own (λ l. l.max_fee_rate) n)))
    × (r.allowlist_on ≡ flag_in_force d.allowlist_on (own (λ l. l.allowlist_on) n))
    × (r.include_self ≡ flag_in_force d.include_self (own (λ l. l.include_self) n))

override_sat_lem : (d l : Limit) → override_sat (parse_sat d) l ≡ parse_sat (in_force d (some l))
unfolding override_sat parse_sat
override_sat_lem d l = ground arith

bool_or_lem : (d f : Flag) → bool_or f (bool_or d false) ≡ flag_in_force d (some f)
unfolding bool_or
bool_or_lem d f = ground arith

override_limits-Resolved :
    (d l : Body.Limits) → Resolved d (some l) (override_limits (default_limits d) l)
unfolding default_limits override_limits
override_limits-Resolved d l = (
  override_sat_lem d.max_tx_sat l.max_tx_sat,
  override_sat_lem d.max_day_sat l.max_day_sat,
  override_sat_lem d.max_fee_rate l.max_fee_rate,
  bool_or_lem d.allowlist_on l.allowlist_on,
  bool_or_lem d.include_self l.include_self,
)

apply_networks-Resolved :
    (d : Body.Limits) (ns : List NetworkRule) (network : Text)
    → Resolved d (rule_of network ns) (apply_networks (default_limits d) ns network)
unfolding apply_networks default_limits override_limits
apply_networks-Resolved d [] network = unfold bool_or in ground arith
apply_networks-Resolved d (n ∷ ns) network = elim (Bool-cases (equal_fold n.network network)) [
  | inl e ↦ rw e (override_limits-Resolved d n.limits)
  | inr e ↦ rw e (apply_networks-Resolved d ns network)
]

-- The limits of a network are its own, as far as its first rule gives them, and else the default's.
pub resolve_limits-Resolved :
    (p : Policy) (network : Text)
    → Resolved p.rules.default (rule_of network p.rules.networks) (resolve_limits p network)
unfolding resolve_limits
resolve_limits-Resolved p network = apply_networks-Resolved p.rules.default p.rules.networks network

parse_unparseable :
    (l : Limit) (s : Text) → l ≡ text s → set_string s ≡ none → parse_sat l ≡ some (pos 0)
unfolding parse_sat or_zero
parse_unparseable l s q e = ground arith

-- A limit text in force that does not parse denies: as the per-transaction limit it denies every
-- positive spend, as the daily limit every spend with which the window total is positive, as the
-- fee-rate cap every positive rate.
pub unparseable-denies :
    (p : Policy) (req : Check) (spent : ℤ) (now : ℕ) (s : Text)
    → set_string s ≡ none
    → let n = rule_of req.network p.rules.networks in
      let d = p.rules.default in
      ((in_force d.max_tx_sat (own (λ l. l.max_tx_sat) n) ≡ text s) × (pos 1 ≤ℤ spend_sat req))
        ⊎ ((in_force d.max_day_sat (own (λ l. l.max_day_sat) n) ≡ text s)
            × (pos 1 ≤ℤ spent +ℤ window_charge req))
        ⊎ ((in_force d.max_fee_rate (own (λ l. l.max_fee_rate) n) ≡ text s)
            × (pos 1 ≤ℤ req.fee_rate))
      → (evaluate p req (some spent) now).allowed ≡ false
unfolding evaluate check_tx check_day check_fee_rate or_zero
unparseable-denies p req spent now s e h =
    let r = resolve_limits-Resolved p req.network in
    elim h [
      | inl (q, pays) ↦ let z = r.0 ∙ parse_unparseable _ s q e in ground arith
      | inr (inl (q, pays)) ↦ let z = r.1 ∙ parse_unparseable _ s q e in ground arith
      | inr (inr (q, pays)) ↦ let z = r.2 ∙ parse_unparseable _ s q e in ground arith
    ]
