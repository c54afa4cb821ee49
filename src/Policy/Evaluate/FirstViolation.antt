-- ===== src/Policy/Evaluate/FirstViolation.antt =====
-- The evaluation against a description of the rules by what each denial code means; the amounts that
-- the rules compare (spend_sat, window_charge) are the code's own.
use daxib.Prelude.{ℕ, ◌<◌, ◌≡◌, ◌↔◌, ◌≢◌, refl, true, Option, none, some, arith}
use daxib.Prelude.Int.{ℤ, ◌+ℤ◌, ◌≤ℤ◌}
use daxib.Policy.Body.{Policy, or_zero}
use daxib.Policy.Evaluate.{
  Check, Code, denied_denylisted, denied_not_allowlisted, denied_tx_limit, denied_day_limit,
  denied_fee_rate, spend_sat, window_charge, evaluate, check_tx, check_day, check_fee_rate,
}
use daxib.Policy.Evaluate.Limits.{ResolvedLimits, resolve_limits}
use daxib.Policy.Evaluate.Addresses.{Pinned, Admits, match_pin_addr_iff, admitted_iff}

-- The amount is above a limit that is there.
abbrev pub Exceeds : ℤ → Option ℤ → Type 0
Exceeds v o = (limit : ℤ) × (o ≡ some limit) × (¬ (v ≤ℤ limit))

-- What it is for a spend to violate the rule behind a code, under the effective limits.
abbrev pub Violates : Policy → ResolvedLimits → Check → Option ℤ → Code → Type 0
Violates p lim req spent denied_denylisted = Pinned req.recipient p.denylist
Violates p lim req spent denied_not_allowlisted =
    (lim.allowlist_on ≡ true) × (¬ Admits p req lim.include_self)
Violates p lim req spent denied_tx_limit = Exceeds (spend_sat req) lim.max_tx
Violates p lim req spent denied_day_limit = Exceeds (or_zero spent +ℤ window_charge req) lim.max_day
Violates p lim req spent denied_fee_rate = Exceeds req.fee_rate lim.max_fee_rate

-- The order in which the rules are applied.
abbrev pub rank : Code → ℕ
rank denied_denylisted = 0
rank denied_not_allowlisted = 1
rank denied_tx_limit = 2
rank denied_day_limit = 3
rank denied_fee_rate = 4

-- The code is that of the first violated rule; with no code, no rule is violated.
abbrev pub FirstViolation : Policy → ResolvedLimits → Check → Option ℤ → Option Code → Type 0
FirstViolation p lim req spent none = (d : Code) → ¬ Violates p lim req spent d
FirstViolation p lim req spent (some c) =
    Violates p lim req spent c × ((d : Code) → rank d < rank c → ¬ Violates p lim req spent d)

limit_exceeded :
    (v : ℤ) (o : Option ℤ)
    → o ≢ none
    → ((limit : ℤ) → o ≡ some limit → ¬ (v ≤ℤ limit))
    → Exceeds v o
limit_exceeded v none h k = absurd (h refl)
limit_exceeded v (some limit) h k = (limit, refl, k limit refl)

module _ (p : Policy) (req : Check) (spent : Option ℤ) (now : ℕ) where
  -- With no code no rule is violated.
  none-Violates :
      (d : Code)
      → (evaluate p req spent now).code ≡ none
      → ¬ Violates p (resolve_limits p req.network) req spent d
  unfolding evaluate check_tx check_day check_fee_rate
  none-Violates denied_denylisted e v = ground (arith, match_pin_addr_iff req.recipient p.denylist)
  none-Violates denied_not_allowlisted e v =
      ground (arith, admitted_iff p req (resolve_limits p req.network).include_self)
  none-Violates _ e v = ground arith

  -- The rule behind the code is violated.
  some-Violates :
      (c : Code)
      → (evaluate p req spent now).code ≡ some c
      → Violates p (resolve_limits p req.network) req spent c
  unfolding evaluate check_tx check_day check_fee_rate
  some-Violates denied_denylisted e = ground (arith, match_pin_addr_iff req.recipient p.denylist)
  some-Violates denied_not_allowlisted e =
      ground (arith, admitted_iff p req (resolve_limits p req.network).include_self)
  some-Violates denied_tx_limit e =
      limit_exceeded _ (resolve_limits p req.network).max_tx (λ n. ground arith)
        (λ l q w. ground arith)
  some-Violates denied_day_limit e =
      limit_exceeded _ (resolve_limits p req.network).max_day (λ n. ground arith)
        (λ l q w. ground arith)
  some-Violates denied_fee_rate e =
      limit_exceeded _ (resolve_limits p req.network).max_fee_rate (λ n. ground arith)
        (λ l q w. ground arith)

  -- No rule before it is.
  earlier-Violates :
      (c d : Code)
      → (evaluate p req spent now).code ≡ some c
      → rank d < rank c
      → ¬ Violates p (resolve_limits p req.network) req spent d
  unfolding evaluate check_tx check_day check_fee_rate
  earlier-Violates c denied_denylisted e h v =
      ground (arith, match_pin_addr_iff req.recipient p.denylist)
  earlier-Violates c denied_not_allowlisted e h v =
      ground (arith, admitted_iff p req (resolve_limits p req.network).include_self)
  earlier-Violates c _ e h v = ground arith

-- A decision without a code allows, and one with a code does not.
allowed_iff :
    (p : Policy) (req : Check) (spent : Option ℤ) (now : ℕ)
    → ((evaluate p req spent now).allowed ≡ true) ↔ ((evaluate p req spent now).code ≡ none)
unfolding evaluate check_tx check_day check_fee_rate
allowed_iff p req spent now = (λ h. ground arith, λ h. ground arith)

first_violation :
    (p : Policy) (req : Check) (spent : Option ℤ) (now : ℕ) (o : Option Code)
    → (evaluate p req spent now).code ≡ o
    → FirstViolation p (resolve_limits p req.network) req spent o
first_violation p req spent now none e = λ d. none-Violates p req spent now d e
first_violation p req spent now (some c) e =
    (some-Violates p req spent now c e, λ d. earlier-Violates p req spent now c d e)

-- The evaluation allows a spend exactly when it gives no code, and the code that it gives is that of
-- the first violated rule, in the order denylist, allowlist, per-transaction limit, daily limit,
-- fee-rate cap: with a code its rule is violated and no earlier one is, without one no rule is.
pub evaluate-FirstViolation :
    (p : Policy) (req : Check) (spent : Option ℤ) (now : ℕ)
    → (((evaluate p req spent now).allowed ≡ true) ↔ ((evaluate p req spent now).code ≡ none))
      × FirstViolation p (resolve_limits p req.network) req spent (evaluate p req spent now).code
evaluate-FirstViolation p req spent now =
    (allowed_iff p req spent now, first_violation p req spent now _ refl)
