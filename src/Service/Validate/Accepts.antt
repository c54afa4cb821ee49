-- ===== src/Service/Validate/Accepts.antt =====
-- What the checks of a send promise to its build (internal/service/send.go).
use daxib.Prelude.{
  ℕ, ◌≤◌, ◌≡◌, inl, inr, Bool-cases, refl, arith, true, false, ◌||◌, not, some, Text, is_empty,
  codes, text_eq,
}
use daxib.Prelude.Int.{ℤ, pos, ltb_ℤ}
use daxib.Prelude.Outcome.{
  Outcome, ok, err, bind-split, require, or_fail, or_fail-ok, Outcome-cases,
}
use daxib.Amounts.{parse_amount_to_sats}
use daxib.Amounts.{trim_char}
use daxib.Amounts.Digits.{value}
use daxib.Coinselect.Dust.{dust_threshold_for_script}
use daxib.Service.Funding.{Btc, BuildError, amount_not_positive, bad_address, parsed, destination}
use daxib.Service.Replace.Steps.{require-ok}
use daxib.Service.FeeRate.{FeeEstimates, parse_fee_rate, resolve_fee_rate}
use daxib.Service.FeeRate.Bounds.{parse_fee_rate_iff, at_least_1}
use daxib.Service.Validate.{
  bad_input, dust_output, as_input, as_fee_rate, validate_speed, recipient_dust_threshold,
  validate_send_inputs,
}

-- The build accepts the amount and the address, the amount is not dust for the script that it pays, and
-- every answer of the backend gives a rate.
pub record Accepted (b : Btc) (amount to fee_rate speed : Text) : Type 0 where
  pub amount_sat : ℤ
  pub script : Text
  pub accepted : destination b amount to ≡ ok (amount_sat, script)
  pub not_dust : ltb_ℤ amount_sat (dust_threshold_for_script script) ≡ false
  pub rated :
      (est : FeeEstimates) → (n : ℕ) × (resolve_fee_rate fee_rate speed est ≡ ok (pos n)) × (1 ≤ n)

as_input-ok : {A : Type 0} (o : Outcome BuildError A) {a : A} → as_input o ≡ ok a → o ≡ ok a
as_input-ok (err e) h = cc
as_input-ok (ok a) h = cc

explicit-rate :
    (s speed : Text) (est : FeeEstimates)
    → is_empty s ≡ false
    → as_fee_rate (parse_fee_rate s) ≡ ok tt
    → (n : ℕ) × (resolve_fee_rate s speed est ≡ ok (pos n)) × (1 ≤ n)
unfolding resolve_fee_rate
explicit-rate s speed est e h = elim (Outcome-cases (parse_fee_rate s)) [
  | inl (x, q) ↦ absurd (let h' = rw (q) at h in cc)
  | inr (r, q) ↦
      let (d, lo, hi, eq) = (parse_fee_rate_iff s r).0 q in
      (value 0 (trim_char b'+' s), rw (e, q, eq) refl, lo)
]

estimated-rate :
    (s speed : Text) (est : FeeEstimates)
    → is_empty s ≡ true
    → as_fee_rate (validate_speed speed) ≡ ok tt
    → (n : ℕ) × (resolve_fee_rate s speed est ≡ ok (pos n)) × (1 ≤ n)
unfolding resolve_fee_rate validate_speed
estimated-rate s speed est e h =
    let slow = at_least_1 est.slow in
    let normal = at_least_1 est.normal in
    let fast = at_least_1 est.fast in
    elim (Bool-cases (text_eq speed (codes "slow"))) [
      | inl a ↦ (slow.0, rw (e, a, slow.1) refl, slow.2)
      | inr a ↦ elim (Bool-cases (text_eq speed (codes "fast"))) [
        | inl c ↦ (fast.0, rw (e, a, c, fast.1) refl, fast.2)
        | inr c ↦
            let known : (is_empty speed || text_eq speed (codes "normal")) ≡ true =
              ground (arith, h, a, c) in
            (normal.0, rw (e, a, c, known, normal.1) refl, normal.2)
      ]
    ]

destination-Accepted :
    (b : Btc) (amount to : Text) (n : ℤ) (addr : Text)
    → parsed (parse_amount_to_sats amount) ≡ ok n
    → ltb_ℤ (pos 0) n ≡ true
    → b.decode_address to ≡ some addr
    → b.is_for_net addr ≡ true
    → ltb_ℤ n (recipient_dust_threshold b addr) ≡ false
    → (script : Text) → b.pay_to_addr_script addr ≡ some script
    → (destination b amount to ≡ ok (n, script))
      × (ltb_ℤ n (dust_threshold_for_script script) ≡ false)
unfolding destination recipient_dust_threshold
destination-Accepted b amount to n addr e1 e2 e3 e4 e5 script q =
    (rw (e1, e2, e3, e4, q) refl, rw (recipient_dust_threshold, q) at e5)

-- Where every decoded address has a script, a request that passes the checks is not refused by the build
-- for its amount or its address, and its amount is not dust for the script that it pays; and whatever the
-- backend estimates, a fee rate of at least one satoshi per byte is resolved for it.
pub validate_send_inputs-Accepted :
    (b : Btc) (amount to fee_rate speed : Text)
    → ((addr : Text)
        → b.decode_address to ≡ some addr
        → (script : Text) × (b.pay_to_addr_script addr ≡ some script))
    → validate_send_inputs b amount to fee_rate speed ≡ ok tt
    → Accepted b amount to fee_rate speed
unfolding validate_send_inputs
validate_send_inputs-Accepted b amount to fee_rate speed payable h =
    let (n, e1, h1) = bind-split (as_input (parsed (parse_amount_to_sats amount))) _ h in
    let (u2, e2, h2) =
      bind-split (require (ltb_ℤ (pos 0) n) (bad_input amount_not_positive)) _ h1 in
    let (addr, e3, h3) = bind-split (or_fail (b.decode_address to) (bad_input bad_address)) _ h2 in
    let (u4, e4, h4) = bind-split (require (b.is_for_net addr) (bad_input bad_address)) _ h3 in
    let (u5, e5, h5) =
      bind-split
        (require (not (ltb_ℤ n (recipient_dust_threshold b addr)))
          (dust_output n (recipient_dust_threshold b addr)))
        _ h4 in
    let big = require-ok _ _ e5 in
    let decoded = or_fail-ok (b.decode_address to) (bad_input bad_address) e3 in
    let (script, q) = payable addr decoded in
    let (accepted, not_dust) =
      destination-Accepted b amount to n addr (as_input-ok _ e1) (require-ok _ _ e2) decoded
        (require-ok _ _ e4) (ground (arith, big)) script q in
    record {
      amount_sat = n;
      script = script;
      accepted = accepted;
      not_dust = not_dust;
      rated = λ est. elim (Bool-cases (is_empty fee_rate)) [
        | inl e ↦ estimated-rate fee_rate speed est e (ground (arith, h5, e))
        | inr e ↦ explicit-rate fee_rate speed est e (ground (arith, h5, e))
      ];
    }
