-- ===== src/Service/FeeRate/Bounds.antt =====
-- What fee rates are resolved (internal/service/fee.go, resolveBumpRate of
-- internal/service/tx_replace.go).
use mathlib.Core.Path.{subst}
use daxib.Prelude.{
  ℕ, ◌+◌, ◌-◌, ◌*◌, ◌^◌, ◌≤◌, ◌<◌, ◌≡◌, ◌↔◌, ◌⊎◌, inl, inr, Bool-cases, refl, sym, ap, ◌∙◌, arith,
  true, false, ◌&&◌, not, [], ◌∷◌, Text, is_empty, if◌then◌else◌,
}
use daxib.Prelude.Int.{ℤ, pos, negsuc, ltb_ℤ}
use daxib.Prelude.Int64.{add64, mul64, add64-pos, mul64-pos}
use daxib.Prelude.Outcome.{Outcome, ok, err, ◌>>=◌, bind-split, require, ◌>>◌}
use daxib.Amounts.{trim_char, is_digit}
use daxib.Amounts.Digits.{value, all_digits, value_ge}
use daxib.Service.FeeRate.{
  FeeRateError, not_integer, over_cap, below_floor, FeeEstimates, add_rate_digits, parse_fee_rate,
  resolve_bump_rate, at_least, at_most, min_relay_fee_rate, max_fee_rate,
}

abbrev pub rate_cap : ℕ
rate_cap = 10000000

step :
    (a c : ℕ)
    → a ≤ rate_cap
    → is_digit c ≡ true
    → add64 (mul64 (pos a) (pos 10)) (pos (c - b'0')) ≡ pos (a * 10 + (c - b'0'))
step a c h d = rw (mul64-pos a 10 (omega arith)) (add64-pos (a * 10) (c - b'0') (ground arith))

add_rate_digits-bad :
    (a c : ℕ) (s : Text) → is_digit c ≡ false → add_rate_digits (pos a) (c ∷ s) ≡ err not_integer
unfolding add_rate_digits
add_rate_digits-bad a c s d = ground (arith, d)

add_rate_digits-step :
    (a c : ℕ) (s : Text)
    → a ≤ rate_cap
    → is_digit c ≡ true
    → a * 10 + (c - b'0') ≤ rate_cap
    → add_rate_digits (pos a) (c ∷ s) ≡ add_rate_digits (pos (a * 10 + (c - b'0'))) s
unfolding add_rate_digits
add_rate_digits-step a c s h d k = rw (step a c h d) (ground (arith, d))

add_rate_digits-over :
    (a c : ℕ) (s : Text)
    → a ≤ rate_cap
    → is_digit c ≡ true
    → rate_cap < a * 10 + (c - b'0')
    → add_rate_digits (pos a) (c ∷ s) ≡ err over_cap
unfolding add_rate_digits
add_rate_digits-over a c s h d k = rw (step a c h d) (ground (arith, d))

le_or_lt : (a b : ℕ) → (a ≤ b) ⊎ (b < a)
le_or_lt a b = omega arith

add_rate_digits_iff :
    (a : ℕ) (s : Text) (n : ℤ)
    → a ≤ rate_cap
    → (add_rate_digits (pos a) s ≡ ok n)
      ↔ ((all_digits s ≡ true) × (value a s ≤ rate_cap) × (n ≡ pos (value a s)))
unfolding add_rate_digits
add_rate_digits_iff a [] n h = ground arith
add_rate_digits_iff a (c ∷ s) n h = elim (Bool-cases (is_digit c)) [
  | inl d ↦ elim (le_or_lt (a * 10 + (c - b'0')) rate_cap) [
    | inl k ↦
        subst
          (λ x. (x ≡ ok n) ↔ (
            (is_digit c && all_digits s ≡ true)
            × (value (a * 10 + (c - b'0')) s ≤ rate_cap)
            × (n ≡ pos (value (a * 10 + (c - b'0')) s))))
          (sym (add_rate_digits-step a c s h d k))
          (rw (d) (add_rate_digits_iff (a * 10 + (c - b'0')) s n k))
    | inr k ↦ (
      λ e. let o = add_rate_digits-over a c s h d k in absurd cc,
      λ w. absurd (omega (arith, value_ge (a * 10 + (c - b'0')) s, w.1)),
    )
  ]
  | inr d ↦
      (λ e. let o = add_rate_digits-bad a c s d in absurd cc, λ w. absurd (ground (arith, w.0)))
]

-- The part of parseFeeRate behind the sign.
abbrev checked : Text → Outcome FeeRateError ℤ
checked body = if is_empty body then err not_integer else do
  rate ← add_rate_digits (pos 0) body
  require (not (ltb_ℤ rate min_relay_fee_rate)) below_floor
  ok rate

at_floor :
    (rate n : ℤ)
    → ((require (not (ltb_ℤ rate min_relay_fee_rate)) below_floor >>= λ u. ok rate) ≡ ok n)
      ↔ ((ltb_ℤ rate (pos 1) ≡ false) × (rate ≡ n))
at_floor rate n = elim (Bool-cases (ltb_ℤ rate (pos 1))) [
  | inl e ↦ rw (e) (λ h. cc, λ h. cc)
  | inr e ↦ rw (e) (λ h. (refl, cc), λ (u, h). ap ok h)
]

checked_iff :
    (body : Text) (n : ℤ)
    → (checked body ≡ ok n) ↔ (
        (all_digits body ≡ true)
        × (1 ≤ value 0 body)
        × (value 0 body ≤ rate_cap)
        × (n ≡ pos (value 0 body)))
checked_iff [] n = ground arith
checked_iff (c ∷ s) n =
    let body = c ∷ s in
    (
      λ h.
          let (rate, e, h1) = bind-split (add_rate_digits (pos 0) body) _ h in
          let (d, le, q) = (add_rate_digits_iff 0 body rate (omega arith)).0 e in
          let (lo, same) = (at_floor rate n).0 h1 in
          let lo' : ltb_ℤ (pos (value 0 body)) (pos 1) ≡ false =
            subst (λ r. ltb_ℤ r (pos 1) ≡ false) q lo in
          (d, ground (arith, lo'), le, sym same ∙ q),
      λ (d, lo, le, q).
          rw ((add_rate_digits_iff 0 body (pos (value 0 body)) (omega arith)).1 (d, le, refl))
            ((at_floor (pos (value 0 body)) n).1 (ground (arith, lo), sym q)),
    )

-- An explicit rate is accepted exactly where it is digits, perhaps behind a plus sign, whose value is
-- from 1 to ten million; that value is then the rate.
pub parse_fee_rate_iff :
    (s : Text) (n : ℤ)
    → let body = trim_char b'+' s in
      (parse_fee_rate s ≡ ok n) ↔ (
        (all_digits body ≡ true)
        × (1 ≤ value 0 body)
        × (value 0 body ≤ rate_cap)
        × (n ≡ pos (value 0 body)))
unfolding parse_fee_rate
parse_fee_rate_iff s n = checked_iff (trim_char b'+' s) n

pub at_least_1 : (n : ℤ) → (k : ℕ) × (at_least min_relay_fee_rate n ≡ pos k) × (1 ≤ k)
at_least_1 (pos k) = elim (le_or_lt 1 k) [
  | inl h ↦ (k, ground arith, h)
  | inr h ↦ (1, ground arith, omega arith)
]
at_least_1 (negsuc k) = (1, ground arith, omega arith)

at_most-cap :
    (k : ℕ)
    → (j : ℕ) × (at_most max_fee_rate (pos k) ≡ pos j) × (j ≤ rate_cap) × ((k ≤ j) ⊎ (j ≡ rate_cap))
at_most-cap k = elim (le_or_lt k rate_cap) [
  | inl h ↦ (k, ground arith, h, inl (omega arith))
  | inr h ↦ (rate_cap, ground arith, omega arith, inr refl)
]

bump-higher :
    (old : ℕ) (f : ℤ)
    → (m : ℕ) × ((if ltb_ℤ (pos (old + 1)) f then f else pos (old + 1)) ≡ pos m) × (old < m)
bump-higher old (pos f) = elim (le_or_lt f (old + 1)) [
  | inl h ↦ (old + 1, ground arith, omega arith)
  | inr h ↦ (f, ground arith, omega arith)
]
bump-higher old (negsuc f) = (old + 1, ground arith, omega arith)

-- For an original whose rate is from 0 to 2^63 - 2, the rate of a replacement is from 1 to ten million,
-- and where none is given it is higher than that of the original, unless it is at that cap.
pub resolve_bump_rate-InRange :
    (s : Text) (old : ℕ) (est : FeeEstimates) (n : ℤ)
    → old + 1 < 2 ^ 63
    → resolve_bump_rate s (pos old) est ≡ ok n
    → (k : ℕ) × (n ≡ pos k)
      × (1 ≤ k)
      × (k ≤ rate_cap)
      × (is_empty s ≡ true → (old < k) ⊎ (k ≡ rate_cap))
unfolding resolve_bump_rate
resolve_bump_rate-InRange s old est n bound h = elim (Bool-cases (is_empty s)) [
  | inl e ↦
      let (m, em, higher) = bump-higher old est.fast in
      let ej : at_least min_relay_fee_rate (pos m) ≡ pos m = ground arith in
      let (k, ek, hi, kept) = at_most-cap m in
      let h' : ◌≡◌ {A = Outcome FeeRateError ℤ}
          (ok (
            at_most max_fee_rate (
              at_least min_relay_fee_rate
                (if ltb_ℤ (pos (old + 1)) est.fast then est.fast else pos (old + 1)))))
          (ok n) =
        rw (e, add64-pos old 1 bound) at h in
      let q : pos k ≡ n = cc in (k, sym q, omega (arith, kept), hi, λ c. omega (arith, kept))
  | inr e ↦
      let (d, lo, hi, q) = (parse_fee_rate_iff s n).0 (ground (arith, h, e)) in
      (value 0 (trim_char b'+' s), q, lo, hi, λ c. absurd cc)
]
