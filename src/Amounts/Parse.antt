-- ===== src/Amounts/Parse.antt =====
-- What the parsers of amounts accept (internal/domain/amount.go, internal/backend/amount.go).
use daxib.Prelude.{
  ℕ, ◌≤◌, ◌≡◌, ◌↔◌, inl, inr, Bool-cases, refl, sym, ap, arith, true, false, [], ◌∷◌, map, Text,
  to_lower,
}
use mathlib.Core.Path.{subst}
use daxib.Prelude.Int.{ℤ, pos}
use daxib.Prelude.Outcome.{Outcome, ok, err, ◌>>=◌, bind-split}
use daxib.Amounts.{
  AmountError, required, negative, not_btc, not_sats, add_digits, sub_satoshi_digits, pad_frac,
  parse_parts, parse_btc_body, parse_sat_suffix, parse_amount_to_sats, decimal_btc_to_sats,
  trim_space, trim_char, starts, cut_whole, cut_frac, without_last,
}
use daxib.Amounts.Digits.{value, all_digits, money_cap, value_ge, add_digits_iff, wrap_digits-value}

-- An integer from 0 to the money cap.
abbrev pub IsMoney : ℤ → Type 0
IsMoney n = (k : ℕ) × (n ≡ pos k) × (k ≤ money_cap)

add_digits-IsMoney :
    (bad : AmountError) (a : ℤ) (s : Text) (n : ℤ)
    → IsMoney a
    → add_digits bad a s ≡ ok n
    → IsMoney n
add_digits-IsMoney bad a s n (k, e, le) h =
    let (d, v, q) = (add_digits_iff bad k s n le).0 (subst (λ x. add_digits bad x s ≡ ok n) e h) in
    (value k s, q, v)

parse_parts-IsMoney : (whole frac : Text) (n : ℤ) → parse_parts whole frac ≡ ok n → IsMoney n
unfolding parse_parts
parse_parts-IsMoney whole frac n h =
    let h' : (add_digits not_btc (pos 0) whole >>= λ sats. add_digits not_btc sats (pad_frac frac))
        ≡ ok n =
      ground (arith, h) in
    let (w, hw, hf) = bind-split (add_digits not_btc (pos 0) whole) _ h' in
    add_digits-IsMoney not_btc w (pad_frac frac) n
      (add_digits-IsMoney not_btc (pos 0) whole w (0, refl, omega arith) hw) hf

parse_btc_body-IsMoney : (body : Text) (n : ℤ) → parse_btc_body body ≡ ok n → IsMoney n
unfolding parse_btc_body
parse_btc_body-IsMoney body n h =
    let b = trim_char b'+' (trim_space body) in
    parse_parts-IsMoney (cut_whole b) (cut_frac b) n (ground (arith, h))

parse_sat_suffix-IsMoney : (body : Text) (n : ℤ) → parse_sat_suffix body ≡ ok n → IsMoney n
unfolding parse_sat_suffix
parse_sat_suffix-IsMoney body n h =
    add_digits-IsMoney not_sats (pos 0) (trim_char b'+' (trim_space body)) n (0, refl, omega arith)
      (ground (arith, h))

amount_cases :
    (P : Outcome AmountError ℤ → Type 0) (s : Text)
    → let lower = map to_lower (trim_space s) in
      P (err required)
      → P (err negative)
      → P (parse_sat_suffix (without_last 4 lower))
      → P (parse_sat_suffix (without_last 3 lower))
      → P (parse_btc_body (without_last 3 lower))
      → P (parse_btc_body lower)
      → P (parse_amount_to_sats s)
unfolding parse_amount_to_sats
amount_cases P s a b c d e f = ground arith

-- Every amount that parses is an integer from 0 to the money cap of 21 million bitcoin.
pub parse_amount_to_sats-IsMoney : (s : Text) (n : ℤ) → parse_amount_to_sats s ≡ ok n → IsMoney n
parse_amount_to_sats-IsMoney s n =
    amount_cases (λ o. o ≡ ok n → IsMoney n) s (λ h. cc) (λ h. cc) (parse_sat_suffix-IsMoney _ n)
      (parse_sat_suffix-IsMoney _ n) (parse_btc_body-IsMoney _ n) (parse_btc_body-IsMoney _ n)

-- The two parts parse exactly where they are digits, with zeros only from the ninth digit after the
-- point on, and their value in satoshis is within the cap; the value is then the result.
pub parse_parts_iff :
    (whole frac : Text) (n : ℤ)
    → (parse_parts whole frac ≡ ok n) ↔ (
        (sub_satoshi_digits frac ≡ false)
        × (all_digits whole ≡ true)
        × (all_digits (pad_frac frac) ≡ true)
        × (value (value 0 whole) (pad_frac frac) ≤ money_cap)
        × (n ≡ pos (value (value 0 whole) (pad_frac frac))))
unfolding parse_parts
parse_parts_iff whole frac n = (
  λ h.
      let sub : sub_satoshi_digits frac ≡ false = ground (arith, h) in
      let h' : (add_digits not_btc (pos 0) whole >>= λ sats.
      add_digits not_btc sats (pad_frac frac))
          ≡ ok n =
        ground (arith, h) in
      let (w, hw, hf) = bind-split (add_digits not_btc (pos 0) whole) _ h' in
      let (dw, vw, ew) = (add_digits_iff not_btc 0 whole w (omega arith)).0 hw in
      let (df, vf, ef) =
        (add_digits_iff not_btc (value 0 whole) (pad_frac frac) n vw).0
          (subst (λ x. add_digits not_btc x (pad_frac frac) ≡ ok n) ew hf) in
      (sub, dw, df, vf, ef),
  λ (sub, dw, df, vf, ef).
      let vw : value 0 whole ≤ money_cap =
        omega (arith, value_ge (value 0 whole) (pad_frac frac)) in
      rw
        (sub, (add_digits_iff not_btc 0 whole (pos (value 0 whole)) (omega arith)).1 (dw, vw, refl))
        ((add_digits_iff not_btc (value 0 whole) (pad_frac frac) n vw).1 (df, vf, ef)),
)

starts-minus : (t : Text) → starts b'-' t ≡ true → all_digits (cut_whole (trim_char b'+' t)) ≡ false
unfolding starts trim_char cut_whole
starts-minus [] h = cc
starts-minus (c ∷ t) h = ground arith

-- What the parser of `--amount` accepts as bitcoin, the parser of the node's numbers accepts with the
-- same result, though it has no cap and its sums may wrap around.
pub decimal_btc_to_sats-parse_btc_body :
    (s : Text) (n : ℤ) → parse_btc_body s ≡ ok n → decimal_btc_to_sats s ≡ ok n
unfolding parse_btc_body decimal_btc_to_sats
decimal_btc_to_sats-parse_btc_body s n h =
    let t = trim_space s in
    let b = trim_char b'+' (trim_space s) in
    let h' : parse_parts (cut_whole b) (cut_frac b) ≡ ok n = ground (arith, h) in
    let (sub, dw, df, vf, ef) = (parse_parts_iff (cut_whole b) (cut_frac b) n).0 h' in
    let vw : value 0 (cut_whole b) ≤ money_cap =
      omega (arith, value_ge (value 0 (cut_whole b)) (pad_frac (cut_frac b))) in
    elim (Bool-cases (starts b'-' t)) [
      | inl m ↦ let bad = starts-minus t m in absurd cc
      | inr m ↦
          rw
            (
              m,
              sub,
              wrap_digits-value 0 (cut_whole b) dw vw,
              wrap_digits-value (value 0 (cut_whole b)) (pad_frac (cut_frac b)) df vf,
            )
            (ap ok (sym ef))
    ]
