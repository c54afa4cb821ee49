-- ===== src/Amounts/Digits.antt =====
-- The digit loops of the parsers of amounts, and the decimal value.
use daxib.Prelude.{
  ℕ, ◌+◌, ◌-◌, ◌*◌, ◌≤◌, ◌<◌, ◌≡◌, ◌↔◌, ◌⊎◌, inl, inr, Bool-cases, refl, sym, arith, Bool, true,
  false, ◌&&◌, [], ◌∷◌, Text,
}
use mathlib.Core.Path.{subst}
use daxib.Prelude.Int.{ℤ, pos}
use daxib.Prelude.Int64.{add64, mul64, add64-pos, mul64-pos}
use daxib.Prelude.Outcome.{ok, err}
use daxib.Amounts.{AmountError, over_cap, add_digits, wrap_digits, is_digit}

-- The value of digits after a number.
abbrev pub value : ℕ → Text → ℕ
value a [] = a
value a (c ∷ s) = value (a * 10 + (c - b'0')) s

abbrev pub all_digits : Text → Bool
all_digits [] = true
all_digits (c ∷ s) = is_digit c && all_digits s

abbrev pub money_cap : ℕ
money_cap = 2100000000000000

pub value_ge : (a : ℕ) (s : Text) → a ≤ value a s
value_ge a [] = omega arith
value_ge a (c ∷ s) = omega (arith, value_ge (a * 10 + (c - b'0')) s)

step :
    (a c : ℕ)
    → a ≤ money_cap
    → is_digit c ≡ true
    → add64 (mul64 (pos a) (pos 10)) (pos (c - b'0')) ≡ pos (a * 10 + (c - b'0'))
step a c h d = rw (mul64-pos a 10 (omega arith)) (add64-pos (a * 10) (c - b'0') (ground arith))

add_digits-bad :
    (bad : AmountError) (a c : ℕ) (s : Text)
    → is_digit c ≡ false
    → add_digits bad (pos a) (c ∷ s) ≡ err bad
unfolding add_digits
add_digits-bad bad a c s d = rw (d) refl

add_digits-step :
    (bad : AmountError) (a c : ℕ) (s : Text)
    → a ≤ money_cap
    → is_digit c ≡ true
    → a * 10 + (c - b'0') ≤ money_cap
    → add_digits bad (pos a) (c ∷ s) ≡ add_digits bad (pos (a * 10 + (c - b'0'))) s
unfolding add_digits
add_digits-step bad a c s h d k = rw (d, step a c h d) (ground arith)

add_digits-over :
    (bad : AmountError) (a c : ℕ) (s : Text)
    → a ≤ money_cap
    → is_digit c ≡ true
    → money_cap < a * 10 + (c - b'0')
    → add_digits bad (pos a) (c ∷ s) ≡ err over_cap
unfolding add_digits
add_digits-over bad a c s h d k = rw (d, step a c h d) (ground arith)

le_or_lt : (a b : ℕ) → (a ≤ b) ⊎ (b < a)
le_or_lt a b = omega arith

-- The capped loop succeeds exactly on digits whose value is within the cap, and gives that value.
pub add_digits_iff :
    (bad : AmountError) (a : ℕ) (s : Text) (n : ℤ)
    → a ≤ money_cap
    → (add_digits bad (pos a) s ≡ ok n)
      ↔ ((all_digits s ≡ true) × (value a s ≤ money_cap) × (n ≡ pos (value a s)))
unfolding add_digits
add_digits_iff bad a [] n h = ground arith
add_digits_iff bad a (c ∷ s) n h = elim (Bool-cases (is_digit c)) [
  | inl d ↦ elim (le_or_lt (a * 10 + (c - b'0')) money_cap) [
    | inl k ↦
        subst
          (λ x. (x ≡ ok n) ↔ (
            (is_digit c && all_digits s ≡ true)
            × (value (a * 10 + (c - b'0')) s ≤ money_cap)
            × (n ≡ pos (value (a * 10 + (c - b'0')) s))))
          (sym (add_digits-step bad a c s h d k))
          (rw (d) (add_digits_iff bad (a * 10 + (c - b'0')) s n k))
    | inr k ↦ (
      λ e. let o = add_digits-over bad a c s h d k in absurd cc,
      λ w. absurd (omega (arith, value_ge (a * 10 + (c - b'0')) s, w.1)),
    )
  ]
  | inr d ↦
      (λ e. let o = add_digits-bad bad a c s d in absurd cc, λ w. absurd (ground (arith, w.0)))
]

-- On digits whose value is within the cap, the loop that wraps around gives it too.
pub wrap_digits-value :
    (a : ℕ) (s : Text)
    → all_digits s ≡ true
    → value a s ≤ money_cap
    → wrap_digits (pos a) s ≡ ok (pos (value a s))
unfolding wrap_digits
wrap_digits-value a [] d h = refl
wrap_digits-value a (c ∷ s) d h =
    let ge = value_ge (a * 10 + (c - b'0')) s in
    let dc : is_digit c ≡ true = ground (arith, d) in
    let ds : all_digits s ≡ true = ground (arith, d) in
    rw (dc, step a c (omega arith) dc) (wrap_digits-value (a * 10 + (c - b'0')) s ds h)
