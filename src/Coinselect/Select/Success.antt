-- ===== src/Coinselect/Select/Success.antt =====
-- Where Select succeeds (internal/coinselect/select.go).
use mathlib.Core.List.{Subperm}
use daxib.Prelude.{◌+◌, ◌≤◌, ◌≡◌, arith, List, inl, inr, ltb, Bool-cases, ltb→lt}
use mathlib.Core.Path.{subst}
use daxib.Prelude.Int.{pos}
use daxib.Prelude.Outcome.{ok}
use daxib.Coinselect.{Coin, Params, Selection}
use daxib.Coinselect.Select.{select}
use daxib.Coinselect.Select.Accumulate.{goal, cost, Sound}
use daxib.Coinselect.Select.Valid.{InRange, worth, select-Good, select-err}

-- The gates of an amount that is not positive and of one that is dust were passed.
select-gate :
    (coins : List Coin) (p : Params) (s : Selection)
    → select coins p ≡ ok s
    → (p.target ≡ pos (goal p)) × (294 ≤ goal p)
unfolding select
select-gate coins p s h = (ground (arith, h), ground (arith, h))

-- Where no amount wraps around, what Select returns is sound and drawn from the given coins.
pub select-ok :
    (coins : List Coin) (p : Params) (s : Selection)
    → InRange p coins
    → select coins p ≡ ok s
    → (294 ≤ goal p) × (p.target ≡ pos (goal p)) × Sound p s × Subperm s.inputs coins
select-ok coins p s r h =
    let (t, le) = select-gate coins p s h in
    elim (Bool-cases (ltb (worth p coins) (goal p + cost p 0 0))) [
      | inl e ↦
          let short = ltb→lt (worth p coins) (goal p + cost p 0 0) e in
          let failed = select-err coins p t le r short in absurd (ground (arith, h, failed))
      | inr e ↦
          let (s', e', sound, sub) = select-Good coins p t le r (ground (arith, e)) in
          let same : s' ≡ s = cc in
          (le, t, subst (Sound p) same sound, subst (λ x. Subperm x.inputs coins) same sub)
    ]
