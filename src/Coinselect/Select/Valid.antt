-- ===== src/Coinselect/Select/Valid.antt =====
-- Select as a whole (internal/coinselect/select.go): its gates, the search and the fallbacks.
use daxib.Coinselect.Select.Economic.{gain, usable, kept-totals}
use daxib.Prelude.{
  ltb, ℕ, ◌+◌, ◌*◌, ◌≤◌, ◌<◌, ◌^◌, ◌≡◌, inl, inr, refl, sym, ap, arith, List, [], map, length,
  length-map, if◌then◌else◌, not, some, Option-cases,
}
use mathlib.Core.List.{Subperm, append-nil}
use mathlib.Core.List.Permᴰ
use mathlib.Core.List.Perm
use mathlib.Core.List.Subperm
use mathlib.Core.Path.{subst}
use daxib.Prelude.Int.{ℤ, pos, ltb_ℤ}
use daxib.Prelude.Int64.{add64, add64-pos, sub64-pos}
use daxib.Prelude.Outcome.{Outcome, ok, err}
use daxib.Prelude.Sort.{sort, sort-Perm}
use daxib.Prelude.Subsets.{
  All, total, All-Perm, All-Sublist, total-Perm, map-Perm, map-Sublist, total-Sublist,
}
use daxib.Coinselect.{Coin, Params, Selection, SelectError, insufficient, fee_for}
use daxib.Coinselect.Fees.{fee_for-pos}
use daxib.Coinselect.Bnb.{bnb}
use daxib.Coinselect.Bnb.Chosen.{Chosen, Chosen-unmap, Chosen-map, Chosen-Sublist}
use daxib.Coinselect.Bnb.Window.{bnb-InWindow}
use daxib.Coinselect.Select.{
  Kept, before, sum_from, values, pick, fee_rate_of, fee_of, changeless, accumulate, choose, select,
  keep_economic, bnb_target, upper_bound,
}
use daxib.Coinselect.Select.Economic.{
  amount, eff, Economic, amounts-eq, effs-pos, values-pos, sum_from-pos, pick-Chosen,
  keep_economic-Economic, keep_economic-Sublist,
}
use daxib.Coinselect.Select.Accumulate.{
  rate, goal, cost, Good, changeless-Sound, drawn_changeless, accumulate-Good, fee_of-pos,
  fee_rate_of-pos,
}

-- No sum and no product of the run wraps around.
abbrev pub InRange : Params → List Coin → Type 0
InRange p coins = 3 * total (map amount coins) + goal p + cost p 0 1 + 68 * rate p + 294 < 2 ^ 62

-- What the coins add together beyond the fees of their inputs.
abbrev pub worth : Params → List Coin → ℕ
worth p coins = total (map (gain (68 * rate p)) coins)

-- The effective values of the coins that are kept.
abbrev kept_worth : Params → List Coin → ℕ
kept_worth p coins = total (map eff (keep_economic (pos (68 * rate p)) coins))

abbrev window_end : Params → ℕ
window_end p = goal p + cost p 0 0 + 31 * rate p + 293

add-eq : (t f : ℤ) (g c : ℕ) → t ≡ pos g → f ≡ pos c → g + c < 2 ^ 63 → add64 t f ≡ pos (g + c)
add-eq t f g c e h k = rw (e, h) (add64-pos g c k)

bnb_target-pos :
    (p : Params)
    → p.target ≡ pos (goal p)
    → goal p + cost p 0 0 < 2 ^ 63
    → bnb_target p ≡ pos (goal p + cost p 0 0)
unfolding bnb_target
bnb_target-pos p t h =
    add-eq p.target (fee_of p 0 (pos 0)) (goal p) (cost p 0 0) t (fee_of-pos p 0 0 (omega arith)) h

upper_bound-pos :
    (p : Params)
    → p.target ≡ pos (goal p)
    → window_end p + 1 < 2 ^ 63
    → upper_bound p ≡ pos (window_end p)
unfolding upper_bound
upper_bound-pos p t h =
    let r = fee_rate_of-pos p in
    rw
      (
        bnb_target-pos p t (omega arith),
        r.0,
        fee_for-pos 31 (rate p) (omega arith),
        add64-pos (goal p + cost p 0 0) (31 * rate p) (omega arith),
        add64-pos (goal p + cost p 0 0 + 31 * rate p) 294 (omega arith),
        sub64-pos (goal p + cost p 0 0 + 31 * rate p + 294) 1 (omega arith) (omega arith),
      )
      (ap pos (omega arith))

choose_cases :
    (P : Outcome SelectError Selection → Type 0) (p : Params) (ks : List Kept)
    → let sorted = sort before ks in
      ((sel : List ℕ)
        → bnb (map (λ k. k.eff_val) sorted) (bnb_target p) (upper_bound p) ≡ some sel
        → let picked = pick (map (λ k. k.coin) sorted) sel in
          P (ok (changeless p picked (sum_from (pos 0) (values picked)))))
      → P (accumulate p [] (pos 0) (map (λ k. k.coin) sorted))
      → P (choose p ks)
unfolding choose
choose_cases P p ks picked fallback =
    let sorted = sort before ks in
    elim (Option-cases (bnb (map (λ k. k.eff_val) sorted) (bnb_target p) (upper_bound p))) [
      | inl e ↦ rw (choose, e) fallback
      | inr w ↦ rw (choose, w.1) (picked w.0 w.1)
    ]

-- A chosen part of economic coins, whose effective values lie in the window, is sound.
chosen-Good :
    (p : Params) (ks ys : List Kept) {sel : List ℕ}
    → p.target ≡ pos (goal p)
    → All (Economic (68 * rate p)) ks
    → 3 * total (map amount (map (λ k. k.coin) ks)) + goal p + cost p 0 1 + 294 < 2 ^ 63
    → Chosen 0 ks sel ys
    → goal p + cost p 0 0 ≤ total (map eff ys)
    → total (map eff ys) ≤ window_end p
    → let picked = pick (map (λ k. k.coin) ks) sel in
      Good p (map (λ k. k.coin) ks) (ok (changeless p picked (sum_from (pos 0) (values picked))))
chosen-Good p ks ys t a bound cy lo hi =
    let ay = All-Sublist (Economic (68 * rate p)) (Chosen-Sublist cy) a in
    let part = map-Sublist (λ k. k.coin) (Chosen-Sublist cy) in
    let less = total-Sublist amount part in
    let worth_y = amounts-eq (68 * rate p) ys ay in
    let v = 0 + total (map amount (map (λ k. k.coin) ys)) in
    let len = length-map ys (λ k. k.coin) in
    let cost0 : cost p (length (map (λ k. k.coin) ys)) 0 ≡ cost p 0 0 + length ys * (68 * rate p) =
      rw (len) (omega arith) in
    let cost1 : cost p (length (map (λ k. k.coin) ys)) 1
        ≡ cost p 0 0 + length ys * (68 * rate p) + 31 * rate p =
      rw (len) (omega arith) in
    rw
      (
        pick-Chosen [] (map (λ k. k.coin) ks) (Chosen-map (λ k. k.coin) cy),
        values-pos (68 * rate p) ys ay,
        sum_from-pos 0 (map amount (map (λ k. k.coin) ys)) (omega arith),
      )
      (
        changeless p (map (λ k. k.coin) ys) (pos v),
        refl,
        changeless-Sound p (map (λ k. k.coin) ys) v t (omega arith) (omega arith) (omega arith)
            (omega arith),
        Subperm.trans
            (subst (λ l. Subperm (changeless p (map (λ k. k.coin) ys) (pos v)).inputs l)
              (append-nil (map (λ k. k.coin) ys))
              (drawn_changeless p (map (λ k. k.coin) ys) [] (pos v)))
            ∣ (map (λ k. k.coin) ys, Perm.refl _, ∣ part ∣₁) ∣₁,
      )

-- What branch and bound picks is sound, on economic coins in the order of the search.
picked-Good :
    (p : Params) (ks : List Kept) (sel : List ℕ)
    → p.target ≡ pos (goal p)
    → All (Economic (68 * rate p)) ks
    → 3 * total (map amount (map (λ k. k.coin) ks)) + goal p + cost p 0 1 + 294 < 2 ^ 63
    → bnb (map (λ k. k.eff_val) ks) (bnb_target p) (upper_bound p) ≡ some sel
    → let picked = pick (map (λ k. k.coin) ks) sel in
      Good p (map (λ k. k.coin) ks) (ok (changeless p picked (sum_from (pos 0) (values picked))))
picked-Good p ks sel t a bound h =
    let worths = amounts-eq (68 * rate p) ks a in
    let found : bnb (map pos (map eff ks)) (pos (goal p + cost p 0 0)) (pos (window_end p))
        ≡ some sel =
      let e1 = effs-pos (68 * rate p) ks a in
      let e2 = bnb_target-pos p t (omega arith) in
      let e3 = upper_bound-pos p t (omega arith) in cc in
    let (items, c, lo, hi) = bnb-InWindow _ _ (map eff ks) sel (omega arith) found in
    let (ys, cy, ey) = Chosen-unmap eff ks c in
    let same = ap total ey in chosen-Good p ks ys t a bound cy (omega arith) (omega arith)

choose-Good :
    (p : Params) (ks : List Kept)
    → p.target ≡ pos (goal p)
    → All (Economic (68 * rate p)) ks
    → 3 * total (map amount (map (λ k. k.coin) ks)) + goal p + cost p 0 1 + 294 < 2 ^ 63
    → goal p + cost p 0 0 ≤ total (map eff ks)
    → Good p (map (λ k. k.coin) (sort before ks)) (choose p ks)
choose-Good p ks t a bound enough =
    let sorted = sort before ks in
    let perm = sort-Perm before ks in
    let a' = All-Perm (Economic (68 * rate p)) (Permᴰ.symm perm) a in
    let worths = amounts-eq (68 * rate p) sorted a' in
    let effs = total-Perm eff perm in
    let amounts = total-Perm amount (map-Perm (λ k. k.coin) perm) in
    choose_cases (Good p (map (λ k. k.coin) sorted)) p ks
      (λ sel h. picked-Good p sorted sel t a' (omega arith) h)
      (accumulate-Good p [] 0 sorted t refl a' (omega arith) (omega arith) (omega arith))

-- The gates of Select, on amounts that are read as numbers.
gates :
    {A : Type 0} (t tot need : ℤ) (g a b : ℕ) (x y z w : A)
    → t ≡ pos g
    → tot ≡ pos (0 + a)
    → need ≡ pos b
    → 294 ≤ g
    → (if not (ltb_ℤ (pos 0) t)
        then x
        else if ltb_ℤ t (pos 294)
        then y
        else if ltb_ℤ tot need
        then z
        else w)
      ≡ (if ltb a b then z else w)
gates t tot need g a b x y z w e h k le = ground arith

select-gates :
    (coins : List Coin) (p : Params)
    → p.target ≡ pos (goal p)
    → 294 ≤ goal p
    → InRange p coins
    → let kept = keep_economic (pos (68 * rate p)) coins in
      let avail = sum_from (pos 0) (values (map (λ k. k.coin) kept)) in
      select coins p ≡ (
        if ltb (kept_worth p coins) (goal p + cost p 0 0)
        then err (insufficient avail (add64 p.target (fee_of p 1 (pos 0))) p.target)
        else choose p kept)
unfolding select
select-gates coins p t le bound =
    let kept = keep_economic (pos (68 * rate p)) coins in
    let a = keep_economic-Economic (68 * rate p) coins (omega arith) (omega arith) in
    let r = fee_rate_of-pos p in
    let fee : fee_for (pos 68) (fee_rate_of p) ≡ pos (68 * rate p) =
      subst (λ x. fee_for (pos 68) x ≡ pos (68 * rate p)) (sym r.0)
        (fee_for-pos 68 (rate p) (omega arith)) in
    let part = total-Sublist amount (keep_economic-Sublist (pos (68 * rate p)) coins) in
    let worths = amounts-eq (68 * rate p) kept a in
    let tot : sum_from (pos 0) (map (λ k. k.eff_val) kept) ≡ pos (0 + kept_worth p coins) =
      subst (λ l. sum_from (pos 0) l ≡ pos (0 + kept_worth p coins))
        (sym (effs-pos (68 * rate p) kept a)) (sum_from-pos 0 (map eff kept) (omega arith)) in
    rw (fee) (
      gates p.target _ (bnb_target p) (goal p) (kept_worth p coins) _ _ _ _ _ t tot
        (bnb_target-pos p t (omega arith)) le)

if-true :
    {A : Type 0} {x y w : A} (z : A) (a b : ℕ)
    → x ≡ (if ltb a b then y else z)
    → a < b
    → y ≡ w
    → x ≡ w
if-true z a b e h k = ground arith

insufficient-eq :
    {a b t : ℤ} (x n m : ℕ)
    → 0 + m ≡ x
    → a ≡ pos (0 + m)
    → b ≡ pos n
    → insufficient a b t ≡ insufficient (pos x) (pos n) t
insufficient-eq {t = t} x n m e h k = rw (h, k) (ap (λ y. insufficient (pos y) (pos n) t) e)

if-false :
    {A : Type 0} {x z w : A} (y : A) (a b : ℕ)
    → x ≡ (if ltb a b then y else z)
    → b ≤ a
    → z ≡ w
    → x ≡ w
if-false y a b e h k = ground arith

-- Where no amount wraps around, a target of at least 294 satoshis is funded whenever what the coins add
-- beyond the fees of their inputs, each by itself and where that is positive, covers it and the fixed
-- fee: Select then returns a selection out of the given coins that conserves the amounts, whose fee is the
-- exact one with change of at least 294 satoshis, or at least the exact one without change and short of
-- paying for such a change.
pub select-Good :
    (coins : List Coin) (p : Params)
    → p.target ≡ pos (goal p)
    → 294 ≤ goal p
    → InRange p coins
    → goal p + cost p 0 0 ≤ worth p coins
    → Good p coins (select coins p)
select-Good coins p t le bound enough =
    let f = 68 * rate p in
    let kept = keep_economic (pos (68 * rate p)) coins in
    let a = keep_economic-Economic (68 * rate p) coins (omega arith) (omega arith) in
    let part = keep_economic-Sublist (pos (68 * rate p)) coins in
    let less = total-Sublist amount part in
    let (same, avail) = kept-totals f coins (omega arith) (omega arith) in
    let (s, e, sound, sub) = choose-Good p kept t a (omega arith) (omega (arith, enough, same)) in
    (
      s,
      if-false _ (kept_worth p coins) (goal p + cost p 0 0) (select-gates coins p t le bound)
          (omega (arith, enough, same)) e,
      sound,
      Subperm.trans sub ∣ (
        map (λ k. k.coin) kept,
        ∣ Permᴰ.symm (map-Perm (λ k. k.coin) (sort-Perm before kept)) ∣₁,
        ∣ part ∣₁,
      ) ∣₁,
    )

-- Where no amount wraps around and the target is at least 294 satoshis, but what the coins add beyond the
-- fees of their inputs does not cover it and the fixed fee, Select fails with the sum of the coins that
-- have more than that fee, and with the target and the fee for one input.
pub select-err :
    (coins : List Coin) (p : Params)
    → p.target ≡ pos (goal p)
    → 294 ≤ goal p
    → InRange p coins
    → worth p coins < goal p + cost p 0 0
    → select coins p
      ≡ err (
          insufficient
            (pos (total (map (usable (68 * rate p)) coins)))
            (pos (goal p + cost p 1 0))
            p.target)
select-err coins p t le bound short =
    let kept = keep_economic (pos (68 * rate p)) coins in
    let a = keep_economic-Economic (68 * rate p) coins (omega arith) (omega arith) in
    let less = total-Sublist amount (keep_economic-Sublist (pos (68 * rate p)) coins) in
    let (same, spendable) = kept-totals (68 * rate p) coins (omega arith) (omega arith) in
    let avail : sum_from (pos 0) (values (map (λ k. k.coin) kept))
        ≡ pos (0 + total (map amount (map (λ k. k.coin) kept))) =
      subst (λ l. sum_from (pos 0) l ≡ pos (0 + total (map amount (map (λ k. k.coin) kept))))
        (sym (values-pos (68 * rate p) kept a))
        (sum_from-pos 0 (map amount (map (λ k. k.coin) kept)) (omega arith)) in
    let needed =
      add-eq p.target (fee_of p 1 (pos 0)) (goal p) (cost p 1 0) t (fee_of-pos p 1 0 (omega arith))
        (omega arith) in
    if-true _ (kept_worth p coins) (goal p + cost p 0 0) (select-gates coins p t le bound)
      (omega (arith, short, same))
      (ap err (
        insufficient-eq (total (map (usable (68 * rate p)) coins)) (goal p + cost p 1 0)
          (total (map amount (map (λ k. k.coin) kept))) (omega (arith, spendable)) avail needed))
