-- ===== src/Coinselect/Select/Accumulate.antt =====
-- The selections of Select without change and by accumulation (internal/coinselect/select.go).
use daxib.Prelude.{
  ℕ, ◌+◌, ◌-◌, ◌*◌, ◌≤◌, ◌<◌, ◌^◌, ◌≡◌, refl, ap, arith, List, [], ◌∷◌, ◌++◌, map, length,
  length-append, true, false, if◌then◌else◌, not,
}
use mathlib.Core.List.{Permᴰ, Subperm, append_assoc, sublist-append_left}
use mathlib.Core.List.Permᴰ
use mathlib.Core.Path.{subst}
use daxib.Prelude.Int.{ℤ, pos, pos_part, ltb_ℤ}
use daxib.Prelude.Int64.{add64, sub64, add64-pos, sub64-pos}
use daxib.Prelude.Outcome.{Outcome, ok}
use daxib.Prelude.Sort.{sort-Perm}
use daxib.Prelude.Subsets.{All, total, total-Perm, length-Perm}
use daxib.Coinselect.{Coin, Params, Selection, SelectError}
use daxib.Coinselect.Fees.{exact_fee, fee-pos}
use daxib.Coinselect.Select.{
  Kept, sort_inputs, fee_rate_of, recip_vb_of, vsize_of, fee_of, changeless, with_change, needed,
  accumulate,
}
use daxib.Coinselect.Select.Economic.{amount, eff, Economic, suc_times}

abbrev pub rate : Params → ℕ
rate p = pos_part (fee_rate_of p)

abbrev pub recipient : Params → ℕ
recipient p = pos_part (recip_vb_of p)

abbrev pub goal : Params → ℕ
goal p = pos_part p.target

-- The fee for n inputs and o outputs of change.
abbrev pub cost : Params → ℕ → ℕ → ℕ
cost p n o = exact_fee (rate p) (recipient p) n o

pub fee_rate_of-pos : (p : Params) → (fee_rate_of p ≡ pos (rate p)) × (1 ≤ rate p)
unfolding fee_rate_of
fee_rate_of-pos p = ground arith

pub recip_vb_of-pos : (p : Params) → (recip_vb_of p ≡ pos (recipient p)) × (1 ≤ recipient p)
unfolding recip_vb_of
recip_vb_of-pos p = ground arith

pub fee_of-pos :
    (p : Params) (n o : ℕ) → cost p n o < 2 ^ 63 → fee_of p n (pos o) ≡ pos (cost p n o)
unfolding fee_of vsize_of
fee_of-pos p n o h =
    let (er, hr) = fee_rate_of-pos p in
    let (ev, hv) = recip_vb_of-pos p in rw (er, ev) (fee-pos (rate p) (recipient p) n o hr hv h)

-- What a selection promises. The amounts are conserved; without change the fee is at least the exact
-- one, and what it is more does not pay for a change output that is not dust; with change the fee is
-- the exact one and the change is not dust.
pub record Sound (p : Params) (s : Selection) : Type 0 where
  pub fee : ℕ
  pub change : ℕ
  pub fee_eq : s.fee_sat ≡ pos fee
  pub change_eq : s.change_sat ≡ pos change
  pub conserved : total (map amount s.inputs) ≡ goal p + fee + change
  pub without_change :
      s.has_change ≡ false
      → (change ≡ 0) × (cost p (length s.inputs) 0 ≤ fee) × (fee < cost p (length s.inputs) 1 + 294)
  pub with_change : s.has_change ≡ true → (294 ≤ change) × (fee ≡ cost p (length s.inputs) 1)

pub sort_inputs-Perm : (coins : List Coin) → Permᴰ (sort_inputs coins) coins
unfolding sort_inputs
sort_inputs-Perm coins = sort-Perm _ coins

pub changeless-Sound :
    (p : Params) (picked : List Coin) (v : ℕ)
    → p.target ≡ pos (goal p)
    → total (map amount picked) ≡ v
    → v < 2 ^ 63
    → goal p + cost p (length picked) 0 ≤ v
    → v < goal p + cost p (length picked) 1 + 294
    → Sound p (changeless p picked (pos v))
unfolding changeless
changeless-Sound p picked v t e bound lo hi =
    let same = total-Perm amount (sort_inputs-Perm picked) in
    let len = length-Perm (sort_inputs-Perm picked) in
    record {
      fee = v - goal p;
      change = 0;
      fee_eq = rw (t, sub64-pos v (goal p) (omega arith) bound) refl;
      change_eq = refl;
      conserved = omega arith;
      without_change = λ h. rw (len) (omega arith);
      with_change = λ h. cc;
    }

sum-eq :
    (t f : ℤ) (g c : ℕ)
    → t ≡ pos g
    → f ≡ pos c
    → g + c + 294 < 2 ^ 63
    → add64 (add64 t f) (pos 294) ≡ pos (g + c + 294)
sum-eq t f g c e h k = rw (e, h, add64-pos g c (omega arith), add64-pos (g + c) 294 k) refl

change-eq :
    (t : ℤ) (v g c : ℕ)
    → t ≡ pos g
    → v < 2 ^ 63
    → g + c ≤ v
    → sub64 (sub64 (pos v) t) (pos c) ≡ pos (v - g - c)
change-eq t v g c e bound h =
    rw (e, sub64-pos v g (omega arith) bound, sub64-pos (v - g) c (omega arith) (omega arith)) refl

pub needed-pos :
    (p : Params) (n : ℕ)
    → p.target ≡ pos (goal p)
    → goal p + cost p n 1 + 294 < 2 ^ 63
    → needed p n ≡ pos (goal p + cost p n 1 + 294)
unfolding needed
needed-pos p n t h =
    sum-eq p.target (fee_of p n (pos 1)) (goal p) (cost p n 1) t (fee_of-pos p n 1 (omega arith)) h

pub with_change-Sound :
    (p : Params) (picked : List Coin) (v : ℕ)
    → p.target ≡ pos (goal p)
    → total (map amount picked) ≡ v
    → v < 2 ^ 63
    → goal p + cost p (length picked) 1 + 294 ≤ v
    → Sound p (with_change p picked (pos v))
unfolding with_change
with_change-Sound p picked v t e bound lo =
    let same = total-Perm amount (sort_inputs-Perm picked) in
    let len = length-Perm (sort_inputs-Perm picked) in
    let f = fee_of-pos p (length picked) 1 (omega arith) in
    record {
      fee = cost p (length picked) 1;
      change = v - goal p - cost p (length picked) 1;
      fee_eq = f;
      change_eq =
          rw (f) (change-eq p.target v (goal p) (cost p (length picked) 1) t bound (omega arith));
      conserved = omega arith;
      without_change = λ h. cc;
      with_change = λ h. rw (len) (omega arith);
    }

-- One pass of the accumulation loop.
accumulate_cases :
    (P : Outcome SelectError Selection → Type 0) (p : Params) (picked : List Coin) (s v' : ℤ)
    (c : Coin) (cs : List Coin)
    → add64 s c.value_sat ≡ v'
    → let picked' = picked ++ (c ∷ []) in
      (ltb_ℤ v' (needed p (length picked')) ≡ false → P (ok (with_change p picked' v')))
      → (ltb_ℤ v' (needed p (length picked')) ≡ true → P (accumulate p picked' v' cs))
      → P (accumulate p picked s (c ∷ cs))
unfolding accumulate
accumulate_cases P p picked s v' c cs e enough short = ground arith

enough-eq {ℓ} :
    {A : Type ℓ} (t f : ℤ) (g c v : ℕ) (x : A) (y : A)
    → t ≡ pos g
    → f ≡ pos c
    → v < 2 ^ 63
    → g + c ≤ v
    → (if not (ltb_ℤ (pos v) (add64 t f)) then x else y) ≡ x
enough-eq t f g c v x y e h b k = rw (e, h, add64-pos g c (omega arith)) (ground arith)

-- A sorted part of the coins is drawn from them.
drawn : (picked rest : List Coin) → Subperm (sort_inputs picked) (picked ++ rest)
drawn picked rest =
    ∣ (picked, ∣ Permᴰ.symm (sort_inputs-Perm picked) ∣₁, sublist-append_left picked rest) ∣₁

pub drawn_changeless :
    (p : Params) (picked rest : List Coin) (v : ℤ)
    → Subperm (changeless p picked v).inputs (picked ++ rest)
unfolding changeless
drawn_changeless p picked rest v = drawn picked rest

drawn_with_change :
    (p : Params) (picked rest : List Coin) (v : ℤ)
    → Subperm (with_change p picked v).inputs (picked ++ rest)
unfolding with_change
drawn_with_change p picked rest v = drawn picked rest

not_below : (a n : ℕ) (x : ℤ) → x ≡ pos n → ltb_ℤ (pos a) x ≡ false → n ≤ a
not_below a n x e h = ground arith

below : (a n : ℕ) (x : ℤ) → x ≡ pos n → ltb_ℤ (pos a) x ≡ true → a < n
below a n x e h = ground arith

accumulate_nil :
    (p : Params) (picked : List Coin) (v : ℕ)
    → p.target ≡ pos (goal p)
    → v < 2 ^ 63
    → goal p + cost p (length picked) 0 ≤ v
    → accumulate p picked (pos v) [] ≡ ok (changeless p picked (pos v))
unfolding accumulate
accumulate_nil p picked v t bound h =
    enough-eq p.target (fee_of p (length picked) (pos 0)) (goal p) (cost p (length picked) 0) v _ _
      t (fee_of-pos p (length picked) 0 (omega arith)) bound h

-- A sound selection out of the coins, as the result.
abbrev pub Good : Params → List Coin → Outcome SelectError Selection → Type 0
Good p coins out = (s : Selection) × (out ≡ ok s) × Sound p s × Subperm s.inputs coins

cost-snoc :
    (p : Params) (picked : List Coin) (c : Coin) (o : ℕ)
    → cost p (length (picked ++ (c ∷ []))) o ≡ cost p (length picked) o + 68 * rate p
cost-snoc p picked c o = rw (length-append picked (c ∷ [])) (grind arith)

total-snoc :
    (picked : List Coin) (c : Coin)
    → total (map amount (picked ++ (c ∷ []))) ≡ total (map amount picked) + amount c
total-snoc [] c = omega arith
total-snoc (x ∷ xs) c = omega (arith, total-snoc xs c)

-- The accumulation ends with a sound selection, if the coins left are worth enough.
pub accumulate-Good :
    (p : Params) (picked : List Coin) (v : ℕ) (ks : List Kept)
    → p.target ≡ pos (goal p)
    → total (map amount picked) ≡ v
    → All (Economic (68 * rate p)) ks
    → v
        + total (map eff ks)
        + goal p
        + cost p (length picked) 1
        + length ks * (68 * rate p)
        + length ks * (68 * rate p)
        + 294
      < 2 ^ 63
    → v < goal p + cost p (length picked) 1 + 294
    → goal p + cost p (length picked) 0 ≤ v + total (map eff ks)
    → Good p (picked ++ map (λ k. k.coin) ks) (accumulate p picked (pos v) (map (λ k. k.coin) ks))
accumulate-Good p picked v [] t e a bound hi lo = (
  changeless p picked (pos v),
  accumulate_nil p picked v t (omega arith) (omega arith),
  changeless-Sound p picked v t e (omega arith) (omega arith) hi,
  drawn_changeless p picked [] (pos v),
)
accumulate-Good p picked v (k ∷ ks) t e a bound hi lo =
    let f = 68 * rate p in
    let w = eff k + f in
    let picked' = picked ++ (k.coin ∷ []) in
    let snoc1 = cost-snoc p picked k.coin 1 in
    let snoc0 = cost-snoc p picked k.coin 0 in
    let left = suc_times (length ks) (68 * rate p) in
    let sum' : total (map amount (picked ++ (k.coin ∷ []))) ≡ v + (eff k + 68 * rate p) =
      omega (arith, total-snoc picked k.coin, ap pos_part a.0.value_pos) in
    let rest = map (λ k'. k'.coin) ks in
    let assoc = append_assoc picked (k.coin ∷ []) rest in
    let need = needed-pos p (length picked') t (omega arith) in
    accumulate_cases (Good p (picked ++ (k.coin ∷ map (λ k'. k'.coin) ks))) p picked (pos v)
      (pos (v + w)) k.coin rest (rw (a.0.value_pos) (add64-pos v w (omega arith)))
      (λ h. (
        with_change p picked' (pos (v + w)),
        refl,
        with_change-Sound p picked' (v + w) t sum' (omega arith) (not_below _ _ _ need h),
        subst (λ l. Subperm (with_change p picked' (pos (v + w))).inputs l) assoc
            (drawn_with_change p picked' rest (pos (v + w))),
      ))
      (λ h.
        subst (λ l. Good p l (accumulate p picked' (pos (v + w)) rest)) assoc
          (accumulate-Good p picked' (v + w) ks t sum' a.1 (omega arith) (below _ _ _ need h)
            (omega arith)))
