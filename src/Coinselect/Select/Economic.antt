-- ===== src/Coinselect/Select/Economic.antt =====
-- The economic coins of Select (internal/coinselect/select.go) and their sums.
use daxib.Prelude.{◌-◌, ltb, if◌then◌else◌, inl, inr, Bool-cases, false}
use daxib.Prelude.{
  ℕ, suc, ◌+◌, ◌*◌, ◌≤◌, ◌<◌, ◌^◌, ◌≡◌, refl, ap, arith, List, [], ◌∷◌, ◌++◌, map, length,
  length-append, get_elem?, some, true,
}
use mathlib.Core.List.{Sublistᴰ, append_assoc}
use mathlib.Core.Path.{subst}
use daxib.Prelude.Int.{ℤ, pos, pos_part, ltb_ℤ}
use daxib.Prelude.Int64.{sub64, add64-pos}
use daxib.Prelude.Subsets.{All, total}
use daxib.Coinselect.{Coin}
use daxib.Coinselect.Select.{Kept, keep_economic, sum_from, values, pick}
use daxib.Coinselect.Bnb.Chosen.{Chosen, none_left, skip, take}

abbrev pub amount : Coin → ℕ
amount c = pos_part c.value_sat

abbrev pub eff : Kept → ℕ
eff k = pos_part k.eff_val

-- The effective value is positive, and the value is that and the fee `f` of the input.
pub record Economic (f : ℕ) (k : Kept) : Type 0 where
  pub worth : 1 ≤ eff k
  pub eff_pos : k.eff_val ≡ pos (eff k)
  pub value_pos : k.coin.value_sat ≡ pos (eff k + f)

keep-Economic :
    (f : ℕ) (c : Coin)
    → f < 2 ^ 62
    → amount c < 2 ^ 63
    → ltb_ℤ (pos 0) c.value_sat ≡ true
    → ltb_ℤ (pos 0) (sub64 c.value_sat (pos f)) ≡ true
    → Economic f (record { coin = c; eff_val = sub64 c.value_sat (pos f) })
unfolding sub64
keep-Economic f c h k v e = record {
  worth = ground arith;
  eff_pos = ground arith;
  value_pos = ground arith;
}

pub keep_economic-Economic :
    (f : ℕ) (coins : List Coin)
    → f < 2 ^ 62
    → total (map amount coins) < 2 ^ 63
    → All (Economic f) (keep_economic (pos f) coins)
unfolding keep_economic
keep_economic-Economic f [] h k = tt
keep_economic-Economic f (c ∷ cs) h k =
    ground (arith, keep_economic-Economic f cs h (omega arith), keep-Economic f c h (omega arith))

keep_economic_cases :
    (P : List Kept → Type 0) (f : ℤ) (c : Coin) (cs : List Coin)
    → P (keep_economic f cs)
    → P (record { coin = c; eff_val = sub64 c.value_sat f } ∷ keep_economic f cs)
    → P (keep_economic f (c ∷ cs))
unfolding keep_economic
keep_economic_cases P f c cs dropped kept = ground arith

pub keep_economic-Sublist :
    (f : ℤ) (coins : List Coin) → Sublistᴰ (map (λ k. k.coin) (keep_economic f coins)) coins
unfolding keep_economic
keep_economic-Sublist f [] = Sublistᴰ.slnil
keep_economic-Sublist f (c ∷ cs) =
    keep_economic_cases (λ ks. Sublistᴰ (map (λ k. k.coin) ks) (c ∷ cs)) f c cs
      (Sublistᴰ.cons (keep_economic-Sublist f cs))
      (Sublistᴰ.cons-cons refl (keep_economic-Sublist f cs))

-- What a coin adds beyond the fee of its input, and its amount where that is something.
abbrev pub gain : (fee : ℕ) → Coin → ℕ
gain fee c = amount c - fee

abbrev pub usable : (fee : ℕ) → Coin → ℕ
usable fee c = if ltb fee (amount c) then amount c else 0

drop-no_value :
    (f : ℕ) (c : Coin) → ltb_ℤ (pos 0) c.value_sat ≡ false → (gain f c ≡ 0) × (usable f c ≡ 0)
drop-no_value f c h = (ground arith, ground arith)

drop-no_gain :
    (f : ℕ) (c : Coin)
    → f < 2 ^ 62
    → amount c < 2 ^ 63
    → ltb_ℤ (pos 0) c.value_sat ≡ true
    → ltb_ℤ (pos 0) (sub64 c.value_sat (pos f)) ≡ false
    → (gain f c ≡ 0) × (usable f c ≡ 0)
unfolding sub64
drop-no_gain f c h k v e = (ground arith, ground arith)

keep-gain :
    (f : ℕ) (c : Coin)
    → f < 2 ^ 62
    → amount c < 2 ^ 63
    → ltb_ℤ (pos 0) c.value_sat ≡ true
    → ltb_ℤ (pos 0) (sub64 c.value_sat (pos f)) ≡ true
    → (pos_part (sub64 c.value_sat (pos f)) ≡ gain f c) × (amount c ≡ usable f c)
keep-gain f c h k v e =
    let w = keep-Economic f c h k v e in
    let q = ap pos_part w.value_pos in let l = w.worth in (omega (arith, q), ground (arith, q, l))

-- The coins that are kept are those that add something.
pub kept-totals :
    (f : ℕ) (coins : List Coin)
    → f < 2 ^ 62
    → total (map amount coins) < 2 ^ 63
    → let kept = keep_economic (pos f) coins in
      (total (map eff kept) ≡ total (map (gain f) coins))
      × (total (map amount (map (λ k. k.coin) kept)) ≡ total (map (usable f) coins))
unfolding keep_economic
kept-totals f [] h k = (refl, refl)
kept-totals f (c ∷ cs) h k =
    let (g, u) = kept-totals f cs h (omega arith) in
    elim (Bool-cases (ltb_ℤ (pos 0) c.value_sat)) [
      | inr v ↦
          let (zg, zu) = drop-no_value f c v in rw (v) (omega (arith, g, zg), omega (arith, u, zu))
      | inl v ↦ elim (Bool-cases (ltb_ℤ (pos 0) (sub64 c.value_sat (pos f)))) [
        | inr e ↦
            let (zg, zu) = drop-no_gain f c h (omega arith) v e in
            rw (v, e) (omega (arith, g, zg), omega (arith, u, zu))
        | inl e ↦
            let (zg, zu) = keep-gain f c h (omega arith) v e in
            rw (v, e) (omega (arith, g, zg), omega (arith, u, zu))
      ]
    ]

-- A sum that does not wrap around.
pub sum_from-pos :
    (a : ℕ) (ns : List ℕ)
    → a + total ns < 2 ^ 63
    → sum_from (pos a) (map pos ns) ≡ pos (a + total ns)
unfolding sum_from
sum_from-pos a [] h = ap pos (omega arith)
sum_from-pos a (n ∷ ns) h =
    rw (add64-pos a n (omega arith), sum_from, sum_from-pos (a + n) ns (omega arith))
      (ap pos (omega arith))

pub effs-pos :
    (f : ℕ) (ks : List Kept) → All (Economic f) ks → map (λ k. k.eff_val) ks ≡ map pos (map eff ks)
effs-pos f [] a = refl
effs-pos f (k ∷ ks) a = rw (a.0.eff_pos, effs-pos f ks a.1) refl

pub values-pos :
    (f : ℕ) (ks : List Kept)
    → All (Economic f) ks
    → values (map (λ k. k.coin) ks) ≡ map pos (map amount (map (λ k. k.coin) ks))
unfolding values
values-pos f [] a = refl
values-pos f (k ∷ ks) a = rw (a.0.value_pos, values-pos f ks a.1) refl

pub suc_times : (n f : ℕ) → suc n * f ≡ f + n * f
suc_times n f = ground arith

-- The value of economic coins is what they are worth and the fees of their inputs.
pub amounts-eq :
    (f : ℕ) (ks : List Kept)
    → All (Economic f) ks
    → total (map amount (map (λ k. k.coin) ks)) ≡ total (map eff ks) + length ks * f
amounts-eq f [] a = omega arith
amounts-eq f (k ∷ ks) a =
    ground (arith, amounts-eq f ks a.1, ap pos_part a.0.value_pos, suc_times (length ks) f)

get_elem?-middle {ℓ} :
    {A : Type ℓ} (pre : List A) (x : A) (xs : List A)
    → get_elem? (pre ++ (x ∷ xs)) (length pre) ≡ some x
get_elem?-middle [] x xs = refl
get_elem?-middle (y ∷ pre) x xs = get_elem?-middle pre x xs

length-snoc {ℓ} : {A : Type ℓ} (pre : List A) (x : A) → suc (length pre) ≡ length (pre ++ (x ∷ []))
length-snoc pre x = omega (arith, length-append pre (x ∷ []))

-- Picking the chosen indices gives the chosen elements.
pub pick-Chosen {ℓ} :
    {A : Type ℓ} (pre xs : List A) {sel : List ℕ} {ys : List A}
    → Chosen (length pre) xs sel ys
    → pick (pre ++ xs) sel ≡ ys
unfolding pick
pick-Chosen pre [] none_left = refl
pick-Chosen pre (x ∷ xs) {sel} {ys} (skip c) =
    subst (λ l. pick l sel ≡ ys) (append_assoc pre (x ∷ []) xs)
      (pick-Chosen (pre ++ (x ∷ [])) xs (subst (λ n. Chosen n xs sel ys) (length-snoc pre x) c))
pick-Chosen pre (x ∷ xs) (take {sel = sel} {items = ys} c) =
    rw (get_elem?-middle pre x xs, pick)
      (ap (λ l. x ∷ l)
        (subst (λ l. pick l sel ≡ ys) (append_assoc pre (x ∷ []) xs)
          (pick-Chosen (pre ++ (x ∷ [])) xs
            (subst (λ n. Chosen n xs sel ys) (length-snoc pre x) c))))
