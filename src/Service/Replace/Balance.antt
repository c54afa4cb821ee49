-- ===== src/Service/Replace/Balance.antt =====
-- The fee and the change of a replacement (the closure build of buildReplacement,
-- internal/service/tx_replace.go).
use daxib.Prelude.{
  ℕ, ◌+◌, ◌-◌, ◌*◌, ◌≤◌, ◌<◌, ◌^◌, ◌≡◌, sym, refl, ap, ◌∙◌, arith, true, false, not, List, [], ◌∷◌,
  map, length, if◌then◌else◌, Text, ltb, inl, inr, Bool-cases,
}
use daxib.Prelude.Int.{ℤ, pos, sub_ℕ, ltb_ℤ}
use daxib.Prelude.Int64.{sub64, add64-pos, mul64-pos}
use daxib.Prelude.Outcome.{ok, err}
use daxib.Prelude.Subsets.{All, total}
use daxib.Coinselect.{Coin, fee_for, estimate_vsize_out, output_v_bytes, var_int_size}
use daxib.Coinselect.Fees.{exact_fee, fee-pos}
use daxib.Coinselect.Dust.{dust_threshold_for_script, is_witness_program_bytes}
use daxib.Coinselect.Select.{sum_from, values}
use daxib.Coinselect.Select.Economic.{amount, sum_from-pos}
use daxib.Service.Replace.{ReplaceError, insufficient_inputs, Sizes, speedup_sizes, cancel_sizes}

-- The value of the coin is not negative.
abbrev pub HasAmount : Coin → Type 0
HasAmount c = c.value_sat ≡ pos (amount c)

values-amounts : (cs : List Coin) → All HasAmount cs → values cs ≡ map pos (map amount cs)
unfolding values
values-amounts [] a = refl
values-amounts (c ∷ cs) (e, a) = rw (e, values-amounts cs a) refl

pub sum_in-pos :
    (cs : List Coin)
    → All HasAmount cs
    → total (map amount cs) < 2 ^ 62
    → sum_from (pos 0) (values cs) ≡ pos (total (map amount cs))
sum_in-pos cs a h =
    rw (values-amounts cs a)
      (sum_from-pos 0 (map amount cs) (omega (arith, h)) ∙ ap pos (omega arith))

sub64-diff : (a b : ℕ) → a < 2 ^ 63 → b < 2 ^ 63 → sub64 (pos a) (pos b) ≡ sub_ℕ a b
unfolding sub64
sub64-diff a b h k = ground arith

sub64-diff_twice :
    (a b c : ℕ)
    → a < 2 ^ 62
    → b < 2 ^ 62
    → c < 2 ^ 62
    → sub64 (sub64 (pos a) (pos b)) (pos c) ≡ sub_ℕ a (b + c)
unfolding sub64
sub64-diff_twice a b c h k l = ground arith

var_int_size-pos : (n : ℕ) → (k : ℕ) × (var_int_size (pos n) ≡ pos k) × (1 ≤ k) × (k ≤ 9)
unfolding var_int_size
var_int_size-pos n = elim (Bool-cases (ltb n 253)) [
  | inl a ↦ (1, ground (arith, a), omega arith, omega arith)
  | inr a ↦ elim (Bool-cases (ltb n 65536)) [
    | inl b ↦ (3, ground (arith, a, b), omega arith, omega arith)
    | inr b ↦ elim (Bool-cases (ltb n 4294967296)) [
      | inl c ↦ (5, ground (arith, a, b, c), omega arith, omega arith)
      | inr c ↦ (9, ground (arith, a, b, c), omega arith, omega arith)
    ]
  ]
]

pub output_v_bytes-pos :
    (n : ℕ) → n < 2 ^ 32 → (vb : ℕ) × (output_v_bytes (pos n) ≡ pos vb) × (1 ≤ vb) × (vb ≤ n + 17)
unfolding output_v_bytes var_int_size
output_v_bytes-pos n h =
    let (k, e, lo, hi) = var_int_size-pos n in
    (
      8 + k + n,
      ground (arith, e, add64-pos 8 k (omega arith), add64-pos (8 + k) n (omega arith)),
      omega arith,
      omega arith,
    )

-- The inputs pay the outputs and the fee, and the fee pays for the size; the change is not dust.
pub record Balanced (r vb n v g : ℕ) (s : Sizes) : Type 0 where
  pub fee : ℕ
  pub change : ℕ
  pub fee_eq : s.fee_sat ≡ pos fee
  pub change_eq : s.change_sat ≡ pos change
  pub conserved : v ≡ g + change + fee
  pub with_change : s.emit_change ≡ true → (294 ≤ change) × (exact_fee r vb n 1 ≤ fee)
  pub without_change : s.emit_change ≡ false → exact_fee r vb n 0 ≤ fee

-- The dust limit of a script is a number, of at least 200 satoshis.
dust_threshold_for_script-pos :
    (script : Text)
    → length script < 2 ^ 32
    → (d : ℕ) × (dust_threshold_for_script script ≡ pos d) × (200 ≤ d)
unfolding dust_threshold_for_script
dust_threshold_for_script-pos script h =
    let n = length script in
    let (k, e, lo, hi) = var_int_size-pos n in
    let e1 = add64-pos 8 k (omega arith) in
    let e2 = add64-pos (8 + k) n (omega arith) in
    let e3 = add64-pos (8 + k + n) 41 (omega arith) in
    elim (Bool-cases (is_witness_program_bytes script)) [
      | inl w ↦ (
        3 * (8 + k + n + 41 + 26),
        rw
            (
              w,
              e,
              e1,
              e2,
              e3,
              add64-pos (8 + k + n + 41) 26 (omega arith),
              mul64-pos 3 (8 + k + n + 41 + 26) (omega arith),
            )
            refl,
        omega arith,
      )
      | inr w ↦ (
        3 * (8 + k + n + 41 + 107),
        rw
            (
              w,
              e,
              e1,
              e2,
              e3,
              add64-pos (8 + k + n + 41) 107 (omega arith),
              mul64-pos 3 (8 + k + n + 41 + 107) (omega arith),
            )
            refl,
        omega arith,
      )
    ]

cancel-numbers :
    (v f0 d : ℕ) (z : ℤ) (x : ReplaceError) (s : Sizes)
    → (if ltb_ℤ (sub_ℕ v f0) (pos d)
        then err x
        else ok
            (record { fee_sat = pos f0; change_sat = sub_ℕ v f0; vsize = z; emit_change = false }))
      ≡ ok s
    → (s.fee_sat ≡ pos f0) × (s.change_sat ≡ pos (v - f0)) × (f0 + d ≤ v) × (s.emit_change ≡ false)
cancel-numbers v f0 d z x s h = elim (Bool-cases (ltb_ℤ (sub_ℕ v f0) (pos d))) [
  | inl y ↦ absurd (ground (arith, h, y))
  | inr y ↦
      let lo : f0 + d ≤ v = ground (arith, y) in
      (ground (arith, h, y), ground (arith, h, y), lo, ground (arith, h, y))
]

-- The test of the change, and the two sizes behind it.
speedup-numbers :
    (v g f1 f0 : ℕ) (z1 z0 : ℤ) (s : Sizes)
    → (if not (ltb_ℤ (sub_ℕ v (g + f1)) (pos 294))
        then ok (record {
          fee_sat = pos f1;
          change_sat = sub_ℕ v (g + f1);
          vsize = z1;
          emit_change = true;
        })
        else if ltb_ℤ (sub_ℕ v g) (pos f0)
        then err insufficient_inputs
        else ok
            (record { fee_sat = sub_ℕ v g; change_sat = pos 0; vsize = z0; emit_change = false }))
      ≡ ok s
    → (fee change : ℕ) × (s.fee_sat ≡ pos fee)
      × (s.change_sat ≡ pos change)
      × (v ≡ g + change + fee)
      × (s.emit_change ≡ true → (294 ≤ change) × (f1 ≤ fee))
      × (s.emit_change ≡ false → (f0 ≤ fee) × (change ≡ 0))
speedup-numbers v g f1 f0 z1 z0 s h = elim (Bool-cases (ltb_ℤ (sub_ℕ v (g + f1)) (pos 294))) [
  | inr x ↦
      let lo : g + f1 + 294 ≤ v = ground (arith, x) in
      (
        f1,
        v - (g + f1),
        ground (arith, h, x),
        ground (arith, h, x),
        omega arith,
        λ c. (omega arith, omega arith),
        λ c. absurd (ground (arith, h, x, c)),
      )
  | inl x ↦ elim (Bool-cases (ltb_ℤ (sub_ℕ v g) (pos f0))) [
    | inl y ↦ absurd (ground (arith, h, x, y))
    | inr y ↦
        let hi : v < g + f1 + 294 = ground (arith, x) in
        let lo : g + f0 ≤ v = ground (arith, y) in
        (
          v - g,
          0,
          ground (arith, h, hi, lo),
          ground (arith, h, hi, lo),
          omega arith,
          λ c. ground (arith, h, x, y, c),
          λ c. (omega arith, refl),
        )
  ]
]

module _ (r vb g : ℕ) (cs : List Coin) (hr : 1 ≤ r) (hv : 1 ≤ vb) (a : All HasAmount cs) where
  abbrev v : ℕ
  v = total (map amount cs)

  abbrev fee_with : ℕ → ℕ
  fee_with o = exact_fee r vb (length cs) o

  fee_with-pos :
      (o : ℕ)
      → fee_with o < 2 ^ 62
      → fee_for (estimate_vsize_out (pos (length cs)) (pos vb) (pos o)) (pos r) ≡ pos (fee_with o)
  fee_with-pos o h = fee-pos r vb (length cs) o hr hv (omega (arith, h))

  speedup_sizes-value :
      v < 2 ^ 62
      → g < 2 ^ 62
      → fee_with 1 < 2 ^ 62
      → (z1 z0 : ℤ) × (speedup_sizes (pos vb) (pos r) (pos g) cs ≡ (
          if not (ltb_ℤ (sub_ℕ v (g + fee_with 1)) (pos 294))
          then ok (record {
            fee_sat = pos (fee_with 1);
            change_sat = sub_ℕ v (g + fee_with 1);
            vsize = z1;
            emit_change = true;
          })
          else if ltb_ℤ (sub_ℕ v g) (pos (fee_with 0))
          then err insufficient_inputs
          else ok (record {
            fee_sat = sub_ℕ v g;
            change_sat = pos 0;
            vsize = z0;
            emit_change = false;
          })))
  unfolding speedup_sizes
  speedup_sizes-value hi hg hf = (
    estimate_vsize_out (pos (length cs)) (pos vb) (pos 1),
    estimate_vsize_out (pos (length cs)) (pos vb) (pos 0),
    rw
        (
          sum_in-pos cs a hi,
          fee_with-pos 1 hf,
          fee_with-pos 0 (omega (arith, hf)),
          sub64-diff_twice v g (fee_with 1) hi hg hf,
          sub64-diff v g (omega (arith, hi)) (omega (arith, hg)),
        )
        refl,
  )

  pub speedup_sizes-Balanced :
      (s : Sizes)
      → v < 2 ^ 62
      → g < 2 ^ 62
      → fee_with 1 < 2 ^ 62
      → speedup_sizes (pos vb) (pos r) (pos g) cs ≡ ok s
      → Balanced r vb (length cs) v g s × (s.emit_change ≡ false → s.change_sat ≡ pos 0)
  speedup_sizes-Balanced s hi hg hf h =
      let (z1, z0, e) = speedup_sizes-value hi hg hf in
      let (fee, change, ef, ec, eq, w, n) =
        speedup-numbers v g (fee_with 1) (fee_with 0) z1 z0 s (sym e ∙ h) in
      (
        record {
          fee = fee;
          change = change;
          fee_eq = ef;
          change_eq = ec;
          conserved = eq;
          with_change = w;
          without_change = λ c. (n c).0;
        },
        λ c. ec ∙ ap pos (n c).1,
      )

  pub cancel_sizes-Balanced :
      (script : Text) (s : Sizes)
      → length script < 2 ^ 32
      → v < 2 ^ 62
      → fee_with 0 < 2 ^ 62
      → cancel_sizes (pos vb) (pos r) script cs ≡ ok s
      → Balanced r vb (length cs) v 0 s × (s.emit_change ≡ false)
  unfolding cancel_sizes
  cancel_sizes-Balanced script s hl hi hf h =
      let (d, ed, ld) = dust_threshold_for_script-pos script hl in
      let value =
        rw
          (
            sum_in-pos cs a hi,
            fee_with-pos 0 hf,
            sub64-diff v (fee_with 0) (omega (arith, hi)) (omega (arith, hf)),
            ed,
          )
          at h in
      let (ef, ec, lo, n) = cancel-numbers v (fee_with 0) d _ _ s value in
      (
        record {
          fee = fee_with 0;
          change = v - fee_with 0;
          fee_eq = ef;
          change_eq = ec;
          conserved = omega (arith, lo);
          with_change = λ c. absurd (cc (c, n));
          without_change = λ c. omega arith;
        },
        n,
      )
