-- ===== src/Coinselect/Fees.antt =====
-- Sizes and fees where nothing wraps around (internal/coinselect/vsize.go).
use daxib.Prelude.{ℕ, zero, suc, ◌+◌, ◌*◌, ◌≤◌, ◌<◌, ◌^◌, ◌≡◌, ap, arith}
use daxib.Prelude.Int.{pos}
use daxib.Prelude.Int64.{add64-pos, mul64-pos}
use daxib.Coinselect.{estimate_vsize_out, fee_for}

pub estimate_vsize_out-pos :
    (n v o : ℕ)
    → 1 ≤ v
    → 11 + n * 68 + v + o * 31 < 2 ^ 63
    → estimate_vsize_out (pos n) (pos v) (pos o) ≡ pos (11 + n * 68 + v + o * 31)
unfolding estimate_vsize_out
estimate_vsize_out-pos n v o h k = ground (
  arith,
  mul64-pos n 68 (omega arith),
  mul64-pos o 31 (omega arith),
  add64-pos 11 (n * 68) (omega arith),
  add64-pos (11 + n * 68) v (omega arith),
  add64-pos (11 + n * 68 + v) (o * 31) (omega arith),
)

pub fee_for-pos : (s r : ℕ) → s * r < 2 ^ 63 → fee_for (pos s) (pos r) ≡ pos (s * r)
unfolding fee_for
fee_for-pos s r h = ground (arith, mul64-pos s r h)

le_mul : (a r : ℕ) → 1 ≤ r → a ≤ a * r
le_mul a zero h = absurd (omega arith)
le_mul a (suc r) h = grind arith

distrib :
    (n v r o : ℕ) → (11 + n * 68 + v + o * 31) * r ≡ 11 * r + v * r + n * (68 * r) + o * (31 * r)
distrib n v r o = ground arith

-- The fee for n inputs, a recipient output of v bytes and o outputs of change, at the rate r.
abbrev pub exact_fee : (r v n o : ℕ) → ℕ
exact_fee r v n o = 11 * r + v * r + n * (68 * r) + o * (31 * r)

pub fee-pos :
    (r v n o : ℕ)
    → 1 ≤ r
    → 1 ≤ v
    → exact_fee r v n o < 2 ^ 63
    → fee_for (estimate_vsize_out (pos n) (pos v) (pos o)) (pos r) ≡ pos (exact_fee r v n o)
fee-pos r v n o hr hv h =
    rw
      (
        estimate_vsize_out-pos n v o hv
            (omega (arith, le_mul (11 + n * 68 + v + o * 31) r hr, distrib n v r o)),
        fee_for-pos (11 + n * 68 + v + o * 31) r (omega (arith, distrib n v r o)),
      )
      (ap pos (distrib n v r o))
