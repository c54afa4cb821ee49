-- ===== src/Service/Replace/Bumped.antt =====
-- What a replacement pays, and what the policy is asked for it (buildReplacement of
-- internal/service/tx_replace.go).
use daxib.Service.Artifact.Outpoints.{IsOutpoint}
use daxib.Service.Replace.Inputs.{SpendsOutpoint, replacement_inputs-SpendsOutpoint}
use daxib.Prelude.Subsets.{Zipped}
use mathlib.Core.Path.{subst}
use daxib.Prelude.{
  ℕ, ◌+◌, ◌-◌, ◌≤◌, ◌<◌, ◌^◌, ◌≡◌, ◌⊎◌, inl, inr, refl, sym, ap, ◌∙◌, arith, true, List, [], ◌∷◌,
  ◌++◌, map, some, length, Bool-cases, Text,
}
use daxib.Prelude.Int.{ℤ, pos, pos_part}
use daxib.Prelude.Int64.{add64-pos, sub64-pos}
use daxib.Prelude.Outcome.{Outcome, ok}
use daxib.Prelude.Subsets.{All, total}
use daxib.Journal.{Record}
use daxib.Coinselect.{Coin, output_v_bytes}
use daxib.Coinselect.Fees.{exact_fee}
use daxib.Coinselect.Select.Economic.{amount}
use daxib.Policy.Evaluate.{window_charge}
use daxib.Service.World.{Service}
use daxib.Service.Restart.{outpoint}
use daxib.Service.Funding.{Utxo, ScanAddress, Btc, Answers, TxOut, Tx, by_addr, script_for_address}
use daxib.Service.Replace.{
  ReplaceMode, speedup, cancel, ReplaceError, Sizes, sizes, base_inputs, sized_inputs,
  replacement_outputs, replacement_check, Replacement, recipient_of, recip_sat_of, is_speedup,
  build_replacement,
}
use daxib.Service.Replace.Balance.{
  HasAmount, output_v_bytes-pos, speedup_sizes-Balanced, cancel_sizes-Balanced,
}
use daxib.Service.Replace.Inputs.{
  base_inputs-ok, IsExtra, sized_inputs-ok, replacement_inputs-values,
}
use daxib.Service.Replace.Steps.{build_replacement-Steps}

abbrev pub first_script : List TxOut → Text
first_script [] = []
first_script (o ∷ os) = o.script

-- The size of the first output.
abbrev pub first_v_bytes : Tx → ℕ
first_v_bytes tx = pos_part (output_v_bytes (pos (length (first_script tx.tx_out))))

abbrev paid : ReplaceMode → ℕ → ℕ
paid speedup g = g
paid cancel g = 0

abbrev pub sum_out : List TxOut → ℕ
sum_out os = total (map (λ o. pos_part o.value) os)

first_script-replacement_outputs :
    (mode : ReplaceMode) (g : ℤ) (script change_script : Text) (s : Sizes)
    → first_script (replacement_outputs mode g script change_script s) ≡ script
unfolding replacement_outputs
first_script-replacement_outputs speedup g script change_script s = refl
first_script-replacement_outputs cancel g script change_script s = refl

-- The sizes of a mode in numbers, and the outputs that they make.
sizes-outputs :
    (mode : ReplaceMode) (rate vb g : ℕ) (cs : List Coin) (script change_script : Text) (s : Sizes)
    (P : TxOut → Type 0)
    → 1 ≤ rate
    → 1 ≤ vb
    → output_v_bytes (pos (length script)) ≡ pos vb
    → length script < 2 ^ 32
    → All HasAmount cs
    → total (map amount cs) < 2 ^ 62
    → g < 2 ^ 62
    → exact_fee rate vb (length cs) 1 < 2 ^ 62
    → sizes mode (pos rate) (pos (paid mode g)) script cs ≡ ok s
    → (P (record { value = s.change_sat; script = change_script }))
    → let out = replacement_outputs mode (pos g) script change_script s in
      (fee : ℕ) × (change : List TxOut) × (s.fee_sat ≡ pos fee)
      × (total (map amount cs) ≡ sum_out out + fee)
      × (exact_fee rate vb (length cs) (length change) ≤ fee)
      × ((v : ℤ) × (out ≡ record { value = v; script = script } ∷ change)
          × (is_speedup mode ≡ true → v ≡ pos g))
      × All (λ o. (294 ≤ pos_part o.value) × P o) change
unfolding sizes replacement_outputs
sizes-outputs speedup rate vb g cs script change_script s P hr hv ev hl ha ht hg hf h q =
    let (b, z) = speedup_sizes-Balanced rate vb g cs hr hv ha s ht hg hf (rw (ev) at h) in
    elim (Bool-cases s.emit_change) [
      | inl c ↦
          let (d, f) = b.with_change c in
          let ce = ap pos_part b.change_eq in
          (
            b.fee,
            record { value = s.change_sat; script = change_script } ∷ [],
            b.fee_eq,
            rw (c) (omega (arith, b.conserved, ce)),
            f,
            (pos g, rw (c) refl, λ x. refl),
            ((omega (arith, d, ce), q), tt),
          )
      | inr c ↦
          let f = b.without_change c in
          let ce = ap pos_part b.change_eq in
          let cz = ap pos_part (z c) in
          (
            b.fee,
            [],
            b.fee_eq,
            rw (c) (omega (arith, b.conserved, ce, cz)),
            f,
            (pos g, rw (c) refl, λ x. refl),
            tt,
          )
    ]
sizes-outputs cancel rate vb g cs script change_script s P hr hv ev hl ha ht hg hf h q =
    let (b, n) =
      cancel_sizes-Balanced rate vb 0 cs hr hv ha script s hl ht (omega (arith, hf))
        (rw (ev) at h) in
    let ce = ap pos_part b.change_eq in
    (
      b.fee,
      [],
      b.fee_eq,
      omega (arith, b.conserved, ce),
      b.without_change n,
      (s.change_sat, refl, λ x. cc x),
      tt,
    )

-- The policy is asked for what the replacement costs more than the original.
charge :
    (v : Service) (mode : ReplaceMode) (orig : Record) (new_rate : ℤ) (change_addr : Text)
    (s : Sizes) (g old fee : ℕ)
    → orig.recipient_sat ≡ pos g
    → orig.fee_sat ≡ pos old
    → s.fee_sat ≡ pos fee
    → g + fee < 2 ^ 63
    → old ≤ fee
    → window_charge (replacement_check v mode orig new_rate change_addr s) ≡ pos (fee - old)
unfolding replacement_check window_charge
charge v speedup orig new_rate change_addr s g old fee eg eo ef lt le =
    rw
      (
        eg,
        eo,
        ef,
        add64-pos g fee lt,
        add64-pos g old (omega arith),
        sub64-pos (g + fee) (g + old) (omega arith) lt,
      )
      (ground arith)
charge v cancel orig new_rate change_addr s g old fee eg eo ef lt le =
    rw (eo, ef, add64-pos 0 fee (omega arith), sub64-pos (0 + fee) old (omega arith) (omega arith))
      (ground arith)

-- A replacement: it spends the inputs of the original, and perhaps one more coin that may be spent; a
-- speedup pays the original amount to the original recipient, a cancel pays the fresh address; it
-- pays a higher fee than the original, which is what the inputs have over the outputs and pays for the
-- estimated size; the window of the policy is charged with the difference of the fees.
pub record Bumps (b : Btc) (a : Answers) (orig : Record) (mode : ReplaceMode) (consumed : List Text)
    (rate old : ℕ) (r : Replacement) : Type 0 where
  pub fee : ℕ
  pub change : List TxOut
  pub paid : TxOut
  pub higher : old < fee
  pub reuses :
      (map (λ c. c.outpoint) r.inputs ≡ map outpoint orig.inputs)
      ⊎ ((scan : List ScanAddress) × (us : List Utxo) × (c : Coin) × (a.scan ≡ some scan)
          × (a.utxos ≡ some us)
          × (map (λ x. x.outpoint) r.inputs ≡ map outpoint orig.inputs ++ c.outpoint ∷ [])
          × IsExtra (by_addr scan) (map outpoint orig.inputs) consumed us c)
  pub inputs : Zipped (SpendsOutpoint b) r.tx.tx_in (map (λ c. c.outpoint) r.inputs)
  pub conserved : total (map (λ s. pos_part s.prev_value) r.specs) ≡ sum_out r.tx.tx_out + fee
  pub outputs_eq : r.tx.tx_out ≡ paid ∷ change
  pub fresh : Text
  pub derived : a.derive_next ≡ some fresh
  pub payee : script_for_address b (recipient_of mode orig fresh) ≡ some paid.script
  pub same_amount : is_speedup mode ≡ true → paid.value ≡ orig.recipient_sat
  pub enough : exact_fee rate (first_v_bytes r.tx) (length r.tx.tx_in) (length change) ≤ fee
  pub to_fresh :
      All (λ o. (294 ≤ pos_part o.value) × (script_for_address b fresh ≡ some o.script)) change
  pub charged : window_charge r.check ≡ pos (fee - old)

map-append : {A B : Type 0} (f : A → B) (xs ys : List A) → map f (xs ++ ys) ≡ map f xs ++ map f ys
map-append f [] ys = refl
map-append f (x ∷ xs) ys = ap (λ l. f x ∷ l) (map-append f xs ys)

reused :
    (a : Answers) (orig : Record) (scan : List ScanAddress) (consumed : List Text)
    (base inputs : List Coin) (build : List Coin → Outcome ReplaceError Sizes) (s : Sizes)
    → a.scan ≡ some scan
    → base_inputs (by_addr scan) orig.inputs ≡ ok base
    → sized_inputs build (by_addr scan) a consumed base ≡ ok (inputs, s)
    → (map (λ c. c.outpoint) inputs ≡ map outpoint orig.inputs)
      ⊎ ((scan' : List ScanAddress) × (us : List Utxo) × (c : Coin) × (a.scan ≡ some scan')
          × (a.utxos ≡ some us)
          × (map (λ x. x.outpoint) inputs ≡ map outpoint orig.inputs ++ c.outpoint ∷ [])
          × IsExtra (by_addr scan') (map outpoint orig.inputs) consumed us c)
reused a orig scan consumed base inputs build s es eb h =
    let (o, v) = base_inputs-ok (by_addr scan) orig.inputs base eb in
    elim (sized_inputs-ok build (by_addr scan) a consumed base inputs s h).1 [
      | inl e ↦ inl (ap (map (λ c. c.outpoint)) e ∙ o)
      | inr (us, c, eu, e, x) ↦ inr (
        scan,
        us,
        c,
        es,
        eu,
        ap (map (λ y. y.outpoint)) e
            ∙ map-append (λ y. y.outpoint) base (c ∷ [])
            ∙ ap (λ l. l ++ c.outpoint ∷ []) o,
        subst (λ l. IsExtra (by_addr scan) l consumed us c) o x,
      )
    ]

recip_sat_of-paid :
    (mode : ReplaceMode) (orig : Record) (g : ℕ)
    → orig.recipient_sat ≡ pos g
    → recip_sat_of mode orig ≡ pos (paid mode g)
recip_sat_of-paid speedup orig g e = e
recip_sat_of-paid cancel orig g e = refl

-- Where the inputs are outpoints with amounts that are not negative, and no amount wraps around, a
-- replacement that is built spends in its transaction the inputs of the original, and perhaps one more coin
-- that is confirmed, of the wallet and neither used nor consumed; it pays the same amount to the same
-- recipient, or all to the fresh change address where it cancels; its fee is higher than that of the
-- original, is what the inputs have over the outputs and pays for the estimated size at the new rate; its
-- change has at least 294 satoshis and goes to the fresh address, and the window of the policy is charged
-- with the difference of the fees alone.
pub build_replacement-Bumps :
    (v : Service) (b : Btc) (a : Answers) (orig : Record) (mode : ReplaceMode) (rate old g : ℕ)
    (consumed : List Text) (r : Replacement)
    → 1 ≤ rate
    → orig.fee_sat ≡ pos old
    → orig.recipient_sat ≡ pos g
    → build_replacement v b a orig mode (pos rate) consumed ≡ ok r
    → All HasAmount r.inputs
    → All (λ c. IsOutpoint c.outpoint) r.inputs
    → total (map amount r.inputs) + g < 2 ^ 62
    → length (first_script r.tx.tx_out) < 2 ^ 32
    → exact_fee rate (first_v_bytes r.tx) (length r.inputs) 1 < 2 ^ 62
    → Bumps b a orig mode consumed rate old r
build_replacement-Bumps v b a orig mode rate old g consumed r hr eo eg h ha op ht hl hf =
    let s = build_replacement-Steps v b a orig mode (pos rate) consumed r h in
    let fs : first_script r.tx.tx_out ≡ s.script =
      ap (λ x. first_script x.tx_out) s.tx_eq
      ∙ first_script-replacement_outputs mode orig.recipient_sat s.script s.change_script r.sizes in
    let hl' = subst (λ x. length x < 2 ^ 32) fs hl in
    let (vb, ev, lo, hi) = output_v_bytes-pos (length s.script) hl' in
    let evb : first_v_bytes r.tx ≡ vb =
      ap (λ x. pos_part (output_v_bytes (pos (length x)))) fs ∙ ap pos_part ev in
    let built =
      (sized_inputs-ok (sizes mode (pos rate) (recip_sat_of mode orig) s.script) (by_addr s.scan) a
        consumed s.base r.inputs r.sizes s.sized).0 in
    let built' : sizes mode (pos rate) (pos (paid mode g)) s.script r.inputs ≡ ok r.sizes =
      subst (λ z. sizes mode (pos rate) z s.script r.inputs ≡ ok r.sizes)
        (recip_sat_of-paid mode orig g eg) built in
    let (fee, change, ef, et, en, (pv, eout, same), nd) =
      sizes-outputs mode rate vb g r.inputs s.script s.change_script r.sizes
        (λ o. script_for_address b s.change_addr ≡ some o.script) hr lo ev hl' ha
        (omega (arith, ht)) (omega (arith, ht))
        (subst (λ n. exact_fee rate n (length r.inputs) 1 < 2 ^ 62) evb hf) built' s.change_eq in
    let outs : r.tx.tx_out ≡ replacement_outputs mode (pos g) s.script s.change_script r.sizes =
      ap (λ x. x.tx_out) s.tx_eq
      ∙ ap (λ z. replacement_outputs mode z s.script s.change_script r.sizes) eg in
    let (vs, l) =
      replacement_inputs-values b orig (by_addr s.scan) 0 r.inputs s.ins s.signed_inputs in
    let el : length r.tx.tx_in ≡ length r.inputs = ap (λ x. length x.tx_in) s.tx_eq ∙ l in
    let le : old < fee = ground (arith, s.higher, eo, ef) in
    record {
      fee = fee;
      change = change;
      paid = record { value = pv; script = s.script };
      higher = le;
      reuses = reused a orig s.scan consumed s.base r.inputs _ r.sizes s.scanned s.based s.sized;
      inputs =
          subst (λ x. Zipped (SpendsOutpoint b) x.tx_in (map (λ c. c.outpoint) r.inputs))
            (sym s.tx_eq)
            (replacement_inputs-SpendsOutpoint b orig (by_addr s.scan) 0 r.inputs s.ins
              s.signed_inputs op);
      conserved =
          ap (λ x. total (map (λ y. pos_part y.prev_value) x)) s.specs_eq
          ∙ ap total vs
          ∙ et
          ∙ ap (λ o. sum_out o + fee) (sym outs);
      outputs_eq = outs ∙ eout;
      fresh = s.change_addr;
      derived = s.derived;
      payee = s.script_eq;
      same_amount = λ x. same x ∙ sym eg;
      enough = omega (
        arith,
        en,
        ap (λ n. exact_fee rate n (length r.tx.tx_in) (length change)) evb
            ∙ ap (λ n. exact_fee rate vb n (length change)) el,
      );
      to_fresh = nd;
      charged =
          ap window_charge s.check_eq
          ∙ charge v mode orig (pos rate) s.change_addr r.sizes g old fee eg eo ef
              (omega (arith, et, ht)) (omega (arith, le));
    }
