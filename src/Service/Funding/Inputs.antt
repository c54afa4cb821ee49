-- ===== src/Service/Funding/Inputs.antt =====
-- What buildUnsigned spends (internal/service/send.go).
use mathlib.Core.List.{Memᴰ}
use mathlib.Core.Logic.{∥∥₁_map}
use daxib.Service.Funding.{utxo_outpoint}
use daxib.Service.Funding.{Utxo, TxIn}
use mathlib.Core.Path.{subst}
use daxib.Prelude.{
  ℕ, suc, ◌+◌, ◌≤◌, ◌≡◌, refl, sym, ap, ◌∙◌, arith, Bool, true, List, [], ◌∷◌, map, some,
  Bool-cases, inl, inr, length, if◌then◌else◌, Text,
}
use daxib.Prelude.Int.{ℤ, pos, pos_part}
use daxib.Prelude.Outcome.{Outcome, ok, err, bind-split, or_fail, or_fail-ok}
use daxib.Prelude.Subsets.{All, total, All-Subperm, Zipped}
use daxib.Coinselect.{Coin, Params, Selection, SelectError, output_v_bytes}
use daxib.Coinselect.Select.{select}
use daxib.Coinselect.Select.Economic.{amount}
use daxib.Coinselect.Select.Accumulate.{goal, cost, Sound}
use daxib.Coinselect.Select.Valid.{InRange}
use daxib.Coinselect.Select.Success.{select-ok}
use daxib.Service.Artifact.{Assignments, value_at}
use daxib.Service.Funding.{
  Utxo, Coords, Btc, TxOut, Answers, by_addr, candidates, coins_of, utxo_by_outpoint, or_no_utxo,
  selected, change_output, TxInputs, add_input, no_inputs, corrupt_txid, no_change_address,
  corrupt_address, tx_inputs, UnsignedBuild, outputs, ScanAddress, assemble, destination,
  build_unsigned, script_for_address, script_for_address,
}
use daxib.Service.Funding.Candidates.{Spendable, candidates-Spendable, Found, candidates-Found}

build_unsigned-assemble :
    (b : Btc) (a : Answers) (value to : Text) (fee_rate : ℤ) (dry_run : Bool) (consumed : List Text)
    (dest : ℤ × Text) (scan : List ScanAddress) (us : List Utxo)
    → destination b value to ≡ ok dest
    → a.scan ≡ some scan
    → a.utxos ≡ some us
    → build_unsigned b a value to fee_rate dry_run consumed
      ≡ assemble b a dry_run (candidates (by_addr scan) consumed us) us to dest.0 dest.1 fee_rate
unfolding build_unsigned
build_unsigned-assemble b a value to fee_rate dry_run consumed dest scan us ed es eu =
    rw (build_unsigned, ed, es, eu) refl

abbrev pub params : ℤ → Text → ℤ → Params
params target script fee_rate = record {
  target = target;
  fee_rate_sat_vb = fee_rate;
  recipient_v_bytes = output_v_bytes (pos (length script));
}

selected-ok :
    (us : List Utxo) (n : ℤ) (r : Outcome SelectError Selection) {sel : Selection}
    → selected us n r ≡ ok sel
    → r ≡ ok sel
selected-ok us n (err e) h = cc
selected-ok us n (ok s) h = cc

assemble-steps :
    (b : Btc) (a : Answers) (dry_run : Bool) (cands : List (Coin × Utxo)) (us : List Utxo)
    (to : Text) (n : ℤ) (script : Text) (fee_rate : ℤ) (bu : UnsignedBuild)
    → assemble b a dry_run cands us to n script fee_rate ≡ ok bu
    → (change : Text × Text) × (ins : TxInputs) × (select
          (coins_of cands)
          (params n script fee_rate)
        ≡ ok bu.sel)
      × (tx_inputs b (utxo_by_outpoint cands) 0 bu.sel.inputs ≡ ok ins)
      × (bu.tx ≡ record { tx_in = ins.tx_in; tx_out = outputs n script bu.sel change.1 })
      × (bu.specs ≡ ins.specs)
      × (bu.change_addr ≡ change.0)
      × (change_output b a dry_run bu.sel.has_change ≡ ok change)
unfolding assemble
assemble-steps b a dry_run cands us to n script fee_rate bu h =
    let (sel, e1, h1) =
      bind-split (selected us n (select (coins_of cands) (params n script fee_rate))) _ h in
    let (change, e2, h2) = bind-split (change_output b a dry_run sel.has_change) _ h1 in
    let (ins, e3, h3) = bind-split (tx_inputs b (utxo_by_outpoint cands) 0 sel.inputs) _ h2 in
    let same : sel ≡ bu.sel = cc in
    (
      change,
      ins,
      selected-ok us n _ e1 ∙ ap ok same,
      ap (λ s. tx_inputs b (utxo_by_outpoint cands) 0 s.inputs) (sym same) ∙ e3,
      cc,
      cc,
      cc,
      ap (λ s. change_output b a dry_run s.has_change) (sym same) ∙ e2,
    )

-- Every input has the value of its coin.
tx_inputs-values :
    (b : Btc) (utxos : Assignments Utxo) (i : ℕ) (cs : List Coin) (ins : TxInputs)
    → tx_inputs b utxos i cs ≡ ok ins
    → (map (λ s. pos_part s.prev_value) ins.specs ≡ map amount cs) × (length ins.tx_in ≡ length cs)
unfolding tx_inputs
tx_inputs-values b utxos i [] ins h = let e : no_inputs ≡ ins = cc in rw (← e) (refl, refl)
tx_inputs-values b utxos i (c ∷ cs) ins h =
    let u = or_no_utxo (value_at utxos c.outpoint) in
    let (hash, e1, h1) = bind-split (or_fail (b.new_hash_from_str u.txid) corrupt_txid) _ h in
    let (script, e2, h2) =
      bind-split (or_fail (script_for_address b u.address) corrupt_address) _ h1 in
    let (rest, e3, h3) = bind-split (tx_inputs b utxos (suc i) cs) _ h2 in
    let (v, l) = tx_inputs-values b utxos (suc i) cs rest e3 in
    let e : add_input i c hash u.vout u.address script rest ≡ ins = cc in
    rw (← e) (ap (λ vs. amount c ∷ vs) v, ap suc l)

-- The input spends the output of the backend that the coin stands for.
abbrev pub SpendsCoin : Btc → List Utxo → TxIn → Coin → Type 0
SpendsCoin b us t c =
    (u : Utxo) × Memᴰ u us
    × (b.new_hash_from_str u.txid ≡ some t.hash)
    × (t.vout ≡ u.vout)
    × (c.outpoint ≡ utxo_outpoint u)

tx_inputs-SpendsCoin :
    (b : Btc) (us : List Utxo) (utxos : Assignments Utxo) (i : ℕ) (cs : List Coin) (ins : TxInputs)
    → tx_inputs b utxos i cs ≡ ok ins
    → All (Found (λ u. Memᴰ u us) utxos) cs
    → Zipped (SpendsCoin b us) ins.tx_in cs
unfolding tx_inputs
tx_inputs-SpendsCoin b us utxos i [] ins h f = let e : no_inputs ≡ ins = cc in rw (← e) tt
tx_inputs-SpendsCoin b us utxos i (c ∷ cs) ins h ((u', eu, m, o), f) =
    let u = or_no_utxo (value_at utxos c.outpoint) in
    let (hash, e1, h1) = bind-split (or_fail (b.new_hash_from_str u.txid) corrupt_txid) _ h in
    let (script, e2, h2) =
      bind-split (or_fail (script_for_address b u.address) corrupt_address) _ h1 in
    let (rest, e3, h3) = bind-split (tx_inputs b utxos (suc i) cs) _ h2 in
    let e : add_input i c hash u.vout u.address script rest ≡ ins = cc in
    let own : u ≡ u' = ap or_no_utxo eu in
    rw (← e) (
      (
        u',
        m,
        ap (λ x. b.new_hash_from_str x.txid) (sym own)
            ∙ or_fail-ok (b.new_hash_from_str u.txid) corrupt_txid e1,
        ap (λ x. x.vout) own,
        o,
      ),
      tx_inputs-SpendsCoin b us utxos (suc i) cs rest e3 f,
    )

-- The output pays an address that the wallet derived for change, or peeked at in a dry run.
abbrev pub Change : Btc → Answers → Bool → Text → TxOut → Type 0
Change b a dry_run addr o =
    ((if dry_run then a.peek_next else a.derive_next) ≡ some addr)
    × (script_for_address b addr ≡ some o.script)

change_output-Change :
    (b : Btc) (a : Answers) (dry_run : Bool) (change : Text × Text) (n : ℤ)
    → change_output b a dry_run true ≡ ok change
    → Change b a dry_run change.0 (record { value = n; script = change.1 })
unfolding change_output
change_output-Change b a dry_run change n h =
    let next = if dry_run then a.peek_next else a.derive_next in
    let (addr, e1, h1) = bind-split (or_fail next no_change_address) _ h in
    let (script, e2, h2) = bind-split (or_fail (script_for_address b addr) corrupt_address) _ h1 in
    let same : (addr, script) ≡ change = cc in
    subst (λ c. Change b a dry_run c.0 (record { value = n; script = c.1 })) same
      (
        or_fail-ok next no_change_address e1,
        or_fail-ok (script_for_address b addr) corrupt_address e2,
      )

-- A transaction that spends coins that it may spend, to the recipient and perhaps to a new change
-- address, with a fee that is what the inputs have over the outputs and pays for the estimated size.
pub record Funded (b : Btc) (a : Answers) (dry_run : Bool) (addrs : Assignments Coords)
    (consumed : List Text) (us : List Utxo) (p : Params) (script : Text) (bu : UnsignedBuild)
    : Type 0 where
  pub fee : ℕ
  pub change : List TxOut
  pub spends : ∥ All (Spendable addrs consumed us) bu.sel.inputs ∥₁
  pub inputs : ∥ Zipped (SpendsCoin b us) bu.tx.tx_in bu.sel.inputs ∥₁
  pub fee_eq : bu.sel.fee_sat ≡ pos fee
  pub conserved :
      total (map (λ s. pos_part s.prev_value) bu.specs)
      ≡ total (map (λ o. pos_part o.value) bu.tx.tx_out) + fee
  pub paid : bu.tx.tx_out ≡ record { value = p.target; script = script } ∷ change
  pub enough : cost p (length bu.tx.tx_in) (length change) ≤ fee
  pub no_dust : All (λ o. 294 ≤ pos_part o.value) bu.tx.tx_out
  pub to_wallet : All (Change b a dry_run bu.change_addr) change

-- The outputs, and what they come to with the fee.
outputs-Sound :
    (p : Params) (script change_script : Text) (sel : Selection) (k : ℕ) (P : TxOut → Type 0)
    → p.target ≡ pos (goal p)
    → 294 ≤ goal p
    → Sound p sel
    → k ≡ length sel.inputs
    → (sel.has_change ≡ true → P (record { value = sel.change_sat; script = change_script }))
    → let out = outputs p.target script sel change_script in
      (change : List TxOut) × (fee : ℕ) × (sel.fee_sat ≡ pos fee)
      × (out ≡ record { value = p.target; script = script } ∷ change)
      × (total (map amount sel.inputs) ≡ total (map (λ o. pos_part o.value) out) + fee)
      × (cost p k (length change) ≤ fee)
      × All (λ o. 294 ≤ pos_part o.value) out
      × All P change
outputs-Sound p script change_script sel k P t le s e q = elim (Bool-cases sel.has_change) [
  | inl c ↦
      let w = s.with_change c in
      let change : List TxOut = record { value = sel.change_sat; script = change_script } ∷ [] in
      let ce = ap pos_part s.change_eq in
      (
        change,
        s.fee,
        s.fee_eq,
        rw (c) refl,
        rw (c) (omega (arith, s.conserved)),
        rw (e) (omega arith),
        rw (c) (le, (omega arith, tt)),
        (q c, tt),
      )
  | inr c ↦
      let w = s.without_change c in
      (
        [],
        s.fee,
        s.fee_eq,
        rw (c) refl,
        rw (c) (omega (arith, s.conserved)),
        rw (e) (omega arith),
        rw (c) (le, tt),
        tt,
      )
]

assemble-Funded :
    (b : Btc) (a : Answers) (dry_run : Bool) (addrs : Assignments Coords) (consumed : List Text)
    (us : List Utxo) (to : Text) (n : ℤ) (script : Text) (fee_rate : ℤ) (bu : UnsignedBuild)
    → let p = params n script fee_rate in
      InRange p (coins_of (candidates addrs consumed us))
      → assemble b a dry_run (candidates addrs consumed us) us to n script fee_rate ≡ ok bu
      → Funded b a dry_run addrs consumed us p script bu
assemble-Funded b a dry_run addrs consumed us to n script fee_rate bu r h =
    let p = params n script fee_rate in
    let cands = candidates addrs consumed us in
    let (change, ins, es, ei, et, ep, ea, eh) =
      assemble-steps b a dry_run cands us to n script fee_rate bu h in
    let (le, t, sound, sub) = select-ok (coins_of cands) p bu.sel r es in
    let (v, l) = tx_inputs-values b (utxo_by_outpoint cands) 0 bu.sel.inputs ins ei in
    let (rest, fee, ef, eo, ec, en, nd, tw) =
      outputs-Sound p script change.1 bu.sel (length ins.tx_in) (Change b a dry_run change.0) t le
        sound l (λ c. change_output-Change b a dry_run change bu.sel.change_sat (rw (c) at eh)) in
    record {
      fee = fee;
      change = rest;
      spends =
          All-Subperm (Spendable addrs consumed us) sub (candidates-Spendable addrs consumed us);
      inputs =
          ∥∥₁_map
            (All-Subperm (Found (λ u. Memᴰ u us) (utxo_by_outpoint cands)) sub
              (candidates-Found addrs consumed us))
            (λ f.
              subst (λ x. Zipped (SpendsCoin b us) x.tx_in bu.sel.inputs) (sym et)
                (tx_inputs-SpendsCoin b us (utxo_by_outpoint cands) 0 bu.sel.inputs ins ei f));
      fee_eq = ef;
      conserved =
          ap (λ x. total (map (λ s. pos_part s.prev_value) x)) ep
          ∙ ap total v
          ∙ ec
          ∙ ap (λ x. total (map (λ o. pos_part o.value) x.tx_out) + fee) (sym et);
      paid = ap (λ x. x.tx_out) et ∙ eo;
      enough = subst (λ x. cost p (length x.tx_in) (length rest) ≤ fee) (sym et) en;
      no_dust = subst (λ x. All (λ o. 294 ≤ pos_part o.value) x.tx_out) (sym et) nd;
      to_wallet = subst (λ x. All (Change b a dry_run x) rest) (sym ea) tw;
    }

-- Where no amount wraps around in the selection, a build that succeeds selects confirmed coins of the
-- wallet that are not consumed, and the inputs of its transaction spend those; its first output pays the
-- amount to the destination, every output has at least 294 satoshis, what the inputs have over the outputs
-- is the fee, which pays for the estimated size, and a change output pays a change address that the
-- wallet gives.
pub build_unsigned-Funded :
    (b : Btc) (a : Answers) (value to : Text) (fee_rate : ℤ) (dry_run : Bool) (consumed : List Text)
    (bu : UnsignedBuild) (dest : ℤ × Text) (scan : List ScanAddress) (us : List Utxo)
    → destination b value to ≡ ok dest
    → a.scan ≡ some scan
    → a.utxos ≡ some us
    → let p = params dest.0 dest.1 fee_rate in
      InRange p (coins_of (candidates (by_addr scan) consumed us))
      → build_unsigned b a value to fee_rate dry_run consumed ≡ ok bu
      → Funded b a dry_run (by_addr scan) consumed us p dest.1 bu
build_unsigned-Funded b a value to fee_rate dry_run consumed bu dest scan us ed es eu r h =
    assemble-Funded b a dry_run (by_addr scan) consumed us to dest.0 dest.1 fee_rate bu r (
      sym (build_unsigned-assemble b a value to fee_rate dry_run consumed dest scan us ed es eu)
      ∙ h)
