-- ===== src/Service/Replace/Inputs.antt =====
-- The inputs of a replacement: those of the original, and at most one more (buildReplacement and
-- pickExtraInput of internal/service/tx_replace.go).
use daxib.Service.Artifact.{outpoint_of}
use daxib.Service.Artifact.Outpoints.{IsOutpoint, outpoint-split_outpoint}
use daxib.Service.Funding.{TxIn}
use daxib.Prelude.Subsets.{All, Zipped}
use mathlib.Core.List.{Memᴰ}
use mathlib.Core.Path.{subst}
use daxib.Prelude.{
  ℕ, suc, ◌≡◌, ◌⊎◌, inl, inr, refl, sym, ap, ◌∙◌, arith, false, ◌||◌, List, [], ◌∷◌, ◌++◌, map,
  some, Option-cases, Bool-cases, length, Text,
}
use daxib.Prelude.Int.{pos, pos_part, ltb_ℤ}
use daxib.Prelude.Outcome.{Outcome, ok, bind-split, or_fail, or_fail-ok, Outcome-cases}
use daxib.Journal.{Record, JInput}
use daxib.Coinselect.{Coin}
use daxib.Coinselect.Select.Economic.{amount}
use daxib.Service.Restart.{outpoint}
use daxib.Service.Artifact.{Assignments, value_at, split_outpoint}
use daxib.Service.Funding.{
  Utxo, utxo_outpoint, Coords, Btc, Answers, mem, script_for_address, TxInputs, add_input,
  no_inputs,
}
use daxib.Service.Funding.Candidates.{Spendable, more, coin_of}
use daxib.Service.Replace.{
  ReplaceError, corrupt_address, corrupt_txid, no_utxos, unmapped_input, Sizes, base_inputs,
  pick_extra_input, is_insufficient, add_extra_input, sized_inputs, address_for_coin,
  replacement_inputs,
}

pub base_inputs-ok :
    (addrs : Assignments Coords) (is : List JInput) (cs : List Coin)
    → base_inputs addrs is ≡ ok cs
    → (map (λ c. c.outpoint) cs ≡ map outpoint is)
      × (map (λ c. c.value_sat) cs ≡ map (λ i. i.value_sat) is)
unfolding base_inputs
base_inputs-ok addrs [] cs h = let e : [] ≡ cs = cc in rw (← e) (refl, refl)
base_inputs-ok addrs (i ∷ is) cs h =
    let (c, e1, h1) = bind-split (or_fail (value_at addrs i.address) (unmapped_input i)) _ h in
    let (rest, e2, h2) = bind-split (base_inputs addrs is) _ h1 in
    let (o, v) = base_inputs-ok addrs is rest e2 in
    let e : record {
      outpoint = outpoint i;
      branch = c.branch;
      index = c.index;
      value_sat = i.value_sat;
    }
          ∷ rest
        ≡ cs =
      cc in
    rw (← e) (ap (λ l. outpoint i ∷ l) o, ap (λ l. i.value_sat ∷ l) v)

-- The input that is added is spendable, and none of the inputs that are there.
abbrev pub IsExtra : Assignments Coords → (used consumed : List Text) → List Utxo → Coin → Type 0
IsExtra addrs used consumed us c = Spendable addrs consumed us c × (mem used c.outpoint ≡ false)

pick_extra_input-IsExtra :
    (addrs : Assignments Coords) (used consumed : List Text) (us : List Utxo) (c : Coin)
    → pick_extra_input addrs used consumed us ≡ ok c
    → IsExtra addrs used consumed us c
unfolding pick_extra_input
pick_extra_input-IsExtra addrs used consumed [] c h = cc
pick_extra_input-IsExtra addrs used consumed (u ∷ us) c h =
    let later : pick_extra_input addrs used consumed us ≡ ok c
        → IsExtra addrs used consumed (u ∷ us) c =
      λ h'.
        let (s, f) = pick_extra_input-IsExtra addrs used consumed us c h' in
        (more addrs consumed u us c s, f) in
    elim (Bool-cases (ltb_ℤ (pos 0) u.confirmations)) [
      | inr e ↦ later (ground (arith, h, e))
      | inl e ↦ elim (Bool-cases (mem used (utxo_outpoint u) || mem consumed (utxo_outpoint u))) [
        | inl m ↦ later (ground (arith, h, e, m))
        | inr m ↦ elim (Option-cases (value_at addrs u.address)) [
          | inl n ↦ later (ground (arith, h, e, m, n))
          | inr (co, n) ↦
              let same : coin_of addrs consumed u co ≡ c = ground (arith, h, e, m, n) in
              subst (IsExtra addrs used consumed (u ∷ us)) same (
                record {
                  utxo = u;
                  listed = Memᴰ.head refl;
                  confirmed = e;
                  owned = n;
                  free = ground (arith, m);
                  outpoint_eq = refl;
                  value_eq = refl;
                },
                ground (arith, m),
              )
        ]
      ]
    ]

built-eq :
    (build : List Coin → Outcome ReplaceError Sizes) (xs inputs : List Coin) (s' s : Sizes)
    → build xs ≡ ok s'
    → ◌≡◌ {A = Outcome ReplaceError (List Coin × Sizes)} (ok (xs, s')) (ok (inputs, s))
    → (build inputs ≡ ok s) × (inputs ≡ xs)
built-eq build xs inputs s' s e h =
    let i : xs ≡ inputs = ground (arith, h) in
    let j : s' ≡ s = ground (arith, h) in (subst (λ y. build y ≡ ok s) i (e ∙ ap ok j), sym i)

-- The inputs are the original ones, or those and one more.
pub sized_inputs-ok :
    (build : List Coin → Outcome ReplaceError Sizes) (addrs : Assignments Coords) (a : Answers)
    (consumed : List Text) (base inputs : List Coin) (s : Sizes)
    → sized_inputs build addrs a consumed base ≡ ok (inputs, s)
    → (build inputs ≡ ok s)
      × ((inputs ≡ base)
          ⊎ ((us : List Utxo) × (c : Coin) × (a.utxos ≡ some us)
              × (inputs ≡ base ++ c ∷ [])
              × IsExtra addrs (map (λ x. x.outpoint) base) consumed us c))
unfolding sized_inputs add_extra_input
sized_inputs-ok build addrs a consumed base inputs s h = elim (Outcome-cases (build base)) [
  | inr (s', e) ↦
      let (f, i) = built-eq build base inputs s' s e (rw (e, sized_inputs) at h) in (f, inl i)
  | inl (x, e) ↦ elim (Bool-cases (is_insufficient x)) [
    | inr n ↦ absurd (ground (arith, h, e, n))
    | inl n ↦
        let h0 : add_extra_input build addrs a consumed base ≡ ok (inputs, s) =
          ground (arith, h, e, n) in
        let (us, e1, h1) = bind-split (or_fail a.utxos no_utxos) _ h0 in
        let (c, e2, h2) =
          bind-split (pick_extra_input addrs (map (λ y. y.outpoint) base) consumed us) _ h1 in
        let (s', e3, h3) = bind-split (build (base ++ c ∷ [])) _ h2 in
        let (f, i) = built-eq build (base ++ c ∷ []) inputs s' s e3 h3 in
        (
          f,
          inr (
            us,
            c,
            or_fail-ok a.utxos no_utxos e1,
            i,
            pick_extra_input-IsExtra addrs (map (λ y. y.outpoint) base) consumed us c e2,
          ),
        )
  ]
]

-- Every input has the value of its coin.
pub replacement_inputs-values :
    (b : Btc) (orig : Record) (addrs : Assignments Coords) (i : ℕ) (cs : List Coin) (ins : TxInputs)
    → replacement_inputs b orig addrs i cs ≡ ok ins
    → (map (λ s. pos_part s.prev_value) ins.specs ≡ map amount cs) × (length ins.tx_in ≡ length cs)
unfolding replacement_inputs
replacement_inputs-values b orig addrs i [] ins h =
    let e : no_inputs ≡ ins = cc in rw (← e) (refl, refl)
replacement_inputs-values b orig addrs i (c ∷ cs) ins h =
    let op = split_outpoint c.outpoint in
    let addr = address_for_coin c orig addrs in
    let (hash, e1, h1) = bind-split (or_fail (b.new_hash_from_str op.0) corrupt_txid) _ h in
    let (script, e2, h2) = bind-split (or_fail (script_for_address b addr) corrupt_address) _ h1 in
    let (rest, e3, h3) = bind-split (replacement_inputs b orig addrs (suc i) cs) _ h2 in
    let (v, l) = replacement_inputs-values b orig addrs (suc i) cs rest e3 in
    let e : add_input i c hash op.1 addr script rest ≡ ins = cc in
    rw (← e) (ap (λ vs. amount c ∷ vs) v, ap suc l)

-- The input of the transaction spends the outpoint.
abbrev pub SpendsOutpoint : Btc → TxIn → Text → Type 0
SpendsOutpoint b t op =
    (txid : Text) × (b.new_hash_from_str txid ≡ some t.hash) × (op ≡ outpoint_of txid t.vout)

pub replacement_inputs-SpendsOutpoint :
    (b : Btc) (orig : Record) (addrs : Assignments Coords) (i : ℕ) (cs : List Coin) (ins : TxInputs)
    → replacement_inputs b orig addrs i cs ≡ ok ins
    → All (λ c. IsOutpoint c.outpoint) cs
    → Zipped (SpendsOutpoint b) ins.tx_in (map (λ c. c.outpoint) cs)
unfolding replacement_inputs
replacement_inputs-SpendsOutpoint b orig addrs i [] ins h a =
    let e : no_inputs ≡ ins = cc in rw (← e) tt
replacement_inputs-SpendsOutpoint b orig addrs i (c ∷ cs) ins h (own, a) =
    let op = split_outpoint c.outpoint in
    let addr = address_for_coin c orig addrs in
    let (hash, e1, h1) = bind-split (or_fail (b.new_hash_from_str op.0) corrupt_txid) _ h in
    let (script, e2, h2) = bind-split (or_fail (script_for_address b addr) corrupt_address) _ h1 in
    let (rest, e3, h3) = bind-split (replacement_inputs b orig addrs (suc i) cs) _ h2 in
    let e : add_input i c hash op.1 addr script rest ≡ ins = cc in
    rw (← e) (
      (
        op.0,
        or_fail-ok (b.new_hash_from_str op.0) corrupt_txid e1,
        sym (outpoint-split_outpoint c.outpoint own),
      ),
      replacement_inputs-SpendsOutpoint b orig addrs (suc i) cs rest e3 a,
    )
