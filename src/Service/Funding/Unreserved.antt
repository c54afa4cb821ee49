-- ===== src/Service/Funding/Unreserved.antt =====
-- A send spends no output that a transaction in flight spends (buildUnsigned and reservedOutpoints of
-- internal/service).
use daxib.Prelude.{◌∙◌}
use daxib.Service.Funding.{TxIn}
use daxib.Service.Artifact.{outpoint_of}
use mathlib.Core.List.{Memᴰ, Mem}
use mathlib.Core.Path.{subst}
use mathlib.Core.Logic.{∥∥₁_elim}
use daxib.Prelude.{
  ◌≡◌, refl, sym, ap, arith, Bool, true, false, List, [], ◌∷◌, some, Text, text_eq_refl, text_eq,
  ◌||◌,
}
use daxib.Prelude.Int.{ℤ}
use daxib.Prelude.Outcome.{Outcome, ok}
use daxib.Prelude.Subsets.{All, Zipped}
use daxib.Journal.{Record, JInput, is_terminal}
use daxib.Journal.Store.{Store, unresolved}
use daxib.Journal.Store
use daxib.Journal.Write.{view}
use daxib.Coinselect.Select.Valid.{InRange}
use daxib.Service.World.{Service}
use daxib.Service.Restart.{outpoint, reserved_outpoints}
use daxib.Service.Restart.Reserved.{reserved_outpoints-Mem}
use daxib.Service.Funding.{
  Utxo, Btc, Answers, ScanAddress, UnsignedBuild, by_addr, mem, candidates, coins_of, destination,
  build_unsigned,
}
use daxib.Service.Funding.Candidates.{Spendable}
use daxib.Service.Funding.Inputs.{params, build_unsigned-Funded, SpendsCoin}

mem-Memᴰ : (k : Text) (ks : List Text) → Memᴰ k ks → mem ks k ≡ true
mem-Memᴰ k [] m = elim m [ ]
mem-Memᴰ k (x ∷ ks) (Memᴰ.head e) =
    subst (λ y. (text_eq y k || mem ks k) ≡ true) e (rw (text_eq_refl k) refl)
mem-Memᴰ k (x ∷ ks) (Memᴰ.tail m) = ground (arith, mem-Memᴰ k ks m)

pub mem-Mem : (k : Text) (ks : List Text) → Mem k ks → mem ks k ≡ true
mem-Mem k ks m = ∥∥₁_elim m (hlevel) (mem-Memᴰ k ks)

All-Memᴰ : {A : Type 0} (P : A → Type 0) {x : A} {xs : List A} → All P xs → Memᴰ x xs → P x
All-Memᴰ P {xs = []} a m = elim m [ ]
All-Memᴰ P {xs = y ∷ ys} a (Memᴰ.head e) = subst P (sym e) a.0
All-Memᴰ P {xs = y ∷ ys} a (Memᴰ.tail m) = All-Memᴰ P a.1 m

Zipped-Memᴰ :
    {A B : Type 0} (R : A → B → Type 0) {x : A} {xs : List A} {ys : List B}
    → Zipped R xs ys
    → Memᴰ x xs
    → (y : B) × Memᴰ y ys × R x y
Zipped-Memᴰ R {xs = []} z m = elim m [ ]
Zipped-Memᴰ R {xs = x ∷ xs} {ys = []} z m = absurd z
Zipped-Memᴰ R {xs = x ∷ xs} {ys = y ∷ ys} z (Memᴰ.head e) =
    (y, Memᴰ.head refl, subst (λ a. R a y) (sym e) z.0)
Zipped-Memᴰ R {xs = x ∷ xs} {ys = y ∷ ys} z (Memᴰ.tail m) =
    let (y', m', r) = Zipped-Memᴰ R z.1 m in (y', Memᴰ.tail m', r)

-- The input of the transaction spends what the input in the journal spends.
abbrev pub SpendsSame : Btc → TxIn → JInput → Type 0
SpendsSame b t i = (b.new_hash_from_str i.txid ≡ some t.hash) × (t.vout ≡ i.vout)

-- Where the journal can be read, no input of a transaction that is built with the reserved outpoints
-- left out spends what an input of a transaction of the wallet whose latest record is not terminal
-- spends; given that no amount wraps around in the selection, and that the id of an output of
-- the backend has the hash of the id in the journal only where it is that id.
pub build_unsigned-unreserved :
    (b : Btc) (a : Answers) (value to : Text) (fee_rate : ℤ) (dry_run : Bool) (bu : UnsignedBuild)
    (dest : ℤ × Text) (scan : List ScanAddress) (us : List Utxo) (v : Service) (j : Store)
    (io : Store.Io) (rs : List Record) (id : Text) (r : Record) (i : JInput) (t : TxIn)
    → destination b value to ≡ ok dest
    → a.scan ≡ some scan
    → a.utxos ≡ some us
    → unresolved j io v.net ≡ Outcome.ok rs
    → view j v.net id ≡ some r
    → text_eq r.wallet v.wallet ≡ true
    → is_terminal r.status ≡ false
    → Mem i r.inputs
    → ((u : Utxo)
        → Memᴰ u us
        → b.new_hash_from_str u.txid ≡ b.new_hash_from_str i.txid
        → u.txid ≡ i.txid)
    → let consumed = reserved_outpoints v j io in
      InRange (params dest.0 dest.1 fee_rate) (coins_of (candidates (by_addr scan) consumed us))
      → build_unsigned b a value to fee_rate dry_run consumed ≡ ok bu
      → Mem t bu.tx.tx_in
      → ¬ SpendsSame b t i
build_unsigned-unreserved b a value to fee_rate dry_run bu dest scan us v j io rs id r i t ed es eu
      er shown own live mi canonical_ids range h mt (eh, ev) =
    let consumed = reserved_outpoints v j io in
    let f =
      build_unsigned-Funded b a value to fee_rate dry_run consumed bu dest scan us ed es eu range
        h in
    let m =
      mem-Mem (outpoint i) consumed
        (reserved_outpoints-Mem v j io rs id r i er shown own live mi) in
    ∥∥₁_elim f.spends (hlevel) (λ all. ∥∥₁_elim f.inputs (hlevel) (λ z. ∥∥₁_elim mt (hlevel) (λ mt'.
      let (c, mc, (u, mu, hash, vout, op)) = Zipped-Memᴰ (SpendsCoin b us) z mt' in
      let s = All-Memᴰ (Spendable (by_addr scan) consumed us) all mc in
      let id_eq = canonical_ids u mu (hash ∙ sym eh) in
      let same : c.outpoint ≡ outpoint i =
        op ∙ ap (λ x. outpoint_of x u.vout) id_eq ∙ ap (outpoint_of i.txid) (sym vout ∙ ev) in
      let g = s.free in cc (ap (λ x. mem consumed x) same))))
