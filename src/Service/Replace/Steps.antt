-- ===== src/Service/Replace/Steps.antt =====
-- The steps of a replacement that is built (buildReplacement of internal/service/tx_replace.go).
use mathlib.Core.Path.{subst}
use daxib.Prelude.{◌≡◌, refl, Bool, true, false, List, some, Text}
use daxib.Prelude.Int.{ℤ, ltb_ℤ}
use daxib.Prelude.Outcome.{Outcome, ok, bind-split, or_fail, or_fail-ok, require}
use daxib.Journal.{Record}
use daxib.Coinselect.{Coin}
use daxib.Service.World.{Service}
use daxib.Service.Funding.{ScanAddress, Btc, Answers, TxInputs, by_addr, script_for_address}
use daxib.Service.Replace.{
  ReplaceMode, ReplaceError, no_addresses, no_change_address, corrupt_address, fee_not_higher,
  Sizes, sizes, base_inputs, sized_inputs, replacement_inputs, replacement_outputs,
  replacement_check, Replacement, recipient_of, recip_sat_of, replacement_of, build_replacement,
}

-- The steps of a replacement that is built.
pub record Steps (v : Service) (b : Btc) (a : Answers) (orig : Record) (mode : ReplaceMode)
    (new_rate : ℤ) (consumed : List Text) (r : Replacement) : Type 0 where
  pub scan : List ScanAddress
  pub base : List Coin
  pub change_addr : Text
  pub change_script : Text
  pub script : Text
  pub ins : TxInputs
  pub scanned : a.scan ≡ some scan
  pub derived : a.derive_next ≡ some change_addr
  pub change_eq : script_for_address b change_addr ≡ some change_script
  pub based : base_inputs (by_addr scan) orig.inputs ≡ ok base
  pub sized :
      sized_inputs
        (sizes mode new_rate (recip_sat_of mode orig) script)
        (by_addr scan)
        a
        consumed
        base
      ≡ ok (r.inputs, r.sizes)
  pub higher : ltb_ℤ orig.fee_sat r.sizes.fee_sat ≡ true
  pub signed_inputs : replacement_inputs b orig (by_addr scan) 0 r.inputs ≡ ok ins
  pub specs_eq : r.specs ≡ ins.specs
  pub tx_eq : r.tx ≡ record {
    tx_in = ins.tx_in;
    tx_out = replacement_outputs mode orig.recipient_sat script change_script r.sizes;
  }
  pub check_eq : r.check ≡ replacement_check v mode orig new_rate change_addr r.sizes
  pub script_eq : script_for_address b (recipient_of mode orig change_addr) ≡ some script

pub require-ok : {E : Type 0} (c : Bool) (e : E) {u : Unit {0}} → require c e ≡ ok u → c ≡ true
require-ok true e h = refl
require-ok false e h = cc

ok-eq : {E A : Type 0} {x y : A} → ◌≡◌ {A = Outcome E A} (ok x) (ok y) → x ≡ y
ok-eq h = cc

Steps-of :
    (v : Service) (b : Btc) (a : Answers) (orig : Record) (mode : ReplaceMode) (new_rate : ℤ)
    (consumed : List Text) (r : Replacement) (scan : List ScanAddress) (base : List Coin)
    (change_addr change_script script : Text) (sized : List Coin × Sizes) (ins : TxInputs)
    → or_fail a.scan no_addresses ≡ ok scan
    → base_inputs (by_addr scan) orig.inputs ≡ ok base
    → or_fail a.derive_next no_change_address ≡ ok change_addr
    → or_fail (script_for_address b change_addr) corrupt_address ≡ ok change_script
    → or_fail (script_for_address b (recipient_of mode orig change_addr)) corrupt_address
      ≡ ok script
    → sized_inputs
        (sizes mode new_rate (recip_sat_of mode orig) script)
        (by_addr scan)
        a
        consumed
        base
      ≡ ok sized
    → ltb_ℤ orig.fee_sat sized.1.fee_sat ≡ true
    → replacement_inputs b orig (by_addr scan) 0 sized.0 ≡ ok ins
    → ◌≡◌ {A = Outcome ReplaceError Replacement}
        (ok (replacement_of v mode orig new_rate change_addr script change_script sized ins))
        (ok r)
    → Steps v b a orig mode new_rate consumed r
Steps-of v b a orig mode new_rate consumed r scan base change_addr change_script script sized ins e1
      e2 e3 e4 e5 e6 e7 e8 h =
    subst (Steps v b a orig mode new_rate consumed) (ok-eq h) (record {
      scan = scan;
      base = base;
      change_addr = change_addr;
      change_script = change_script;
      script = script;
      ins = ins;
      scanned = or_fail-ok a.scan no_addresses e1;
      derived = or_fail-ok a.derive_next no_change_address e3;
      change_eq = or_fail-ok (script_for_address b change_addr) corrupt_address e4;
      based = e2;
      sized = e6;
      higher = e7;
      signed_inputs = e8;
      specs_eq = refl;
      tx_eq = refl;
      check_eq = refl;
      script_eq =
          or_fail-ok (script_for_address b (recipient_of mode orig change_addr)) corrupt_address e5;
    })

pub build_replacement-Steps :
    (v : Service) (b : Btc) (a : Answers) (orig : Record) (mode : ReplaceMode) (new_rate : ℤ)
    (consumed : List Text) (r : Replacement)
    → build_replacement v b a orig mode new_rate consumed ≡ ok r
    → Steps v b a orig mode new_rate consumed r
unfolding build_replacement
build_replacement-Steps v b a orig mode new_rate consumed r h =
    let (scan, e1, h1) = bind-split (or_fail a.scan no_addresses) _ h in
    let (base, e2, h2) = bind-split (base_inputs (by_addr scan) orig.inputs) _ h1 in
    let (change_addr, e3, h3) = bind-split (or_fail a.derive_next no_change_address) _ h2 in
    let (change_script, e4, h4) =
      bind-split (or_fail (script_for_address b change_addr) corrupt_address) _ h3 in
    let (script, e5, h5) =
      bind-split
        (or_fail (script_for_address b (recipient_of mode orig change_addr)) corrupt_address) _
        h4 in
    let (sized, e6, h6) =
      bind-split
        (sized_inputs (sizes mode new_rate (recip_sat_of mode orig) script) (by_addr scan) a
          consumed base)
        _ h5 in
    let (u, e7, h7) =
      bind-split
        (require (ltb_ℤ orig.fee_sat sized.1.fee_sat) (fee_not_higher sized.1.fee_sat orig.fee_sat))
        _ h6 in
    let (ins, e8, h8) = bind-split (replacement_inputs b orig (by_addr scan) 0 sized.0) _ h7 in
    Steps-of v b a orig mode new_rate consumed r scan base change_addr change_script script sized
      ins e1 e2 e3 e4 e5 e6 (require-ok _ _ e7) e8 h8
