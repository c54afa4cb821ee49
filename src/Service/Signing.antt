-- ===== src/Service/Signing.antt =====
-- The second half of buildAndSign (internal/service/send.go): the check of the policy, the signature and
-- the guard on the size. What the keystore signs is an argument.
use daxib.Prelude.{
  ℕ, ◌+◌, ◌*◌, ◌/◌, Bool, false, not, List, Option, none, some, if◌then◌else◌, Text,
}
use daxib.Prelude.Int.{ℤ, pos, ltb_ℤ}
use daxib.Prelude.Outcome.{Outcome}
use daxib.Journal.{Record}
use daxib.Policy.Evaluate.{Check}
use daxib.Service.World.{Service}
use daxib.Service.Artifact.{Artifact, journal_record}
use daxib.Service.Funding.{Btc, Answers, Tx, InputSigningSpec, UnsignedBuild, build_unsigned}
use daxib.Service.Send.{Build, unbuilt, built}

-- A signed transaction: its bytes, where they serialize, its id and its two sizes.
pub record Signed : Type 0 where
  pub raw : Option Text
  pub txid : Text
  pub stripped_size : ℕ
  pub size : ℕ

-- acquireSendPassphrase and keys.SignInputs, and hex.EncodeToString.
pub record Signer : Type 0 where
  pub passphrase : Bool
  pub sign_inputs : Tx → List InputSigningSpec → Option Signed
  pub hex : Text → Text

-- actualSignedVSize
unfoldable pub actual_signed_vsize : Signed → ℕ
actual_signed_vsize s = (s.stripped_size * 3 + s.size + 3) / 4

-- From the passphrase on: the bytes and the id, where the size is not above the estimate.
unfoldable pub sign_tx : Signer → Tx → List InputSigningSpec → (vsize : ℤ) → Option (Text × Signed)
sign_tx k tx specs vsize = if not k.passphrase then none else elim (k.sign_inputs tx specs) [
  | none ↦ none
  | some s ↦ elim s.raw [
    | none ↦ none
    | some raw ↦ if ltb_ℤ vsize (pos (actual_signed_vsize s)) then none else some (raw, s)
  ]
]

abbrev pub send_artifact : UnsignedBuild → ℤ → Text × Signed → Artifact
send_artifact bu fee_rate (raw, s) = record {
  raw_tx = raw;
  txid = s.txid;
  fee_sat = bu.sel.fee_sat;
  fee_rate = fee_rate;
  vsize = bu.sel.vsize_vb;
  inputs = bu.sel.inputs;
  in_addr = bu.in_addr;
  recipient = bu.recipient;
  recip_sat = bu.recip_sat;
  change_sat = bu.sel.change_sat;
  change_addr = bu.change_addr;
}

-- The check of the reserve callback of SendTx.
unfoldable pub send_check : Service → UnsignedBuild → ℤ → Check
send_check v bu fee_rate = record {
  network = v.net;
  recipient = bu.recipient;
  amount_sat = bu.recip_sat;
  fee_sat = bu.sel.fee_sat;
  fee_rate = fee_rate;
  change_addr = bu.change_addr;
  prior_spent_sat = pos 0;
}

unfoldable pub signed_record :
    Service → Signer → (source : Text) → UnsignedBuild → ℤ → Option (Text × Signed) → Option Record
signed_record v k source bu fee_rate none = none
signed_record v k source bu fee_rate (some s) =
    some (journal_record v k.hex source (send_artifact bu fee_rate s) fee_rate)

-- buildAndSign, by what it does before and after its call of the reserve callback.
unfoldable pub build_and_sign :
    Service
    → Btc
    → Answers
    → Signer
    → (source amount to : Text) → ℤ
    → (consumed : List Text) → Build
build_and_sign v b a k source amount to fee_rate consumed =
    elim (build_unsigned b a amount to fee_rate false consumed) [
      | Outcome.err e ↦ unbuilt
      | Outcome.ok bu ↦
          built (send_check v bu fee_rate)
            (signed_record v k source bu fee_rate (sign_tx k bu.tx bu.specs bu.sel.vsize_vb))
    ]
