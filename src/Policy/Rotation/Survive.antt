-- ===== src/Policy/Rotation/Survive.antt =====
-- Whatever happens during a rotation of the admin passphrase, the policy stays in force
-- (PolicyChangeAdminPassphrase of internal/service/policy_ops.go).
use daxib.Prelude.{
  Option, none, if◌then◌else◌, ℕ, ◌+◌, ◌^◌, ◌<◌, ◌≡◌, sym, ap, ◌∙◌, [], some, Text, arith, ◌⊎◌, inl,
  inr,
}
use daxib.Prelude.Outcome
use daxib.Policy.Body.{Policy}
use daxib.Policy.Seal.{Codec, Anchor}
use daxib.Policy.Seal.Keys.{Crypto}
use daxib.Policy.Seal.Signing.{Lawful}
use daxib.Policy.Writer.Canonical.{canonical}
use daxib.Policy.Writer.Json.{policy_json}
use mathlib.Core.Path.{subst}
use daxib.Policy.Engine.{state_error, Engine, ok, err, load_active}
use daxib.Policy.Engine.Load.{under, load_active_fail_closed}
use daxib.Policy.Admin.{next_nonce}
use daxib.Policy.Rotation.{
  Landing, policy_change_admin_passphrase, recover_policy_rotation, recover_admin_rotation,
  landed_ok, read_only, unwritten_anchor, unsynced_anchor, Host, Script, write_anchor, resealed,
  reopened, reseal_and_promote, stage_and_reseal, stage_admin_rotation, lands,
}
use daxib.Policy.Rotation.Load.{recover-Converged, ReadsNonce}
use daxib.Policy.Admin.Sealing.{ReadsBack}
use daxib.Policy.Rotation.Crash.{stage-landed}
use daxib.Policy.Rotation.InForce.{
  InForce, InForce-loads, more-verified, proceed-cases, after-host, Either,
  reseal_and_promote-InForce,
}

module _ (k : Codec) (c : Crypto) (json_string : Text → Text) (json_nonce : Text → ℕ)
    (w : Lawful k c) where
  resealed-same :
      (a b : Anchor) (now : Text) (p : Policy)
      → a.nonce_watermark ≡ b.nonce_watermark
      → resealed a now p ≡ resealed b now p
  unfolding resealed
  resealed-same a b now p e = ap (λ n. record p { nonce = next_nonce n; updated_at = now }) e

  -- The landed staged anchor carries on from the anchor of one key.
  staged-InForce :
      (s : Script) (next : Text) (h : Host) (e : Engine) (a : Anchor) (p : Policy)
      → h.engine.anchor.verify_key_next ≡ []
      → load_active k h.engine ≡ Outcome.ok (some p)
      → e.policy_file ≡ h.engine.policy_file
      → e.anchor_found ≡ h.engine.anchor_found
      → a.verify_key ≡ h.engine.anchor.verify_key
      → a.nonce_watermark ≡ h.engine.anchor.nonce_watermark
      → ReadsNonce k json_nonce h.engine.policy_file
      → InForce k json_nonce (record { landed = a; engine = e }) p
  staged-InForce s next h e a p one l file found key mark reads =
      let (f, (raw, b, sealed)) = (load_active_fail_closed k h.engine).1 p l in
      let v = more-verified k h.engine.anchor a sealed.body sealed.sig one key sealed.verified in
      record {
        raw = raw;
        found = found ∙ f;
        file = file ∙ b;
        sealed = under a sealed v (rw mark sealed.fresh);
        reads = subst (ReadsNonce k json_nonce) b reads;
      }

  stage_and_reseal-InForce :
      (s : Script) (current next : Text) (h : Host) (p : Policy)
      → h.engine.anchor.verify_key_next ≡ []
      → load_active k h.engine ≡ Outcome.ok (some p)
      → InForce k json_nonce h p
      → p.nonce + 1 < 2 ^ 64
      → let r = resealed h.engine.anchor s.io.now p in
        ReadsBack k c json_string r
        → json_nonce (policy_json json_string (canonical r)) ≡ r.nonce
        → Either k json_nonce p r (stage_and_reseal k c json_string json_nonce s current next h).0
  unfolding stage_and_reseal write_anchor
  stage_and_reseal-InForce s current next h p one l f small b n =
      let m = stage_admin_rotation k c json_string json_nonce s.salt current next h.engine in
      let (file, found, staged) =
        stage-landed k c json_string json_nonce s.salt current next h.engine in
      let r = resealed h.engine.anchor s.io.now p in
      let kept : InForce k json_nonce (record h { engine = m.0 }) p = record {
        raw = f.raw;
        found = found ∙ f.found;
        file = file ∙ f.file;
        sealed = f.sealed;
        reads = f.reads;
      } in
      proceed-cases (λ m'. Either k json_nonce p r m'.0) h m _ (λ x. inl kept)
        (λ a q.
          let (both, key, mark) = staged a q in
          let g =
            staged-InForce s next h m.0 a p one l file found key mark
              (subst (ReadsNonce k json_nonce) (sym f.file) f.reads) in
          let e =
            resealed-same m.0.anchor h.engine.anchor s.io.now p
              (ap (λ x. x.nonce_watermark) both ∙ mark) in
          elim s.staged
            as (λ d.
              Either k json_nonce p r
                (if lands d
                  then reseal_and_promote k c json_string json_nonce s next
                      (write_anchor d a (record h { engine = m.0 }))
                  else (write_anchor d a (record h { engine = m.0 }), err state_error)).0) [
                    | landed_ok ↦ rw (← e) (
                        reseal_and_promote-InForce k c json_string json_nonce w s next
                          (record { landed = a; engine = m.0 }) p both g small (rw e b) (rw e n))
                    | read_only ↦ inl kept
                    | unwritten_anchor ↦ inl kept
                    | unsynced_anchor ↦ inl g
                  ])

  recover-landed :
      (x : Landing) (h : Host) (e' : Engine) (a : Option Anchor)
      → recover_admin_rotation k c json_string json_nonce h.engine ≡ (e', ok a)
      → ((a ≡ none) × (e'.anchor ≡ h.engine.anchor)) ⊎ (a ≡ some e'.anchor)
      → let h' = (recover_policy_rotation k c json_string json_nonce x h).0 in
        (h'.engine ≡ e') × ((h'.landed ≡ h.landed) ⊎ (h'.landed ≡ e'.anchor))
  unfolding recover_policy_rotation write_anchor
  recover-landed x h e' a q t = elim t [
    | inl (n, same_anchor) ↦ (ground arith, ground arith)
    | inr n ↦ (ground arith, ground arith)
  ]

  -- Between the recovery and the staging: one key in memory, and the policy in force under both anchors.
  record Recovered (h : Host) (p : Policy) : Type 0 where
    one_key : h.engine.anchor.verify_key_next ≡ []
    loads : load_active k h.engine ≡ Outcome.ok (some p)
    in_force : InForce k json_nonce h p

  recover-Recovered :
      (x : Landing) (h : Host) (p : Policy)
      → h.landed ≡ h.engine.anchor
      → ReadsNonce k json_nonce h.engine.policy_file
      → load_active k h.engine ≡ Outcome.ok (some p)
      → Recovered (recover_policy_rotation k c json_string json_nonce x h).0 p
  recover-Recovered x h p both reads l =
      let (e', a, q, v) = recover-Converged k c json_string json_nonce h.engine p reads l in
      let (f, (raw, b, sealed)) = (load_active_fail_closed k h.engine).1 p l in
      let (f', (raw', b', sealed')) = (load_active_fail_closed k e').1 p v.loads in
      let (engine, landed) = recover-landed x h e' a q v.to_land in
      record {
        one_key = rw engine v.one_key;
        loads = rw engine v.loads;
        in_force = elim landed [
          | inl d ↦ record {
            raw = raw;
            found = ap (λ e. e.anchor_found) engine ∙ f';
            file = ap (λ e. e.policy_file) engine ∙ v.file ∙ b;
            sealed = rw (d, both) sealed;
            reads = subst (ReadsNonce k json_nonce) b reads;
          }
          | inr d ↦ record {
            raw = raw';
            found = ap (λ e. e.anchor_found) engine ∙ f';
            file = ap (λ e. e.policy_file) engine ∙ b';
            sealed = rw d sealed';
            reads = subst (ReadsNonce k json_nonce) (sym v.file ∙ b') reads;
          }
        ];
      }

  -- Whatever is written and whatever fails in a change of the admin passphrase, the process that opens
  -- the policy next loads it under the landed anchor, as it was or as it was resealed; given that the
  -- policy loads before and its nonce has room, that base64 and ed25519 are lawful, that encoding/json
  -- reads the JSON of the resealed policy back, and that json.Unmarshal reads the nonces of the body of the
  -- policy file and of the resealed body.
  pub change-loads :
      (s : Script) (current next : Text) (h : Host) (p : Policy)
      → h.landed ≡ h.engine.anchor
      → ReadsNonce k json_nonce h.engine.policy_file
      → load_active k h.engine ≡ Outcome.ok (some p)
      → p.nonce + 1 < 2 ^ 64
      → let h1 = (recover_policy_rotation k c json_string json_nonce s.recovered h).0 in
        let r = resealed h1.engine.anchor s.io.now p in
        ReadsBack k c json_string r
        → json_nonce (policy_json json_string (canonical r)) ≡ r.nonce
        → let o =
            reopened
              (policy_change_admin_passphrase k c json_string json_nonce s current next h).0 in
          (load_active k o ≡ Outcome.ok (some p))
          ⊎ (load_active k o ≡ Outcome.ok (some (canonical r)))
  unfolding policy_change_admin_passphrase
  change-loads s current next h p both reads l small b n =
      let v = recover-Recovered s.recovered h p both reads l in
      let h1 = (recover_policy_rotation k c json_string json_nonce s.recovered h).0 in
      let r = resealed h1.engine.anchor s.io.now p in
      elim (after-host (Either k json_nonce p r)
        (recover_policy_rotation k c json_string json_nonce s.recovered h) _ (inl v.in_force)
        (λ _.
          stage_and_reseal-InForce s current next h1 p v.one_key v.loads v.in_force small b n)) [
            | inl g ↦ inl (InForce-loads k json_nonce _ p g)
            | inr g ↦ inr (InForce-loads k json_nonce _ _ g)
          ]
