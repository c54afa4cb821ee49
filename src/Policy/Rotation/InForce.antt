-- ===== src/Policy/Rotation/InForce.antt =====
-- A policy that is in force on disk, and how the reseal and the promotion keep it so
-- (ResealUnderStagedRotation and PromoteAdminRotation of internal/policy/rotation.go).
use daxib.Prelude.{
  ℕ, ◌+◌, ◌^◌, ◌≤◌, ◌<◌, ◌≡◌, refl, ap, ◌∙◌, sym, true, [], some, Text, arith, ◌⊎◌, inl, inr,
}
use daxib.Prelude.Outcome
use daxib.Policy.Body.{Policy}
use daxib.Policy.Seal.{Codec, Anchor, verify_under_anchor, verifies, verify_key_next_bytes}
use daxib.Policy.Seal.Keys.{Crypto}
use daxib.Policy.Seal.Signing.{Lawful, commit_rotation-verifies}
use daxib.Policy.Writer.{write_body}
use daxib.Policy.Writer.Canonical.{canonical}
use daxib.Policy.Writer.Json.{policy_json, write_body-policy_json}
use daxib.Policy.Engine.{Engine, Result, ok, err, Error, bytes, load_active}
use daxib.Policy.Engine.Load.{load_active_complete, Sealed}
use daxib.Policy.Admin.{next_nonce, sealed_file}
use daxib.Policy.Rotation.{
  after, read_sealed_body, Host, Script, resealed, reopened, reseal_under_staged_rotation,
  promote_and_land, reseal_and_promote, proceed,
}
use daxib.Policy.Rotation.Load.{
  ReadsNonce, Sealed-ReadsNonce, Sealed-nonce, read_sealed_body_lem, Sealed-promoted,
}
use daxib.Policy.Admin.Sealing.{ReadsBack, sealed_file-Sealed, canonical-nonce}
use daxib.Policy.Rotation.Crash.{reseal-file, promote-landed}

-- On disk there is a policy under the landed anchor.
pub record InForce (k : Codec) (json_nonce : Text → ℕ) (h : Host) (q : Policy) : Type 0 where
  pub raw : Text
  pub found : h.engine.anchor_found ≡ true
  pub file : h.engine.policy_file ≡ bytes raw
  pub sealed : Sealed k h.landed raw q
  pub reads : ReadsNonce k json_nonce (bytes raw)

pub InForce-loads :
    (k : Codec) (json_nonce : Text → ℕ) (h : Host) (q : Policy)
    → InForce k json_nonce h q
    → load_active k (reopened h) ≡ Outcome.ok (some q)
unfolding reopened
InForce-loads k json_nonce h q f = load_active_complete _ f.found f.file f.sealed

pub more-verified :
    (k : Codec) (a b : Anchor) (body sig : Text)
    → a.verify_key_next ≡ []
    → b.verify_key ≡ a.verify_key
    → verify_under_anchor k body sig a ≡ true
    → verify_under_anchor k body sig b ≡ true
unfolding verify_under_anchor verify_key_next_bytes
more-verified k a b body sig n same v = ground arith

pub next-verified :
    (k : Codec) (a : Anchor) (body sig : Text)
    → verifies k body sig (verify_key_next_bytes k a) ≡ true
    → verify_under_anchor k body sig a ≡ true
unfolding verify_under_anchor
next-verified k a body sig v = ground arith

pub proceed-cases {ℓ κ μ} :
    {A : Type ℓ} {B : Type κ} (Q : Host × Result B → Type μ) (h : Host) (m : Engine × Result A)
    (next : A → Host → Host × Result B)
    → ((x : Error) → Q (record h { engine = m.0 }, err x))
    → ((a : A) → m.1 ≡ ok a → Q (next a (record h { engine = m.0 })))
    → Q (proceed h m next)
proceed-cases Q h (e, err x) next failed went = failed x
proceed-cases Q h (e, ok a) next failed went = went a refl

pub after-host {ℓ κ μ} :
    {A : Type ℓ} {B : Type κ} (Q : Host → Type μ) (m : Host × Result A)
    (next : A → Host → Host × Result B)
    → Q m.0
    → ((a : A) → Q (next a m.0).0)
    → Q (after m next).0
after-host Q (h, err x) next failed went = failed
after-host Q (h, ok a) next failed went = went a

-- The policy before a reseal is in force, or the resealed one.
abbrev pub Either : Codec → (Text → ℕ) → Policy → Policy → Host → Type 0
Either k json_nonce p r h = InForce k json_nonce h p ⊎ InForce k json_nonce h (canonical r)

module _ (k : Codec) (c : Crypto) (json_string : Text → Text) (json_nonce : Text → ℕ)
    (w : Lawful k c) where
  pub promote-InForce :
      (s : Script) (h : Host) (q : Policy)
      → h.engine.anchor ≡ h.landed
      → InForce k json_nonce h q
      → InForce k json_nonce (promote_and_land k c json_string json_nonce s h).0 q
  promote-InForce s h q both f =
      let r =
        ap (read_sealed_body k c json_string json_nonce) f.file
        ∙ read_sealed_body_lem k c json_string json_nonce f.sealed in
      let (file, found, l) = promote-landed k c json_string json_nonce s h _ r in
      record {
        raw = f.raw;
        found = found ∙ f.found;
        file = file ∙ f.file;
        sealed = elim l [
          | inl x ↦ rw x f.sealed
          | inr (v, x) ↦
              rw (x, both)
                (Sealed-promoted k c json_string json_nonce f.sealed
                  (Sealed-nonce k json_nonce f.sealed f.reads) (rw (sym both) v))
        ];
        reads = f.reads;
      }

  pub resealed-nonce_le :
      (a : Anchor) (now : Text) (p : Policy)
      → a.nonce_watermark ≤ p.nonce
      → p.nonce + 1 < 2 ^ 64
      → a.nonce_watermark ≤ (resealed a now p).nonce
  unfolding resealed next_nonce
  resealed-nonce_le a now p h h' = omega arith

  pub reseal-InForce :
      (s : Script) (next : Text) (h : Host) (p : Policy)
      → h.engine.anchor ≡ h.landed
      → InForce k json_nonce h p
      → p.nonce + 1 < 2 ^ 64
      → let r = resealed h.engine.anchor s.io.now p in
        let e' = (reseal_under_staged_rotation k c json_string json_nonce s.io next h.engine).0 in
        ReadsBack k c json_string r
        → json_nonce (policy_json json_string (canonical r)) ≡ r.nonce
        → (e'.anchor ≡ h.landed) × Either k json_nonce p r (record h { engine = e' })
  reseal-InForce s next h p both f small b n =
      let l = load_active_complete h.engine f.found f.file (rw both f.sealed) in
      let (a, found, file) = reseal-file k c json_string json_nonce s.io next h.engine p l in
      (
        a ∙ both,
        elim file [
          | inl x ↦ inl (record {
            raw = f.raw;
            found = found ∙ f.found;
            file = x ∙ f.file;
            sealed = f.sealed;
            reads = f.reads;
          })
          | inr (sk, q, x) ↦
              let r = resealed h.engine.anchor s.io.now p in
              let v =
                commit_rotation-verifies k c w next h.engine.anchor h.engine.anchor.scrypt sk
                  (write_body json_string r) q in
              let (sealed, own) =
                sealed_file-Sealed k c json_string w h.engine.anchor sk r b
                  (next-verified k h.engine.anchor _ _ v)
                  (resealed-nonce_le h.engine.anchor s.io.now p (rw both f.sealed.fresh) small) in
              inr (record {
                raw = sealed_file k c json_string sk r;
                found = found ∙ f.found;
                file = x;
                sealed = rw (sym both) sealed;
                reads = Sealed-ReadsNonce k json_nonce sealed (
                    ap json_nonce (own ∙ write_body-policy_json json_string r)
                    ∙ n
                    ∙ sym (canonical-nonce r));
              })
        ],
      )

  pub reseal_and_promote-InForce :
      (s : Script) (next : Text) (h : Host) (p : Policy)
      → h.engine.anchor ≡ h.landed
      → InForce k json_nonce h p
      → p.nonce + 1 < 2 ^ 64
      → let r = resealed h.engine.anchor s.io.now p in
        ReadsBack k c json_string r
        → json_nonce (policy_json json_string (canonical r)) ≡ r.nonce
        → Either k json_nonce p r (reseal_and_promote k c json_string json_nonce s next h).0
  unfolding reseal_and_promote
  reseal_and_promote-InForce s next h p both f small b n =
      let r = resealed h.engine.anchor s.io.now p in
      let (a, f') = reseal-InForce s next h p both f small b n in
      proceed-cases (λ m. Either k json_nonce p r m.0) h
        (reseal_under_staged_rotation k c json_string json_nonce s.io next h.engine) _ (λ x. f')
        (λ _ _. elim f' [
          | inl g ↦ inl (promote-InForce s _ p a g)
          | inr g ↦ inr (promote-InForce s _ (canonical r) a g)
        ])
