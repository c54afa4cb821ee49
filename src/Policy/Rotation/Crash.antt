-- ===== src/Policy/Rotation/Crash.antt =====
-- A crash during a rotation of the admin passphrase (PolicyChangeAdminPassphrase).
use daxib.Prelude.{ℕ, ◌≡◌, true, Option, some, Text, arith, ◌⊎◌, inl, inr, Option-cases}
use daxib.Prelude.Outcome
use daxib.Policy.Body.{Policy}
use daxib.Policy.Seal.{Codec, Anchor, verifies, verify_key_next_bytes}
use daxib.Policy.Seal.Keys.{Crypto, commit_rotation}
use daxib.Policy.Engine.{Engine, ok, bytes, load_active}
use daxib.Policy.Admin.{Io, sealed_file, seal_and_write}
use daxib.Policy.Rotation.{
  Script, Host, SealedBody, read_sealed_body, promoted, promote_and_land, promote_admin_rotation,
  write_anchor, stage_admin_rotation, resealed, record_nonce, reseal_under_staged_rotation,
}

module _ (k : Codec) (c : Crypto) (json_string : Text → Text) (json_nonce : Text → ℕ) where
  -- What the reseal leaves: the anchor, and the policy file, or the resealed policy under the key that
  -- the new passphrase derives.
  pub reseal-file :
      (io : Io) (next : Text) (e : Engine) (p : Policy)
      → load_active k e ≡ Outcome.ok (some p)
      → let e' = (reseal_under_staged_rotation k c json_string json_nonce io next e).0 in
        (e'.anchor ≡ e.anchor)
        × (e'.anchor_found ≡ e.anchor_found)
        × ((e'.policy_file ≡ e.policy_file)
            ⊎ ((sk : Text) × (commit_rotation k c next e.anchor e.anchor.scrypt ≡ some sk)
                × (e'.policy_file
                    ≡ bytes (sealed_file k c json_string sk (resealed e.anchor io.now p)))))
  unfolding reseal_under_staged_rotation seal_and_write record_nonce
  reseal-file io next e p l =
      elim (Option-cases (commit_rotation k c next e.anchor e.anchor.scrypt)) [
        | inl n ↦ (ground arith, ground arith, inl (ground arith))
        | inr (sk, q) ↦
            let file =
              (reseal_under_staged_rotation k c json_string json_nonce io next e).0.policy_file in
            let r = resealed e.anchor io.now p in
            let d : (file ≡ e.policy_file) ⊎ (file ≡ bytes (sealed_file k c json_string sk r)) =
              ground arith in
            (ground arith, ground arith, elim d [ inl x ↦ inl x | inr x ↦ inr (sk, q, x) ])
      ]

  pub promote-landed :
      (s : Script) (h : Host) (b : SealedBody)
      → read_sealed_body k c json_string json_nonce h.engine.policy_file ≡ Outcome.ok b
      → let h' = (promote_and_land k c json_string json_nonce s h).0 in
        (h'.engine.policy_file ≡ h.engine.policy_file)
        × (h'.engine.anchor_found ≡ h.engine.anchor_found)
        × ((h'.landed ≡ h.landed)
            ⊎ ((verifies k b.body b.sig (verify_key_next_bytes k h.engine.anchor) ≡ true)
                × (h'.landed ≡ promoted h.engine.anchor b.nonce)))
  unfolding promote_and_land promote_admin_rotation write_anchor
  promote-landed s h b e = (ground arith, ground arith, ground arith)

  pub stage-landed :
      (salt : Option Text) (current next : Text) (e : Engine)
      → let (e', r) = stage_admin_rotation k c json_string json_nonce salt current next e in
        (e'.policy_file ≡ e.policy_file)
        × (e'.anchor_found ≡ e.anchor_found)
        × ((a : Anchor)
            → r ≡ ok a
            → (e'.anchor ≡ a)
              × (a.verify_key ≡ e.anchor.verify_key)
              × (a.nonce_watermark ≡ e.anchor.nonce_watermark))
  unfolding stage_admin_rotation
  stage-landed salt current next e = (ground arith, ground arith, λ a q. ground arith)
