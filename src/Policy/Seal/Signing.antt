-- ===== src/Policy/Seal/Signing.antt =====
-- The keys that a passphrase derives sign what the anchor then verifies (policyseal.CommitRotation,
-- Sign and Verify), given what the libraries promise.
use daxib.Prelude.{
  ◌≡◌, ap, ◌∙◌, sym, true, ◌++◌, some, Text, arith, Option-cases, inl, inr, length, text_eq_iff,
}
use daxib.Policy.Seal.{
  Codec, Anchor, ScryptParams, seal_domain, verify, verifies, verify_key_next_bytes,
}
use daxib.Policy.Seal.Keys.{Crypto, derive_seal_key, sign, staged_salt_bytes, commit_rotation}

-- Base64 decodes what it encodes, ed25519 keys and signatures have their sizes, and a signature
-- verifies under the key of its seed.
pub record Lawful (k : Codec) (c : Crypto) : Type 0 where
  pub base64_back : (s : Text) → k.base64 (c.base64_encode s) ≡ some s
  pub key_size : (seed : Text) → length (c.new_key seed).1 ≡ 32
  pub sig_size : (sk m : Text) → length (c.sign sk m) ≡ 64
  pub verifies_back :
      (seed m : Text) → k.ed25519 (c.new_key seed).1 m (c.sign (c.new_key seed).0 m) ≡ true

module _ (k : Codec) (c : Crypto) (w : Lawful k c) where
  pub new_key-verify :
      (seed body : Text) → verify k body (sign c body (c.new_key seed).0) (c.new_key seed).1 ≡ true
  unfolding verify sign
  new_key-verify seed body =
      let n = w.key_size seed in
      let m = w.sig_size (c.new_key seed).0 (seal_domain ++ body) in
      let v = w.verifies_back seed (seal_domain ++ body) in ground arith

  -- A derived pair is the pair of some seed.
  derived :
      (pass salt : Text) (p : ScryptParams) (sk pk : Text)
      → derive_seal_key c pass salt p ≡ some (sk, pk)
      → (seed : Text) × (c.new_key seed ≡ (sk, pk))
  unfolding derive_seal_key
  derived pass salt p sk pk h = elim (Option-cases (c.scrypt pass salt p)) [
    | inl n ↦ absurd (ground arith)
    | inr (master, e) ↦ elim (Option-cases (c.hkdf master)) [
      | inl n ↦ absurd (ground arith)
      | inr (seed, e') ↦ (seed, ground arith)
    ]
  ]

  pub derived-verify :
      (pass salt : Text) (p : ScryptParams) (sk pk body : Text)
      → derive_seal_key c pass salt p ≡ some (sk, pk)
      → verify k body (sign c body sk) pk ≡ true
  derived-verify pass salt p sk pk body h =
      let (seed, e) = derived pass salt p sk pk h in
      sym (ap (λ q. verify k body (sign c body q.0) q.1) e) ∙ new_key-verify seed body

  -- What CommitRotation's key signs verifies under the staged key.
  pub commit_rotation-verifies :
      (next : Text) (a : Anchor) (p : ScryptParams) (sk body : Text)
      → commit_rotation k c next a p ≡ some sk
      → verifies k body (sign c body sk) (verify_key_next_bytes k a) ≡ true
  unfolding commit_rotation
  commit_rotation-verifies next a p sk body h = elim (Option-cases (staged_salt_bytes k a)) [
    | inl n ↦ absurd (ground arith)
    | inr (salt, e) ↦ elim (Option-cases (verify_key_next_bytes k a)) [
      | inl n ↦ absurd (ground arith)
      | inr (want, e') ↦ elim (Option-cases (derive_seal_key c next salt p)) [
        | inl n ↦ absurd (ground arith)
        | inr ((sk', pk), d) ↦
            let v = derived-verify next salt p sk' pk body d in
            let q = text_eq_iff pk want in ground arith
      ]
    ]
  ]
