-- ===== src/Policy/Rotation/Load.antt =====
-- Which policy loads under an anchor, and the recovery of an interrupted rotation
-- (RecoverAdminRotation of internal/policy/rotation.go).
use daxib.Prelude.{
  ℕ, ◌≡◌, refl, sym, ap, ◌∙◌, Option, ◌⊎◌, false, true, false, [], none, some, Text, arith,
  Bool-cases, inl, inr, is_empty,
}
use daxib.Prelude.Outcome
use daxib.Prelude.Outcome.{◌>>=◌, or_fail, require}
use daxib.Policy.Body.{Policy}
use daxib.Policy.Seal.{
  Codec, Anchor, verify_under_anchor, verifies, decode_key, verify_key_next_bytes,
  decode_body_strict, decode_envelope, Envelope,
}
use daxib.Policy.Seal.Keys.{Crypto}
use daxib.Policy.Engine.{Engine, PolicyFile, ok, bytes, load_active}
use daxib.Policy.Engine.Load.{Sealed, load_active_complete, under, load_active_fail_closed}
use daxib.Policy.Rotation.{promoted, rolled_back, read_sealed_body, recover_admin_rotation}

-- The permissive reading of the nonce agrees with the strict decoding, on the body of that file.
abbrev pub ReadsNonce : Codec → (Text → ℕ) → PolicyFile → Type 0
ReadsNonce k json_nonce file =
    (raw : Text) (envelope : Envelope) (body : Text) (p : Policy)
    → file ≡ bytes raw
    → decode_envelope k raw ≡ Outcome.ok (envelope, body)
    → decode_body_strict k body ≡ Outcome.ok p
    → json_nonce body ≡ p.nonce

-- The nonce that the body of a sealed file is read with.
pub Sealed-ReadsNonce :
    (k : Codec) (json_nonce : Text → ℕ) {a : Anchor} {raw : Text} {p : Policy}
    (s : Sealed k a raw p)
    → json_nonce s.body ≡ p.nonce
    → ReadsNonce k json_nonce (bytes raw)
Sealed-ReadsNonce k json_nonce {p = p} s n raw envelope body q f d t =
    let d0 = s.decodes in
    let same : s.body ≡ body = cc in
    let t0 = s.strict in
    let policy : p ≡ q = cc in ap json_nonce (sym same) ∙ n ∙ ap (λ x. x.nonce) policy

pub Sealed-nonce :
    (k : Codec) (json_nonce : Text → ℕ) {a : Anchor} {raw : Text} {p : Policy}
    (s : Sealed k a raw p)
    → ReadsNonce k json_nonce (bytes raw)
    → json_nonce s.body ≡ p.nonce
Sealed-nonce k json_nonce {raw = raw} {p = p} s reads =
    reads raw s.envelope s.body p refl s.decodes s.strict

-- A key that verifies in an anchor of one key is its own key.
single-verified :
    (k : Codec) (a : Anchor) (body sig : Text)
    → a.verify_key_next ≡ []
    → verify_under_anchor k body sig a ≡ verifies k body sig (decode_key k a.verify_key)
unfolding verify_under_anchor verify_key_next_bytes
single-verified k a body sig h = ground arith

verified-cases :
    (k : Codec) (a : Anchor) (body sig : Text)
    → verify_under_anchor k body sig a ≡ true
    → verifies k body sig (verify_key_next_bytes k a) ≡ false
    → verifies k body sig (decode_key k a.verify_key) ≡ true
unfolding verify_under_anchor
verified-cases k a body sig v n = ground arith

verified-next :
    (k : Codec) (a : Anchor) (body sig : Text)
    → verifies k body sig (verify_key_next_bytes k a) ≡ true
    → verifies k body sig (decode_key k a.verify_key_next) ≡ true
unfolding verify_key_next_bytes
verified-next k a body sig v = ground arith

-- What the recovery makes of an engine: one key, which is the anchor to land where it changed, and
-- the same policy loads from the same file.
pub record Converged (k : Codec) (p : Policy) (e e' : Engine) (a : Option Anchor) : Type 0 where
  pub one_key : e'.anchor.verify_key_next ≡ []
  pub loads : load_active k e' ≡ Outcome.ok (some p)
  pub file : e'.policy_file ≡ e.policy_file
  pub to_land : ((a ≡ none) × (e'.anchor ≡ e.anchor)) ⊎ (a ≡ some e'.anchor)

module _ (k : Codec) (c : Crypto) (json_string : Text → Text) (json_nonce : Text → ℕ) where
  pub read_sealed_body_lem :
      {a : Anchor} {raw : Text} {p : Policy} (s : Sealed k a raw p)
      → read_sealed_body k c json_string json_nonce (bytes raw)
        ≡ Outcome.ok (record { body = s.body; sig = s.sig; nonce = json_nonce s.body })
  unfolding read_sealed_body
  read_sealed_body_lem s = let e0 = s.decodes in let e1 = s.signature in ground arith

  pub Sealed-promoted :
      {a : Anchor} {raw : Text} {p : Policy} (s : Sealed k a raw p)
      → json_nonce s.body ≡ p.nonce
      → verifies k s.body s.sig (verify_key_next_bytes k a) ≡ true
      → Sealed k (promoted a (json_nonce s.body)) raw p
  Sealed-promoted {a} s n v =
      let b = promoted a (json_nonce s.body) in
      let f = s.fresh in
      under b s (single-verified k b s.body s.sig refl ∙ verified-next k a s.body s.sig v)
        (ground arith)

  pub Sealed-rolled_back :
      {a : Anchor} {raw : Text} {p : Policy} (s : Sealed k a raw p)
      → verifies k s.body s.sig (decode_key k a.verify_key) ≡ true
      → Sealed k (rolled_back a) raw p
  Sealed-rolled_back {a} s v =
      under (rolled_back a) s (single-verified k (rolled_back a) s.body s.sig refl ∙ v) s.fresh

  -- Wherever the policy loads, and json.Unmarshal reads from its body the nonce that the strict decoding
  -- gives, the recovery succeeds, leaves an anchor of one key, which is the one to land where it changed,
  -- and the same policy loads under it from the same file.
  pub recover-Converged :
      (e : Engine) (p : Policy)
      → ReadsNonce k json_nonce e.policy_file
      → load_active k e ≡ Outcome.ok (some p)
      → (e' : Engine) × (a : Option Anchor) × (recover_admin_rotation k c json_string json_nonce e
          ≡ (e', ok a))
        × Converged k p e e' a
  unfolding recover_admin_rotation
  recover-Converged e p same l =
      let (f, (raw, b, s)) = (load_active_fail_closed k e).1 p l in
      let n0 = same raw s.envelope s.body p b s.decodes s.strict in
      let q = ap (read_sealed_body k c json_string json_nonce) b ∙ read_sealed_body_lem s in
      let forward = promoted e.anchor (json_nonce s.body) in
      let back = rolled_back e.anchor in
      elim (Bool-cases (is_empty e.anchor.verify_key_next)) [
        | inl n ↦ (
          e,
          none,
          ground arith,
          record { one_key = ground arith; loads = l; file = refl; to_land = inl (refl, refl) },
        )
        | inr n ↦ elim (Bool-cases (verifies k s.body s.sig (verify_key_next_bytes k e.anchor))) [
          | inl v ↦ (
            record e { anchor = forward },
            some forward,
            ground arith,
            record {
              one_key = refl;
              loads = load_active_complete _ f b (Sealed-promoted s n0 v);
              file = refl;
              to_land = inr refl;
            },
          )
          | inr v ↦
              let w = verified-cases k e.anchor s.body s.sig s.verified v in
              (
                record e { anchor = back },
                some back,
                ground arith,
                record {
                  one_key = refl;
                  loads = load_active_complete _ f b (Sealed-rolled_back s w);
                  file = refl;
                  to_land = inr refl;
                },
              )
        ]
      ]
