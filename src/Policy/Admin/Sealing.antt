-- ===== src/Policy/Admin/Sealing.antt =====
-- A policy file that an administrator's call writes (sealAndWriteWith of internal/policy/admin.go) loads
-- again, under an anchor that pins the key.
use daxib.Prelude.{
  ◌≤◌, ◌≡◌, ap, ◌∙◌, refl, true, some, Text, codes, arith, Option-cases, inl, inr, text_eq_iff,
}
use daxib.Prelude.Int.{pos}
use daxib.Prelude.Outcome
use daxib.Policy.Body.{Policy}
use daxib.Policy.Seal.{
  Codec, Anchor, verify_under_anchor, decode_envelope, decode_body_strict, decode_key,
  verify_key_next_bytes,
}
use daxib.Policy.Seal.Keys.{Crypto, sign, decode_salt, derive_seal_key}
use daxib.Policy.Seal.Signing.{Lawful, derived-verify}
use daxib.Policy.Writer.{write_body}
use daxib.Policy.Writer.Canonical.{canonical}
use daxib.Policy.Writer.Json.{
  policy_json, write_body-policy_json, envelope_json, marshal_envelope-json,
}
use daxib.Policy.Engine.{ok}
use daxib.Policy.Engine.Load.{Sealed}
use daxib.Policy.Admin.{sealed_file, authenticate}

-- encoding/json reads a written policy back: the JSON of its envelope and that of its fields.
pub record ReadsBack (k : Codec) (c : Crypto) (json_string : Text → Text) (r : Policy)
    : Type 0 where
  pub envelope :
      (sk : Text)
      → k.json_envelope (
          envelope_json json_string
            (c.base64_encode (write_body json_string r))
            (c.base64_encode (sign c (write_body json_string r) sk)))
        ≡ some (record {
          version = pos 1;
          body_b64 = c.base64_encode (write_body json_string r);
          alg = codes "scrypt/ed25519";
          sig = c.base64_encode (sign c (write_body json_string r) sk);
        })
  pub body : decode_body_strict k (policy_json json_string (canonical r)) ≡ Outcome.ok (canonical r)

pub canonical-nonce : (r : Policy) → (canonical r).nonce ≡ r.nonce
unfolding canonical
canonical-nonce r = refl

module _ (k : Codec) (c : Crypto) (json_string : Text → Text) (w : Lawful k c) where
  -- A file sealed with a key that the anchor verifies carries the canonical policy.
  pub sealed_file-Sealed :
      (a : Anchor) (sk : Text) (r : Policy)
      → ReadsBack k c json_string r
      → verify_under_anchor k (write_body json_string r) (sign c (write_body json_string r) sk) a
        ≡ true
      → a.nonce_watermark ≤ r.nonce
      → (s : Sealed k a (sealed_file k c json_string sk r) (canonical r)) × (s.body
          ≡ write_body json_string r)
  unfolding decode_envelope sealed_file
  sealed_file-Sealed a sk r b v f =
      let raw = write_body json_string r in
      let e =
        ap k.json_envelope (marshal_envelope-json json_string c.base64_encode raw (sign c raw sk))
        ∙ b.envelope sk in
      let e0 = w.base64_back raw in
      (
        record {
          envelope = record {
            version = pos 1;
            body_b64 = c.base64_encode raw;
            alg = codes "scrypt/ed25519";
            sig = c.base64_encode (sign c raw sk);
          };
          body = raw;
          sig = sign c raw sk;
          decodes = ground arith;
          signature = w.base64_back (sign c raw sk);
          verified = v;
          strict = ap (decode_body_strict k) (write_body-policy_json json_string r) ∙ b.body;
          fresh = rw (canonical-nonce r) f;
        },
        refl,
      )

  -- What the key of an authenticated passphrase signs verifies under the anchor.
  pub authenticate-verifies :
      (a : Anchor) (pass sk body : Text)
      → authenticate k c json_string a pass ≡ ok sk
      → verify_under_anchor k body (sign c body sk) a ≡ true
  unfolding authenticate verify_under_anchor
  authenticate-verifies a pass sk body h = elim (Option-cases (decode_salt k a.salt)) [
    | inl n ↦ absurd (ground arith)
    | inr (salt, e) ↦ elim (Option-cases (derive_seal_key c pass salt a.scrypt)) [
      | inl n ↦ absurd (ground arith)
      | inr ((sk', pk), d) ↦
          let v = derived-verify k c w pass salt a.scrypt sk' pk body d in
          elim (Option-cases (decode_key k a.verify_key)) [
            | inl n ↦ absurd (ground arith)
            | inr (want, e') ↦
                let q = text_eq_iff pk want in
                elim (Option-cases (verify_key_next_bytes k a)) [
                  | inl n ↦ ground arith
                  | inr (next, e'') ↦ let q' = text_eq_iff pk next in ground arith
                ]
          ]
    ]
  ]
