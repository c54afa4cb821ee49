-- ===== src/Policy/Seal.antt =====
-- Loading the sealed policy: the envelope, the seal under the pinned anchor, and the strict decoding
-- of the body (internal/policy/body.go, internal/policyseal/anchor.go, policyseal.Verify).
-- encoding/json, base64 and ed25519 are parameters: the record Codec.
pub mod TriState
pub mod Keys
pub mod Signing
use daxib.Prelude.{
  ℕ, ◌+◌, ◌≤◌, ◌≡◌, refl, Bool, true, false, ◌&&◌, ◌||◌, List, [], ◌∷◌, ◌++◌, Option, none, some,
  ltb, leb, ◌==◌, length, take, drop, if◌then◌else◌, Text, codes, text_eq, is_empty,
}
use daxib.Prelude.Int.{ℤ, pos, ltb_ℤ}
use daxib.Prelude.Outcome.{Outcome, ok, err, ◌>>=◌, ◌>>◌, require, or_fail}
use daxib.Policy.Body.{Policy}
use TriState.{Probe, reconcile_tri_state}

-- The envelope as json.Unmarshal reads it.
pub record Envelope : Type 0 where
  pub version : ℤ
  pub body_b64 : Text
  pub alg : Text
  pub sig : Text

-- The first, permissive pass over a body.
pub record Head : Type 0 where
  pub version : ℤ
  pub written_by : Text

-- What the standard library decides: `none` is an error.
pub record Codec : Type 0 where
  pub json_envelope : Text → Option Envelope
  pub base64 : Text → Option Text
  pub json_head : Text → Head
  pub json_body : Text → Option Policy
  pub json_probe : Text → Option Probe
  pub ed25519 : (key subject sig : Text) → Bool

pub record ScryptParams : Type 0 where
  pub n : ℤ
  pub r : ℤ
  pub p : ℤ

pub record Anchor : Type 0 where
  pub verify_key : Text
  pub verify_key_next : Text
  pub salt : Text
  pub scrypt : ScryptParams
  pub nonce_watermark : ℕ
  pub staged_salt : Text

-- The seal status that a violation carries.
pub data SealStatus : Type 0 where
  unreadable anchor_missing missing unparseable bad_sig bad_key bad_salt : SealStatus

pub data SealError : Type 0 where
  seal_violation : SealStatus → SealError
  rollback : (body_nonce watermark : ℕ) → SealError
  version_refused : (written_by : Text) (body_version : ℤ) → SealError

abbrev pub Loaded {ℓ} : Type ℓ → Type ℓ
Loaded A = Outcome SealError A

abbrev pub key_prefix : Text
key_prefix = codes "ed25519:"

abbrev body_version : ℤ
body_version = pos 1

abbrev pub seal_domain : Text
seal_domain = codes "daxib/policy/v1\n"

module _ (k : Codec) where
  -- decodeKey
  unfoldable pub decode_key : Text → Option Text
  decode_key s =
      if leb (length s) (length key_prefix)
      then none
      else if text_eq (take (length key_prefix) s) key_prefix
      then elim (k.base64 (drop (length key_prefix) s)) [
        | none ↦ none
        | some raw ↦ if length raw == 32 then some raw else none
      ]
      else none

  -- policyseal.Verify
  unfoldable pub verify : Text → Text → Text → Bool
  verify body sig pk =
      if length pk == 32 && length sig == 64 then k.ed25519 pk (seal_domain ++ body) sig else false

  -- VerifyKeyNextBytes: `none` for no staged key and for a malformed one.
  unfoldable pub verify_key_next_bytes : Anchor → Option Text
  unfolding decode_key
  verify_key_next_bytes a =
      if is_empty a.verify_key_next then none else decode_key a.verify_key_next

  abbrev pub verifies : Text → Text → Option Text → Bool
  verifies body sig none = false
  verifies body sig (some pk) = verify body sig pk

  -- verifyUnderAnchor
  unfoldable pub verify_under_anchor : Text → Text → Anchor → Bool
  unfolding verify decode_key verify_key_next_bytes
  verify_under_anchor body sig a =
      if verifies body sig (decode_key a.verify_key)
      then true
      else verifies body sig (verify_key_next_bytes a)

  -- decodeEnvelope
  unfoldable pub decode_envelope : Text → Loaded (Envelope × Text)
  decode_envelope raw = do
    env ← or_fail (k.json_envelope raw) (seal_violation unparseable)
    body ← or_fail (k.base64 env.body_b64) (seal_violation unparseable)
    ok (env, body)

  -- decodeBodyStrict
  unfoldable pub decode_body_strict : Text → Loaded Policy
  unfolding reconcile_tri_state
  decode_body_strict body =
      let head = k.json_head body in
      let refused = version_refused head.written_by head.version in
      if ltb_ℤ body_version head.version then err refused else elim (k.json_body body) [
        | none ↦ err refused
        | some p ↦ ok (reconcile_tri_state (k.json_probe body) p)
      ]
