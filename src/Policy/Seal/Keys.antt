-- ===== src/Policy/Seal/Keys.antt =====
-- The keys of the seal (internal/policyseal/seal.go and rotation.go, and the encodings of
-- internal/policyseal/anchor.go). scrypt, HKDF, ed25519 and base64 are parameters: the record Crypto.
use Prim.Native.Nat.{bit_and}
use daxib.Prelude.{
  ◌-◌, Bool, false, ◌||◌, ◌++◌, Option, none, some, ◌==◌, if◌then◌else◌, Text, text_eq, is_empty,
}
use daxib.Prelude.Int.{ℤ, pos, negsuc, ltb_ℤ}
use daxib.Policy.Seal.{Codec, ScryptParams, Anchor, key_prefix, seal_domain, verify_key_next_bytes}

-- What the libraries compute: `none` is an error.
pub record Crypto : Type 0 where
  pub scrypt : (pass salt : Text) → ScryptParams → Option Text
  pub hkdf : Text → Option Text
  pub new_key : Text → Text × Text
  pub sign : (sk subject : Text) → Text
  pub base64_encode : Text → Text

unfoldable pub power_of_two : ℤ → Bool
power_of_two (pos n) = bit_and n (n - 1) == 0
power_of_two (negsuc n) = false

-- ScryptParams.Valid
unfoldable pub valid : ScryptParams → Bool
valid p =
    if ltb_ℤ p.n (pos 2) || (ltb_ℤ p.r (pos 1) || ltb_ℤ p.p (pos 1))
    then false
    else power_of_two p.n

-- EncodeKey
unfoldable pub encode_key : Crypto → Text → Text
encode_key c pk = key_prefix ++ c.base64_encode pk

-- EncodeSalt
unfoldable pub encode_salt : Crypto → Text → Text
encode_salt c salt = c.base64_encode salt

-- decodeSalt
unfoldable pub decode_salt : Codec → Text → Option Text
decode_salt k s = k.base64 s

-- StagedSaltBytes, with the test of its second result.
unfoldable pub staged_salt_bytes : Codec → Anchor → Option Text
staged_salt_bytes k a = if is_empty a.staged_salt then none else decode_salt k a.staged_salt

-- DeriveSealKey: the private and the public key.
unfoldable pub derive_seal_key : Crypto → Text → Text → ScryptParams → Option (Text × Text)
derive_seal_key c pass salt p =
    if is_empty pass
    then none
    else if valid p
    then elim (c.scrypt pass salt p) [
      | none ↦ none
      | some master ↦ elim (c.hkdf master) [ none ↦ none | some seed ↦ some (c.new_key seed) ]
    ]
    else none

-- Sign
unfoldable pub sign : Crypto → Text → Text → Text
sign c body sk = c.sign sk (seal_domain ++ body)

-- StageRotation, under the salt that NewSalt gave (`none` where it failed): the staged key and salt.
unfoldable pub stage_rotation : Crypto → Text → ScryptParams → Option Text → Option (Text × Text)
stage_rotation c pass p none = none
stage_rotation c pass p (some salt) =
    if is_empty pass then none else elim (derive_seal_key c pass salt p) [
      | none ↦ none
      | some (sk, pk) ↦ some (encode_key c pk, salt)
    ]

-- CommitRotation: the private key of the staged family.
unfoldable pub commit_rotation : Codec → Crypto → Text → Anchor → ScryptParams → Option Text
commit_rotation k c pass a p = if is_empty pass then none else elim (staged_salt_bytes k a) [
  | none ↦ none
  | some salt ↦ elim (verify_key_next_bytes k a) [
    | none ↦ none
    | some want ↦ elim (derive_seal_key c pass salt p) [
      | none ↦ none
      | some (sk, pk) ↦ if text_eq pk want then some sk else none
    ]
  ]
]
