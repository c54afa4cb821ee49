-- ===== src/Policy/Rotation.antt =====
-- The staged rotation of the admin passphrase (internal/policy/rotation.go), and the service calls that
-- land its anchors (PolicyChangeAdminPassphrase, landAnchor and recoverPolicyRotation of
-- internal/service/policy_ops.go and policy.go). A crash in a write is a `Write` that ends the call.
pub mod Load
pub mod Crash
pub mod InForce
pub mod Survive
mod Tests
use daxib.Prelude.{
  ℕ, Bool, true, false, [], Option, none, some, ltb, if◌then◌else◌, not, ◌||◌, Text, is_empty,
}
use daxib.Prelude.Outcome.{◌>>=◌, or_fail}
use daxib.Prelude.Outcome
use daxib.Policy.Body.{Policy}
use daxib.Policy.Seal.{
  Codec, Anchor, Loaded, seal_violation, bad_key, verify, decode_key, verify_key_next_bytes,
  verifies, decode_envelope,
}
use daxib.Policy.Seal
use daxib.Policy.Seal.Keys.{Crypto, encode_salt, stage_rotation, commit_rotation}
use daxib.Policy.Engine.{
  Engine, seal, state_error, admin_auth, Result, ok, err, missing, unreadable, bytes, PolicyFile,
  load_active,
}
use daxib.Policy.Admin.{Io, next_nonce, seal_error, authenticate, seal_and_write}

-- The anchor that is promoted: the staged key alone.
abbrev pub promoted : Anchor → ℕ → Anchor
promoted a nonce = record a {
  verify_key = a.verify_key_next;
  verify_key_next = [];
  salt = a.staged_salt;
  staged_salt = [];
  nonce_watermark = if ltb a.nonce_watermark nonce then nonce else a.nonce_watermark;
}

-- The anchor with the staged key dropped.
abbrev pub rolled_back : Anchor → Anchor
rolled_back a = record a { verify_key_next = []; staged_salt = [] }

-- What readSealedBody returns.
pub record SealedBody : Type 0 where
  pub body : Text
  pub sig : Text
  pub nonce : ℕ

-- The body that is sealed under the staged key.
unfoldable pub resealed : Anchor → Text → Policy → Policy
resealed a now p = record p { nonce = next_nonce a.nonce_watermark; updated_at = now }

unfoldable pub record_nonce : ℕ → Engine × Result (Unit {0}) → Engine × Result (Unit {0})
record_nonce n (e, err x) = (e, err x)
record_nonce n (e, ok _) = (record e { active_nonce = n }, ok tt)

-- `json_nonce` is the permissive reading of the nonce.
module _ (k : Codec) (c : Crypto) (json_string : Text → Text) (json_nonce : Text → ℕ) where
  -- StageAdminRotation
  unfoldable pub stage_admin_rotation : Option Text → Text → Text → Engine → Engine × Result Anchor
  stage_admin_rotation salt current next e =
      if not e.anchor_found || (is_empty next || not (is_empty e.anchor.verify_key_next))
      then (e, err admin_auth)
      else elim (authenticate k c json_string e.anchor current) [
        | err x ↦ (e, err x)
        | ok sk ↦ elim (stage_rotation c next e.anchor.scrypt salt) [
          | none ↦ (e, err admin_auth)
          | some (key, s) ↦
              let staged = record e.anchor {
                verify_key_next = key;
                staged_salt = encode_salt c s;
              } in
              (record e { anchor = staged }, ok staged)
        ]
      ]

  -- ResealUnderStagedRotation
  unfoldable pub reseal_under_staged_rotation : Io → Text → Engine → Engine × Result (Unit {0})
  reseal_under_staged_rotation io next e =
      if not e.anchor_found || (is_empty e.anchor.verify_key_next || is_empty next)
      then (e, err admin_auth)
      else elim (commit_rotation k c next e.anchor e.anchor.scrypt) [
        | none ↦ (e, err admin_auth)
        | some sk ↦ elim (load_active k e) [
          | Outcome.err x ↦ (e, err (seal x))
          | Outcome.ok none ↦ (e, seal_error Seal.missing)
          | Outcome.ok (some p) ↦
              let body = resealed e.anchor io.now p in
              record_nonce body.nonce
                (seal_and_write k c json_string io sk body (record e { active_nonce = p.nonce }))
        ]
      ]

  -- readSealedBody
  unfoldable pub read_sealed_body : PolicyFile → Loaded SealedBody
  read_sealed_body missing = Outcome.err (seal_violation Seal.missing)
  read_sealed_body unreadable = Outcome.err (seal_violation Seal.missing)
  read_sealed_body (bytes raw) = do
    opened ← decode_envelope k raw
    sig ← or_fail (k.base64 opened.0.sig) (seal_violation Seal.unparseable)
    Outcome.ok (record { body = opened.1; sig = sig; nonce = json_nonce opened.1 })

  -- PromoteAdminRotation
  unfoldable pub promote_admin_rotation : Engine → Engine × Result Anchor
  promote_admin_rotation e =
      if not e.anchor_found || is_empty e.anchor.verify_key_next
      then (e, err admin_auth)
      else elim (read_sealed_body e.policy_file) [
        | Outcome.err x ↦ (e, err (seal x))
        | Outcome.ok s ↦ elim (verify_key_next_bytes k e.anchor) [
          | none ↦ (e, seal_error bad_key)
          | some pk ↦
              if verify k s.body s.sig pk
              then (record e { anchor = promoted e.anchor s.nonce }, ok (promoted e.anchor s.nonce))
              else (e, seal_error Seal.bad_sig)
        ]
      ]

  -- RecoverAdminRotation: the anchor to land, where it changed.
  unfoldable pub recover_admin_rotation : Engine → Engine × Result (Option Anchor)
  recover_admin_rotation e =
      if not e.anchor_found || is_empty e.anchor.verify_key_next
      then (e, ok none)
      else elim (read_sealed_body e.policy_file) [
        | Outcome.err x ↦ (e, err (seal x))
        | Outcome.ok s ↦
            if verifies k s.body s.sig (verify_key_next_bytes k e.anchor)
            then (
              record e { anchor = promoted e.anchor s.nonce },
              ok (some (promoted e.anchor s.nonce)),
            )
            else if verifies k s.body s.sig (decode_key k e.anchor.verify_key)
            then (record e { anchor = rolled_back e.anchor }, ok (some (rolled_back e.anchor)))
            else (e, seal_error Seal.bad_sig)
      ]

-- The engine of a process, and the anchor that is landed in the configuration directory.
pub record Host : Type 0 where
  pub landed : Anchor
  pub engine : Engine

-- What writeAnchor can come to; `unwritten` is any other failure that leaves the anchor.
pub data Landing : Type 0 where
  landed_ok read_only unwritten_anchor unsynced_anchor : Landing

unfoldable pub write_anchor : Landing → Anchor → Host → Host
write_anchor landed_ok a h = record h { landed = a }
write_anchor unsynced_anchor a h = record h { landed = a }
write_anchor read_only a h = h
write_anchor unwritten_anchor a h = h

abbrev pub lands : Landing → Bool
lands landed_ok = true
lands read_only = false
lands unwritten_anchor = false
lands unsynced_anchor = false

abbrev pub lands_or_read_only : Landing → Bool
lands_or_read_only landed_ok = true
lands_or_read_only read_only = true
lands_or_read_only unwritten_anchor = false
lands_or_read_only unsynced_anchor = false

-- The outcomes during one PolicyChangeAdminPassphrase.
pub record Script : Type 0 where
  pub recovered : Landing
  pub salt : Option Text
  pub staged : Landing
  pub io : Io
  pub promoted : Landing

-- A step after a chain of steps on the host.
abbrev pub after {ℓ κ} :
    {A : Type ℓ} {B : Type κ} → Host × Result A → (A → Host → Host × Result B) → Host × Result B
after (h, err x) next = (h, err x)
after (h, ok a) next = next a h

-- A call of the engine, and what the service does with its answer.
abbrev pub proceed {ℓ κ} :
    {A : Type ℓ} {B : Type κ}
    → Host
    → Engine × Result A
    → (A → Host → Host × Result B)
    → Host × Result B
proceed h (e, err x) next = (record h { engine = e }, err x)
proceed h (e, ok a) next = next a (record h { engine = e })

module _ (k : Codec) (c : Crypto) (json_string : Text → Text) (json_nonce : Text → ℕ) where
  -- recoverPolicyRotation
  unfoldable pub recover_policy_rotation : Landing → Host → Host × Result (Unit {0})
  recover_policy_rotation w h =
      proceed h (recover_admin_rotation k c json_string json_nonce h.engine) (λ changed h'.
        elim changed [
          | none ↦ (h', ok tt)
          | some a ↦ (write_anchor w a h', if lands_or_read_only w then ok tt else err state_error)
        ])

  -- From the promotion on.
  unfoldable pub promote_and_land : Script → Host → Host × Result (Unit {0})
  promote_and_land s h =
      proceed h (promote_admin_rotation k c json_string json_nonce h.engine) (λ a h'. (
        write_anchor s.promoted a h',
        if lands_or_read_only s.promoted then ok tt else err state_error,
      ))

  -- From the reseal on.
  unfoldable pub reseal_and_promote : Script → Text → Host → Host × Result (Unit {0})
  reseal_and_promote s next h =
      proceed h (reseal_under_staged_rotation k c json_string json_nonce s.io next h.engine)
        (λ _ h'. promote_and_land s h')

  -- From the staging on.
  unfoldable pub stage_and_reseal : Script → Text → Text → Host → Host × Result (Unit {0})
  stage_and_reseal s current next h =
      proceed h (stage_admin_rotation k c json_string json_nonce s.salt current next h.engine)
        (λ a h'.
          let h'' = write_anchor s.staged a h' in
          if lands s.staged then reseal_and_promote s next h'' else (h'', err state_error))

  -- PolicyChangeAdminPassphrase
  unfoldable pub policy_change_admin_passphrase :
      Script → Text → Text → Host → Host × Result (Unit {0})
  policy_change_admin_passphrase s current next h =
      after (recover_policy_rotation s.recovered h) (λ _ h'. stage_and_reseal s current next h')

-- openPolicyEngine: a process that starts reads the landed anchor.
unfoldable pub reopened : Host → Engine
reopened h = record h.engine { anchor = h.landed; active_nonce = 0 }
