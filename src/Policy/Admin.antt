-- ===== src/Policy/Admin.antt =====
-- The administration of the policy (internal/policy/admin.go): the first seal, and the mutations under
-- the admin passphrase. Each call is a function on the engine, whose `policy_file` is the file on
-- disk; the caller lands the anchor that a call returns. An empty passphrase stands for nil too.
pub mod Sealing
pub mod Mutate
pub mod Pins
pub mod Toy
mod Tests
pub mod Networks
use daxib.Prelude.{
  ℕ, ◌+◌, ◌%◌, ◌^◌, Bool, true, false, ◌&&◌, List, [], ◌∷◌, ◌++◌, Option, none, some, ltb, leb,
  if◌then◌else◌, Text, codes, text_eq, is_empty, equal_fold,
}
use daxib.Prelude.Int.{pos}
use daxib.Prelude.Sort.{sort}
use daxib.Prelude.Outcome
use daxib.Policy.Body.{
  Policy, NetworkRule, PinEntry, Rules, Limit, absent, null, text, Flag, unset, flag,
}
use daxib.Policy.Body
use daxib.Policy.Seal.{
  Codec, ScryptParams, Anchor, Loaded, seal_violation, SealStatus, bad_salt, bad_key, decode_key,
  verify_key_next_bytes,
}
use daxib.Policy.Seal
use daxib.Policy.Seal.Keys.{Crypto, encode_key, encode_salt, decode_salt, derive_seal_key, sign}
use daxib.Policy.Writer.{sorted_lower, network_lt, write_body, marshal_envelope}
use daxib.Policy.Engine.{Engine, seal, state_error, admin_auth, Result, ok, err, bytes, load_active}

-- What fsx.WriteAtomic can come to: a failing sync of the directory is an error after the rename.
pub data Write : Type 0 where
  written unwritten unsynced : Write

-- The file system and the clock during one call.
pub record Io : Type 0 where
  pub made_dir : Bool
  pub write : Write
  pub now : Text

pub record Change : Type 0 where
  pub default : Option Body.Limits
  pub networks : List NetworkRule
  pub refresh_self : Option (List Text)
  pub written_by : Text

-- AllowEntry and DenyEntry
pub record PinChange : Type 0 where
  pub address : Text
  pub label : Text
  pub remove : Bool
  pub refresh_self : Option (List Text)
  pub written_by : Text

unfoldable pub set_limit : Limit → Limit → Limit
set_limit dst absent = dst
set_limit dst null = null
set_limit dst (text s) = text s

unfoldable pub set_flag : Flag → Flag → Flag
set_flag dst unset = dst
set_flag dst (flag b) = flag b

-- applyDefault
unfoldable pub apply_default : Body.Limits → Body.Limits → Body.Limits
apply_default dst src = record {
  max_tx_sat = set_limit dst.max_tx_sat src.max_tx_sat;
  max_day_sat = set_limit dst.max_day_sat src.max_day_sat;
  max_fee_rate = set_limit dst.max_fee_rate src.max_fee_rate;
  allowlist_on = set_flag dst.allowlist_on src.allowlist_on;
  include_self = set_flag dst.include_self src.include_self;
}

-- The loop of upsertNetwork: `none` where no rule has the name.
unfoldable pub update_network : List NetworkRule → NetworkRule → Option (List NetworkRule)
update_network [] n = none
update_network (m ∷ ms) n =
    let rest = update_network ms n in
    if equal_fold m.network n.network
    then some (record m { limits = apply_default m.limits n.limits } ∷ ms)
    else elim rest [ none ↦ none | some ms' ↦ some (m ∷ ms') ]

-- upsertNetwork
unfoldable pub upsert_network : List NetworkRule → NetworkRule → List NetworkRule
upsert_network ms n = elim (update_network ms n) [
  | some ms' ↦ ms'
  | none ↦ sort network_lt (ms ++ n ∷ [])
]

-- The loop of Set over the changed networks.
unfoldable pub upsert_networks : List NetworkRule → List NetworkRule → List NetworkRule
upsert_networks ms [] = ms
upsert_networks ms (n ∷ ns) = upsert_networks (upsert_network ms n) ns

abbrev pub is_pin_of : PinEntry → Text → Bool
is_pin_of p addr = text_eq p.source (codes "address") && equal_fold p.address addr

-- upsertPin
unfoldable pub upsert_pin : List PinEntry → Text → Text → Text → List PinEntry
upsert_pin [] addr label now =
    record { source = codes "address"; address = addr; label = label; added_at = now } ∷ []
upsert_pin (p ∷ ps) addr label now =
    let rest = upsert_pin ps addr label now in
    if is_pin_of p addr
    then (if is_empty label then p else record p { label = label }) ∷ ps
    else p ∷ rest

-- removePin
unfoldable pub remove_pin : List PinEntry → Text → List PinEntry
remove_pin [] addr = []
remove_pin (p ∷ ps) addr =
    let rest = remove_pin ps addr in if is_pin_of p addr then rest else p ∷ rest

-- The mutation of Allow and Deny on their list.
unfoldable pub change_pins : Text → PinChange → List PinEntry → List PinEntry
change_pins now entry pins =
    if entry.remove
    then remove_pin pins entry.address
    else upsert_pin pins entry.address entry.label now

-- defaultPolicy
unfoldable pub default_policy : Text → Policy
default_policy written_by = record {
  version = pos 1;
  nonce = 0;
  updated_at = [];
  written_by = written_by;
  rules = record {
    default = record {
      max_tx_sat = absent;
      max_day_sat = absent;
      max_fee_rate = absent;
      allowlist_on = flag false;
      include_self = flag true;
    };
    networks = [];
  };
  allowlist = [];
  denylist = [];
  self_addresses = [];
}

-- The mutation of Set.
unfoldable pub changed : Change → Policy → Policy
changed ch p = record p {
  rules = record {
    default = elim ch.default [ none ↦ p.rules.default | some l ↦ apply_default p.rules.default l ];
    networks = upsert_networks p.rules.networks ch.networks;
  };
}

-- uint64 addition of one.
unfoldable pub next_nonce : ℕ → ℕ
next_nonce n = (n + 1) % 2 ^ 64

-- The watermark never drops.
abbrev pub raised : Anchor → ℕ → Anchor
raised a nonce = if ltb a.nonce_watermark nonce then record a { nonce_watermark = nonce } else a

-- The body of a mutation: `fn` applied, the nonce past the watermark, and the stamps.
unfoldable pub mutated :
    Anchor → Option (List Text) → Text → Text → (Policy → Policy) → Policy → Policy
mutated a refresh_self written_by now fn p =
    let body = fn p in
    let nonce = next_nonce body.nonce in
    record body {
      nonce = if leb nonce a.nonce_watermark then next_nonce a.nonce_watermark else nonce;
      self_addresses = elim refresh_self [ none ↦ body.self_addresses | some ss ↦ sorted_lower ss ];
      written_by = if is_empty written_by then body.written_by else written_by;
      updated_at = now;
    }

abbrev pub seal_error {ℓ} : {A : Type ℓ} → SealStatus → Result A
seal_error s = err (seal (seal_violation s))

module _ (k : Codec) (c : Crypto) (json_string : Text → Text) where
  -- authenticate: the private key that the passphrase derives.
  unfoldable pub authenticate : Anchor → Text → Result Text
  authenticate a pass = if is_empty pass then err admin_auth else elim (decode_salt k a.salt) [
    | none ↦ seal_error bad_salt
    | some salt ↦ elim (derive_seal_key c pass salt a.scrypt) [
      | none ↦ err admin_auth
      | some (sk, pk) ↦ elim (decode_key k a.verify_key) [
        | none ↦ seal_error bad_key
        | some want ↦ if text_eq pk want then ok sk else elim (verify_key_next_bytes k a) [
          | none ↦ err admin_auth
          | some next ↦ if text_eq pk next then ok sk else err admin_auth
        ]
      ]
    ]
  ]

  -- The file that sealAndWriteWith writes.
  unfoldable pub sealed_file : Text → Policy → Text
  sealed_file sk body =
      let raw = write_body json_string body in
      marshal_envelope json_string c.base64_encode raw (sign c raw sk)

  -- sealAndWriteWith
  unfoldable pub seal_and_write : Io → Text → Policy → Engine → Engine × Result (Unit {0})
  seal_and_write io sk body e =
      if io.made_dir
      then elim io.write [
        | unwritten ↦ (e, err state_error)
        | unsynced ↦ (record e { policy_file = bytes (sealed_file sk body) }, err state_error)
        | written ↦ (record e { policy_file = bytes (sealed_file sk body) }, ok tt)
      ]
      else (e, err state_error)

  -- The end of a mutation: the anchor that is returned is the engine's from then on.
  unfoldable pub adopt : Anchor → Engine × Result (Unit {0}) → Engine × Result Anchor
  adopt a (e, err x) = (e, err x)
  adopt a (e, ok _) = (record e { anchor = a; anchor_found = true }, ok a)

  -- mutate
  unfoldable pub mutate :
      Io → Text → Option (List Text) → Text → (Policy → Policy) → Engine → Engine × Result Anchor
  mutate io pass refresh_self written_by fn e =
      if e.anchor_found
      then elim (authenticate e.anchor pass) [
        | err x ↦ (e, err x)
        | ok sk ↦ elim (load_active k e) [
          | Outcome.err x ↦ (e, err (seal x))
          | Outcome.ok none ↦ (e, seal_error Seal.missing)
          | Outcome.ok (some p) ↦
              let body = mutated e.anchor refresh_self written_by io.now fn p in
              let e' = record e { active_nonce = p.nonce } in
              adopt (raised e.anchor body.nonce) (seal_and_write io sk body e')
        ]
      ]
      else (e, err admin_auth)

  -- Set
  unfoldable pub set : Io → Text → Change → Engine → Engine × Result Anchor
  set io pass ch e = mutate io pass ch.refresh_self ch.written_by (changed ch) e

  -- Allow
  unfoldable pub allow : Io → Text → PinChange → Engine → Engine × Result Anchor
  allow io pass entry e =
      mutate io pass entry.refresh_self entry.written_by
        (λ p. record p { allowlist = change_pins io.now entry p.allowlist }) e

  -- Deny
  unfoldable pub deny : Io → Text → PinChange → Engine → Engine × Result Anchor
  deny io pass entry e =
      mutate io pass entry.refresh_self entry.written_by
        (λ p. record p { denylist = change_pins io.now entry p.denylist }) e

  -- Reset
  unfoldable pub reset : Io → Text → List Text → Text → Engine → Engine × Result Anchor
  reset io pass refresh_self written_by e =
      if e.anchor_found
      then elim (authenticate e.anchor pass) [
        | err x ↦ (e, err x)
        | ok sk ↦
            let nonce = next_nonce e.anchor.nonce_watermark in
            let body = record (default_policy written_by) {
              nonce = nonce;
              self_addresses = sorted_lower refresh_self;
            } in
            adopt (record e.anchor { nonce_watermark = nonce }) (seal_and_write io sk body e)
      ]
      else (e, err admin_auth)

  -- InitSeal, under the salt that NewSalt gave and the bootstrap parameters.
  unfoldable pub init_seal :
      Io → Option Text → ScryptParams → Text → List Text → Text → Engine → Engine × Result Anchor
  init_seal io salt params pass refresh_self written_by e =
      if e.anchor_found
      then (e, err admin_auth)
      else if is_empty pass
      then (e, err admin_auth)
      else elim salt [
        | none ↦ (e, err state_error)
        | some s ↦ elim (derive_seal_key c pass s params) [
          | none ↦ (e, err admin_auth)
          | some (sk, pk) ↦
              let body = record (default_policy written_by) {
                nonce = 1;
                self_addresses = sorted_lower refresh_self;
              } in
              adopt
                (record {
                  verify_key = encode_key c pk;
                  verify_key_next = [];
                  salt = encode_salt c s;
                  scrypt = params;
                  nonce_watermark = 1;
                  staged_salt = [];
                })
                (seal_and_write io sk body e)
        ]
      ]
