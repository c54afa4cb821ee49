-- ===== src/Policy/Admin/Toy.antt =====
-- A policy, a toy signature scheme and a codec for the tests of the administration and the rotation.
use daxib.Prelude.{
  ℕ, ◌+◌, refl, true, [], ◌∷◌, ◌++◌, none, some, Text, codes, replicate, text_eq, if◌then◌else◌,
  List, take, drop, ◌==◌, ==_iff, length,
}
use daxib.Prelude.Int.{pos}
use daxib.Policy.Body.{Policy, Limit, absent, null, text, unset, flag, PinEntry, NetworkRule}
use daxib.Policy.Body
use daxib.Policy.Seal.{Codec}
use daxib.Policy.Seal.Keys.{Crypto}
use daxib.Policy.Seal.Signing.{Lawful}
use daxib.Policy.Writer.{write_body}
use daxib.Policy.Writer.Canonical.{canonical}
use daxib.Policy.Engine.{Engine, bytes, Stored}
use daxib.Policy.Admin.{Io, written, Change, changed, mutated}

abbrev pub no_limits : Body.Limits
no_limits = record {
  max_tx_sat = absent;
  max_day_sat = absent;
  max_fee_rate = absent;
  allowlist_on = unset;
  include_self = unset;
}

abbrev pub rules : List NetworkRule
rules =
    record { network = codes "testnet"; limits = no_limits }
    ∷ record {
      network = codes "mainnet";
      limits = record no_limits { max_tx_sat = text (codes "500") };
    }
    ∷ []

abbrev pub policy : Policy
policy = record {
  version = pos 1;
  nonce = 7;
  updated_at = [];
  written_by = [];
  rules = record {
    default = record no_limits { max_tx_sat = text (codes "100") };
    networks = rules;
  };
  allowlist = [];
  denylist =
      record { source = codes "address"; address = codes "bc1z"; label = []; added_at = [] }
      ∷ record { source = codes "address"; address = codes "bc1a"; label = []; added_at = [] }
      ∷ [];
  self_addresses = [];
}

-- The first code of a text stands for the key.
abbrev pub tag : Text → ℕ
tag [] = 0
tag (c ∷ s) = c

abbrev pub crypto : Crypto
crypto = record {
  scrypt = λ pass salt p. some pass;
  hkdf = λ master. some master;
  new_key = λ seed. (tag seed ∷ [], replicate 32 (tag seed));
  sign = λ sk m. replicate 64 (tag sk);
  base64_encode = λ s. s;
}

abbrev pub json_string : Text → Text
json_string s = b'"' ∷ s ++ b'"' ∷ []

-- Where the signature stands in an envelope of that body.
abbrev pub before_sig : Text → ℕ
before_sig body = length body + 65

-- A codec of the file "file", which carries the policy under the key "old", and of the files that
-- are written with one other body.
abbrev pub codec : Policy → Codec
codec r = record {
  json_envelope = λ raw.
      if text_eq raw (codes "file")
      then some
          (record { version = pos 1; body_b64 = codes "body"; alg = []; sig = replicate 64 b'o' })
      else some (record {
        version = pos 1;
        body_b64 = write_body json_string r;
        alg = codes "scrypt/ed25519";
        sig = take 64 (drop (before_sig (write_body json_string r)) raw);
      });
  base64 = λ s. some s;
  json_head = λ body. record { version = pos 1; written_by = [] };
  json_body = λ body. if text_eq body (codes "body") then some policy else some (canonical r);
  json_probe = λ body. none;
  ed25519 = λ key subject sig. tag key == tag sig;
}

abbrev pub engine : Engine
engine = record {
  anchor = record {
    verify_key = codes "ed25519:" ++ replicate 32 b'o';
    verify_key_next = [];
    salt = codes "salt";
    scrypt = record { n = pos 16; r = pos 8; p = pos 1 };
    nonce_watermark = 7;
    staged_salt = [];
  };
  anchor_found = true;
  policy_file = bytes (codes "file");
  disk = λ network. Stored.missing;
  active_nonce = 0;
}

abbrev pub io : Io
io = record { made_dir = true; write = written; now = codes "now" }

abbrev pub change : Change
change = record {
  default = none;
  networks =
      record { network = codes "Mainnet"; limits = record no_limits { max_day_sat = null } } ∷ [];
  refresh_self = some (codes "BC1Q" ∷ []);
  written_by = codes "2";
}

abbrev pub new_body : Policy
new_body =
    mutated engine.anchor change.refresh_self change.written_by io.now (changed change) policy

pub codec-Lawful : (r : Policy) → Lawful (codec r) crypto
codec-Lawful r = record {
  base64_back = λ s. refl;
  key_size = λ seed. refl;
  sig_size = λ sk m. refl;
  verifies_back = λ seed m. (==_iff (tag seed) (tag seed)).1 refl;
}
