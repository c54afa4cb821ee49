-- ===== src/Policy/Rotation/Tests.antt =====
-- Runs of the rotation of the admin passphrase, and its theorems at those values.
use daxib.Prelude.{
  sym, ℕ, ◌≡◌, ◌⊎◌, refl, ◌++◌, some, arith, Text, codes, replicate, text_eq, equal_fold, to_lower,
  if◌then◌else◌, Option,
}
use daxib.Prelude.Outcome
use daxib.Prelude.Sort.{sort, text_lt}
use daxib.Prelude.Decimal.{to_string, nat_to_string}
use daxib.Policy.Body.{Policy}
use daxib.Policy.Seal.{
  Anchor, verify, verify_under_anchor, verify_key_next_bytes, decode_key, decode_envelope,
  decode_body_strict,
}
use daxib.Policy.Seal.TriState.{reconcile_tri_state}
use daxib.Policy.Seal.Keys.{
  derive_seal_key, valid, power_of_two, sign, decode_salt, encode_salt, encode_key,
  staged_salt_bytes, stage_rotation, commit_rotation,
}
use daxib.Policy.Writer.{
  write_body, marshal_envelope, commas, field, write_rules, write_limits, limit_fields, limit_field,
  bool_field, sorted_lower, write_network, write_pin, write_pins, write_strings,
}
use daxib.Policy.Writer.Canonical.{canonical}
use daxib.Policy.Writer.Json.{policy_json}
use daxib.Policy.Engine.{Engine, ok, load_active, load_sealed}
use daxib.Policy.Admin.{
  changed, mutated, mutate, authenticate, sealed_file, upsert_network, upsert_networks,
  update_network, apply_default, set_limit, set_flag, next_nonce, seal_and_write, adopt,
}
use daxib.Policy.Admin.Sealing.{ReadsBack}
use daxib.Policy.Rotation.{
  Host, Script, landed_ok, read_only, policy_change_admin_passphrase, recover_policy_rotation,
  recover_admin_rotation, reopened, resealed, write_anchor, promote_and_land,
  promote_admin_rotation, reseal_and_promote, reseal_under_staged_rotation, record_nonce,
  stage_and_reseal, stage_admin_rotation, read_sealed_body,
}
use mathlib.Core.Path.{subst}
use daxib.Policy.Rotation.Load.{Converged, ReadsNonce, recover-Converged}
use daxib.Policy.Rotation.Survive.{change-loads}
use daxib.Policy.Admin.Toy.{policy, crypto, json_string, codec, engine, io, codec-Lawful}

abbrev script : Script
script = record {
  recovered = landed_ok;
  salt = some (codes "fresh");
  staged = landed_ok;
  io = io;
  promoted = read_only;
}

abbrev host : Host
host = record { landed = engine.anchor; engine = engine }

abbrev new_seal : Policy
new_seal = record policy { nonce = 8; updated_at = codes "now" }

abbrev json_nonce : Text → ℕ
json_nonce body = if text_eq body (codes "body") then 7 else 8

json_nonce-ReadsNonce : ReadsNonce (codec new_seal) json_nonce engine.policy_file
unfolding text_eq sealed_file marshal_envelope sign write_body commas field to_string nat_to_string
    mutated changed next_nonce write_rules write_limits limit_fields limit_field bool_field sort
    upsert_networks apply_default set_flag set_limit update_network upsert_network sorted_lower
    write_network write_pin write_pins write_strings text_lt equal_fold to_lower decode_body_strict
    canonical reconcile_tri_state resealed daxib.Policy.Writer.Json.policy_json decode_envelope
json_nonce-ReadsNonce raw envelope body p f d h = ground (arith, h)

seal-nonce : json_nonce (policy_json json_string (canonical new_seal)) ≡ 8
unfolding text_eq sealed_file marshal_envelope sign write_body commas field to_string nat_to_string
    mutated changed next_nonce write_rules write_limits limit_fields limit_field bool_field sort
    upsert_networks apply_default set_flag set_limit update_network upsert_network sorted_lower
    write_network write_pin write_pins write_strings text_lt equal_fold to_lower decode_body_strict
    canonical reconcile_tri_state resealed daxib.Policy.Writer.Json.policy_json
seal-nonce = refl

recovered_host :
    (recover_policy_rotation (codec new_seal) crypto json_string json_nonce script.recovered host).0
    ≡ host
unfolding mutate authenticate decode_salt derive_seal_key valid power_of_two decode_key load_active
    load_sealed decode_envelope verify_under_anchor verify verify_key_next_bytes adopt
    seal_and_write text_eq sealed_file marshal_envelope sign write_body commas field to_string
    nat_to_string mutated changed next_nonce write_rules write_limits limit_fields limit_field
    bool_field sort upsert_networks apply_default set_flag set_limit update_network upsert_network
    sorted_lower write_network write_pin write_pins write_strings text_lt equal_fold to_lower
    decode_body_strict canonical reconcile_tri_state resealed policy_change_admin_passphrase
    recover_policy_rotation recover_admin_rotation write_anchor promote_and_land
    promote_admin_rotation reseal_and_promote reseal_under_staged_rotation record_nonce
    stage_and_reseal stage_admin_rotation read_sealed_body reopened commit_rotation stage_rotation
    staged_salt_bytes encode_salt encode_key
recovered_host = refl

seal-ReadsBack : ReadsBack (codec new_seal) crypto json_string new_seal
unfolding text_eq sealed_file marshal_envelope sign write_body commas field to_string nat_to_string
    mutated changed next_nonce write_rules write_limits limit_fields limit_field bool_field sort
    upsert_networks apply_default set_flag set_limit update_network upsert_network sorted_lower
    write_network write_pin write_pins write_strings text_lt equal_fold to_lower decode_body_strict
    canonical reconcile_tri_state resealed daxib.Policy.Writer.Json.policy_json
    daxib.Policy.Writer.Json.envelope_json
seal-ReadsBack = record { envelope = λ sk. refl; body = refl }

seal_loads : load_active (codec new_seal) engine ≡ Outcome.ok (some policy)
unfolding mutate authenticate decode_salt derive_seal_key valid power_of_two decode_key load_active
    load_sealed decode_envelope verify_under_anchor verify verify_key_next_bytes adopt
    seal_and_write text_eq sealed_file marshal_envelope sign write_body commas field to_string
    nat_to_string mutated changed next_nonce write_rules write_limits limit_fields limit_field
    bool_field sort upsert_networks apply_default set_flag set_limit update_network upsert_network
    sorted_lower write_network write_pin write_pins write_strings text_lt equal_fold to_lower
    decode_body_strict canonical reconcile_tri_state resealed
seal_loads = refl

script-ReadsBack : ReadsBack (codec new_seal) crypto json_string (
    resealed
      (recover_policy_rotation
        (codec new_seal)
        crypto
        json_string
        json_nonce
        script.recovered
        host).0.engine.anchor
      script.io.now
      policy)
unfolding resealed next_nonce
script-ReadsBack =
    subst
      (λ h.
        ReadsBack (codec new_seal) crypto json_string
          (resealed h.engine.anchor script.io.now policy))
      (sym recovered_host) seal-ReadsBack

script-nonce :
    let r =
      resealed
        (recover_policy_rotation
          (codec new_seal)
          crypto
          json_string
          json_nonce
          script.recovered
          host).0.engine.anchor
        script.io.now
        policy in
    json_nonce (policy_json json_string (canonical r)) ≡ r.nonce
unfolding resealed next_nonce
script-nonce =
    subst
      (λ h.
        let r = resealed h.engine.anchor script.io.now policy in
        json_nonce (policy_json json_string (canonical r)) ≡ r.nonce)
      (sym recovered_host) seal-nonce

-- The final anchor could not be landed; the staged one still loads the resealed policy.
rotation_runs :
    load_active (codec new_seal) (
      reopened
        (policy_change_admin_passphrase
          (codec new_seal)
          crypto
          json_string
          json_nonce
          script
          (codes "old")
          (codes "new")
          host).0)
    ≡ Outcome.ok (some (canonical new_seal))
unfolding mutate authenticate decode_salt derive_seal_key valid power_of_two decode_key load_active
    load_sealed decode_envelope verify_under_anchor verify verify_key_next_bytes adopt
    seal_and_write text_eq sealed_file marshal_envelope sign write_body commas field to_string
    nat_to_string mutated changed next_nonce write_rules write_limits limit_fields limit_field
    bool_field sort upsert_networks apply_default set_flag set_limit update_network upsert_network
    sorted_lower write_network write_pin write_pins write_strings text_lt equal_fold to_lower
    decode_body_strict canonical reconcile_tri_state resealed policy_change_admin_passphrase
    recover_policy_rotation recover_admin_rotation write_anchor promote_and_land
    promote_admin_rotation reseal_and_promote reseal_under_staged_rotation record_nonce
    stage_and_reseal stage_admin_rotation read_sealed_body reopened commit_rotation stage_rotation
    staged_salt_bytes encode_salt encode_key
rotation_runs = refl

change-loads_example :
    (load_active (codec new_seal) (
        reopened
          (policy_change_admin_passphrase
            (codec new_seal)
            crypto
            json_string
            json_nonce
            script
            (codes "old")
            (codes "new")
            host).0)
      ≡ Outcome.ok (some policy))
    ⊎ (load_active (codec new_seal) (
          reopened
            (policy_change_admin_passphrase
              (codec new_seal)
              crypto
              json_string
              json_nonce
              script
              (codes "old")
              (codes "new")
              host).0)
        ≡ Outcome.ok (
            some (
              canonical (
                resealed
                  (recover_policy_rotation
                    (codec new_seal)
                    crypto
                    json_string
                    json_nonce
                    script.recovered
                    host).0.engine.anchor
                  script.io.now
                  policy))))
change-loads_example =
    change-loads (codec new_seal) crypto json_string json_nonce (codec-Lawful new_seal) script
      (codes "old") (codes "new") host policy refl json_nonce-ReadsNonce seal_loads (omega arith)
      script-ReadsBack script-nonce

-- A rotation that was staged, and not resealed.
abbrev staged_engine : Engine
staged_engine = record engine {
  anchor = record engine.anchor {
    verify_key_next = codes "ed25519:" ++ replicate 32 b'n';
    staged_salt = codes "fresh";
  };
}

staged_loads : load_active (codec new_seal) staged_engine ≡ Outcome.ok (some policy)
unfolding mutate authenticate decode_salt derive_seal_key valid power_of_two decode_key load_active
    load_sealed decode_envelope verify_under_anchor verify verify_key_next_bytes adopt
    seal_and_write text_eq sealed_file marshal_envelope sign write_body commas field to_string
    nat_to_string mutated changed next_nonce write_rules write_limits limit_fields limit_field
    bool_field sort upsert_networks apply_default set_flag set_limit update_network upsert_network
    sorted_lower write_network write_pin write_pins write_strings text_lt equal_fold to_lower
    decode_body_strict canonical reconcile_tri_state resealed
staged_loads = refl

recover-Converged_example :
    (e' : Engine) × (a : Option Anchor) × (recover_admin_rotation
        (codec new_seal)
        crypto
        json_string
        json_nonce
        staged_engine
      ≡ (e', ok a))
    × Converged (codec new_seal) policy staged_engine e' a
recover-Converged_example =
    recover-Converged (codec new_seal) crypto json_string json_nonce staged_engine policy
      json_nonce-ReadsNonce staged_loads
