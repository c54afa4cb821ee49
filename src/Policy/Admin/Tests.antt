-- ===== src/Policy/Admin/Tests.antt =====
-- Runs of the policy administration, and its theorems at those values.
use daxib.Prelude.{
  ◌&&◌, not, ◌≡◌, refl, true, false, [], none, some, codes, text_eq, equal_fold, to_lower,
  if◌then◌else◌,
}
use daxib.Prelude.Int.{pos}
use daxib.Prelude.Outcome
use daxib.Prelude.Sort.{sort, text_lt}
use daxib.Prelude.Decimal.{to_string, nat_to_string}
use daxib.Policy.Body.{null, text, NetworkRule}
use daxib.Policy.Evaluate.{Check, evaluate}
use daxib.Policy.Evaluate.InForce.{rule_of}
use daxib.Policy.Seal.{
  verify, verify_under_anchor, verify_key_next_bytes, decode_key, decode_envelope,
  decode_body_strict,
}
use daxib.Policy.Seal.TriState.{reconcile_tri_state}
use daxib.Policy.Seal.Keys.{derive_seal_key, valid, power_of_two, sign, decode_salt}
use daxib.Policy.Writer.{
  write_body, marshal_envelope, commas, field, write_rules, write_limits, limit_fields, limit_field,
  bool_field, sorted_lower, write_network, write_pin, write_pins, write_strings,
}
use daxib.Policy.Writer.Canonical.{canonical}
use daxib.Policy.Writer.Meaning.{canonical-evaluate}
use daxib.Policy.Engine.{err, load_active, load_sealed, admin_auth}
use daxib.Policy.Admin.{
  PinChange, changed, mutated, mutate, reset, authenticate, sealed_file, change_pins,
  upsert_network, upsert_networks, update_network, apply_default, set_limit, set_flag, next_nonce,
  seal_and_write, adopt,
}
use daxib.Policy.Admin.Mutate.{admin_failure}
use daxib.Policy.Admin.Networks.{merged, upsert_network-Sets}
use daxib.Policy.Rotation.{resealed}
use daxib.Policy.Admin.Pins.{change_pins-match_pin_addr}
use daxib.Policy.Evaluate.{match_pin_addr}
use daxib.Policy.Admin.Toy.{
  no_limits, rules, policy, crypto, json_string, codec, engine, io, new_body,
}

wrong_passphrase :
    authenticate (codec new_body) crypto json_string engine.anchor (codes "x") ≡ err admin_auth
unfolding mutate authenticate decode_salt derive_seal_key valid power_of_two decode_key load_active
    load_sealed decode_envelope verify_under_anchor verify verify_key_next_bytes adopt
    seal_and_write text_eq sealed_file marshal_envelope sign write_body commas field to_string
    nat_to_string mutated changed next_nonce write_rules write_limits limit_fields limit_field
    bool_field sort upsert_networks apply_default set_flag set_limit update_network upsert_network
    sorted_lower write_network write_pin write_pins write_strings text_lt equal_fold to_lower
    decode_body_strict canonical reconcile_tri_state resealed
wrong_passphrase = refl

admin_failure_example :
    reset (codec new_body) crypto json_string io (codes "x") [] [] engine ≡ (engine, err admin_auth)
admin_failure_example =
    ((admin_failure (codec new_body) crypto json_string io (codes "x") none [] [] (λ p. p) engine
        refl).0
      admin_auth wrong_passphrase).1

abbrev spend : Check
spend = record {
  network = codes "MAINNET";
  recipient = codes "BC1Q";
  amount_sat = pos 400;
  fee_sat = pos 50;
  fee_rate = pos 1;
  change_addr = [];
  prior_spent_sat = pos 0;
}

different_networks : equal_fold (codes "testnet") (codes "mainnet") ≡ false
unfolding equal_fold text_eq to_lower
different_networks = refl

canonical-evaluate_example :
    evaluate (canonical policy) spend (some (pos 0)) 0 ≡ evaluate policy spend (some (pos 0)) 0
canonical-evaluate_example =
    (canonical-evaluate json_string policy spend (some (pos 0)) 0
      ((different_networks, tt), (tt, tt))).1

abbrev main_change : NetworkRule
main_change = record { network = codes "Mainnet"; limits = record no_limits { max_day_sat = null } }

same_network : equal_fold (codes "Mainnet") (codes "mainnet") ≡ true
unfolding equal_fold text_eq to_lower
same_network = refl

upsert_network-Sets_example : rule_of (codes "mainnet") (upsert_network rules main_change) ≡ (
    if equal_fold (codes "Mainnet") (codes "mainnet")
    then some (merged (rule_of (codes "mainnet") rules) main_change.limits)
    else rule_of (codes "mainnet") rules)
upsert_network-Sets_example =
    (upsert_network-Sets main_change rules ((different_networks, tt), (tt, tt))).1 (codes "mainnet")

-- The change keeps the limit that it does not give.
main_changed :
    rule_of (codes "mainnet") (upsert_network rules main_change)
    ≡ some (record no_limits { max_tx_sat = text (codes "500"); max_day_sat = null })
unfolding equal_fold text_eq to_lower upsert_network update_network apply_default set_limit set_flag
main_changed = refl

abbrev unpin : PinChange
unpin = record {
  address = codes "BC1Z";
  label = [];
  remove = true;
  refresh_self = none;
  written_by = [];
}

change_pins-match_pin_addr_example :
    match_pin_addr (change_pins (codes "now") unpin policy.denylist) (codes "bc1z") ≡ (
      match_pin_addr policy.denylist (codes "bc1z")
      && not (equal_fold unpin.address (codes "bc1z")))
change_pins-match_pin_addr_example =
    change_pins-match_pin_addr policy.denylist unpin (codes "now") (codes "bc1z")
