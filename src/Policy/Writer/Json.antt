-- ===== src/Policy/Writer/Json.antt =====
-- What the canonical writer writes (writeBody and marshalEnvelope of internal/policy/body.go) as the JSON
-- of the fields, by the tags of the structs.
use mathlib.Core.List.{append_assoc}
use daxib.Prelude.{◌≡◌, refl, List, [], ◌∷◌, ◌++◌, map, Text, codes, true, false, if◌then◌else◌}
use daxib.Prelude.Int.{pos}
use daxib.Prelude.Decimal.{to_string}
use daxib.Prelude.Sort.{sort}
use daxib.Policy.Body.{
  Policy, NetworkRule, PinEntry, Rules, Limit, absent, null, text, Flag, unset, flag,
}
use daxib.Policy.Body
use daxib.Policy.Writer.{
  commas, field, limit_field, bool_field, limit_fields, write_limits, write_network, write_rules,
  write_pin, write_pins, write_strings, write_body, marshal_envelope, network_lt, pin_lt,
}
use daxib.Policy.Writer.Canonical.{canonical, default_block, no_limit, off}

abbrev object : List Text → Text
object members = b'{' ∷ commas members ++ codes "}"

abbrev array : List Text → Text
array values = b'[' ∷ commas values ++ codes "]"

-- A member whose key needs no escape.
abbrev plain : Text → Text → Text
plain key value = b'"' ∷ key ++ codes "\":" ++ value

module _ (json_string : Text → Text) where
  abbrev member : Text → Text → Text
  member key value = json_string key ++ b':' ∷ value

  abbrev limit_member : Text → Limit → List Text
  limit_member key absent = []
  limit_member key null = member key (codes "null") ∷ []
  limit_member key (text s) = member key (json_string s) ∷ []

  abbrev flag_member : Text → Flag → List Text
  flag_member key unset = []
  flag_member key (flag b) = member key (if b then codes "true" else codes "false") ∷ []

  abbrev limit_members : Body.Limits → List Text
  limit_members l =
      limit_member (codes "max_tx_sat") l.max_tx_sat
      ++ limit_member (codes "max_day_sat") l.max_day_sat
      ++ limit_member (codes "max_fee_rate_sat_vb") l.max_fee_rate
      ++ flag_member (codes "allowlist_enabled") l.allowlist_on
      ++ flag_member (codes "include_self") l.include_self

  abbrev network_json : NetworkRule → Text
  network_json n = object (plain (codes "network") (json_string n.network) ∷ limit_members n.limits)

  abbrev rules_json : Rules → Text
  rules_json r = object (
      plain (codes "default") (object (limit_members r.default))
      ∷ plain (codes "networks") (array (map network_json r.networks))
      ∷ [])

  abbrev pin_json : PinEntry → Text
  pin_json p = object (
      plain (codes "source") (json_string p.source)
      ∷ plain (codes "address") (json_string p.address)
      ∷ plain (codes "label") (json_string p.label)
      ∷ plain (codes "added_at") (json_string p.added_at)
      ∷ [])

  -- The JSON of the fields of a policy, in the order of their lists.
  unfoldable pub policy_json : Policy → Text
  policy_json p = object (
      member (codes "version") (to_string p.version)
      ∷ member (codes "nonce") (to_string (pos p.nonce))
      ∷ member (codes "updated_at") (json_string p.updated_at)
      ∷ member (codes "written_by") (json_string p.written_by)
      ∷ member (codes "rules") (rules_json p.rules)
      ∷ member (codes "allowlist") (array (map pin_json p.allowlist))
      ∷ member (codes "denylist") (array (map pin_json p.denylist))
      ∷ member (codes "self_addresses") (array (map json_string p.self_addresses))
      ∷ [])

  limit_field-default :
      (key : Text) (l : Limit) → limit_field json_string false key l ≡ limit_member key (no_limit l)
  unfolding limit_field field
  limit_field-default key absent = refl
  limit_field-default key null = refl
  limit_field-default key (text s) = refl

  limit_field-network :
      (key : Text) (l : Limit) → limit_field json_string true key l ≡ limit_member key l
  unfolding limit_field field
  limit_field-network key absent = refl
  limit_field-network key null = refl
  limit_field-network key (text s) = refl

  bool_field-default :
      (key : Text) (b : Flag) → bool_field json_string false key b ≡ flag_member key (off b)
  unfolding bool_field field
  bool_field-default key unset = refl
  bool_field-default key (flag b) = refl

  bool_field-network :
      (key : Text) (b : Flag) → bool_field json_string true key b ≡ flag_member key b
  unfolding bool_field field
  bool_field-network key unset = refl
  bool_field-network key (flag b) = refl

  write_limits-default :
      (l : Body.Limits) → write_limits json_string l ≡ object (limit_members (default_block l))
  unfolding write_limits limit_fields
  write_limits-default l =
      rw
        (
          limit_field-default (codes "max_tx_sat") l.max_tx_sat,
          limit_field-default (codes "max_day_sat") l.max_day_sat,
          limit_field-default (codes "max_fee_rate_sat_vb") l.max_fee_rate,
          bool_field-default (codes "allowlist_enabled") l.allowlist_on,
          bool_field-default (codes "include_self") l.include_self,
        )
        refl

  write_network-json : (n : NetworkRule) → write_network json_string n ≡ network_json n
  unfolding write_network limit_fields
  write_network-json n =
      let l = n.limits in
      rw
        (
          limit_field-network (codes "max_tx_sat") l.max_tx_sat,
          limit_field-network (codes "max_day_sat") l.max_day_sat,
          limit_field-network (codes "max_fee_rate_sat_vb") l.max_fee_rate,
          bool_field-network (codes "allowlist_enabled") l.allowlist_on,
          bool_field-network (codes "include_self") l.include_self,
        )
        refl

  write_pin-json : (p : PinEntry) → write_pin json_string p ≡ pin_json p
  unfolding write_pin commas
  write_pin-json p = simp (append_assoc)

  map-eq : {A : Type 0} (f g : A → Text) (xs : List A) → ((x : A) → f x ≡ g x) → map f xs ≡ map g xs
  map-eq f g [] h = refl
  map-eq f g (x ∷ xs) h = rw (h x, map-eq f g xs h) refl

  write_rules-json :
      (r : Rules)
      → write_rules json_string r
        ≡ rules_json
            (record { default = default_block r.default; networks = sort network_lt r.networks })
  unfolding write_rules commas
  write_rules-json r =
      rw
        (
          write_limits-default r.default,
          map-eq (write_network json_string) network_json (sort network_lt r.networks)
              write_network-json,
        )
        (simp (append_assoc))

  write_pins-json :
      (ps : List PinEntry) → write_pins json_string ps ≡ array (map pin_json (sort pin_lt ps))
  unfolding write_pins
  write_pins-json ps =
      rw (map-eq (write_pin json_string) pin_json (sort pin_lt ps) write_pin-json) refl

  -- The written body is the JSON of the policy in canonical form.
  pub write_body-policy_json : (p : Policy) → write_body json_string p ≡ policy_json (canonical p)
  unfolding write_body policy_json canonical write_strings field
  write_body-policy_json p =
      rw (write_rules-json p.rules, write_pins-json p.allowlist, write_pins-json p.denylist) refl

  -- The JSON of an envelope.
  unfoldable pub envelope_json : (body_b64 sig : Text) → Text
  envelope_json body_b64 sig = object (
      plain (codes "version") (codes "1")
      ∷ plain (codes "body_b64") (json_string body_b64)
      ∷ plain (codes "seal") (
          object (
            plain (codes "alg") (json_string (codes "scrypt/ed25519"))
            ∷ plain (codes "sig") (json_string sig)
            ∷ []))
      ∷ [])

  pub marshal_envelope-json :
      (base64_encode : Text → Text) (body sig : Text)
      → marshal_envelope json_string base64_encode body sig
        ≡ envelope_json (base64_encode body) (base64_encode sig)
  unfolding marshal_envelope envelope_json commas
  marshal_envelope-json base64_encode body sig = simp (append_assoc)
