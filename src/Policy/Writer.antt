-- ===== src/Policy/Writer.antt =====
-- The canonical writer of the policy body and of its envelope (internal/policy/body.go).
-- json.Marshal of a string and base64 are parameters. The slices sort stably here, which is what
-- sort.Slice does where no two keys are equal.
pub mod Canonical
pub mod Json
pub mod Meaning
use daxib.Prelude.{
  Bool, true, false, List, [], ◌∷◌, ◌++◌, map, if◌then◌else◌, Text, codes, text_eq, to_lower,
}
use daxib.Prelude.Int.{pos}
use daxib.Prelude.Decimal.{to_string}
use daxib.Prelude.Sort.{sort, text_lt}
use daxib.Policy.Body.{
  Policy, NetworkRule, PinEntry, Rules, Limit, absent, null, text, Flag, unset, flag,
}
use daxib.Policy.Body

-- sortedLower
unfoldable pub sorted_lower : List Text → List Text
sorted_lower ss = sort text_lt (map (map to_lower) ss)

abbrev pub network_lt : NetworkRule → NetworkRule → Bool
network_lt m n = text_lt m.network n.network

abbrev pub pin_lt : PinEntry → PinEntry → Bool
pin_lt p q =
    if text_eq p.source q.source then text_lt p.address q.address else text_lt p.source q.source

-- The values of a list, with commas between them.
unfoldable pub commas : List Text → Text
commas [] = []
commas (s ∷ []) = s
commas (s ∷ t ∷ ss) = s ++ b',' ∷ commas (t ∷ ss)

module _ (json_string : Text → Text) where
  -- rawField; strField, intField and uintField are this at their printed values.
  unfoldable pub field : Text → Text → Text
  field key raw = json_string key ++ b':' ∷ raw

  -- writeLimitField: no field, or one.
  unfoldable pub limit_field : Bool → Text → Limit → List Text
  limit_field per_network key absent = if per_network then [] else field key (codes "null") ∷ []
  limit_field per_network key null = field key (codes "null") ∷ []
  limit_field per_network key (text s) = field key (json_string s) ∷ []

  -- writeBoolField
  unfoldable pub bool_field : Bool → Text → Flag → List Text
  bool_field per_network key unset = if per_network then [] else field key (codes "false") ∷ []
  bool_field per_network key (flag b) = field key (if b then codes "true" else codes "false") ∷ []

  -- The fields that writeLimits and writeLimitsInline write.
  unfoldable pub limit_fields : Bool → Body.Limits → List Text
  limit_fields per_network l =
      limit_field per_network (codes "max_tx_sat") l.max_tx_sat
      ++ limit_field per_network (codes "max_day_sat") l.max_day_sat
      ++ limit_field per_network (codes "max_fee_rate_sat_vb") l.max_fee_rate
      ++ bool_field per_network (codes "allowlist_enabled") l.allowlist_on
      ++ bool_field per_network (codes "include_self") l.include_self

  -- writeLimits
  unfoldable pub write_limits : Body.Limits → Text
  write_limits l = codes "{" ++ commas (limit_fields false l) ++ codes "}"

  -- One rule of writeRules' loop, with the fields of writeLimitsInline.
  unfoldable pub write_network : NetworkRule → Text
  write_network n =
      codes "{"
      ++ commas ((codes "\"network\":" ++ json_string n.network) ∷ limit_fields true n.limits)
      ++ codes "}"

  -- writeRules
  unfoldable pub write_rules : Rules → Text
  write_rules r =
      codes "{\"default\":"
      ++ write_limits r.default
      ++ codes ",\"networks\":["
      ++ commas (map write_network (sort network_lt r.networks))
      ++ codes "]}"

  unfoldable pub write_pin : PinEntry → Text
  write_pin p =
      codes "{\"source\":"
      ++ json_string p.source
      ++ codes ",\"address\":"
      ++ json_string p.address
      ++ codes ",\"label\":"
      ++ json_string p.label
      ++ codes ",\"added_at\":"
      ++ json_string p.added_at
      ++ codes "}"

  -- writePins
  unfoldable pub write_pins : List PinEntry → Text
  write_pins pins = codes "[" ++ commas (map write_pin (sort pin_lt pins)) ++ codes "]"

  -- writeStrings
  unfoldable pub write_strings : List Text → Text
  write_strings ss = codes "[" ++ commas (map json_string ss) ++ codes "]"

  -- writeBody
  unfoldable pub write_body : Policy → Text
  write_body p =
      codes "{"
      ++ commas (
          field (codes "version") (to_string p.version)
          ∷ field (codes "nonce") (to_string (pos p.nonce))
          ∷ field (codes "updated_at") (json_string p.updated_at)
          ∷ field (codes "written_by") (json_string p.written_by)
          ∷ field (codes "rules") (write_rules p.rules)
          ∷ field (codes "allowlist") (write_pins p.allowlist)
          ∷ field (codes "denylist") (write_pins p.denylist)
          ∷ field (codes "self_addresses") (write_strings (sorted_lower p.self_addresses))
          ∷ [])
      ++ codes "}"

  -- marshalEnvelope
  unfoldable pub marshal_envelope : (Text → Text) → Text → Text → Text
  marshal_envelope base64_encode body sig =
      codes "{\"version\":1,\"body_b64\":"
      ++ json_string (base64_encode body)
      ++ codes ",\"seal\":{\"alg\":"
      ++ json_string (codes "scrypt/ed25519")
      ++ codes ",\"sig\":"
      ++ json_string (base64_encode sig)
      ++ codes "}}"
