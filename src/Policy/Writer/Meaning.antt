-- ===== src/Policy/Writer/Meaning.antt =====
-- Writing a policy canonically does not change what it decides (writeBody of internal/policy/body.go
-- against Evaluate of internal/policy/evaluate.go).
use daxib.Prelude.{
  ◌≡◌, refl, ◌∙◌, sym, true, false, List, [], ◌∷◌, map, Option, Text, arith, to_lower, equal_fold,
  ℕ,
}
use daxib.Prelude.Int.{ℤ}
use daxib.Prelude.Sort.{sort, text_lt, insert}
use daxib.Policy.Body.{Policy, NetworkRule, PinEntry, parse_sat, bool_or}
use daxib.Policy.Body
use daxib.Policy.Evaluate.{Check, evaluate, match_pin_addr, any_fold, admitted, is_self}
use daxib.Policy.Evaluate.Addresses.{equal_fold_iff}
use daxib.Policy.Evaluate.Limits.{ResolvedLimits, default_limits, apply_networks, resolve_limits}
use daxib.Policy.Writer.{network_lt, pin_lt, sorted_lower}
use daxib.Policy.Writer.Canonical.{canonical, default_block}
use daxib.Policy.Writer.Json.{policy_json, write_body-policy_json}
use daxib.Policy.Writer.{write_body}

default_block-default_limits :
    (l : Body.Limits) → default_limits (default_block l) ≡ default_limits l
unfolding default_limits parse_sat bool_or
default_block-default_limits l = ground arith

-- No other rule of the list has the rule's name, up to letter case.
abbrev pub Fresh : NetworkRule → List NetworkRule → Type 0
Fresh n [] = Unit
Fresh n (m ∷ ms) = (equal_fold n.network m.network ≡ false) × Fresh n ms

-- The networks of a policy have different names, up to letter case.
abbrev pub DistinctNetworks : List NetworkRule → Type 0
DistinctNetworks [] = Unit
DistinctNetworks (n ∷ ns) = Fresh n ns × DistinctNetworks ns

pub equal_fold_both :
    (a b c : Text) → equal_fold a c ≡ true → equal_fold b c ≡ true → equal_fold a b ≡ true
equal_fold_both a b c h h' =
    (equal_fold_iff a b).1 ((equal_fold_iff a c).0 h ∙ sym ((equal_fold_iff b c).0 h'))

pub equal_fold_swap : (a b : Text) → equal_fold a b ≡ equal_fold b a
equal_fold_swap a b = ground (arith, equal_fold_iff a b, equal_fold_iff b a)

insert-apply_networks :
    (r : ResolvedLimits) (n : NetworkRule) (ns : List NetworkRule) (network : Text)
    → Fresh n ns
    → apply_networks r (insert network_lt n ns) network ≡ apply_networks r (n ∷ ns) network
unfolding apply_networks
insert-apply_networks r n [] network h = refl
insert-apply_networks r n (m ∷ ns) network h =
    ground
      (arith, insert-apply_networks r n ns network h.1, equal_fold_both n.network m.network network)

pub insert-Fresh :
    (n m : NetworkRule) (ns : List NetworkRule)
    → equal_fold n.network m.network ≡ false
    → Fresh n ns
    → Fresh n (insert network_lt m ns)
insert-Fresh n m [] e h = (e, tt)
insert-Fresh n m (x ∷ ns) e h = ground (arith, insert-Fresh n m ns e h.1)

pub sort-Fresh :
    (n : NetworkRule) (ns : List NetworkRule) → Fresh n ns → Fresh n (sort network_lt ns)
unfolding sort
sort-Fresh n [] h = tt
sort-Fresh n (m ∷ ns) h = insert-Fresh n m (sort network_lt ns) h.0 (sort-Fresh n ns h.1)

sort-apply_networks :
    (r : ResolvedLimits) (ns : List NetworkRule) (network : Text)
    → DistinctNetworks ns
    → apply_networks r (sort network_lt ns) network ≡ apply_networks r ns network
unfolding apply_networks sort
sort-apply_networks r [] network h = refl
sort-apply_networks r (n ∷ ns) network h = ground (
  arith,
  insert-apply_networks r n (sort network_lt ns) network (sort-Fresh n ns h.0),
  sort-apply_networks r ns network h.1,
)

insert-match_pin_addr :
    (p : PinEntry) (ps : List PinEntry) (dest : Text)
    → match_pin_addr (insert pin_lt p ps) dest ≡ match_pin_addr (p ∷ ps) dest
unfolding match_pin_addr
insert-match_pin_addr p [] dest = refl
insert-match_pin_addr p (q ∷ ps) dest = ground (arith, insert-match_pin_addr p ps dest)

sort-match_pin_addr :
    (ps : List PinEntry) (dest : Text)
    → match_pin_addr (sort pin_lt ps) dest ≡ match_pin_addr ps dest
unfolding match_pin_addr sort
sort-match_pin_addr [] dest = refl
sort-match_pin_addr (p ∷ ps) dest =
    ground (arith, insert-match_pin_addr p (sort pin_lt ps) dest, sort-match_pin_addr ps dest)

insert-any_fold :
    (s : Text) (ss : List Text) (dest : Text)
    → any_fold (insert text_lt s ss) dest ≡ any_fold (s ∷ ss) dest
unfolding any_fold
insert-any_fold s [] dest = refl
insert-any_fold s (t ∷ ss) dest = ground (arith, insert-any_fold s ss dest)

to_lower_idem : (c : ℕ) → to_lower (to_lower c) ≡ to_lower c
unfolding to_lower
to_lower_idem c = ground arith

map-to_lower : (s : Text) → map to_lower (map to_lower s) ≡ map to_lower s
map-to_lower [] = refl
map-to_lower (c ∷ s) = rw (to_lower_idem c, map-to_lower s) refl

equal_fold-lower : (s dest : Text) → equal_fold (map to_lower s) dest ≡ equal_fold s dest
unfolding equal_fold
equal_fold-lower s dest = rw (map-to_lower s) refl

sorted_lower-any_fold :
    (ss : List Text) (dest : Text) → any_fold (sorted_lower ss) dest ≡ any_fold ss dest
unfolding any_fold sorted_lower sort
sorted_lower-any_fold [] dest = refl
sorted_lower-any_fold (s ∷ ss) dest = ground (
  arith,
  insert-any_fold (map to_lower s) (sorted_lower ss) dest,
  equal_fold-lower s dest,
  sorted_lower-any_fold ss dest,
)

-- The body that is written for a policy is the JSON of the fields of its canonical form; and where the
-- networks of the policy have different names, up to letter case, that form decides every spend as the
-- policy does: with the same answer, code, details and time to retry.
pub canonical-evaluate :
    (json_string : Text → Text) (p : Policy) (req : Check) (spent : Option ℤ) (now : ℕ)
    → DistinctNetworks p.rules.networks
    → (write_body json_string p ≡ policy_json json_string (canonical p))
      × (evaluate (canonical p) req spent now ≡ evaluate p req spent now)
unfolding evaluate canonical resolve_limits admitted is_self
canonical-evaluate json_string p req spent now h = (
  write_body-policy_json json_string p,
  rw
      (
        default_block-default_limits p.rules.default,
        sort-apply_networks (default_limits p.rules.default) p.rules.networks req.network h,
        sort-match_pin_addr p.denylist req.recipient,
        sort-match_pin_addr p.allowlist req.recipient,
        sorted_lower-any_fold p.self_addresses req.recipient,
      )
      refl,
)
