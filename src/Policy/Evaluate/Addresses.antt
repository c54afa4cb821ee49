-- ===== src/Policy/Evaluate/Addresses.antt =====
-- What the address tests of the evaluation decide: membership of the pins and of the sealed
-- self addresses, up to letter case.
use daxib.Prelude.{
  ◌≡◌, ◌≢◌, ◌↔◌, ◌⊎◌, Bool, true, List, [], ◌∷◌, map, arith, Text, codes, text_eq_iff, to_lower,
  equal_fold,
}
use daxib.Policy.Body.{Policy, PinEntry}
use daxib.Policy.Evaluate.{Check, match_pin_addr, any_fold, is_change, is_self, admitted}

-- Two addresses that differ at most in letter case.
abbrev pub SameAddress : Text → Text → Type 0
SameAddress a b = map to_lower a ≡ map to_lower b

-- Some address pin of the list is the given address.
abbrev pub Pinned : Text → List PinEntry → Type 0
Pinned a [] = ⊥
Pinned a (p ∷ ps) = ((p.source ≡ codes "address") × SameAddress p.address a) ⊎ Pinned a ps

abbrev pub Listed : Text → List Text → Type 0
Listed a [] = ⊥
Listed a (b ∷ bs) = SameAddress b a ⊎ Listed a bs

-- The recipient is the transaction's own change address.
abbrev pub IsChange : Check → Type 0
IsChange req = (req.change_addr ≢ []) × SameAddress req.change_addr req.recipient

-- The recipient passes the allowlist.
abbrev pub Admits : Policy → Check → Bool → Type 0
Admits p req include_self =
    Pinned req.recipient p.allowlist
    ⊎ (IsChange req ⊎ ((include_self ≡ true) × Listed req.recipient p.self_addresses))

pub equal_fold_iff : (a b : Text) → (equal_fold a b ≡ true) ↔ SameAddress a b
unfolding equal_fold
equal_fold_iff a b = text_eq_iff (map to_lower a) (map to_lower b)

pub match_pin_addr_iff :
    (a : Text) (ps : List PinEntry) → (match_pin_addr ps a ≡ true) ↔ Pinned a ps
unfolding match_pin_addr
match_pin_addr_iff a [] = ground arith
match_pin_addr_iff a (p ∷ ps) = ground (
  arith,
  text_eq_iff p.source (codes "address"),
  equal_fold_iff p.address a,
  match_pin_addr_iff a ps,
)

any_fold_iff : (a : Text) (bs : List Text) → (any_fold bs a ≡ true) ↔ Listed a bs
unfolding any_fold
any_fold_iff a [] = ground arith
any_fold_iff a (b ∷ bs) = ground (arith, equal_fold_iff b a, any_fold_iff a bs)

is_change_iff : (req : Check) → (is_change req ≡ true) ↔ IsChange req
unfolding is_change
is_change_iff req = ground (arith, equal_fold_iff req.change_addr req.recipient)

pub admitted_iff :
    (p : Policy) (req : Check) (b : Bool) → (admitted p req b ≡ true) ↔ Admits p req b
unfolding admitted is_self
admitted_iff p req b = ground (
  arith,
  match_pin_addr_iff req.recipient p.allowlist,
  is_change_iff req,
  any_fold_iff req.recipient p.self_addresses,
)
