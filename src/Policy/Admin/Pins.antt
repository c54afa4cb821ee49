-- ===== src/Policy/Admin/Pins.antt =====
-- The lists of pinned addresses under allow and deny (upsertPin and removePin of
-- internal/policy/admin.go).
use daxib.Prelude.{
  if◌then◌else◌, sym, ◌∙◌, ◌≡◌, ◌||◌, ◌&&◌, not, List, [], ◌∷◌, Text, arith, codes, true,
  text_eq_iff, equal_fold, map, to_lower, text_eq_refl,
}
use daxib.Policy.Body.{PinEntry}
use daxib.Policy.Evaluate.{match_pin_addr}
use daxib.Policy.Evaluate.Addresses.{equal_fold_iff}
use daxib.Policy.Admin.{PinChange, change_pins, upsert_pin, remove_pin}

-- Two addresses that the same address equals up to letter case match the same pins.
equal_fold_trans : (p a b : Text) → equal_fold p a ≡ true → equal_fold p b ≡ equal_fold a b
unfolding equal_fold
equal_fold_trans p a b h = rw ((text_eq_iff (map to_lower p) (map to_lower a)).0 h)

equal_fold_join :
    (p a b : Text) → equal_fold p b ≡ true → equal_fold a b ≡ true → equal_fold p a ≡ true
equal_fold_join p a b h h' =
    (equal_fold_iff p a).1 ((equal_fold_iff p b).0 h ∙ sym ((equal_fold_iff a b).0 h'))

-- After an upsert a list matches the address, and what it matched before; nothing else.
upsert_pin-match_pin_addr :
    (ps : List PinEntry) (addr label now b : Text)
    → match_pin_addr (upsert_pin ps addr label now) b ≡ match_pin_addr ps b || equal_fold addr b
unfolding match_pin_addr upsert_pin
upsert_pin-match_pin_addr [] addr label now b = ground (arith, text_eq_refl (codes "address"))
upsert_pin-match_pin_addr (p ∷ ps) addr label now b =
    ground (arith, upsert_pin-match_pin_addr ps addr label now b, equal_fold_trans p.address addr b)

-- After a removal a list matches what it matched before, less the address.
remove_pin-match_pin_addr :
    (ps : List PinEntry) (addr b : Text)
    → match_pin_addr (remove_pin ps addr) b ≡ match_pin_addr ps b && not (equal_fold addr b)
unfolding match_pin_addr remove_pin
remove_pin-match_pin_addr [] addr b = ground arith
remove_pin-match_pin_addr (p ∷ ps) addr b = ground (
  arith,
  remove_pin-match_pin_addr ps addr b,
  equal_fold_trans p.address addr b,
  equal_fold_join p.address addr b,
)

-- After an upsert of an address the list matches that address too, after its removal not any more, up to
-- letter case; for every other address it matches what it did.
pub change_pins-match_pin_addr :
    (pins : List PinEntry) (entry : PinChange) (now b : Text)
    → match_pin_addr (change_pins now entry pins) b ≡ (
        if entry.remove
        then match_pin_addr pins b && not (equal_fold entry.address b)
        else match_pin_addr pins b || equal_fold entry.address b)
unfolding change_pins
change_pins-match_pin_addr pins entry now b = ground (
  arith,
  upsert_pin-match_pin_addr pins entry.address entry.label now b,
  remove_pin-match_pin_addr pins entry.address b,
)
