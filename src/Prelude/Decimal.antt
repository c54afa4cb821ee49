-- ===== src/Prelude/Decimal.antt =====
-- Decimal texts of integers, as math/big reads them (SetString in base 10: an optional sign and one
-- or more digits) and writes them (String).
use daxib.Prelude.{
  ℕ, zero, suc, ◌+◌, ◌-◌, ◌*◌, ◌/◌, ◌%◌, ◌<◌, ◌≡◌, refl, Bool, ◌&&◌, [], ◌∷◌, Option, none, some,
  arith, leb, ◌==◌, if◌then◌else◌, Text, codes,
}
use daxib.Prelude.Int.{ℤ, pos, negsuc}

abbrev pub is_digit : ℕ → Bool
is_digit c = leb b'0' c && leb c b'9'

-- Digits read behind the number `n`.
unfoldable pub scan : Text → ℕ → Option ℕ
scan [] n = some n
scan (c ∷ s) n = let rest = scan s (n * 10 + (c - b'0')) in if is_digit c then rest else none

unfoldable pub scan_some : Text → Option ℕ
unfolding scan
scan_some [] = none
scan_some (c ∷ s) = scan (c ∷ s) 0

abbrev negate : ℕ → ℤ
negate zero = pos 0
negate (suc n) = negsuc n

abbrev signed : (ℕ → ℤ) → Option ℕ → Option ℤ
signed f none = none
signed f (some n) = some (f n)

-- new(big.Int).SetString(s, 10)
unfoldable pub set_string : Text → Option ℤ
unfolding scan_some
set_string [] = none
set_string (c ∷ s) =
    if c == b'-'
    then signed negate (scan_some s)
    else if c == b'+'
    then signed pos (scan_some s)
    else signed pos (scan_some (c ∷ s))

unfoldable pub digits : ℕ → ℕ → Text → Text
digits zero n out = out
digits (suc f) n out =
    let rest = digits f (n / 10) ((b'0' + n % 10) ∷ out) in if n == 0 then out else rest

unfoldable pub nat_to_string : ℕ → Text
unfolding digits
nat_to_string n = if n == 0 then b'0' ∷ [] else digits n n []

-- (*big.Int).String
unfoldable pub to_string : ℤ → Text
unfolding nat_to_string
to_string (pos n) = nat_to_string n
to_string (negsuc n) = b'-' ∷ nat_to_string (suc n)

-- The text starts with a digit.
abbrev StartsWithDigit : Text → Type 0
StartsWithDigit [] = ⊥
StartsWithDigit (c ∷ s) = is_digit c ≡ Bool.true

scan-digits : (f n : ℕ) (out : Text) → n < suc f → scan (digits f n out) 0 ≡ scan out n
unfolding scan digits
scan-digits zero n out h = ground arith
scan-digits (suc f) n out h = ground (arith, scan-digits f (n / 10) ((b'0' + n % 10) ∷ out))

digits-StartsWithDigit :
    (f n : ℕ) (out : Text) → StartsWithDigit out → StartsWithDigit (digits f n out)
unfolding digits
digits-StartsWithDigit zero n out h = h
digits-StartsWithDigit (suc f) n out h =
    ground (arith, digits-StartsWithDigit f (n / 10) ((b'0' + n % 10) ∷ out))

nat_to_string-StartsWithDigit : (n : ℕ) → StartsWithDigit (nat_to_string n)
unfolding nat_to_string
nat_to_string-StartsWithDigit zero = ground arith
nat_to_string-StartsWithDigit (suc n) =
    ground (arith, digits-StartsWithDigit n (suc n / 10) ((b'0' + suc n % 10) ∷ []))

pub scan-nat_to_string : (n : ℕ) → scan (nat_to_string n) 0 ≡ some n
unfolding nat_to_string scan
scan-nat_to_string zero = refl
scan-nat_to_string (suc n) = ground (arith, scan-digits (suc n) (suc n) [])

scan_some_lem : (s : Text) → StartsWithDigit s → scan_some s ≡ scan s 0
unfolding scan_some
scan_some_lem [] h = absurd h
scan_some_lem (c ∷ s) h = refl

set_string_unsigned : (s : Text) → StartsWithDigit s → set_string s ≡ signed pos (scan s 0)
unfolding set_string
set_string_unsigned [] h = absurd h
set_string_unsigned (c ∷ s) h = ground (arith, scan_some_lem (c ∷ s) h)

-- What `String` writes, `SetString` reads back.
pub set_string-to_string : (a : ℤ) → set_string (to_string a) ≡ some a
unfolding to_string
set_string-to_string (pos n) = ground (
  arith,
  set_string_unsigned (nat_to_string n) (nat_to_string-StartsWithDigit n),
  scan-nat_to_string n,
)
set_string-to_string (negsuc n) =
    unfold set_string in
    ground (
      arith,
      scan_some_lem (nat_to_string (suc n)) (nat_to_string-StartsWithDigit (suc n)),
      scan-nat_to_string (suc n),
    )

reads : set_string (codes "-021000") ≡ some (negsuc 20_999)
unfolding set_string
reads = refl

writes : to_string (pos 1_230) ≡ codes "1230"
unfolding to_string
writes = refl
