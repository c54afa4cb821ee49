-- ===== src/Domain/Names.antt =====
-- The names of the exit codes (ExitCode.String of exitcode.go), with its printer of integers: a loop
-- that fills a buffer of 20 bytes from the end. Where the loop would write before the start of the
-- buffer the program panics, and the model gives none.
use daxib.Prelude.{
  ℕ, zero, suc, ◌+◌, ◌/◌, ◌%◌, ◌^◌, ◌<◌, ◌≡◌, refl, ap, ◌∙◌, arith, List, [], ◌∷◌, ◌++◌, Option,
  none, some, get_elem?, ◌==◌, if◌then◌else◌, Text, codes,
}
use daxib.Prelude.Int.{ℤ, pos, negsuc}
use daxib.Prelude.Int64.{Fits}
use daxib.Prelude.Decimal.{digits, nat_to_string, to_string, set_string, set_string-to_string}
use daxib.Domain.Registry.{ExitCode}

-- The loop of itoa: the bytes left before the text, and the text.
unfoldable pub fill : ℕ → ℕ → Text → Option (ℕ × Text)
fill zero u out = if u == 0 then some (zero, out) else none
fill (suc i) u out =
    let rest = fill i (u / 10) ((b'0' + u % 10) ∷ out) in if u == 0 then some (suc i, out) else rest

abbrev text_of : Option (ℕ × Text) → Option Text
text_of none = none
text_of (some (i, out)) = some out

-- The sign, where a byte is left for it.
abbrev with_sign : Option (ℕ × Text) → Option Text
with_sign none = none
with_sign (some (zero, out)) = none
with_sign (some (suc i, out)) = some (b'-' ∷ out)

-- itoa
unfoldable pub itoa : ℤ → Option Text
itoa (pos n) =
    let rest = text_of (fill 20 (n % 2 ^ 64) []) in if n == 0 then some (codes "0") else rest
itoa (negsuc n) = with_sign (fill 20 (suc n % 2 ^ 64) [])

abbrev names : List Text
names =
    codes "OK"
    ∷ codes "INTERNAL"
    ∷ codes "USAGE"
    ∷ codes "POLICY_DENIED"
    ∷ codes "AUTH"
    ∷ codes "INSUFFICIENT_FUNDS"
    ∷ codes "NETWORK"
    ∷ codes "FEE_POLICY_DENIED"
    ∷ codes "TIMEOUT_PENDING"
    ∷ codes "TX_CONFLICT"
    ∷ codes "NOT_FOUND"
    ∷ codes "STATE"
    ∷ codes "INTEGRITY"
    ∷ []

abbrev out_of_range : Option Text → Option Text
out_of_range none = none
out_of_range (some t) = some (codes "EXIT(" ++ t ++ codes ")")

-- ExitCode.String
unfoldable pub name : ExitCode → Option Text
name (pos n) = elim (get_elem? names n) [ some t ↦ some t | none ↦ out_of_range (itoa (pos n)) ]
name (negsuc n) = out_of_range (itoa (negsuc n))

fill-digits_zero : (i f : ℕ) (out : Text) → fill i 0 out ≡ some (i, digits f 0 out)
unfolding fill digits
fill-digits_zero zero zero out = refl
fill-digits_zero zero (suc f) out = refl
fill-digits_zero (suc i) zero out = refl
fill-digits_zero (suc i) (suc f) out = refl

-- With a byte more than the digits the loop writes the digits, and leaves a byte.
fill-digits :
    (i f u : ℕ) (out : Text)
    → u < 10 ^ i
    → u < suc f
    → (j : ℕ) × (fill (suc i) u out ≡ some (suc j, digits f u out))
unfolding fill digits
fill-digits i f zero out lt enough = (i, fill-digits_zero (suc i) f out)
fill-digits zero f (suc u) out lt enough = absurd (omega (arith, lt))
fill-digits (suc i) zero (suc u) out lt enough = absurd (omega (arith, enough))
fill-digits (suc i) (suc f) (suc u) out lt enough =
    let (j, e) =
      fill-digits i f (suc u / 10) ((b'0' + suc u % 10) ∷ out) (omega (arith, lt))
        (omega (arith, enough)) in
    (j, ground (arith, e))

-- A positive number up to 2 ^ 63 leaves the byte of a sign.
fill_uint :
    (n : ℕ)
    → n < 2 ^ 63
    → (j : ℕ) × (fill 20 (suc n % 2 ^ 64) [] ≡ some (suc j, nat_to_string (suc n)))
unfolding nat_to_string
fill_uint n lt =
    let e : suc n % 2 ^ 64 ≡ suc n = omega (arith, lt) in
    let (j, d) = fill-digits 19 (suc n) (suc n) [] (omega (arith, lt)) (omega arith) in
    (j, ap (λ u. fill 20 u []) e ∙ d ∙ ground arith)

-- On an int64 the printer stays in its buffer, and math/big reads the number back from its text.
pub itoa-set_string : (a : ℤ) → Fits a → (t : Text) × (itoa a ≡ some t) × (set_string t ≡ some a)
unfolding itoa to_string
itoa-set_string (pos zero) h = (codes "0", refl, set_string-to_string (pos 0))
itoa-set_string (pos (suc n)) h =
    let (j, e) = fill_uint n (ground (arith, h)) in
    (nat_to_string (suc n), ground (arith, ap text_of e), set_string-to_string (pos (suc n)))
itoa-set_string (negsuc n) h =
    let (j, e) = fill_uint n (ground (arith, h)) in
    (b'-' ∷ nat_to_string (suc n), ap with_sign e, set_string-to_string (negsuc n))
