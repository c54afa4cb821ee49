-- ===== src/Amounts.antt =====
-- Amounts as texts (internal/domain/amount.go, internal/backend/amount.go): the parser of `--amount`
-- and that of the node's JSON numbers. Texts are lists of ASCII codes.
mod Tests
pub mod Digits
pub mod Parse
use daxib.Prelude.{
  ℕ, suc, ◌+◌, ◌-◌, ◌*◌, ◌≤◌, ◌<◌, Bool, true, false, ◌&&◌, ◌||◌, not, List, [], ◌∷◌, ◌++◌, map,
  length, take, drop, replicate, ltb, leb, ◌==◌, if◌then◌else◌, Text, codes, text_eq, is_empty,
  to_lower,
}
use daxib.Prelude.Int.{ℤ, pos, ltb_ℤ}
use daxib.Prelude.Int64.{add64, sub64, mul64}
use daxib.Prelude.Outcome.{Outcome, ok, err, ◌>>=◌, ◌>>◌, require}

pub data AmountError : Type 0 where
  required negative no_number not_whole not_sats not_btc over_cap sub_satoshi : AmountError

-- maxMoneySat
abbrev pub max_money_sat : ℤ
max_money_sat = pos 2100000000000000

pub data AmountUnit : Type 0 where
  sat btc : AmountUnit

-- AmountUnit.Other
unfoldable pub other : AmountUnit → AmountUnit
other sat = btc
other btc = sat

abbrev is_space : ℕ → Bool
is_space c = (leb 9 c && leb c 13) || c == 32

unfoldable pub trim_left : Text → Text
trim_left [] = []
trim_left (c ∷ s) = let rest = trim_left s in if is_space c then rest else c ∷ s

abbrev reverse_onto : Text → Text → Text
reverse_onto [] acc = acc
reverse_onto (c ∷ s) acc = reverse_onto s (c ∷ acc)

-- strings.TrimSpace
unfoldable pub trim_space : Text → Text
trim_space s = reverse_onto (trim_left (reverse_onto (trim_left s) [])) []

-- strings.TrimPrefix of one character.
unfoldable pub trim_char : ℕ → Text → Text
trim_char d [] = []
trim_char d (c ∷ s) = if c == d then s else c ∷ s

unfoldable pub starts : ℕ → Text → Bool
starts d [] = false
starts d (c ∷ s) = c == d

-- strings.HasSuffix
unfoldable pub has_suffix : Text → Text → Bool
has_suffix s suffix =
    leb (length suffix) (length s) && text_eq (drop (length s - length suffix) s) suffix

abbrev pub without_last : ℕ → Text → Text
without_last n s = take (length s - n) s

-- strings.Cut at the first '.'.
unfoldable pub cut_whole : Text → Text
cut_whole [] = []
cut_whole (c ∷ s) = let rest = cut_whole s in if c == b'.' then [] else c ∷ rest

unfoldable pub cut_frac : Text → Text
cut_frac [] = []
cut_frac (c ∷ s) = let rest = cut_frac s in if c == b'.' then s else rest

abbrev pub is_digit : ℕ → Bool
is_digit c = not (ltb c b'0' || ltb b'9' c)

abbrev pub all_zero : Text → Bool
all_zero [] = true
all_zero (c ∷ s) = c == b'0' && all_zero s

abbrev pub contains_dot : Text → Bool
contains_dot [] = false
contains_dot (c ∷ s) = c == b'.' || contains_dot s

-- The digit loop of both parsers of domain/amount.go, with the error for what is no digit.
unfoldable pub add_digits : AmountError → ℤ → Text → Outcome AmountError ℤ
add_digits bad sats [] = ok sats
add_digits bad sats (c ∷ s) =
    let sats' = add64 (mul64 sats (pos 10)) (pos (c - b'0')) in
    let rest = add_digits bad sats' s in
    if not (is_digit c) then err bad else if ltb_ℤ max_money_sat sats' then err over_cap else rest

-- frac cut to eight digits and filled up with zeros.
unfoldable pub pad_frac : Text → Text
pad_frac frac =
    let frac' = if ltb 8 (length frac) then take 8 frac else frac in
    frac' ++ replicate (8 - length frac') b'0'

unfoldable pub sub_satoshi_digits : Text → Bool
sub_satoshi_digits frac = ltb 8 (length frac) && not (all_zero (drop 8 frac))

-- parseSatSuffix
unfoldable pub parse_sat_suffix : Text → Outcome AmountError ℤ
parse_sat_suffix body =
    let body' = trim_char b'+' (trim_space body) in
    if is_empty body'
    then err no_number
    else if contains_dot body'
    then err not_whole
    else add_digits not_sats (pos 0) body'

-- parseBTCBody, on the two parts.
unfoldable pub parse_parts : Text → Text → Outcome AmountError ℤ
parse_parts whole frac =
    if sub_satoshi_digits frac
    then err sub_satoshi
    else add_digits not_btc (pos 0) whole >>= λ sats. add_digits not_btc sats (pad_frac frac)

unfoldable pub parse_btc_body : Text → Outcome AmountError ℤ
parse_btc_body body =
    let body' = trim_char b'+' (trim_space body) in
    if is_empty body' || text_eq body' (codes ".")
    then err not_btc
    else parse_parts (cut_whole body') (cut_frac body')

-- ParseAmountToSats
unfoldable pub parse_amount_to_sats : Text → Outcome AmountError ℤ
parse_amount_to_sats s =
    let raw = trim_space s in
    let lower = map to_lower raw in
    if is_empty raw
    then err required
    else if starts b'-' lower
    then err negative
    else if has_suffix lower (codes "sats")
    then parse_sat_suffix (without_last 4 lower)
    else if has_suffix lower (codes "sat")
    then parse_sat_suffix (without_last 3 lower)
    else if has_suffix lower (codes "btc")
    then parse_btc_body (without_last 3 lower)
    else parse_btc_body lower

-- SourceUnit
unfoldable pub source_unit : Text → AmountUnit
source_unit s =
    let lower = map to_lower (trim_space s) in
    if has_suffix lower (codes "sats") || has_suffix lower (codes "sat") then sat else btc

-- The digit loop of decimalBTCToSats: no cap, and sums that wrap around.
unfoldable pub wrap_digits : ℤ → Text → Outcome AmountError ℤ
wrap_digits sats [] = ok sats
wrap_digits sats (c ∷ s) =
    let rest = wrap_digits (add64 (mul64 sats (pos 10)) (pos (c - b'0'))) s in
    if not (is_digit c) then err sub_satoshi else rest

-- decimalBTCToSats
unfoldable pub decimal_btc_to_sats : Text → Outcome AmountError ℤ
decimal_btc_to_sats s =
    let s1 = trim_space s in
    let neg = starts b'-' s1 in
    let s2 = if neg then trim_char b'-' s1 else trim_char b'+' s1 in
    let frac = cut_frac s2 in
    if sub_satoshi_digits frac then err sub_satoshi else do
      whole_sats ← wrap_digits (pos 0) (cut_whole s2)
      sats ← wrap_digits whole_sats (pad_frac frac)
      ok (if neg then sub64 (pos 0) sats else sats)
