-- ===== src/Amounts/Tests.antt =====
-- Tests of the parsers of amounts, and the instances at which their theorems apply.
use daxib.Prelude.{ℕ, ◌+◌, ◌≤◌, ◌≡◌, ◌↔◌, refl, arith, codes, true, false, Text}
use daxib.Prelude.Int.{pos, negsuc}
use daxib.Prelude.Outcome.{ok, err}
use daxib.Amounts.{
  AmountError, over_cap, sub_satoshi, parse_amount_to_sats, parse_btc_body, parse_parts,
  decimal_btc_to_sats, source_unit, AmountUnit, sat, sub_satoshi_digits, pad_frac,
}
use daxib.Amounts.Parse.{IsMoney, parse_amount_to_sats-IsMoney, decimal_btc_to_sats-parse_btc_body}

parses_sats : parse_amount_to_sats (codes " 150000Sats ") ≡ ok (pos 150000)
unfolding parse_amount_to_sats daxib.Amounts.trim_space daxib.Amounts.trim_left daxib.Amounts.starts
    daxib.Prelude.to_lower daxib.Amounts.has_suffix daxib.Prelude.text_eq
    daxib.Amounts.parse_sat_suffix daxib.Amounts.trim_char daxib.Amounts.add_digits
    daxib.Prelude.Int64.add64 daxib.Prelude.Int64.mul64
parses_sats = refl

parses_btc : parse_btc_body (codes "+0.0010000000") ≡ ok (pos 100000)
unfolding parse_btc_body daxib.Amounts.trim_char daxib.Amounts.trim_space daxib.Amounts.trim_left
    daxib.Prelude.text_eq parse_parts sub_satoshi_digits daxib.Amounts.cut_frac
    daxib.Amounts.add_digits daxib.Amounts.cut_whole daxib.Prelude.Int64.add64
    daxib.Prelude.Int64.mul64 pad_frac
parses_btc = refl

parses_negative : decimal_btc_to_sats (codes "-0.5") ≡ ok (negsuc 49999999)
unfolding decimal_btc_to_sats sub_satoshi_digits daxib.Amounts.cut_frac daxib.Amounts.starts
    daxib.Amounts.trim_space daxib.Amounts.trim_left daxib.Amounts.trim_char
    daxib.Amounts.wrap_digits daxib.Amounts.cut_whole pad_frac daxib.Prelude.Int64.sub64
    daxib.Prelude.Int64.add64 daxib.Prelude.Int64.mul64
parses_negative = refl

over_the_cap : parse_amount_to_sats (codes "21000000.00000001") ≡ err over_cap
unfolding parse_amount_to_sats daxib.Amounts.trim_space daxib.Amounts.trim_left daxib.Amounts.starts
    daxib.Prelude.to_lower daxib.Amounts.has_suffix daxib.Prelude.text_eq parse_btc_body
    daxib.Amounts.trim_char parse_parts sub_satoshi_digits daxib.Amounts.cut_frac
    daxib.Amounts.add_digits daxib.Amounts.cut_whole daxib.Prelude.Int64.add64
    daxib.Prelude.Int64.mul64 pad_frac
over_the_cap = refl

unit_of_sats : source_unit (codes "5 sat") ≡ sat
unfolding source_unit daxib.Amounts.has_suffix daxib.Amounts.trim_space daxib.Amounts.trim_left
    daxib.Prelude.text_eq daxib.Prelude.to_lower
unit_of_sats = refl

parse_amount_to_sats-IsMoney_example : IsMoney (pos 150000)
parse_amount_to_sats-IsMoney_example =
    parse_amount_to_sats-IsMoney (codes " 150000Sats ") (pos 150000) parses_sats

decimal_btc_to_sats-parse_btc_body_example :
    decimal_btc_to_sats (codes "+0.0010000000") ≡ ok (pos 100000)
decimal_btc_to_sats-parse_btc_body_example =
    decimal_btc_to_sats-parse_btc_body (codes "+0.0010000000") (pos 100000) parses_btc
