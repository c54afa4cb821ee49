-- ===== src/Service/Artifact/Outpoints.antt =====
-- The outpoints of a transaction are those of its record in the journal (journalRecord and
-- splitOutpoint of internal/service/tx_result.go).
use mathlib.Core.Path.{subst}
use daxib.Prelude.{
  ℕ, ◌+◌, ◌-◌, ◌*◌, ◌≤◌, ◌<◌, ◌^◌, ◌≡◌, refl, sym, ◌%◌, ap, arith, List, [], ◌∷◌, ◌++◌, map, none,
  some, Text, if◌then◌else◌, true,
}
use daxib.Prelude.Int.{ℤ}
use daxib.Prelude.Decimal.{scan, is_digit, to_string, nat_to_string, scan-nat_to_string}
use daxib.Prelude.Subsets.{All}
use daxib.Coinselect.{Coin}
use daxib.Service.World.{Service}
use daxib.Service.Restart.{outpoint}
use daxib.Service.Artifact.{
  Artifact, outpoint_of, split_last, parse_from, parse_uint32, split_outpoint, journal_inputs,
  journal_record,
}

scan-digit :
    (c n m : ℕ) (s : Text)
    → scan (c ∷ s) n ≡ some m
    → (is_digit c ≡ true) × (scan s (n * 10 + (c - b'0')) ≡ some m)
unfolding scan
scan-digit c n m s h = (ground (arith, h), ground (arith, h))

split_last-digits : (s : Text) (n m : ℕ) → scan s n ≡ some m → split_last s ≡ none
unfolding split_last
split_last-digits [] n m h = refl
split_last-digits (c ∷ s) n m h =
    let (d, r) = scan-digit c n m s h in
    let ih = split_last-digits s (n * 10 + (c - b'0')) m r in
    rw (ih, split_last) (ground (arith, d))

split_last-outpoint : (t s : Text) → split_last s ≡ none → split_last (t ++ b':' ∷ s) ≡ some (t, s)
unfolding split_last
split_last-outpoint [] s h = rw (h, split_last) refl
split_last-outpoint (c ∷ t) s h = rw (split_last-outpoint t s h, split_last) refl

scan_grows : (s : Text) (n m : ℕ) → scan s n ≡ some m → n ≤ m
unfolding scan
scan_grows [] n m h = ground (arith, h)
scan_grows (c ∷ s) n m h =
    let (d, r) = scan-digit c n m s h in omega (arith, scan_grows s (n * 10 + (c - b'0')) m r)

parse_from-scan : (s : Text) (n m : ℕ) → scan s n ≡ some m → m < 2 ^ 32 → parse_from n s ≡ m
unfolding parse_from scan
parse_from-scan [] n m h lt = ground (arith, h)
parse_from-scan (c ∷ s) n m h lt =
    let (d, r) = scan-digit c n m s h in
    let k = n * 10 + (c - b'0') in
    let ih = parse_from-scan s k m r lt in
    let small = scan_grows s k m r in
    let e : k % 2 ^ 32 ≡ k = omega (arith, small, lt) in
    subst (λ x. (if is_digit c then parse_from x s else n) ≡ m) (sym e) (rw d ih)

-- An outpoint is split into the parts that it was put together from.
pub split_outpoint-outpoint_of :
    (txid : Text) (vout : ℕ) → vout < 2 ^ 32 → split_outpoint (outpoint_of txid vout) ≡ (txid, vout)
unfolding split_outpoint parse_uint32 to_string
split_outpoint-outpoint_of txid vout lt =
    let s = scan-nat_to_string vout in
    rw
      (split_last-outpoint txid (nat_to_string vout) (split_last-digits _ 0 vout s), split_outpoint)
      (ap (λ n. (txid, n)) (parse_from-scan _ 0 vout s lt))

-- The outpoint of the coin is that of a transaction and an index of 32 bits.
abbrev pub IsOutpoint : Text → Type 0
IsOutpoint op = (txid : Text) × (vout : ℕ) × (vout < 2 ^ 32) × (op ≡ outpoint_of txid vout)

pub outpoint-split_outpoint :
    (op : Text) → IsOutpoint op → outpoint_of (split_outpoint op).0 (split_outpoint op).1 ≡ op
outpoint-split_outpoint op (txid, vout, lt, e) =
    rw (e, split_outpoint-outpoint_of txid vout lt) refl

journal_inputs-outpoint :
    (in_addr : List (Text × Text)) (cs : List Coin)
    → All (λ c. IsOutpoint c.outpoint) cs
    → map outpoint (journal_inputs in_addr cs) ≡ map (λ c. c.outpoint) cs
unfolding journal_inputs
journal_inputs-outpoint in_addr [] h = refl
journal_inputs-outpoint in_addr (c ∷ cs) (h, hs) =
    rw (outpoint-split_outpoint c.outpoint h, journal_inputs-outpoint in_addr cs hs) refl

-- The inputs that the journal keeps for a transaction are the outpoints of its coins, where each of them
-- was put together from a transaction id and an index of 32 bits.
pub journal_record-outpoint :
    (v : Service) (hex : Text → Text) (source : Text) (art : Artifact) (fee_rate : ℤ)
    → All (λ c. IsOutpoint c.outpoint) art.inputs
    → map outpoint (journal_record v hex source art fee_rate).inputs
      ≡ map (λ c. c.outpoint) art.inputs
unfolding journal_record
journal_record-outpoint v hex source art fee_rate h =
    journal_inputs-outpoint art.in_addr art.inputs h
