-- ===== src/Service/Funding/Candidates.antt =====
-- The coins that buildUnsigned chooses from (internal/service/send.go).
use mathlib.Core.List.{Memᴰ}
use daxib.Prelude.{
  ◌≡◌, refl, true, false, List, [], ◌∷◌, some, Option-cases, Bool-cases, inl, inr, Text,
}
use daxib.Prelude.Int.{pos, ltb_ℤ}
use daxib.Prelude.Subsets.{All}
use daxib.Coinselect.{Coin}
use daxib.Service.Artifact.{Assignments, value_at}
use daxib.Service.Funding.{Utxo, utxo_outpoint, Coords, mem, candidates, coins_of}
use mathlib.Core.Path.{subst}
use daxib.Prelude.{arith, sym, ap, ◌∙◌, text_eq, text_eq_iff}
use daxib.Service.Funding.{utxo_by_outpoint}

-- The coin is a confirmed UTXO of the backend, on an address of the wallet, that is not consumed.
pub record Spendable (addrs : Assignments Coords) (consumed : List Text) (us : List Utxo) (c : Coin)
    : Type 0 where
  pub utxo : Utxo
  pub listed : Memᴰ utxo us
  pub confirmed : ltb_ℤ (pos 0) utxo.confirmations ≡ true
  pub owned : value_at addrs utxo.address ≡ some (record { branch = c.branch; index = c.index })
  pub free : mem consumed c.outpoint ≡ false
  pub outpoint_eq : c.outpoint ≡ utxo_outpoint utxo
  pub value_eq : c.value_sat ≡ utxo.value_sat

module _ (addrs : Assignments Coords) (consumed : List Text) where
  pub more :
      (u : Utxo) (us : List Utxo) (c : Coin)
      → Spendable addrs consumed us c
      → Spendable addrs consumed (u ∷ us) c
  more u us c s = record {
    utxo = s.utxo;
    listed = Memᴰ.tail s.listed;
    confirmed = s.confirmed;
    owned = s.owned;
    free = s.free;
    outpoint_eq = s.outpoint_eq;
    value_eq = s.value_eq;
  }

  more-All :
      (u : Utxo) (us : List Utxo) (cs : List Coin)
      → All (Spendable addrs consumed us) cs
      → All (Spendable addrs consumed (u ∷ us)) cs
  more-All u us [] a = tt
  more-All u us (c ∷ cs) (s, a) = (more u us c s, more-All u us cs a)

  abbrev pub coin_of : Utxo → Coords → Coin
  coin_of u c = record {
    outpoint = utxo_outpoint u;
    branch = c.branch;
    index = c.index;
    value_sat = u.value_sat;
  }

  candidates_cases :
      (P : List (Coin × Utxo) → Type 0) (u : Utxo) (us : List Utxo)
      → P (candidates addrs consumed us)
      → ((c : Coords)
          → ltb_ℤ (pos 0) u.confirmations ≡ true
          → value_at addrs u.address ≡ some c
          → mem consumed (utxo_outpoint u) ≡ false
          → P ((coin_of u c, u) ∷ candidates addrs consumed us))
      → P (candidates addrs consumed (u ∷ us))
  unfolding candidates
  candidates_cases P u us skip take = elim (Bool-cases (ltb_ℤ (pos 0) u.confirmations)) [
    | inr e ↦ rw (candidates, e) skip
    | inl e ↦ elim (Option-cases (value_at addrs u.address)) [
      | inl n ↦ rw (candidates, e, n) skip
      | inr (c, n) ↦ elim (Bool-cases (mem consumed (utxo_outpoint u))) [
        | inl m ↦ rw (candidates, e, n, m) skip
        | inr m ↦ rw (candidates, e, n, m) (take c e n m)
      ]
    ]
  ]

  pub candidates-Spendable :
      (us : List Utxo) → All (Spendable addrs consumed us) (coins_of (candidates addrs consumed us))
  unfolding candidates
  candidates-Spendable [] = tt
  candidates-Spendable (u ∷ us) =
      let rest = more-All u us _ (candidates-Spendable us) in
      candidates_cases (λ cs. All (Spendable addrs consumed (u ∷ us)) (coins_of cs)) u us rest
        (λ c e n m. (
          record {
            utxo = u;
            listed = Memᴰ.head refl;
            confirmed = e;
            owned = n;
            free = m;
            outpoint_eq = refl;
            value_eq = refl;
          },
          rest,
        ))

-- The pair has the outpoint of its output, of which `L` holds.
abbrev Keyed : (Utxo → Type 0) → Coin × Utxo → Type 0
Keyed L c = L c.1 × (c.0.outpoint ≡ utxo_outpoint c.1)

-- The outpoint of the coin is assigned an output, of which `L` holds, and that is its own.
abbrev pub Found : (Utxo → Type 0) → Assignments Utxo → Coin → Type 0
Found L utxos c =
    (u : Utxo) × (value_at utxos c.outpoint ≡ some u) × L u × (c.outpoint ≡ utxo_outpoint u)

candidates-Keyed :
    (L : Utxo → Type 0) (addrs : Assignments Coords) (consumed : List Text) (us : List Utxo)
    → All L us
    → All (Keyed L) (candidates addrs consumed us)
unfolding candidates
candidates-Keyed L addrs consumed [] h = tt
candidates-Keyed L addrs consumed (u ∷ us) (l, h) =
    let rest = candidates-Keyed L addrs consumed us h in
    candidates_cases addrs consumed (All (Keyed L)) u us rest (λ c e n m. ((l, refl), rest))

value_at-Keyed :
    (L : Utxo → Type 0) (cs : List (Coin × Utxo)) (op : Text) (u : Utxo)
    → All (Keyed L) cs
    → value_at (utxo_by_outpoint cs) op ≡ some u
    → L u × (op ≡ utxo_outpoint u)
unfolding value_at
value_at-Keyed L [] op u a h = cc
value_at-Keyed L ((c, v) ∷ cs) op u (k, a) h =
    elim (Option-cases (value_at (utxo_by_outpoint cs) op)) [
      | inr (b, e) ↦
          let same : b ≡ u = ground (arith, h, e) in value_at-Keyed L cs op u a (e ∙ ap some same)
      | inl e ↦ elim (Bool-cases (text_eq (utxo_outpoint v) op)) [
        | inl q ↦
            let same : v ≡ u = ground (arith, h, e, q) in
            subst (λ x. L x × (op ≡ utxo_outpoint x)) same
              (k.0, sym ((text_eq_iff (utxo_outpoint v) op).0 q))
        | inr q ↦ absurd (ground (arith, h, e, q))
      ]
    ]

Found-more :
    (L : Utxo → Type 0) (utxos : Assignments Utxo) (op : Text) (v : Utxo) (cs : List Coin)
    → All (Found L utxos) cs
    → All (Found L ((op, v) ∷ utxos)) cs
unfolding value_at
Found-more L utxos op v [] a = tt
Found-more L utxos op v (c ∷ cs) ((u, e, l, o), a) =
    ((u, ground (arith, e), l, o), Found-more L utxos op v cs a)

Keyed-Found :
    (L : Utxo → Type 0) (cs : List (Coin × Utxo))
    → All (Keyed L) cs
    → All (Found L (utxo_by_outpoint cs)) (coins_of cs)
unfolding value_at
Keyed-Found L [] a = tt
Keyed-Found L ((c, v) ∷ cs) (k, a) = (
  elim (Option-cases (value_at (utxo_by_outpoint cs) c.outpoint)) [
    | inr (b, e) ↦ let (l, o) = value_at-Keyed L cs c.outpoint b a e in (b, ground (arith, e), l, o)
    | inl e ↦
        let q = (text_eq_iff (utxo_outpoint v) c.outpoint).1 (sym k.1) in
        (v, ground (arith, e, q), k.0, k.1)
  ],
  Found-more L (utxo_by_outpoint cs) (utxo_outpoint v) v (coins_of cs) (Keyed-Found L cs a),
)

All-of : {A : Type 0} (P : A → Type 0) (xs : List A) → ((x : A) → Memᴰ x xs → P x) → All P xs
All-of P [] f = tt
All-of P (x ∷ xs) f = (f x (Memᴰ.head refl), All-of P xs (λ y m. f y (Memᴰ.tail m)))

-- The candidates have their outputs among those of the backend.
pub candidates-Found :
    (addrs : Assignments Coords) (consumed : List Text) (us : List Utxo)
    → let cands = candidates addrs consumed us in
      All (Found (λ u. Memᴰ u us) (utxo_by_outpoint cands)) (coins_of cands)
candidates-Found addrs consumed us =
    Keyed-Found (λ u. Memᴰ u us) (candidates addrs consumed us)
      (candidates-Keyed (λ u. Memᴰ u us) addrs consumed us (All-of (λ u. Memᴰ u us) us (λ u m. m)))
