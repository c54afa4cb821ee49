-- ===== src/Service/Restart/Reserved.antt =====
-- The inputs that a new send must not select (reservedOutpoints of internal/service/tx_send.go).
use mathlib.Core.List.{Memᴰ, Mem}
use mathlib.Core.Path.{subst}
use daxib.Prelude.{
  ◌||◌, if◌then◌else◌, ◌≡◌, inl, inr, ap, true, false, List, [], ◌∷◌, ◌++◌, map, some, Text, arith,
  text_eq, not,
}
use mathlib.Core.Logic.{∥∥₁_elim, ∥∥₁_map, ∥∥₁_prop}
use daxib.Prelude.Outcome
use daxib.Journal.{Record, JInput, is_terminal}
use daxib.Journal.Store.{Store, unresolved}
use daxib.Journal.Store
use daxib.Journal.Write.{view}
use daxib.Journal.Queries.{unresolved_complete}
use daxib.Service.World.{Service}
use daxib.Service.Restart.{outpoint, in_flight, reserved_outpoints}

append-left : {A : Type 0} {a : A} {xs : List A} (ys : List A) → Memᴰ a xs → Memᴰ a (xs ++ ys)
append-left ys (Memᴰ.head e) = Memᴰ.head e
append-left ys (Memᴰ.tail m) = Memᴰ.tail (append-left ys m)

append-right : {A : Type 0} {a : A} (xs : List A) {ys : List A} → Memᴰ a ys → Memᴰ a (xs ++ ys)
append-right [] m = m
append-right (x ∷ xs) m = Memᴰ.tail (append-right xs m)

outpoint-Mem : {i : JInput} {is : List JInput} → Memᴰ i is → Memᴰ (outpoint i) (map outpoint is)
outpoint-Mem (Memᴰ.head e) = Memᴰ.head (ap outpoint e)
outpoint-Mem (Memᴰ.tail m) = Memᴰ.tail (outpoint-Mem m)

in_flight-Mem :
    (wallet : Text) (rs : List Record) (r : Record) (i : JInput)
    → text_eq r.wallet wallet ≡ true
    → is_terminal r.status ≡ false
    → Memᴰ i r.inputs
    → Memᴰ r rs
    → Memᴰ (outpoint i) (in_flight wallet rs)
unfolding in_flight
in_flight-Mem wallet [] r i own live mi m = elim m [ ]
in_flight-Mem wallet (x ∷ rs) r i own live mi (Memᴰ.head e) =
    let own' : text_eq x.wallet wallet ≡ true = subst (λ y. text_eq y.wallet wallet ≡ true) e own in
    let live' : is_terminal x.status ≡ false = subst (λ y. is_terminal y.status ≡ false) e live in
    rw (own', live') (append-left _ (outpoint-Mem (subst (λ y. Memᴰ i y.inputs) e mi)))
in_flight-Mem wallet (x ∷ rs) r i own live mi (Memᴰ.tail m) =
    let rest = in_flight-Mem wallet rs r i own live mi m in
    elim (not (text_eq x.wallet wallet) || is_terminal x.status)
      as (λ b.
        Memᴰ (outpoint i)
          (if b then in_flight wallet rs else map outpoint x.inputs ++ in_flight wallet rs)) [
            | true ↦ rest
            | false ↦ append-right (map outpoint x.inputs) rest
          ]

reserved_outpoints-ok :
    (v : Service) (j : Store) (io : Store.Io) (rs : List Record)
    → unresolved j io v.net ≡ Outcome.ok rs
    → reserved_outpoints v j io ≡ in_flight v.wallet rs
unfolding reserved_outpoints
reserved_outpoints-ok v j io rs h = ground arith

-- Where the journal can be read, every input of a transaction of the wallet that is in flight, as the
-- latest record of its id, is among the outpoints that the selection of a new send leaves out.
pub reserved_outpoints-Mem :
    (v : Service) (j : Store) (io : Store.Io) (rs : List Record) (id : Text) (r : Record)
    (i : JInput)
    → unresolved j io v.net ≡ Outcome.ok rs
    → view j v.net id ≡ some r
    → text_eq r.wallet v.wallet ≡ true
    → is_terminal r.status ≡ false
    → Mem i r.inputs
    → Mem (outpoint i) (reserved_outpoints v j io)
reserved_outpoints-Mem v j io rs id r i h shown own live mi =
    rw (reserved_outpoints-ok v j io rs h)
      (elim (unresolved_complete j io v.net rs id r h shown).1 [
        | inl t ↦ absurd (ground arith)
        | inr m ↦
            ∥∥₁_elim m ∥∥₁_prop
              (λ mr. ∥∥₁_map mi (λ mi'. in_flight-Mem v.wallet rs r i own live mi' mr))
      ])
