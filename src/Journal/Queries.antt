-- ===== src/Journal/Queries.antt =====
-- The work list of a restart (Unresolved of internal/journal/store.go).
use mathlib.Core.List.{Mem, Memᴰ}
use mathlib.Core.List.Permᴰ
use mathlib.Core.Path.{subst}
use daxib.Prelude.{
  ◌≡◌, refl, sym, arith, Bool, true, false, Bool-cases, ◌⊎◌, inl, inr, not, List, [], ◌∷◌, some,
  ltb, if◌then◌else◌, Text, text_eq,
}
use daxib.Prelude.Outcome.{ok}
use daxib.Prelude.Sort.{sort-Perm}
use daxib.Prelude.Subsets.{All, All-Perm}
use daxib.Journal.{Record, is_terminal, lookup, fold_latest, sort_by_seq_desc}
use daxib.Journal.Store.{Store, Io, read, read_all, select_records, unresolved}
use daxib.Journal.Write.{records, view}

select_records-All :
    (keep : Record → Bool) (rs : List Record) → All (λ r. keep r ≡ true) (select_records keep rs)
unfolding select_records
select_records-All keep [] = tt
select_records-All keep (r ∷ rs) = elim (Bool-cases (keep r)) [
  | inl e ↦
      subst
        (λ b.
          All (λ x. keep x ≡ true)
            (if b then r ∷ select_records keep rs else select_records keep rs))
        (sym e) (e, select_records-All keep rs)
  | inr e ↦ rw (e) (select_records-All keep rs)
]

select_records-Mem :
    (keep : Record → Bool) (rs : List Record) (r : Record)
    → keep r ≡ true
    → Memᴰ r rs
    → Memᴰ r (select_records keep rs)
unfolding select_records
select_records-Mem keep [] r k m = elim m [ ]
select_records-Mem keep (x ∷ rs) r k (Memᴰ.head e) =
    rw (subst (λ y. keep y ≡ true) e k) (Memᴰ.head e)
select_records-Mem keep (x ∷ rs) r k (Memᴰ.tail m) =
    elim (keep x)
      as (λ b. Memᴰ r (if b then x ∷ select_records keep rs else select_records keep rs)) [
        | true ↦ Memᴰ.tail (select_records-Mem keep rs r k m)
        | false ↦ select_records-Mem keep rs r k m
      ]

lookup-Mem : (id : Text) (rs : List Record) (r : Record) → lookup id rs ≡ some r → Memᴰ r rs
unfolding lookup
lookup-Mem id [] r h = cc
lookup-Mem id (x ∷ rs) r h = elim (Bool-cases (text_eq id x.id)) [
  | inl e ↦ Memᴰ.head (let e' = e in ground (arith, h))
  | inr e ↦ Memᴰ.tail (lookup-Mem id rs r (ground (arith, h, e)))
]

unresolved-ok :
    (s : Store) (io : Io) (net : Text) (rs : List Record)
    → unresolved s io net ≡ ok rs
    → rs
      ≡ sort_by_seq_desc
          (select_records (λ r. not (is_terminal r.status)) (fold_latest (records s net)))
unfolding unresolved read read_all
unresolved-ok s io net rs h = ground arith

-- Where Unresolved succeeds, every record it lists has no terminal status, and it lists the latest
-- record of an id whenever that has none.
pub unresolved_complete :
    (s : Store) (io : Io) (net : Text) (rs : List Record) (id : Text) (r : Record)
    → unresolved s io net ≡ ok rs
    → view s net id ≡ some r
    → All (λ x. not (is_terminal x.status) ≡ true) rs × ((is_terminal r.status ≡ true) ⊎ Mem r rs)
unfolding sort_by_seq_desc
unresolved_complete s io net rs id r h v =
    let keep : Record → Bool = λ x. not (is_terminal x.status) in
    let latest = fold_latest (records s net) in
    let perm =
      Permᴰ.symm
        (sort-Perm (λ a b. ltb b.seq a.seq) (select_records keep (fold_latest (records s net)))) in
    subst
      (λ l.
        All (λ x. not (is_terminal x.status) ≡ true) l × ((is_terminal r.status ≡ true) ⊎ Mem r l))
      (sym (unresolved-ok s io net rs h))
      (
        All-Perm (λ x. not (is_terminal x.status) ≡ true) perm (select_records-All keep latest),
        elim (Bool-cases (is_terminal r.status)) [
          | inl t ↦ inl t
          | inr f ↦ inr (
              Permᴰ.mem perm
                ∣ select_records-Mem keep latest r (rw (f) refl) (lookup-Mem id latest r v) ∣₁)
        ],
      )
