-- ===== src/Service/Restart/Orphans.antt =====
-- Which orphaned reservations a start of the program frees (reconcilePolicyOrphans of
-- internal/service/policy.go).
use mathlib.Core.List.Permᴰ
use mathlib.Core.Path.{subst}
use daxib.Prelude.{
  ◌≡◌, ◌≢◌, ◌⊎◌, inl, inr, refl, sym, ap, true, false, Bool, List, [], ◌∷◌, Option, none, some,
  Text, arith, text_eq, Option-cases, Bool-cases, ltb,
}
use daxib.Prelude.Outcome.{Outcome, Outcome-cases}
use daxib.Prelude.Sort.{sort-Perm}
use daxib.Prelude.Subsets.{All, All-Perm}
use daxib.Journal.{Record, Status, signed, failed, lookup, fold_latest, sort_by_seq_desc}
use daxib.Journal.Store.{Store, list_records, read, read_all, select_records, JournalError}
use daxib.Journal.Store
use daxib.Journal.Write.{records, view}
use daxib.Policy.Engine.Orphans.{OrphanReservation, commit_orphan}
use daxib.Service.World.{World}
use daxib.Service.Restart.{OrphanIo, with_reservation, journal_by_reservation, reconcile_orphan}

select_records-all :
    (keep : Record → Bool) (rs : List Record)
    → ((r : Record) → keep r ≡ true)
    → select_records keep rs ≡ rs
unfolding select_records
select_records-all keep [] h = refl
select_records-all keep (r ∷ rs) h = rw (h r) (ap (λ l. r ∷ l) (select_records-all keep rs h))

list_records-ok :
    (s : Store) (io : Store.Io) (net : Text) (rs : List Record)
    → list_records s io net [] ≡ Outcome.ok rs
    → rs ≡ sort_by_seq_desc (fold_latest (records s net))
unfolding list_records read read_all
list_records-ok s io net rs h =
    let e = select_records-all (λ r. true) (fold_latest (records s net)) (λ r. refl) in ground arith

-- What holds of all latest records holds of all that List returns, and of the one of an id.
list_records-All :
    (P : Record → Type 0) (s : Store) (io : Store.Io) (net : Text) (rs : List Record)
    → list_records s io net [] ≡ Outcome.ok rs
    → (All P (fold_latest (records s net)) → All P rs)
      × (All P rs → All P (fold_latest (records s net)))
unfolding sort_by_seq_desc
list_records-All P s io net rs h =
    let perm = sort-Perm (λ a b. ltb b.seq a.seq) (fold_latest (records s net)) in
    let e = list_records-ok s io net rs h in
    (
      λ a. subst (All P) (sym e) (All-Perm P (Permᴰ.symm perm) a),
      λ a. All-Perm P perm (subst (All P) e a),
    )

lookup-All :
    (P : Record → Type 0) (id : Text) (rs : List Record) (r : Record)
    → All P rs
    → lookup id rs ≡ some r
    → P r
unfolding lookup
lookup-All P id [] r a h = cc
lookup-All P id (x ∷ rs) r a h = elim (Bool-cases (text_eq id x.id)) [
  | inl e ↦ let q : x ≡ r = ground arith in subst P q a.0
  | inr e ↦ lookup-All P id rs r a.1 (ground arith)
]

-- What the loop of journalByReservation finds.
with_reservation-none :
    (id : Text) (rs : List Record)
    → with_reservation id rs ≡ none
    → All (λ r. text_eq r.reservation_id id ≡ false) rs
unfolding with_reservation
with_reservation-none id [] h = tt
with_reservation-none id (r ∷ rs) h = elim (Bool-cases (text_eq r.reservation_id id)) [
  | inl e ↦ absurd (ground arith)
  | inr e ↦ (e, with_reservation-none id rs (ground arith))
]

with_reservation-some :
    (P : Record → Type 0) (id : Text) (rs : List Record) (r : Record)
    → All P rs
    → with_reservation id rs ≡ some r
    → P r × (text_eq r.reservation_id id ≡ true)
unfolding with_reservation
with_reservation-some P id [] r a h = cc
with_reservation-some P id (x ∷ rs) r a h = elim (Bool-cases (text_eq x.reservation_id id)) [
  | inl e ↦ let q : x ≡ r = ground arith in (subst P q a.0, ground arith)
  | inr e ↦ with_reservation-some P id rs r a.1 (ground arith)
]

-- The reservation has records in the journal, all of one status.
pub record Belongs (w : World) (o : OrphanReservation) (st : Status) : Type 0 where
  pub id : Text
  pub rec : Record
  pub shown : view w.journal o.network id ≡ some rec
  pub linked : text_eq rec.reservation_id o.id ≡ true
  pub all :
      All
        (λ r. text_eq r.reservation_id o.id ≡ true → r.status ≡ st)
        (fold_latest (records w.journal o.network))

-- Where the journal can be read, its record of the reservation is found, with that status.
Belongs-found :
    (w : World) (o : OrphanReservation) (st : Status) (io : Store.Io) (m : Option Record)
    → Belongs w o st
    → journal_by_reservation w.journal io o.network o.id ≡ Outcome.ok m
    → (r : Record) × (m ≡ some r) × (r.status ≡ st)
unfolding journal_by_reservation
Belongs-found w o st io m b h = elim (Outcome-cases (list_records w.journal io o.network [])) [
  | inl (x, e) ↦ absurd (ground arith)
  | inr (rs, e) ↦ elim (Option-cases (with_reservation o.id rs)) [
    | inl n ↦
        let f =
          lookup-All (λ x. text_eq x.reservation_id o.id ≡ false) b.id
            (fold_latest (records w.journal o.network)) b.rec
            ((list_records-All (λ x. text_eq x.reservation_id o.id ≡ false) w.journal io o.network
                rs e).1
              (with_reservation-none o.id rs n))
            b.shown in
        let l = b.linked in absurd (ground arith)
    | inr (r, q) ↦
        let (p, l) =
          with_reservation-some (λ x. text_eq x.reservation_id o.id ≡ true → x.status ≡ st) o.id rs
            r
            ((list_records-All (λ x. text_eq x.reservation_id o.id ≡ true → x.status ≡ st) w.journal
                io o.network rs e).0
              b.all)
            q in
        (r, ground arith, p l)
  ]
]

-- An orphaned reservation whose records are signed is left alone, one whose records were broadcast,
-- confirmed or replaced is at most committed, whatever can be read and written; it is released only if
-- its records have failed, or there are none.
pub reconcile_orphan-Belongs :
    (w : World) (o : OrphanReservation) (io : OrphanIo) (st : Status)
    → Belongs w o st
    → let w' = reconcile_orphan w o io in
      (w'.journal ≡ w.journal)
      × (st ≡ signed → w' ≡ w)
      × (st ≢ failed
          → (w' ≡ w)
            ⊎ ((txid : Text) × (w' ≡ record w {
              engine = (commit_orphan w.engine o.network o.id txid io.now io.settle).0;
            })))
unfolding reconcile_orphan
reconcile_orphan-Belongs w o io st b =
    elim (Outcome-cases (journal_by_reservation w.journal io.read o.network o.id)) [
      | inl (x, e) ↦ (ground arith, λ s. ground arith, λ s. inl (ground arith))
      | inr (m, e) ↦
          let (r, q, p) = Belongs-found w o st io.read m b e in
          let w' = reconcile_orphan w o io in
          let d : st ≢ failed
              → (w' ≡ w)
                ⊎ (w' ≡ record w {
                  engine = (commit_orphan w.engine o.network o.id r.txid io.now io.settle).0;
                }) =
            λ s. ground arith in
          (
            ground arith,
            λ s. ground arith,
            λ s. elim (d s) [ inl x ↦ inl x | inr x ↦ inr (r.txid, x) ],
          )
    ]
