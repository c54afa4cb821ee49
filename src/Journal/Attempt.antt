-- ===== src/Journal/Attempt.antt =====
-- A SetState that may fail anywhere (internal/journal/store.go): a failing lock, repair, write, sync or
-- compaction.
use mathlib.Core.Path.{subst}
use daxib.Prelude.{
  ◌≡◌, ◌⊎◌, inl, inr, refl, sym, ap, ◌∙◌, arith, true, false, List, [], ◌∷◌, ◌++◌, Option-cases,
  some, if◌then◌else◌, Text, text_eq, text_eq_iff,
}
use daxib.Prelude.Outcome.{ok, Outcome-cases}
use daxib.Journal.{apply_to, Record, StateMutation, data_of, lookup, fold_latest}
use daxib.Journal.Store.{
  Store, Io, put, contents, appended_to, append_line, snapshot, compact, maybe_compact,
  write_record, repair, set_state,
}
use daxib.Journal.Fold.{winner, lookup-snapshot}
use daxib.Journal.Write.{records, view, lookup-snoc, disk-put, records-appended, repair-ok}
use daxib.Journal.Transition.{moved}

-- The stores that a write can leave.
write_record-any :
    (Q : Store → Type 0) (s : Store) (io : Io) (net : Text) (recs : List Record) (r : Record)
    → let written = put s net (data_of (appended_to (contents (s.disk net)) r)) in
      Q s
      → Q (put s net (data_of (record (contents (s.disk net)) { torn = true })))
      → Q written
      → Q (
          put written net
            (data_of (record { lines = snapshot (fold_latest (recs ++ (r ∷ []))); torn = false })))
      → Q (write_record s io net recs r).0
unfolding write_record append_line maybe_compact compact
write_record-any Q s io net recs r same torn appended compacted = ground arith

-- The look-up of an id in a file is the old one, or the one after the record was appended.
abbrev After : List Record → Record → Text → Text → Store → Type 0
After recs r net id s =
    (view s net id ≡ lookup id (fold_latest recs))
    ⊎ (view s net id ≡ lookup id (fold_latest (recs ++ (r ∷ []))))

write_record-After :
    (s : Store) (io : Io) (net : Text) (r : Record) (id : Text)
    → (contents (s.disk net)).torn ≡ false
    → After (records s net) r net id (write_record s io net (records s net) r).0
write_record-After s io net r id h =
    let c = contents (s.disk net) in
    let written = put s net (data_of (appended_to c r)) in
    let all = records s net ++ (r ∷ []) in
    write_record-any (After (records s net) r net id) s io net (records s net) r (inl refl)
      (inl (rw (disk-put s net (data_of (record c { torn = true }))) refl))
      (inr (rw (records-appended s net r h) refl))
      (inr (
        rw
          (disk-put written net
            (data_of (record { lines = snapshot (fold_latest all); torn = false })))
          (lookup-snapshot all id)))

repair-records :
    (s : Store) (io : Io) (net : Text) → records (repair s io net).0 net ≡ records s net
unfolding repair
repair-records s io net =
    ground (arith, disk-put s net (data_of (record (contents (s.disk net)) { torn = false })))

set_state-any :
    (Q : Store → Type 0) (s : Store) (io : Io) (net id : Text) (mut : StateMutation)
    → let s1 = (repair s io net).0 in
      Q s
      → Q s1
      → ((recs : List Record) (prior : Record)
          → (repair s io net).1 ≡ ok recs
          → lookup id (fold_latest recs) ≡ some prior
          → Q (write_record s1 io net recs (moved io recs mut prior)).0)
      → Q (set_state s io net id mut).0
unfolding set_state
set_state-any Q s io net id mut same repaired wrote = elim (Outcome-cases (repair s io net).1) [
  | inl (x, e) ↦ ground arith
  | inr (recs, e) ↦ elim (Option-cases (lookup id (fold_latest recs))) [
    | inl n ↦ ground arith
    | inr (prior, p) ↦ let w = wrote recs prior e p in ground arith
  ]
]

-- What a SetState that may fail leaves under an id: what was there, or the new line over it.
abbrev pub Attempted : Store → Io → Text → Text → StateMutation → Text → Store → Type 0
Attempted s io net id mut other s' =
    (view s' net other ≡ view s net other)
    ⊎ ((prior : Record) × (view s net id ≡ some prior)
        × (view s' net other ≡ (
            let r = moved io (records s net) mut prior in
            if text_eq other r.id then some (winner r (view s net other)) else view s net other)))

pub set_state-Attempted :
    (s : Store) (io : Io) (net id : Text) (mut : StateMutation) (other : Text)
    → Attempted s io net id mut other (set_state s io net id mut).0
set_state-Attempted s io net id mut other =
    set_state-any (Attempted s io net id mut other) s io net id mut (inl refl)
      (inl (ap (λ l. lookup other (fold_latest l)) (repair-records s io net)))
      (λ recs prior e p.
        let s1 = (repair s io net).0 in
        let (e1, e2, e3) = repair-ok s io net recs e in
        let r = moved io recs mut prior in
        let w =
          subst (λ l. After l r net other (write_record s1 io net l r).0) (e2 ∙ sym e1)
            (write_record-After s1 io net r other e3) in
        elim w [
          | inl v ↦ inl (v ∙ ap (λ l. lookup other (fold_latest l)) e1)
          | inr v ↦ inr (
            prior,
            subst (λ l. lookup id (fold_latest l) ≡ some prior) e1 p,
            subst
                (λ l. view (write_record s1 io net recs r).0 net other ≡ (
                  let q = moved io l mut prior in
                  if text_eq other q.id
                  then some (winner q (lookup other (fold_latest l)))
                  else lookup other (fold_latest l)))
                e1 (v ∙ lookup-snoc other recs r),
          )
        ])

lookup-id : (id : Text) (rs : List Record) (r : Record) → lookup id rs ≡ some r → id ≡ r.id
unfolding lookup
lookup-id id [] r h = cc
lookup-id id (x ∷ rs) r h = let q = text_eq_iff id x.id in ground (arith, lookup-id id rs r)

-- The record under the id is the old one or the moved one, whatever happens.
pub set_state-own :
    (s : Store) (io : Io) (net id : Text) (mut : StateMutation)
    → let s' = (set_state s io net id mut).0 in
      (view s' net id ≡ view s net id)
      ⊎ ((prior : Record) × (view s net id ≡ some prior)
          × (view s' net id ≡ some (moved io (records s net) mut prior)))
set_state-own s io net id mut = elim (set_state-Attempted s io net id mut id) [
  | inl v ↦ inl v
  | inr (prior, p, v) ↦
      let s' = (set_state s io net id mut).0 in
      let d : (view s' net id ≡ view s net id)
          ⊎ (view s' net id ≡ some (moved io (records s net) mut prior)) =
        ground arith in
      elim d [ inl e ↦ inl e | inr e ↦ inr (prior, p, e) ]
]

-- A record under another id stays, whatever happens.
pub set_state-other :
    (s : Store) (io : Io) (net id : Text) (mut : StateMutation) (other : Text)
    → text_eq other id ≡ false
    → view (set_state s io net id mut).0 net other ≡ view s net other
unfolding apply_to
set_state-other s io net id mut other h = elim (set_state-Attempted s io net id mut other) [
  | inl v ↦ v
  | inr (prior, p, v) ↦ let q = lookup-id id (fold_latest (records s net)) prior p in ground arith
]
