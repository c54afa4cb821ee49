-- ===== src/Journal/Transition.antt =====
-- What SetState leaves in the journal (internal/journal/store.go).
use mathlib.Core.Path.{subst}
use daxib.Prelude.{
  ◌+◌, ◌^◌, ◌<◌, ◌≡◌, inl, inr, sym, ap, ◌∙◌, arith, List, Option-cases, some, if◌then◌else◌, Text,
  text_eq,
}
use daxib.Prelude.Outcome.{ok, Outcome-cases}
use daxib.Journal.{Record, StateMutation, lookup, fold_latest, max_seq, apply_to}
use daxib.Journal.Store.{Store, Io, write_record, next_seq, repair, set_state}
use daxib.Journal.Write.{records, view, written-view, repair-ok, next_seq-suc, write_record-ok}

abbrev pub moved : Io → List Record → StateMutation → Record → Record
moved io recs mut prior = record (apply_to mut prior) { seq = next_seq recs; ts = io.now }

set_state-ok :
    (Q : Store → Type 0) (s : Store) (io : Io) (net id : Text) (mut : StateMutation) (r : Record)
    → (set_state s io net id mut).1 ≡ ok r
    → let s1 = (repair s io net).0 in
      ((recs : List Record)
        → (prior : Record) → (repair s io net).1 ≡ ok recs
        → lookup id (fold_latest recs) ≡ some prior
        → (write_record s1 io net recs (moved io recs mut prior)).1 ≡ ok r
        → Q (write_record s1 io net recs (moved io recs mut prior)).0)
      → Q (set_state s io net id mut).0
unfolding set_state
set_state-ok Q s io net id mut r h k = elim (Outcome-cases (repair s io net).1) [
  | inl w ↦ absurd (let e = w.1 in ground arith)
  | inr w ↦ elim (Option-cases (lookup id (fold_latest w.0))) [
    | inl e ↦ absurd (let e' = w.1 in ground arith)
    | inr v ↦ let e = w.1 in let e' = v.1 in ground (arith, k w.0 v.0 e e')
  ]
]

-- Where SetState succeeds, and the sequence numbers of the file are not used up, there was a record of
-- the id; the written record is that one with the fields of the mutation, the next sequence number and
-- the time; the queries find it under its id, and for every other id what they found before.
pub set_state-view :
    (s : Store) (io : Io) (net id : Text) (mut : StateMutation) (r : Record) (other : Text)
    → max_seq (records s net) + 1 < 2 ^ 64
    → (set_state s io net id mut).1 ≡ ok r
    → (prior : Record) × (view s net id ≡ some prior)
      × (r ≡ moved io (records s net) mut prior)
      × (r.seq ≡ max_seq (records s net) + 1)
      × (view (set_state s io net id mut).0 net other
          ≡ (if text_eq other r.id then some r else view s net other))
set_state-view s io net id mut r other bound h =
    set_state-ok
      (λ s'.
        (prior : Record) × (view s net id ≡ some prior)
        × (r ≡ moved io (records s net) mut prior)
        × (r.seq ≡ max_seq (records s net) + 1)
        × (view s' net other ≡ (if text_eq other r.id then some r else view s net other)))
      s io net id mut r h
      (λ recs prior er el ew.
        let s1 = (repair s io net).0 in
        let (e1, e2, e3) = repair-ok s io net recs er in
        let (same, ea, em, es) = write_record-ok s1 io net recs (moved io recs mut prior) r ew in
        let (eseq, shown) =
          written-view s1 io net recs (moved io recs mut prior) r other (e1 ∙ sym e2) e3 ew
            (ap next_seq e1 ∙ next_seq-suc _ bound ∙ ap (λ l. max_seq l + 1) (sym e2)) in
        (
          prior,
          subst (λ l. lookup id (fold_latest l) ≡ some prior) e1 el,
          subst (λ l. r ≡ moved io l mut prior) e1 (sym same),
          eseq ∙ ap (λ l. max_seq l + 1) e2,
          shown ∙ ap (λ l. if text_eq other r.id then some r else lookup other (fold_latest l)) e2,
        ))
