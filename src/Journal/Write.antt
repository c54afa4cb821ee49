-- ===== src/Journal/Write.antt =====
-- What the write of a record, and Append, leave in the journal (internal/journal/store.go).
use mathlib.Core.Path.{subst}
use daxib.Prelude.{
  ℕ, ◌+◌, ◌^◌, ◌≤◌, ◌<◌, ◌≡◌, inl, inr, refl, sym, ap, ◌∙◌, arith, false, Bool-cases, List, [], ◌∷◌,
  ◌++◌, Option, Option-cases, none, some, if◌then◌else◌, Text, text_eq, text_eq_refl,
}
use daxib.Prelude.Outcome.{ok, Outcome-cases}
use daxib.Journal.{Record, Line, entry, JournalFile, data_of, lookup, fold_latest, entries, max_seq}
use daxib.Journal.Store.{
  Store, Io, put, contents, appended_to, append_line, snapshot, compact, maybe_compact,
  write_record, next_seq, repair, complete, append,
}
use daxib.Journal.Fold.{winner, latest, lookup-fold_latest, lookup-snapshot}

-- The records of a network's file, as readAll gives them.
abbrev pub records : Store → Text → List Record
records s net = entries (contents (s.disk net)).lines

-- The latest record of an id, as the queries find it.
abbrev pub view : Store → Text → Text → Option Record
view s net id = lookup id (fold_latest (records s net))

-- What a store shows of a network's journal after a successful write of `r`.
abbrev pub Shows : Text → List Record → Record → Store → Type 0
Shows net recs r s =
    (id : Text)
    → view s net id ≡ (
        if text_eq id r.id
        then some (winner r (lookup id (fold_latest recs)))
        else lookup id (fold_latest recs))

append_line-ok :
    (s : Store) (io : Io) (net : Text) (r : Record)
    → (append_line s io net r).1 ≡ ok tt
    → (append_line s io net r).0 ≡ put s net (data_of (appended_to (contents (s.disk net)) r))
unfolding append_line
append_line-ok s io net r h = ground arith

maybe_compact-ok :
    (Q : Store → Type 0) (s : Store) (io : Io) (net : Text) (recs : List Record) (r : Record)
    → (maybe_compact s io net recs r).1 ≡ ok tt
    → Q s
    → Q (
        put s net
          (data_of (record { lines = snapshot (fold_latest (recs ++ (r ∷ []))); torn = false })))
    → Q (maybe_compact s io net recs r).0
unfolding maybe_compact compact
maybe_compact-ok Q s io net recs r h same compacted = ground arith

pub write_record-ok :
    (s : Store) (io : Io) (net : Text) (recs : List Record) (r r' : Record)
    → (write_record s io net recs r).1 ≡ ok r'
    → let s1 = (append_line s io net r).0 in
      (r ≡ r')
      × ((append_line s io net r).1 ≡ ok tt)
      × ((maybe_compact s1 io net recs r).1 ≡ ok tt)
      × ((write_record s io net recs r).0 ≡ (maybe_compact s1 io net recs r).0)
unfolding write_record
write_record-ok s io net recs r r' h = ground arith

latest-snoc :
    (id : Text) (o : Option Record) (rs : List Record) (r : Record)
    → latest id o (rs ++ (r ∷ []))
      ≡ (if text_eq id r.id then some (winner r (latest id o rs)) else latest id o rs)
latest-snoc id o [] r = refl
latest-snoc id o (x ∷ rs) r = latest-snoc id (if text_eq id x.id then some (winner x o) else o) rs r

pub lookup-snoc :
    (id : Text) (recs : List Record) (r : Record)
    → lookup id (fold_latest (recs ++ (r ∷ []))) ≡ (
        if text_eq id r.id
        then some (winner r (lookup id (fold_latest recs)))
        else lookup id (fold_latest recs))
lookup-snoc id recs r =
    rw (lookup-fold_latest id recs)
      (lookup-fold_latest id (recs ++ (r ∷ [])) ∙ latest-snoc id none recs r)

pub disk-put : (s : Store) (net : Text) (f : JournalFile) → (put s net f).disk net ≡ f
unfolding put
disk-put s net f = rw (text_eq_refl net) refl

entries-snoc :
    (ls : List Line) (r : Record) → entries (ls ++ (entry r ∷ [])) ≡ entries ls ++ (r ∷ [])
unfolding entries
entries-snoc [] r = refl
entries-snoc (Line.blank ∷ ls) r = entries-snoc ls r
entries-snoc (Line.corrupt ∷ ls) r = entries-snoc ls r
entries-snoc (entry x ∷ ls) r = ap (λ l. x ∷ l) (entries-snoc ls r)

pub records-appended :
    (s : Store) (net : Text) (r : Record)
    → (contents (s.disk net)).torn ≡ false
    → records (put s net (data_of (appended_to (contents (s.disk net)) r))) net
      ≡ records s net ++ (r ∷ [])
unfolding appended_to
records-appended s net r h =
    rw (disk-put s net (data_of (appended_to (contents (s.disk net)) r)), h)
      (entries-snoc (contents (s.disk net)).lines r)

-- A successful write of a record shows it under its id, unless an earlier one has a higher seq, and
-- leaves what every other id shows; a compaction changes nothing of that.
pub write_record-Shows :
    (s : Store) (io : Io) (net : Text) (r r' : Record)
    → (contents (s.disk net)).torn ≡ false
    → (write_record s io net (records s net) r).1 ≡ ok r'
    → Shows net (records s net) r (write_record s io net (records s net) r).0
write_record-Shows s io net r r' h e =
    let (er, ea, em, es) = write_record-ok s io net (records s net) r r' e in
    let written = put s net (data_of (appended_to (contents (s.disk net)) r)) in
    let appended : Shows net (records s net) r (append_line s io net r).0 = λ id.
      rw (append_line-ok s io net r ea, records-appended s net r h)
        (lookup-snoc id (records s net) r) in
    subst (Shows net (records s net) r) (sym es) (
      maybe_compact-ok (Shows net (records s net) r) (append_line s io net r).0 io net
        (records s net) r em appended
        (λ id.
          rw
            (disk-put (append_line s io net r).0 net (
              data_of (record {
                lines = snapshot (fold_latest (records s net ++ (r ∷ [])));
                torn = false;
              })))
            (lookup-snapshot (records s net ++ (r ∷ [])) id ∙ lookup-snoc id (records s net) r)))

pub repair-ok :
    (s : Store) (io : Io) (net : Text) (recs : List Record)
    → (repair s io net).1 ≡ ok recs
    → (recs ≡ records s net)
      × (records (repair s io net).0 net ≡ records s net)
      × ((contents ((repair s io net).0.disk net)).torn ≡ false)
unfolding repair
repair-ok s io net recs h =
    ground (arith, disk-put s net (data_of (record (contents (s.disk net)) { torn = false })))

pub append-ok :
    (Q : Store → Type 0) (s : Store) (io : Io) (rec r' : Record)
    → (append s io rec).1 ≡ ok r'
    → let s1 = (repair s io rec.network).0 in
      ((recs : List Record)
        → (r : Record) → (repair s io rec.network).1 ≡ ok recs
        → complete io recs rec ≡ some r
        → (write_record s1 io rec.network recs r).1 ≡ ok r'
        → Q (write_record s1 io rec.network recs r).0)
      → Q (append s io rec).0
unfolding append
append-ok Q s io rec r' h k = elim (Outcome-cases (repair s io rec.network).1) [
  | inl w ↦ absurd (let e = w.1 in ground arith)
  | inr w ↦ elim (Option-cases (complete io w.0 rec)) [
    | inl e ↦ absurd (let e' = w.1 in ground arith)
    | inr v ↦ let e = w.1 in let e' = v.1 in ground (arith, k w.0 v.0 e e')
  ]
]

-- An optional record whose seq is at most `m`.
abbrev SeqLe : ℕ → Option Record → Type 0
SeqLe m none = Unit {0}
SeqLe m (some c) = c.seq ≤ m

winner-SeqLe :
    (m : ℕ) (r : Record) (o : Option Record) → r.seq ≤ m → SeqLe m o → SeqLe m (some (winner r o))
winner-SeqLe m r none h b = h
winner-SeqLe m r (some c) h b = ground arith

latest-SeqLe :
    (m : ℕ) (id : Text) (o : Option Record) (rs : List Record)
    → max_seq rs ≤ m
    → SeqLe m o
    → SeqLe m (latest id o rs)
unfolding max_seq
latest-SeqLe m id o [] h b = b
latest-SeqLe m id o (r ∷ rs) h b =
    latest-SeqLe m id (if text_eq id r.id then some (winner r o) else o) rs (ground (arith, h))
      (elim (Bool-cases (text_eq id r.id)) [
        | inl e ↦ rw (e) (winner-SeqLe m r o (ground (arith, h)) b)
        | inr e ↦ rw (e) b
      ])

winner-newer : (m : ℕ) (r : Record) (o : Option Record) → m ≤ r.seq → SeqLe m o → winner r o ≡ r
winner-newer m r none h b = refl
winner-newer m r (some c) h b = ground arith

complete-seq :
    (io : Io) (recs : List Record) (rec r : Record)
    → complete io recs rec ≡ some r
    → r.seq ≡ next_seq recs
unfolding complete
complete-seq io recs rec r h = ground arith

pub next_seq-suc :
    (recs : List Record) → max_seq recs + 1 < 2 ^ 64 → next_seq recs ≡ max_seq recs + 1
unfolding next_seq
next_seq-suc recs h = ground arith

pub written-view :
    (s : Store) (io : Io) (net : Text) (recs : List Record) (r0 r : Record) (id : Text)
    → recs ≡ records s net
    → (contents (s.disk net)).torn ≡ false
    → (write_record s io net recs r0).1 ≡ ok r
    → r0.seq ≡ max_seq (records s net) + 1
    → (r.seq ≡ max_seq (records s net) + 1)
      × (view (write_record s io net recs r0).0 net id
          ≡ (if text_eq id r.id then some r else view s net id))
written-view s io net recs r0 r id e torn ew eseq =
    let ew' : (write_record s io net (records s net) r0).1 ≡ ok r =
      subst (λ l. (write_record s io net l r0).1 ≡ ok r) e ew in
    let (same, ea, em, es) = write_record-ok s io net (records s net) r0 r ew' in
    let shown = write_record-Shows s io net r0 r torn ew' id in
    let older =
      subst (SeqLe (max_seq (records s net))) (sym (lookup-fold_latest id (records s net)))
        (latest-SeqLe (max_seq (records s net)) id none (records s net) (omega arith) tt) in
    let wins = winner-newer (max_seq (records s net)) r0 (view s net id) (omega arith) older in
    subst
      (λ x.
        (x.seq ≡ max_seq (records s net) + 1)
        × (view (write_record s io net recs r0).0 net id
            ≡ (if text_eq id x.id then some x else view s net id)))
      same
      (
        eseq,
        subst
            (λ l.
              view (write_record s io net l r0).0 net id
              ≡ (if text_eq id r0.id then some r0 else view s net id))
            (sym e) (shown ∙ ap (λ x. if text_eq id r0.id then some x else view s net id) wins),
      )

-- Where Append succeeds, and the sequence numbers of the file are not used up, the queries find the
-- written record, with the next sequence number, under its id, and for every other id what they found
-- before, though a torn last line was dropped and the file may have been compacted.
pub append-view :
    (s : Store) (io : Io) (rec r : Record) (id : Text)
    → max_seq (records s rec.network) + 1 < 2 ^ 64
    → (append s io rec).1 ≡ ok r
    → (r.seq ≡ max_seq (records s rec.network) + 1)
      × (view (append s io rec).0 rec.network id
          ≡ (if text_eq id r.id then some r else view s rec.network id))
append-view s io rec r id bound h =
    append-ok
      (λ s'.
        (r.seq ≡ max_seq (records s rec.network) + 1)
        × (view s' rec.network id ≡ (if text_eq id r.id then some r else view s rec.network id)))
      s io rec r h
      (λ recs r0 er ec ew.
        let s1 = (repair s io rec.network).0 in
        let (e1, e2, e3) = repair-ok s io rec.network recs er in
        let eseq : r0.seq ≡ max_seq (records s rec.network) + 1 =
          complete-seq io recs rec r0 ec ∙ ap next_seq e1 ∙ next_seq-suc _ bound in
        subst
          (λ l.
            (r.seq ≡ max_seq l + 1)
            × (view (write_record s1 io rec.network recs r0).0 rec.network id
                ≡ (if text_eq id r.id then some r else lookup id (fold_latest l))))
          e2
          (written-view s1 io rec.network recs r0 r id (e1 ∙ sym e2) e3 ew
            (eseq ∙ ap (λ l. max_seq l + 1) (sym e2))))
