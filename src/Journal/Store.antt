-- ===== src/Journal/Store.antt =====
-- The operations of the journal store (internal/journal/store.go, store_jsonl.go).
use daxib.Prelude.{
  ℕ, ◌+◌, ◌-◌, ◌*◌, ◌%◌, ◌^◌, Bool, true, false, ◌&&◌, ◌||◌, not, List, [], ◌∷◌, ◌++◌, map, Option,
  none, some, ltb, ◌==◌, length, if◌then◌else◌, Text, text_eq, is_empty,
}
use daxib.Prelude.Outcome.{Outcome, ok, err, ◌>>=◌}
use daxib.Prelude.Sort.{sort}
use daxib.Journal.{
  Record, StateMutation, Line, entry, corrupt, Contents, JournalFile, missing, unreadable, data_of,
  is_terminal, apply_to, lookup, fold_latest, sort_by_seq_desc, entries, max_seq,
}

pub data JournalError : Type 0 where
  state_corrupt lock_timeout not_found : JournalError

-- The journal files, by network.
pub record Store : Type 0 where
  pub disk : Text → JournalFile

pub data Lock : Type 0 where
  acquired not_acquired no_directory : Lock

-- How far appendLine comes: the line is written and synced; nothing is written; a part of it is;
-- or all of it is, but the sync or the close fails.
pub data Appended : Type 0 where
  synced unwritten partly unsynced : Appended

pub record Io : Type 0 where
  pub lock : Lock
  pub repairs : Bool
  pub appended : Appended
  pub fresh_id : Option Text
  pub now : Text
  pub stat_size : Option ℕ
  pub compacts : Bool

abbrev compact_superseded_threshold : ℕ
compact_superseded_threshold = 5000

abbrev compact_size_threshold : ℕ
compact_size_threshold = 8 * 2 ^ 20

unfoldable pub put : Store → Text → JournalFile → Store
put s net f = record { disk = λ n. if text_eq n net then f else s.disk n }

abbrev pub contents : JournalFile → Contents
contents missing = record { lines = []; torn = false }
contents unreadable = record { lines = []; torn = false }
contents (data_of c) = c

abbrev readable : JournalFile → Bool
readable missing = true
readable unreadable = false
readable (data_of c) = true

-- readAll without repair.
unfoldable pub read_all : Store → Text → Outcome JournalError (List Record)
read_all s net =
    if readable (s.disk net) then ok (entries (contents (s.disk net)).lines) else err state_corrupt

-- truncateTornFinal, where readAll repairs.
unfoldable pub repair : Store → Io → Text → Store × Outcome JournalError (List Record)
repair s io net =
    let c = contents (s.disk net) in
    if not (readable (s.disk net))
    then (s, err state_corrupt)
    else if c.torn
    then (if io.repairs
        then (put s net (data_of (record c { torn = false })), ok (entries c.lines))
        else (s, err state_corrupt))
    else (s, ok (entries c.lines))

-- A line written behind a torn one is no JSON any more.
unfoldable pub appended_to : Contents → Record → Contents
appended_to c r =
    if c.torn
    then record { lines = c.lines ++ (corrupt ∷ []); torn = false }
    else record { lines = c.lines ++ (entry r ∷ []); torn = false }

-- appendLine
unfoldable pub append_line : Store → Io → Text → Record → Store × Outcome JournalError (Unit {0})
append_line s io net r =
    let c = contents (s.disk net) in
    elim io.appended [
      | synced ↦ (put s net (data_of (appended_to c r)), ok tt)
      | unwritten ↦ (s, err state_corrupt)
      | partly ↦ (put s net (data_of (record c { torn = true })), err state_corrupt)
      | unsynced ↦ (put s net (data_of (appended_to c r)), err state_corrupt)
    ]

-- compact: the folded records in the order of their seq.
unfoldable pub snapshot : List Record → List Line
snapshot folded = map entry (sort (λ a b. ltb a.seq b.seq) folded)

unfoldable pub compact : Store → Io → Text → List Record → Store × Outcome JournalError (Unit {0})
compact s io net folded =
    if io.compacts
    then (put s net (data_of (record { lines = snapshot folded; torn = false })), ok tt)
    else (s, err state_corrupt)

-- maybeCompact
unfoldable pub maybe_compact :
    Store → Io → Text → List Record → Record → Store × Outcome JournalError (Unit {0})
maybe_compact s io net pre_recs latest =
    let all = pre_recs ++ (latest ∷ []) in
    let folded = fold_latest all in
    let compacted = compact s io net folded in
    if ltb (length all - length folded) compact_superseded_threshold
    then elim io.stat_size [
      | none ↦ (s, ok tt)
      | some size ↦ if ltb size compact_size_threshold then (s, ok tt) else compacted
    ]
    else compacted

-- The write of Append and SetState, under the lock.
unfoldable pub write_record :
    Store → Io → Text → List Record → Record → Store × Outcome JournalError Record
write_record s io net recs r =
    let (s1, written) = append_line s io net r in
    let (s2, compacted) = maybe_compact s1 io net recs r in
    elim written [
      | err e ↦ (s1, err e)
      | ok u ↦ elim compacted [ err e ↦ (s2, err e) | ok u' ↦ (s2, ok r) ]
    ]

unfoldable pub next_seq : List Record → ℕ
next_seq recs = (max_seq recs + 1) % 2 ^ 64

-- What Append fills in; `none` if no id can be made.
unfoldable pub complete : Io → List Record → Record → Option Record
complete io recs rec =
    let filled = record rec {
      v = if rec.v == 0 then 1 else rec.v;
      ts = if is_empty rec.ts then io.now else rec.ts;
      seq = next_seq recs;
    } in
    if is_empty rec.id
    then elim io.fresh_id [ none ↦ none | some id ↦ some (record filled { id = id }) ]
    else some filled

abbrev pub with_lock {ℓ} :
    {A : Type ℓ}
    → Store
    → Io
    → (Store → Store × Outcome JournalError A)
    → Store × Outcome JournalError A
with_lock s io fn = elim io.lock [
  | acquired ↦ fn s
  | not_acquired ↦ (s, err lock_timeout)
  | no_directory ↦ (s, err state_corrupt)
]

unfoldable pub append : Store → Io → Record → Store × Outcome JournalError Record
append s io rec =
    if is_empty rec.network
    then (s, err state_corrupt)
    else with_lock s io (λ s0.
      let (s1, read) = repair s0 io rec.network in
      elim read [
        | err e ↦ (s1, err e)
        | ok recs ↦ elim (complete io recs rec) [
          | none ↦ (s1, err state_corrupt)
          | some r ↦ write_record s1 io rec.network recs r
        ]
      ])

unfoldable pub set_state :
    Store → Io → Text → Text → StateMutation → Store × Outcome JournalError Record
set_state s io net id mut =
    if is_empty id
    then (s, err state_corrupt)
    else with_lock s io (λ s0.
      let (s1, read) = repair s0 io net in
      elim read [
        | err e ↦ (s1, err e)
        | ok recs ↦ elim (lookup id (fold_latest recs)) [
          | none ↦ (s1, err not_found)
          | some prior ↦
              write_record s1 io net recs
                (record (apply_to mut prior) { seq = next_seq recs; ts = io.now })
        ]
      ])

-- read: the folded records, under the shared lock.
unfoldable pub read : Store → Io → Text → Outcome JournalError (List Record)
read s io net = elim io.lock [
  | acquired ↦ elim (read_all s net) [ err e ↦ err e | ok recs ↦ ok (fold_latest recs) ]
  | not_acquired ↦ err lock_timeout
  | no_directory ↦ err state_corrupt
]

abbrev found_or {ℓ} : {A : Type ℓ} → Option A → Outcome JournalError A
found_or none = err not_found
found_or (some a) = ok a

unfoldable pub by_id : Store → Io → Text → Text → Outcome JournalError Record
by_id s io net id = read s io net >>= λ latest. found_or (lookup id latest)

-- The loop of ByTxid.
unfoldable pub newest_of : Text → Option Record → List Record → Option Record
newest_of txid found [] = found
newest_of txid found (r ∷ rs) =
    let keep = newest_of txid found rs in
    let take = newest_of txid (some r) rs in
    if text_eq r.txid txid && not (is_empty r.txid)
    then elim found [ none ↦ take | some f ↦ if ltb f.seq r.seq then take else keep ]
    else keep

unfoldable pub by_txid : Store → Io → Text → Text → Outcome JournalError Record
by_txid s io net txid = read s io net >>= λ latest. found_or (newest_of txid none latest)

unfoldable pub select_records : (Record → Bool) → List Record → List Record
select_records keep [] = []
select_records keep (r ∷ rs) =
    let rest = select_records keep rs in if keep r then r ∷ rest else rest

unfoldable pub unresolved : Store → Io → Text → Outcome JournalError (List Record)
unresolved s io net = read s io net >>= λ latest.
    ok (sort_by_seq_desc (select_records (λ r. not (is_terminal r.status)) latest))

-- List
unfoldable pub list_records : Store → Io → Text → Text → Outcome JournalError (List Record)
list_records s io net wallet = read s io net >>= λ latest.
    ok (sort_by_seq_desc (select_records (λ r. is_empty wallet || text_eq r.wallet wallet) latest))
