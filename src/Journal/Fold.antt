-- ===== src/Journal/Fold.antt =====
-- The fold to the latest record per id (foldLatest of internal/journal/store.go), and compaction.
use mathlib.Core.List.{Permᴰ}
use mathlib.Core.List.Permᴰ
use mathlib.Core.Path.{subst}
use daxib.Prelude.{
  ◌≡◌, inl, inr, refl, sym, ap, ◌∙◌, arith, Bool, true, false, Bool-cases, List, [], ◌∷◌, map,
  Option, none, some, leb, ltb, if◌then◌else◌, Text, text_eq, text_eq_iff,
}
use daxib.Prelude.Sort.{sort, sort-Perm}
use daxib.Journal.{Record, entry, lookup, upsert, fold_onto, fold_latest, entries}
use daxib.Journal.Store.{snapshot}

-- The record that wins: the later line, unless its seq is lower.
abbrev pub winner : Record → Option Record → Record
winner r none = r
winner r (some cur) = if leb cur.seq r.seq then r else cur

-- The latest record of an id among the lines, after an earlier one.
abbrev pub latest : Text → Option Record → List Record → Option Record
latest id o [] = o
latest id o (r ∷ rs) = latest id (if text_eq id r.id then some (winner r o) else o) rs

lookup-upsert :
    (id : Text) (r : Record) (rs : List Record)
    → lookup id (upsert r rs)
      ≡ (if text_eq id r.id then some (winner r (lookup id rs)) else lookup id rs)
unfolding lookup upsert
lookup-upsert id r [] = ground arith
lookup-upsert id r (cur ∷ rs) = grind (
  arith,
  lookup-upsert id r rs,
  text_eq_iff id r.id,
  text_eq_iff id cur.id,
  text_eq_iff r.id cur.id,
)

lookup-fold_onto :
    (id : Text) (acc rs : List Record) → lookup id (fold_onto acc rs) ≡ latest id (lookup id acc) rs
unfolding fold_onto
lookup-fold_onto id acc [] = refl
lookup-fold_onto id acc (r ∷ rs) =
    lookup-fold_onto id (upsert r acc) rs ∙ ap (λ o. latest id o rs) (lookup-upsert id r acc)

-- A lookup in the fold finds the line of the id with the highest seq, the last one of those.
pub lookup-fold_latest :
    (id : Text) (recs : List Record) → lookup id (fold_latest recs) ≡ latest id none recs
unfolding fold_latest lookup
lookup-fold_latest id recs = lookup-fold_onto id [] recs

-- No two records have the same id.
unfoldable pub Distinct : List Record → Type 0
Distinct [] = Unit
Distinct (r ∷ rs) = (lookup r.id rs ≡ none) × Distinct rs

latest-absent :
    (id : Text) (o : Option Record) (rs : List Record) → lookup id rs ≡ none → latest id o rs ≡ o
unfolding lookup
latest-absent id o [] h = refl
latest-absent id o (r ∷ rs) h = elim (Bool-cases (text_eq id r.id)) [
  | inl e ↦ ground (arith, h)
  | inr e ↦ rw (e) (latest-absent id o rs (ground (arith, h)))
]

latest-Distinct : (id : Text) (rs : List Record) → Distinct rs → latest id none rs ≡ lookup id rs
unfolding lookup Distinct
latest-Distinct id [] d = refl
latest-Distinct id (r ∷ rs) d = elim (Bool-cases (text_eq id r.id)) [
  | inl e ↦ rw (e) (
      latest-absent id (some r) rs
        (subst (λ t. lookup t rs ≡ none) (sym ((text_eq_iff id r.id).0 e)) d.0))
  | inr e ↦ rw (e) (latest-Distinct id rs d.1)
]

merged :
    (r cur : Record) (rs : List Record) (b : Bool)
    → r.id ≡ cur.id
    → Distinct (cur ∷ rs)
    → Distinct ((if b then r else cur) ∷ rs)
unfolding Distinct
merged r cur rs true e d = (subst (λ t. lookup t rs ≡ none) (sym e) d.0, d.1)
merged r cur rs false e d = d

absent-after :
    (r cur : Record) (rs : List Record)
    → text_eq r.id cur.id ≡ false
    → lookup cur.id rs ≡ none
    → lookup cur.id (upsert r rs) ≡ none
absent-after r cur rs e h =
    grind (arith, lookup-upsert cur.id r rs, text_eq_iff cur.id r.id, text_eq_iff r.id cur.id)

upsert-Distinct : (r : Record) (rs : List Record) → Distinct rs → Distinct (upsert r rs)
unfolding lookup upsert Distinct
upsert-Distinct r [] d = (refl, tt)
upsert-Distinct r (cur ∷ rs) d = elim (Bool-cases (text_eq r.id cur.id)) [
  | inl e ↦ rw (e) (merged r cur rs (leb cur.seq r.seq) ((text_eq_iff r.id cur.id).0 e) d)
  | inr e ↦ rw (e) (absent-after r cur rs e d.0, upsert-Distinct r rs d.1)
]

fold_onto-Distinct : (acc rs : List Record) → Distinct acc → Distinct (fold_onto acc rs)
unfolding fold_onto
fold_onto-Distinct acc [] d = d
fold_onto-Distinct acc (r ∷ rs) d = fold_onto-Distinct (upsert r acc) rs (upsert-Distinct r acc d)

abbrev Kept : Record → Record → List Record → List Record → Type 0
Kept a b l ys = Distinct ys × ((id : Text) → lookup id ys ≡ lookup id (a ∷ b ∷ l))

swapped : (a b : Record) (l : List Record) → Distinct (a ∷ b ∷ l) → Kept a b l (b ∷ a ∷ l)
unfolding lookup Distinct
swapped a b l d = (
  (
    grind (arith, text_eq_iff a.id b.id, text_eq_iff b.id a.id, d.0, d.1.0),
    (grind (arith, text_eq_iff a.id b.id, text_eq_iff b.id a.id, d.0, d.1.0), d.1.1),
  ),
  λ id. grind (
    arith,
    text_eq_iff a.id b.id,
    text_eq_iff b.id a.id,
    text_eq_iff id a.id,
    text_eq_iff id b.id,
    d.0,
    d.1.0,
  ),
)

Perm-lookup :
    {xs ys : List Record}
    → Permᴰ xs ys
    → Distinct xs
    → Distinct ys × ((id : Text) → lookup id ys ≡ lookup id xs)
unfolding lookup Distinct
Perm-lookup Permᴰ.nil d = (tt, λ id. refl)
Perm-lookup (Permᴰ.cons {a = a} {b = b} {l₁ = l₁} {l₂ = l₂} e p) d =
    let (d', h) = Perm-lookup p d.1 in
    (
      (h b.id ∙ subst (λ r. lookup r.id l₁ ≡ none) e d.0, d'),
      λ id.
          subst
            (λ x.
              (if text_eq id x.id then some x else lookup id l₂)
              ≡ (if text_eq id a.id then some a else lookup id l₁))
            e (rw (h id) refl),
    )
Perm-lookup (Permᴰ.swap {a = a} {b = b} {b' = b'} {l = l} e f) d =
    subst (λ x. Kept a b l (x ∷ b' ∷ l)) f (subst (λ x. Kept a b l (b ∷ x ∷ l)) e (swapped a b l d))
Perm-lookup (Permᴰ.trans p q) d =
    let (d1, h1) = Perm-lookup p d in let (d2, h2) = Perm-lookup q d1 in (d2, λ id. h2 id ∙ h1 id)

fold_latest-Distinct : (recs : List Record) → Distinct (fold_latest recs)
unfolding fold_latest Distinct
fold_latest-Distinct recs = fold_onto-Distinct [] recs tt

entries-map : (rs : List Record) → entries (map entry rs) ≡ rs
unfolding entries
entries-map [] = refl
entries-map (r ∷ rs) = ap (λ l. r ∷ l) (entries-map rs)

-- A compaction writes lines whose fold finds the same record for every id.
pub lookup-snapshot :
    (recs : List Record) (id : Text)
    → lookup id (fold_latest (entries (snapshot (fold_latest recs)))) ≡ lookup id (fold_latest recs)
unfolding snapshot
lookup-snapshot recs id =
    let folded = fold_latest recs in
    let sorted = sort (λ a b. ltb a.seq b.seq) (fold_latest recs) in
    let (d, same) =
      Perm-lookup (Permᴰ.symm (sort-Perm (λ a b. ltb a.seq b.seq) (fold_latest recs)))
        (fold_latest-Distinct recs) in
    rw (entries-map sorted) (lookup-fold_latest id sorted ∙ latest-Distinct id sorted d ∙ same id)
