-- ===== src/Policy/Admin/Networks.antt =====
-- The rules of the networks under `policy set` (upsertNetwork and applyDefault of
-- internal/policy/admin.go).
use daxib.Prelude.{
  text_eq_iff, to_lower, ◌≡◌, refl, ◌∙◌, true, false, List, [], ◌∷◌, ◌++◌, map, Option, none, some,
  Text, arith, inl, inr, equal_fold, if◌then◌else◌, Option-cases,
}
use daxib.Prelude.Sort.{sort, insert}
use mathlib.Core.Path.{subst}
use daxib.Policy.Body.{Policy, NetworkRule}
use daxib.Policy.Body
use daxib.Policy.Evaluate.InForce.{rule_of}
use daxib.Policy.Writer.{network_lt}
use daxib.Policy.Writer.Meaning.{
  Fresh, DistinctNetworks, insert-Fresh, sort-Fresh, equal_fold_both, equal_fold_swap,
}
use daxib.Policy.Admin.{apply_default, update_network, upsert_network, upsert_networks}

same_name : (a n b : Text) → equal_fold a n ≡ true → equal_fold a b ≡ equal_fold n b
unfolding equal_fold
same_name a n b h = rw ((text_eq_iff (map to_lower a) (map to_lower n)).0 h) refl

insert-Distinct :
    (n : NetworkRule) (ns : List NetworkRule)
    → Fresh n ns
    → DistinctNetworks ns
    → DistinctNetworks (insert network_lt n ns)
insert-Distinct n [] f d = (tt, tt)
insert-Distinct n (m ∷ ns) f d =
    ground (
      arith,
      insert-Distinct n ns f.1 d.1,
      insert-Fresh m n ns,
      equal_fold_swap n.network m.network,
    )

sort-Distinct :
    (ns : List NetworkRule) → DistinctNetworks ns → DistinctNetworks (sort network_lt ns)
unfolding sort
sort-Distinct [] d = tt
sort-Distinct (n ∷ ns) d =
    insert-Distinct n (sort network_lt ns) (sort-Fresh n ns d.0) (sort-Distinct ns d.1)

-- Where the loop of upsertNetwork finds the name, the names stay.
update_network-Fresh :
    (m n : NetworkRule) (ms ns : List NetworkRule)
    → update_network ms n ≡ some ns
    → Fresh m ms
    → Fresh m ns
unfolding update_network
update_network-Fresh m n [] ns h f = absurd (ground arith)
update_network-Fresh m n (x ∷ ms) ns h f = elim (Option-cases (update_network ms n)) [
  | inl e ↦ ground arith
  | inr (rest, e) ↦ ground (arith, update_network-Fresh m n ms rest e f.1)
]

update_network-Distinct :
    (n : NetworkRule) (ms ns : List NetworkRule)
    → update_network ms n ≡ some ns
    → DistinctNetworks ms
    → DistinctNetworks ns
unfolding update_network
update_network-Distinct n [] ns h d = absurd (ground arith)
update_network-Distinct n (x ∷ ms) ns h d = elim (Option-cases (update_network ms n)) [
  | inl e ↦ ground arith
  | inr (rest, e) ↦
      ground
        (arith, update_network-Distinct n ms rest e d.1, update_network-Fresh x n ms rest e d.0)
]

append-Fresh :
    (m n : NetworkRule) (ms : List NetworkRule)
    → Fresh m ms
    → equal_fold m.network n.network ≡ false
    → Fresh m (ms ++ n ∷ [])
append-Fresh m n [] f e = (e, tt)
append-Fresh m n (x ∷ ms) f e = (f.0, append-Fresh m n ms f.1 e)

-- Where it does not find the name, the rule that is appended has a new one.
update_network-append :
    (n : NetworkRule) (ms : List NetworkRule)
    → update_network ms n ≡ none
    → DistinctNetworks ms
    → DistinctNetworks (ms ++ n ∷ [])
unfolding update_network
update_network-append n [] h d = (tt, tt)
update_network-append n (x ∷ ms) h d = elim (Option-cases (update_network ms n)) [
  | inr (rest, e) ↦ absurd (ground arith)
  | inl e ↦ (append-Fresh x n ms d.0 (ground arith), update_network-append n ms e d.1)
]

-- What upsertNetwork comes to.
upsert_network-cases {ℓ} :
    (Q : List NetworkRule → Type ℓ) (n : NetworkRule) (ms : List NetworkRule)
    → (update_network ms n ≡ none → Q (sort network_lt (ms ++ n ∷ [])))
    → ((ns : List NetworkRule) → update_network ms n ≡ some ns → Q ns)
    → Q (upsert_network ms n)
unfolding upsert_network
upsert_network-cases Q n ms missing found = elim (Option-cases (update_network ms n)) [
  | inl e ↦ subst Q (ground arith) (missing e)
  | inr (ns, e) ↦ subst Q (ground arith) (found ns e)
]

pub upsert_network-Distinct :
    (n : NetworkRule) (ms : List NetworkRule)
    → DistinctNetworks ms
    → DistinctNetworks (upsert_network ms n)
upsert_network-Distinct n ms d =
    upsert_network-cases DistinctNetworks n ms
      (λ e. sort-Distinct (ms ++ n ∷ []) (update_network-append n ms e d))
      (λ ns e. update_network-Distinct n ms ns e d)

pub upsert_networks-Distinct :
    (ms ns : List NetworkRule) → DistinctNetworks ms → DistinctNetworks (upsert_networks ms ns)
unfolding upsert_networks
upsert_networks-Distinct ms [] d = d
upsert_networks-Distinct ms (n ∷ ns) d =
    upsert_networks-Distinct (upsert_network ms n) ns (upsert_network-Distinct n ms d)

-- The block of a network with a change over it.
abbrev pub merged : Option Body.Limits → Body.Limits → Body.Limits
merged none l = l
merged (some d) l = apply_default d l

abbrev Sets : List NetworkRule → NetworkRule → Text → List NetworkRule → Type 0
Sets ms n b ns =
    rule_of b ns
    ≡ (if equal_fold n.network b then some (merged (rule_of b ms) n.limits) else rule_of b ms)

insert-rule_of :
    (b : Text) (n : NetworkRule) (ns : List NetworkRule)
    → Fresh n ns
    → rule_of b (insert network_lt n ns) ≡ rule_of b (n ∷ ns)
insert-rule_of b n [] h = refl
insert-rule_of b n (m ∷ ns) h =
    ground (arith, insert-rule_of b n ns h.1, equal_fold_both n.network m.network b)

sort-rule_of :
    (b : Text) (ns : List NetworkRule)
    → DistinctNetworks ns
    → rule_of b (sort network_lt ns) ≡ rule_of b ns
unfolding sort
sort-rule_of b [] h = refl
sort-rule_of b (n ∷ ns) h =
    ground
      (arith, insert-rule_of b n (sort network_lt ns) (sort-Fresh n ns h.0), sort-rule_of b ns h.1)

update_network-Sets :
    (b : Text) (n : NetworkRule) (ms ns : List NetworkRule)
    → update_network ms n ≡ some ns
    → Sets ms n b ns
unfolding update_network
update_network-Sets b n [] ns h = absurd (ground arith)
update_network-Sets b n (x ∷ ms) ns h = elim (Option-cases (update_network ms n)) [
  | inl e ↦ ground (arith, same_name x.network n.network b, equal_fold_both x.network n.network b)
  | inr (rest, e) ↦ ground (
    arith,
    same_name x.network n.network b,
    equal_fold_both x.network n.network b,
    update_network-Sets b n ms rest e,
  )
]

append-rule_of :
    (b : Text) (n : NetworkRule) (ms : List NetworkRule)
    → update_network ms n ≡ none
    → Sets ms n b (ms ++ n ∷ [])
unfolding update_network
append-rule_of b n [] h = ground arith
append-rule_of b n (x ∷ ms) h = elim (Option-cases (update_network ms n)) [
  | inr (rest, e) ↦ absurd (ground arith)
  | inl e ↦ ground (arith, append-rule_of b n ms e, equal_fold_both x.network n.network b)
]

-- After a change of one network its block is the old one with the fields that the change gives, or the
-- change itself where there was none; the blocks of the other networks stay, and so does it that no two
-- rules have the same name.
pub upsert_network-Sets :
    (n : NetworkRule) (ms : List NetworkRule)
    → DistinctNetworks ms
    → DistinctNetworks (upsert_network ms n) × ((b : Text) → Sets ms n b (upsert_network ms n))
upsert_network-Sets n ms d = (
  upsert_network-Distinct n ms d,
  λ b.
      upsert_network-cases (Sets ms n b) n ms
        (λ e.
          sort-rule_of b (ms ++ n ∷ []) (update_network-append n ms e d) ∙ append-rule_of b n ms e)
        (λ ns e. update_network-Sets b n ms ns e),
)
