-- ===== src/Domain/Prefixes.antt =====
-- The dotted prefixes of a code, and that the loops of error.go find the longest one that is
-- registered.
use mathlib.Core.List.{append_assoc}
use daxib.Prelude.{
  ℕ, zero, suc, ◌≤◌, ◌<◌, ◌≡◌, ◌⊎◌, inl, inr, refl, sym, ap, ◌∙◌, arith, List, [], ◌∷◌, ◌++◌,
  Option, none, some, Option-cases, length, length-append, is_empty, if◌then◌else◌, ==_iff, Text,
}
use daxib.Domain.{or_else, lookup, before_last_dot, walk, registered}

-- The text before one of the dots of the code.
abbrev pub IsBeforeDot : Text → Text → Type 0
IsBeforeDot p code = (rest : Text) × (p ++ b'.' ∷ rest ≡ code)

-- The code itself, or the text before one of its dots.
abbrev pub IsDottedPrefix : Text → Text → Type 0
IsDottedPrefix p code = (p ≡ code) ⊎ IsBeforeDot p code

tail-none : (c : ℕ) (code : Text) → before_last_dot (c ∷ code) ≡ none → before_last_dot code ≡ none
unfolding before_last_dot
tail-none c code h = elim (Option-cases (before_last_dot code)) [
  | inl e ↦ e
  | inr (q, e) ↦ ground (arith, h, e)
]

before_last_dot-none :
    (code : Text) → before_last_dot code ≡ none → (p : Text) → IsBeforeDot p code → ⊥
unfolding before_last_dot
before_last_dot-none [] h [] (r, e) = ground arith
before_last_dot-none [] h (d ∷ p) (r, e) = ground arith
before_last_dot-none (c ∷ code) h [] (r, e) = ground (arith, ==_iff c b'.')
before_last_dot-none (c ∷ code) h (d ∷ p) (r, e) =
    before_last_dot-none code (tail-none c code h) p (r, ground (arith, e))

before_last_dot-IsBeforeDot : (code q : Text) → before_last_dot code ≡ some q → IsBeforeDot q code
unfolding before_last_dot
before_last_dot-IsBeforeDot [] q h = ground arith
before_last_dot-IsBeforeDot (c ∷ code) q h = elim (Option-cases (before_last_dot code)) [
  | inl e ↦ (code, ground (arith, h, e, ==_iff c b'.'))
  | inr (q', e) ↦
      let (rest, e') = before_last_dot-IsBeforeDot code q' e in (rest, ground (arith, h, e, e'))
]

-- The text before the last dot has every text before a dot as a dotted prefix.
before_last_dot-last :
    (code q : Text)
    → before_last_dot code ≡ some q
    → (p : Text) → IsBeforeDot p code
    → IsDottedPrefix p q
unfolding before_last_dot
before_last_dot-last [] q h [] e = ground arith
before_last_dot-last [] q h (d ∷ p) e = ground arith
before_last_dot-last (c ∷ code) q h [] (r, e) = elim (Option-cases (before_last_dot code)) [
  | inl n ↦ inl (ground (arith, h, n))
  | inr (q', n) ↦ inr (q', ground (arith, h, n, e))
]
before_last_dot-last (c ∷ code) q h (d ∷ p) (r, e) = elim (Option-cases (before_last_dot code)) [
  | inl n ↦ absurd (before_last_dot-none code n p (r, ground (arith, e)))
  | inr (q', n) ↦ elim (before_last_dot-last code q' n p (r, ground (arith, e))) [
    | inl i ↦ inl (ground (arith, h, n, e, i))
    | inr (r', i) ↦ inr (r', ground (arith, h, n, e, i))
  ]
]

IsBeforeDot-length : (p code : Text) → IsBeforeDot p code → length p < length code
IsBeforeDot-length p code (r, e) = omega (arith, length-append p (b'.' ∷ r), ap length e)

-- The dotted prefixes of a code are the code and those of the text before its last dot.
IsDottedPrefix-before :
    (code q : Text)
    → before_last_dot code ≡ some q
    → (p : Text) → IsDottedPrefix p code
    → (p ≡ code) ⊎ IsDottedPrefix p q
IsDottedPrefix-before code q h p (inl i) = inl i
IsDottedPrefix-before code q h p (inr b) = inr (before_last_dot-last code q h p b)

IsDottedPrefix-of_before :
    (code q : Text)
    → before_last_dot code ≡ some q
    → (p : Text) → IsDottedPrefix p q
    → IsDottedPrefix p code
IsDottedPrefix-of_before code q h p (inl i) =
    let (rest, e) = before_last_dot-IsBeforeDot code q h in
    inr (rest, ap (λ x. x ++ b'.' ∷ rest) i ∙ e)
IsDottedPrefix-of_before code q h p (inr (r, i)) =
    let (rest, e) = before_last_dot-IsBeforeDot code q h in
    inr (
      r ++ b'.' ∷ rest,
      sym (append_assoc p (b'.' ∷ r) (b'.' ∷ rest)) ∙ ap (λ x. x ++ b'.' ∷ rest) i ∙ e,
    )

IsDottedPrefix-length : (p code : Text) → IsDottedPrefix p code → length p ≤ length code
IsDottedPrefix-length p code (inl i) = omega (arith, ap length i)
IsDottedPrefix-length p code (inr b) = omega (arith, IsBeforeDot-length p code b)

module _ {ℓ} {A : Type ℓ} (m : List (Text × A)) where
  -- No dotted prefix of the code is registered.
  abbrev pub NoKey : Text → Type ℓ
  NoKey code = (p : Text) → IsDottedPrefix p code → lookup m p ≡ none

  -- The longest dotted prefix of the code that is registered has this entry.
  abbrev pub LongestKey : Text → A → Type ℓ
  LongestKey code a =
      (p : Text) × IsDottedPrefix p code
      × (lookup m p ≡ some a)
      × ((q : Text) → IsDottedPrefix q code → length p < length q → lookup m q ≡ none)

  abbrev pub Chosen : Text → Option A → Type ℓ
  Chosen code none = NoKey code
  Chosen code (some a) = LongestKey code a

  only_whole :
      (code : Text) → lookup m code ≡ none → ((p : Text) → IsBeforeDot p code → ⊥) → NoKey code
  only_whole code n h p (inl i) = ap (lookup m) i ∙ n
  only_whole code n h p (inr b) = absurd (h p b)

  at_whole : (code : Text) (a : A) → lookup m code ≡ some a → LongestKey code a
  at_whole code a e =
      (code, inl refl, e, λ q b lt. absurd (omega (arith, lt, IsDottedPrefix-length q code b)))

  -- What is chosen for the text before the last dot is chosen for a code that is not registered.
  from_before :
      (code q : Text) (o : Option A)
      → lookup m code ≡ none
      → before_last_dot code ≡ some q
      → Chosen q o
      → Chosen code o
  from_before code q none n e h = λ p b. elim (IsDottedPrefix-before code q e p b) [
    | inl i ↦ ap (lookup m) i ∙ n
    | inr b' ↦ h p b'
  ]
  from_before code q (some a) n e (p, b, l, longest) = (
    p,
    IsDottedPrefix-of_before code q e p b,
    l,
    λ r b' lt. elim (IsDottedPrefix-before code q e r b') [
      | inl i ↦ ap (lookup m) i ∙ n
      | inr b'' ↦ longest r b'' lt
    ],
  )

  walk-Chosen :
      (fuel : ℕ) (code : Text)
      → length code ≤ fuel
      → lookup m code ≡ none
      → Chosen code (walk m fuel code)
  unfolding walk
  walk-Chosen zero code le n =
      only_whole code n (λ p b. omega (arith, le, IsBeforeDot-length p code b))
  walk-Chosen (suc fuel) code le n = elim (Option-cases (before_last_dot code)) [
    | inl e ↦ rw (Chosen, walk, e) (only_whole code n (before_last_dot-none code e))
    | inr (q, e) ↦
        rw (Chosen, walk, e)
          (elim (Option-cases (lookup m q)) [
            | inl n' ↦ rw (n') (
                from_before code q _ n e (
                  walk-Chosen fuel q
                    (omega
                      (arith, le, IsBeforeDot-length q code (before_last_dot-IsBeforeDot code q e)))
                    n'))
            | inr (a, l) ↦ rw (l) (from_before code q (some a) n e (at_whole q a l))
          ])
  ]

  pub registered-Chosen : (code : Text) → Chosen code (registered m code)
  unfolding registered
  registered-Chosen code = elim (Option-cases (lookup m code)) [
    | inl n ↦ rw (Chosen, registered, n) (walk-Chosen (length code) code (omega arith) n)
    | inr (a, l) ↦ rw (Chosen, registered, l) (at_whole code a l)
  ]

  -- The entry of the longest registered dotted prefix, or the default where there is none.
  abbrev pub Resolves : A → Text → A → Type ℓ
  Resolves default code a = LongestKey code a ⊎ (NoKey code × (a ≡ default))

  or_else-Resolves :
      (default : A) (code : Text) (o : Option A)
      → Chosen code o
      → Resolves default code (or_else o default)
  or_else-Resolves default code none h = inr (h, refl)
  or_else-Resolves default code (some a) h = inl h

  pub resolves :
      (default : A) (code : Text)
      → lookup m [] ≡ none
      → Resolves default code
          (if is_empty code then default else or_else (registered m code) default)
  resolves default [] n =
      inr (only_whole [] n (λ p b. omega (arith, IsBeforeDot-length p [] b)), refl)
  resolves default (c ∷ code) n =
      or_else-Resolves default (c ∷ code) (registered m (c ∷ code)) (registered-Chosen (c ∷ code))
