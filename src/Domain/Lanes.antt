-- ===== src/Domain/Lanes.antt =====
-- What the two registries give for every code (ExitOf and retryableFor of error.go).
use daxib.Prelude.{
  ℕ, ◌≤◌, ◌≡◌, inl, inr, refl, arith, Bool, true, false, ◌&&◌, List, [], ◌∷◌, some, leb, tests,
  Text, text_eq,
}
use daxib.Domain.{lookup, new, exit_of, retryable_for}
use daxib.Prelude.Int.{pos, negsuc}
use daxib.Domain.Registry.{ExitCode, code_exit, retryable_defaults, exit_internal}
use daxib.Domain.Prefixes.{Resolves, resolves}

exit_of-Resolves : (code : Text) → Resolves code_exit exit_internal code (exit_of code)
unfolding exit_of lookup code_exit text_eq
exit_of-Resolves code = resolves code_exit exit_internal code refl

retryable_for-Resolves : (code : Text) → Resolves retryable_defaults false code (retryable_for code)
unfolding retryable_for lookup retryable_defaults text_eq
retryable_for-Resolves code = resolves retryable_defaults false code refl

-- Every error code gets the exit code of its longest dotted prefix that is registered, the code
-- itself included, or that of an internal error where none is; and its hint to retry is that of its
-- longest dotted prefix among the defaults, or false where there is none.
pub new-Resolves :
    (code : Text)
    → Resolves code_exit exit_internal code (new code).exit
      × Resolves retryable_defaults false code (new code).retryable
unfolding new
new-Resolves code = (exit_of-Resolves code, retryable_for-Resolves code)

-- The lanes of the exit codes that are errors.
abbrev in_lanes : ExitCode → Bool
in_lanes (pos n) = leb 1 n && leb n 12
in_lanes (negsuc n) = false

abbrev all_in_lanes : List (Text × ExitCode) → Bool
all_in_lanes [] = true
all_in_lanes ((key, n) ∷ m) = in_lanes n && all_in_lanes m

lookup-in_lanes :
    (m : List (Text × ExitCode)) (p : Text) (n : ExitCode)
    → all_in_lanes m ≡ true
    → lookup m p ≡ some n
    → in_lanes n ≡ true
unfolding lookup
lookup-in_lanes [] p n h e = ground (arith, e)
lookup-in_lanes ((key, a) ∷ m) p n h e = ground (arith, h, e, lookup-in_lanes m p n)

-- An integer from 1 to 12.
abbrev pub IsLane : ExitCode → Type 0
IsLane c = (n : ℕ) × (c ≡ pos n) × (1 ≤ n) × (n ≤ 12)

in_lanes-IsLane : (c : ExitCode) → in_lanes c ≡ true → IsLane c
in_lanes-IsLane (pos n) h = (n, refl, grind (tests, h), grind (tests, h))
in_lanes-IsLane (negsuc n) h = ground (arith, h)

lookup-IsLane : (p : Text) (c : ExitCode) → lookup code_exit p ≡ some c → IsLane c
unfolding code_exit
lookup-IsLane p c l = in_lanes-IsLane c (lookup-in_lanes code_exit p c refl l)

-- No error code, registered or not, exits as a success: its exit code is from 1 to 12.
pub exit_of-IsLane : (code : Text) → IsLane (exit_of code)
exit_of-IsLane code = elim (exit_of-Resolves code) [
  | inl (p, b, l, longest) ↦ lookup-IsLane p (exit_of code) l
  | inr (n, e) ↦ (1, e, omega arith, omega arith)
]
