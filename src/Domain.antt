-- ===== src/Domain.antt =====
-- The one error taxonomy (internal/domain/error.go, exitcode.go): how a dotted error code gets its
-- exit code and its hint to retry from the registries.
mod Tests
pub mod Registry
pub mod Prefixes
pub mod Lanes
pub mod Names
use daxib.Prelude.{
  ℕ, zero, suc, Bool, false, List, [], ◌∷◌, Option, none, some, length, ◌==◌, if◌then◌else◌, Text,
  text_eq, is_empty, codes,
}
use daxib.Domain.Registry.{ExitCode, exit_internal, code_exit, retryable_defaults}

-- The entry of a Go map, in a list that has each key once.
unfoldable pub lookup {ℓ} : {A : Type ℓ} → List (Text × A) → Text → Option A
lookup [] code = none
lookup ((key, a) ∷ m) code = let rest = lookup m code in if text_eq key code then some a else rest

-- code[:i] for i = strings.LastIndexByte(code, '.'), or none where i < 0.
unfoldable pub before_last_dot : Text → Option Text
before_last_dot [] = none
before_last_dot (c ∷ code) = elim (before_last_dot code) [
  | some p ↦ some (c ∷ p)
  | none ↦ if c == b'.' then some [] else none
]

-- The loop of ExitOf and of retryableFor. Each round drops a '.', so the length of the code is fuel
-- enough.
unfoldable pub walk {ℓ} : {A : Type ℓ} → List (Text × A) → ℕ → Text → Option A
walk m zero code = none
walk m (suc fuel) code = elim (before_last_dot code) [
  | none ↦ none
  | some p ↦ elim (lookup m p) [ some a ↦ some a | none ↦ walk m fuel p ]
]

-- The exact match, then the prefixes from the longest to the shortest.
unfoldable pub registered {ℓ} : {A : Type ℓ} → List (Text × A) → Text → Option A
registered m code = elim (lookup m code) [ some a ↦ some a | none ↦ walk m (length code) code ]

abbrev pub or_else {ℓ} : {A : Type ℓ} → Option A → A → A
or_else none a = a
or_else (some b) a = b

-- ExitOf
unfoldable pub exit_of : Text → ExitCode
exit_of code =
    if is_empty code then exit_internal else or_else (registered code_exit code) exit_internal

-- retryableFor
unfoldable pub retryable_for : Text → Bool
retryable_for code =
    if is_empty code then false else or_else (registered retryable_defaults code) false

-- Error, without its message, data and cause.
pub record Error : Type 0 where
  code : Text
  exit : ExitCode
  retryable : Bool

-- New
unfoldable pub new : Text → Error
new code = record { code = code; exit = exit_of code; retryable = retryable_for code }

-- AsError, on the first Error in the chain of an error that is not nil.
unfoldable pub as_error : Option Error → Error
as_error (some e) = e
as_error none = record { code = codes "internal"; exit = exit_internal; retryable = false }
