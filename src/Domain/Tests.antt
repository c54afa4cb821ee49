-- ===== src/Domain/Tests.antt =====
-- Tests of the error taxonomy, and the instances at which its theorems apply.
use daxib.Prelude.{◌≡◌, refl, arith, codes, none, some, true, false, Text}
use daxib.Prelude.Int.{pos, negsuc}
use daxib.Prelude.Decimal.{set_string}
use daxib.Domain.{exit_of, retryable_for, new, as_error, Error}
use daxib.Domain.Registry.{code_exit, retryable_defaults, exit_internal}
use daxib.Domain.Prefixes.{Resolves}
use daxib.Domain.Lanes.{new-Resolves}
use daxib.Domain.Names.{itoa, name, itoa-set_string}

fee_rate : exit_of (codes "policy.denied.fee_rate") ≡ pos 7
unfolding exit_of daxib.Domain.registered daxib.Domain.lookup code_exit daxib.Prelude.text_eq
fee_rate = refl

day_limit : exit_of (codes "policy.denied.day_limit") ≡ pos 3
unfolding exit_of daxib.Domain.registered daxib.Domain.lookup code_exit daxib.Prelude.text_eq
    daxib.Domain.walk daxib.Domain.before_last_dot
day_limit = refl

no_dotted_prefix : exit_of (codes "policy.deniedx.a") ≡ pos 1
unfolding exit_of daxib.Domain.registered daxib.Domain.lookup code_exit daxib.Prelude.text_eq
    daxib.Domain.walk daxib.Domain.before_last_dot
no_dotted_prefix = refl

day_limit_retries : retryable_for (codes "policy.denied.day_limit.x") ≡ true
unfolding retryable_for daxib.Domain.registered daxib.Domain.lookup retryable_defaults
    daxib.Prelude.text_eq daxib.Domain.walk daxib.Domain.before_last_dot
day_limit_retries = refl

denied_retries_not : retryable_for (codes "policy.denied.denylisted") ≡ false
unfolding retryable_for daxib.Domain.registered daxib.Domain.lookup retryable_defaults
    daxib.Prelude.text_eq daxib.Domain.walk daxib.Domain.before_last_dot
denied_retries_not = refl

internal_error : (as_error none).exit ≡ pos 1
unfolding as_error
internal_error = refl

-- exitcode.go puts a failed authentication of the administrator at 8; the registry has 4.
admin_auth_exit : exit_of (codes "policy.admin_auth") ≡ pos 4
unfolding exit_of daxib.Domain.registered daxib.Domain.lookup code_exit daxib.Prelude.text_eq
admin_auth_exit = refl

name_conflict : name (pos 9) ≡ some (codes "TX_CONFLICT")
unfolding name
name_conflict = refl

name_unknown : name (negsuc 41) ≡ some (codes "EXIT(-42)")
unfolding name itoa daxib.Domain.Names.fill
name_unknown = refl

least_int : itoa (negsuc 9223372036854775807) ≡ some (codes "-9223372036854775808")
unfolding itoa daxib.Domain.Names.fill
least_int = refl

new-Resolves_example :
    Resolves code_exit exit_internal
      (codes "tx.input_spent.x")
      (new (codes "tx.input_spent.x")).exit
    × Resolves retryable_defaults false
        (codes "tx.input_spent.x")
        (new (codes "tx.input_spent.x")).retryable
new-Resolves_example = new-Resolves (codes "tx.input_spent.x")

itoa-set_string_example :
    (t : Text) × (itoa (negsuc 41) ≡ some t) × (set_string t ≡ some (negsuc 41))
itoa-set_string_example = itoa-set_string (negsuc 41) (omega arith, omega arith)
