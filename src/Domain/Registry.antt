-- ===== src/Domain/Registry.antt =====
-- The exit codes and the two registries over dotted error codes, as lists of their entries
-- (exitcode.go, error.go of internal/domain). A Go map has each key once, and so do the lists.
use daxib.Prelude.{Bool, true, List, [], ◌∷◌, Text, codes}
use daxib.Prelude.Int.{ℤ, pos}

abbrev pub ExitCode : Type 0
ExitCode = ℤ

abbrev pub exit_ok : ExitCode
exit_ok = pos 0

abbrev pub exit_internal : ExitCode
exit_internal = pos 1

abbrev pub exit_usage : ExitCode
exit_usage = pos 2

abbrev pub exit_policy_denied : ExitCode
exit_policy_denied = pos 3

abbrev pub exit_auth : ExitCode
exit_auth = pos 4

abbrev pub exit_insufficient_funds : ExitCode
exit_insufficient_funds = pos 5

abbrev pub exit_network : ExitCode
exit_network = pos 6

abbrev pub exit_fee_policy_denied : ExitCode
exit_fee_policy_denied = pos 7

abbrev pub exit_timeout_pending : ExitCode
exit_timeout_pending = pos 8

abbrev pub exit_tx_conflict : ExitCode
exit_tx_conflict = pos 9

abbrev pub exit_not_found : ExitCode
exit_not_found = pos 10

abbrev pub exit_state : ExitCode
exit_state = pos 11

abbrev pub exit_integrity : ExitCode
exit_integrity = pos 12

-- codeExit
unfoldable pub code_exit : List (Text × ExitCode)
code_exit =
    (codes "internal", exit_internal)
    ∷ (codes "usage", exit_usage)
    ∷ (codes "keystore.confirm_required", exit_usage)
    ∷ (codes "mnemonic.invalid", exit_usage)
    ∷ (codes "mnemonic.required", exit_usage)
    ∷ (codes "wallet.exists", exit_usage)
    ∷ (codes "backend.exists", exit_usage)
    ∷ (codes "config.invalid", exit_usage)
    ∷ (codes "usage.bad_amount", exit_usage)
    ∷ (codes "usage.bad_address", exit_usage)
    ∷ (codes "usage.bad_fee_rate", exit_usage)
    ∷ (codes "usage.bad_timeout", exit_usage)
    ∷ (codes "usage.dust_output", exit_usage)
    ∷ (codes "usage.confirmation_required", exit_usage)
    ∷ (codes "usage.message_required", exit_usage)
    ∷ (codes "usage.bad_signature", exit_usage)
    ∷ (codes "usage.psbt_required", exit_usage)
    ∷ (codes "usage.bad_psbt", exit_usage)
    ∷ (codes "psbt.not_owned", exit_usage)
    ∷ (codes "psbt.incomplete", exit_usage)
    ∷ (codes "psbt.combine_mismatch", exit_usage)
    ∷ (codes "usage.network_required", exit_usage)
    ∷ (codes "policy.denied", exit_policy_denied)
    ∷ (codes "policy.denied.fee_rate", exit_fee_policy_denied)
    ∷ (codes "keystore.bad_passphrase", exit_auth)
    ∷ (codes "keystore.passphrase_required", exit_auth)
    ∷ (codes "policy.admin_auth", exit_auth)
    ∷ (codes "policy.admin_passphrase_required", exit_auth)
    ∷ (codes "secret.unresolved", exit_auth)
    ∷ (codes "funds.insufficient", exit_insufficient_funds)
    ∷ (codes "funds.insufficient_confirmed", exit_insufficient_funds)
    ∷ (codes "coin.selection_failed", exit_insufficient_funds)
    ∷ (codes "backend.unreachable", exit_network)
    ∷ (codes "backend.rpc_error", exit_network)
    ∷ (codes "tx.broadcast_rejected", exit_network)
    ∷ (codes "tx.rejected", exit_network)
    ∷ (codes "tx.fee_too_low", exit_network)
    ∷ (codes "tx.wait_timeout", exit_timeout_pending)
    ∷ (codes "receive.timeout", exit_timeout_pending)
    ∷ (codes "policy.seal_violation", exit_timeout_pending)
    ∷ (codes "policy.rollback", exit_timeout_pending)
    ∷ (codes "policy.version", exit_timeout_pending)
    ∷ (codes "policy.state_error", exit_timeout_pending)
    ∷ (codes "tx.input_spent", exit_tx_conflict)
    ∷ (codes "tx.replaced", exit_tx_conflict)
    ∷ (codes "tx.replacement_rejected", exit_tx_conflict)
    ∷ (codes "tx.already_broadcast", exit_tx_conflict)
    ∷ (codes "ref.not_found", exit_not_found)
    ∷ (codes "config.read_only", exit_not_found)
    ∷ (codes "config.not_found", exit_not_found)
    ∷ (codes "backend.not_found", exit_not_found)
    ∷ (codes "backend.not_configured", exit_not_found)
    ∷ (codes "keystore.read_only", exit_not_found)
    ∷ (codes "keystore.not_found", exit_not_found)
    ∷ (codes "wallet.not_found", exit_not_found)
    ∷ (codes "state.lock_timeout", exit_state)
    ∷ (codes "state.corrupt", exit_state)
    ∷ (codes "backend.network_mismatch", exit_integrity)
    ∷ (codes "keystore.perms_insecure", exit_integrity)
    ∷ (codes "keystore.derivation_watermark", exit_integrity)
    ∷ []

-- retryableDefaults
unfoldable pub retryable_defaults : List (Text × Bool)
retryable_defaults =
    (codes "backend.unreachable", true)
    ∷ (codes "backend.rpc_error", true)
    ∷ (codes "tx.wait_timeout", true)
    ∷ (codes "receive.timeout", true)
    ∷ (codes "tx.replaced", true)
    ∷ (codes "tx.input_spent", true)
    ∷ (codes "tx.fee_too_low", true)
    ∷ (codes "state.lock_timeout", true)
    ∷ (codes "policy.denied.day_limit", true)
    ∷ (codes "policy.denied.fee_rate", true)
    ∷ []
