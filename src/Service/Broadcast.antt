-- ===== src/Service/Broadcast.antt =====
-- Broadcasting a signed transaction (broadcastClassified, classifyBroadcastErr, looksTransientBroadcast
-- of internal/service/tx_send.go). The backend is a list of replies, one for each attempt.
pub mod Outcomes
use daxib.Prelude.{
  ℕ, Bool, true, false, ◌&&◌, ◌||◌, List, [], ◌∷◌, map, Option, none, some, ◌==◌, if◌then◌else◌,
  Text, codes, to_lower,
}

-- strings.HasPrefix and strings.Contains
unfoldable pub has_prefix : Text → Text → Bool
has_prefix s [] = true
has_prefix [] (c ∷ p) = false
has_prefix (d ∷ s) (c ∷ p) = d == c && has_prefix s p

unfoldable pub contains : Text → Text → Bool
contains [] sub = has_prefix [] sub
contains (c ∷ s) sub = has_prefix (c ∷ s) sub || contains s sub

unfoldable pub contains_any : Text → List Text → Bool
contains_any msg [] = false
contains_any msg (sub ∷ subs) = contains msg sub || contains_any msg subs

-- The code of a typed error, as far as the classifier asks.
pub data ErrorCode : Type 0 where
  backend_unreachable backend_rpc_error other_code : ErrorCode

-- An error of Broadcast: its text, whether it is a deadline or a cancellation, and its typed code.
pub record BackendError : Type 0 where
  pub message : Text
  pub cancelled : Bool
  pub code : Option ErrorCode

abbrev pub is_unreachable : Option ErrorCode → Bool
is_unreachable (some backend_unreachable) = true
is_unreachable _ = false

pub data BroadcastOutcome : Type 0 where
  accepted transport_exhausted rejected : BroadcastOutcome

-- The code of the error that a rejection is mapped to.
pub data RejectCode : Type 0 where
  input_spent fee_too_low broadcast_rejected : RejectCode

abbrev pub already_known : List Text
already_known =
    codes "txn-already-in-mempool"
    ∷ codes "already in block chain"
    ∷ codes "transaction already in block chain"
    ∷ codes "already known"
    ∷ codes "txn-already-known"
    ∷ []

abbrev pub transient_markers : List Text
transient_markers =
    codes "connection refused"
    ∷ codes "timeout"
    ∷ codes "no such host"
    ∷ codes "eof"
    ∷ codes "connection reset"
    ∷ codes "broken pipe"
    ∷ codes "-28"
    ∷ codes "in warmup"
    ∷ codes "warming up"
    ∷ codes "loading"
    ∷ codes "initializing"
    ∷ codes "try again"
    ∷ codes "rate limit"
    ∷ codes "too many requests"
    ∷ codes "unavailable"
    ∷ codes "503"
    ∷ codes "502"
    ∷ codes "504"
    ∷ []

-- looksTransientBroadcast
unfoldable pub looks_transient_broadcast : Text → Bool
looks_transient_broadcast msg = contains_any msg transient_markers

abbrev pub spent_markers : List Text
spent_markers =
    codes "bad-txns-inputs-missingorspent" ∷ codes "missing inputs" ∷ codes "missing-inputs" ∷ []

abbrev pub fee_markers : List Text
fee_markers =
    codes "min relay fee not met"
    ∷ codes "mempool min fee not met"
    ∷ codes "insufficient fee"
    ∷ codes "fee too low"
    ∷ codes "min-relay"
    ∷ []

abbrev pub reject_markers : List Text
reject_markers =
    codes "dust"
    ∷ codes "scriptpubkey"
    ∷ codes "non-mandatory-script-verify"
    ∷ codes "non-final"
    ∷ codes "bad-txns"
    ∷ []

-- What an error is taken for: an outcome, the code of a rejection, and whether to try again.
pub record Class : Type 0 where
  pub outcome : BroadcastOutcome
  pub code : Option RejectCode
  pub retry : Bool

abbrev pub class_accepted : Class
class_accepted = record { outcome = accepted; code = none; retry = false }

abbrev pub class_exhausted : Class
class_exhausted = record { outcome = transport_exhausted; code = none; retry = true }

abbrev pub class_rejected : RejectCode → Class
class_rejected c = record { outcome = rejected; code = some c; retry = false }

-- classifyBroadcastErr of an error.
unfoldable pub classify_broadcast_err : BackendError → Class
classify_broadcast_err e =
    let msg = map to_lower e.message in
    if contains_any msg already_known
    then class_accepted
    else if e.cancelled
    then class_exhausted
    else if is_unreachable e.code
    then class_exhausted
    else if looks_transient_broadcast msg
    then class_exhausted
    else if contains_any msg spent_markers
    then class_rejected input_spent
    else if contains_any msg fee_markers
    then class_rejected fee_too_low
    else if contains_any msg reject_markers
    then class_rejected broadcast_rejected
    else class_exhausted

-- What one attempt of the loop meets: the context ends during the pause before it, or the backend
-- answers.
pub data Attempt : Type 0 where
  context_done : Attempt
  answers : (txid : Text) → Attempt
  fails : BackendError → Attempt

pub record Broadcasted : Type 0 where
  pub outcome : BroadcastOutcome
  pub txid : Text
  pub code : Option RejectCode

abbrev pub exhausted : Broadcasted
exhausted = record { outcome = transport_exhausted; txid = []; code = none }

-- broadcastClassified, over the attempts that its schedule of pauses makes.
unfoldable pub broadcast_classified : List Attempt → Broadcasted
broadcast_classified [] = exhausted
broadcast_classified (context_done ∷ as') = exhausted
broadcast_classified (answers txid ∷ as') = record { outcome = accepted; txid = txid; code = none }
broadcast_classified (fails e ∷ as') =
    let more = broadcast_classified as' in
    let c = classify_broadcast_err e in
    elim c.outcome [
      | accepted ↦ record { outcome = accepted; txid = []; code = none }
      | transport_exhausted ↦
          (if c.retry then more else record { outcome = rejected; txid = []; code = c.code })
      | rejected ↦
          (if c.retry then more else record { outcome = rejected; txid = []; code = c.code })
    ]
