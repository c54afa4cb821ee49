-- ===== src/Service/Broadcast/Outcomes.antt =====
-- What a broadcast comes to (classifyBroadcastErr and broadcastClassified of
-- internal/service/tx_send.go).
use daxib.Prelude.{◌≡◌, ◌⊎◌, ◌↔◌, true, false, List, [], ◌∷◌, map, Text, arith, to_lower}
use daxib.Service.Broadcast.{
  BackendError, BroadcastOutcome, accepted, transport_exhausted, rejected, Attempt, context_done,
  answers, fails, contains_any, already_known, transient_markers, spent_markers, fee_markers,
  reject_markers, looks_transient_broadcast, is_unreachable, classify_broadcast_err,
  broadcast_classified,
}

-- The text of an error, as the classifier reads it.
abbrev lowered : BackendError → Text
lowered e = map to_lower e.message

-- An error that shows the transaction invalid: it names a permanent reason, and nothing in it says that
-- the network or the node was at fault, or that the transaction is known.
abbrev pub Permanent : BackendError → Type 0
Permanent e =
    (contains_any (lowered e) already_known ≡ false)
    × (e.cancelled ≡ false)
    × (is_unreachable e.code ≡ false)
    × (contains_any (lowered e) transient_markers ≡ false)
    × ((contains_any (lowered e) spent_markers ≡ true)
        ⊎ ((contains_any (lowered e) fee_markers ≡ true)
            ⊎ (contains_any (lowered e) reject_markers ≡ true)))

-- An error is a rejection exactly where it shows the transaction invalid; it counts as an acceptance
-- exactly where it says that the transaction is known; and a further attempt is made for all others.
pub classify_broadcast_err-Permanent :
    (e : BackendError)
    → ((classify_broadcast_err e).outcome ≡ rejected ↔ Permanent e)
      × ((classify_broadcast_err e).outcome ≡ accepted
          ↔ contains_any (lowered e) already_known ≡ true)
      × ((classify_broadcast_err e).outcome ≡ transport_exhausted
          ↔ (classify_broadcast_err e).retry ≡ true)
unfolding classify_broadcast_err looks_transient_broadcast
classify_broadcast_err-Permanent e = (ground arith, ground arith, ground arith)

-- An attempt that ends the broadcast with the outcome.
abbrev Ends : BroadcastOutcome → Attempt → Type 0
Ends accepted (answers txid) = Unit
Ends accepted (fails e) = contains_any (lowered e) already_known ≡ true
Ends rejected (fails e) = Permanent e
Ends _ _ = ⊥

-- An attempt after which another one is made.
abbrev Retried : Attempt → Type 0
Retried (fails e) = (contains_any (lowered e) already_known ≡ false) × ¬ Permanent e
Retried _ = ⊥

-- Some attempt ends the broadcast with the outcome, and all before it were retried.
abbrev pub EndsWith : BroadcastOutcome → List Attempt → Type 0
EndsWith o [] = ⊥
EndsWith o (a ∷ as') = Ends o a ⊎ (Retried a × EndsWith o as')

-- A broadcast is accepted exactly where, after retried failures, the backend answers with no error or
-- says that it has the transaction; it is rejected exactly where, after retried failures, an error shows
-- the transaction invalid; in every other case its outcome is open.
pub broadcast_classified-EndsWith :
    (as' : List Attempt)
    → ((broadcast_classified as').outcome ≡ accepted ↔ EndsWith accepted as')
      × ((broadcast_classified as').outcome ≡ rejected ↔ EndsWith rejected as')
unfolding broadcast_classified
broadcast_classified-EndsWith [] = (ground arith, ground arith)
broadcast_classified-EndsWith (context_done ∷ as') = (ground arith, ground arith)
broadcast_classified-EndsWith (answers txid ∷ as') = (ground arith, ground arith)
broadcast_classified-EndsWith (fails e ∷ as') =
    let c = classify_broadcast_err-Permanent e in
    let ih = broadcast_classified-EndsWith as' in (ground arith, ground arith)
