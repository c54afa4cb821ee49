-- ===== src/Lib.antt =====
-- daxib, a Bitcoin wallet for agents: a model of its core, checked.
--
-- The program signs and sends Bitcoin transactions on behalf of an agent. A spend is checked against
-- a sealed policy and reserved in a counter (internal/policy), its inputs and its fee are chosen
-- (internal/coinselect), and each of its states is a line of a journal (internal/journal). The
-- amounts that users and nodes give are parsed without floats (internal/domain, internal/backend).
-- The service composes them: it reserves, signs, journals, broadcasts and settles a send, and
-- reconciles what a crash left (internal/service). These parts and the error codes are modelled; the
-- definitions are translated from the Go source and run, and child modules hold what is proved of
-- them.
--
-- Policy (internal/policy, internal/policyseal).
--   Policy/Body: the policy's data (body.go). Policy/Evaluate: resolveLimits and Evaluate
--   (evaluate.go) over a spend, the sum of the window and the instant. Policy/Counter: the counter
--   file of a network, sumWindow and prune (counter.go). Policy/Seal: decodeEnvelope,
--   verifyUnderAnchor, decodeBodyStrict and its tri-state pass (body.go, policyseal). Policy/Engine:
--   loadActive, Check, Reserve, Commit, Release, AdoptReservation, ReleaseReservation and
--   ReservationState (engine.go), as functions on the engine's state: the pinned anchor, the policy
--   file and the counter files. The lock of a network makes each call one step, so a history is a
--   sequence of such calls (Policy/Engine/History).
--   Policy/Engine/Orphans: Orphans, CommitOrphan and ReleaseOrphan. Policy/Seal/Keys: DeriveSealKey,
--   Sign and the staged keys (policyseal). Policy/Writer: the canonical writer of the body and of the
--   envelope (body.go). Policy/Admin: InitSeal, Set, Allow, Deny and Reset over mutate (admin.go).
--   Policy/Rotation: the phases of the passphrase rotation and its recovery (rotation.go), and
--   PolicyChangeAdminPassphrase, which lands the anchors (internal/service/policy_ops.go). The anchor on
--   disk is the field landed of a Host, and the policy file is that of its engine; a crash is a write
--   that fails, before or after its effect, and ends the call.
--   encoding/json, base64, scrypt, HKDF and ed25519 are parameters, the records Codec and Crypto; the
--   record Lawful has what is asked of base64 and ed25519, and ReadsBack that encoding/json reads the
--   JSON of a policy and of its envelope back, for the ones at hand; that the writer writes that JSON is
--   proved (Policy/Writer/Json), and that json.Unmarshal reads a nonce is asked of single bodies. A timestamp is represented
--   by the instant that parseTS reads from it, in nanoseconds, or by none.
-- Coin selection (internal/coinselect).
--   Coinselect: the sizes and fees (vsize.go) and the data of select.go. Coinselect/Dust: dust.go.
--   Coinselect/Bnb: bnb, its closure dfs with the state Search (the visits and the best subset).
--   Coinselect/Select: Select, split at its comments: the economic coins (keep_economic), the
--   search and the two selections without it (choose, accumulate).
-- Amounts (internal/domain/amount.go, internal/backend/amount.go).
--   Amounts: ParseAmountToSats with parseSatSuffix and parseBTCBody, SourceUnit, and
--   decimalBTCToSats. Texts are ASCII.
-- Journal (internal/journal).
--   Journal: the records, applyTo, foldLatest (record.go, store.go). Journal/Store: readAll,
--   appendLine, maybeCompact, compact, Append, SetState and the queries (store.go,
--   store_jsonl.go), on files of lines: a line is what it decodes to, and a file can end in a torn
--   line. The map of foldLatest is a list with one record per id; where Go ranges over it in no
--   fixed order the model takes the order of the list.
--
-- Service (internal/service).
--   Service/Validate: validateSendInputs, and Service/FeeRate: parseFeeRate, resolveFeeRate and
--   resolveBumpRate (send.go, fee.go, tx_replace.go). Service/Funding: buildUnsigned (send.go), with
--   the answers of the backend and the keystore in the record Answers. Service/Signing: what buildAndSign
--   does from its reserve callback on. Service/Artifact: journalRecord and splitOutpoint (tx_result.go).
--   Service/Broadcast: broadcastClassified and classifyBroadcastErr (tx_send.go); the attempts are a
--   list, at most four in the source. Service/Send: the critical section of SendTx behind the send-lock,
--   on the World of a journal store and a policy engine; what buildAndSign computes before and after its
--   reserve callback is the argument Build, and Service/Signing gives it. Service/Replace: buildReplacement,
--   and Service/Bump: replaceTx (tx_replace.go), which differ from a send in the link to the original.
--   Service/Restart: reconcilePolicyOrphans (policy.go), reservedOutpoints and reconcileWallet
--   (tx_send.go). Service/Abandon: AbandonTx (tx_abandon.go).
--   What btcsuite computes is the record Btc: the decoding of addresses, their scripts and the hashes of
--   transaction ids; a decoded address is kept as a text. The signatures are the record Signer. The map
--   byAddr is a list of assignments; where Go ranges over it in no fixed order the model takes the order
--   of the list. A signed transaction is its bytes, its id and its sizes.
--   Contexts, event sinks and the results for display are left out.
-- Error codes (internal/domain/error.go, exitcode.go).
--   Domain: ExitOf, retryableFor, New and AsError, over the registries of Domain/Registry (maps, as
--   lists of their entries). The loop over the dotted prefixes runs on the length of the code, which
--   bounds the number of its dots. Domain/Names: ExitCode.String and its printer of integers; a write
--   before the start of the printer's buffer, which would panic, is none.
--
-- Prelude has what the parts share: tests and conditionals, lists and texts, the integers ℤ over the
-- native naturals, int64 with its wrap-around (Int64), big.Int decimals (Decimal), results with do
-- blocks (Outcome), the stable sort (Sort) and lists up to order (Subsets).
--
-- Bounds. Machine integers wrap around; the theorems of coin selection assume that the amounts stay
-- in range, which those of real coins do. Only the loop over the dotted prefixes of an error code
-- runs on fuel: the search recurses on the values, and its cap of 100000 visits is the source's.
-- What the clock, the locks and the file system do in a call is an argument of it (the records Io),
-- with the failures the source handles.
--
-- Not modelled: texts of messages and JSON encodings; a record of the journal whose status is none of
-- the five, or whose version is negative; a torn last line that is blank; a counter write whose
-- directory sync alone fails; the JSON form of the anchor; two processes that interleave inside a send.
-- The policy engine is open from the start of a call; an error of its opening is left out. The gate of
-- confirmation, the status poll, the wait loop, key storage, PSBT, BIP-322, the backends, configuration,
-- contacts, the command line and the MCP server are not modelled: they call cryptographic, network and
-- terminal libraries, or build on the parts above.
pub mod Prelude
pub mod Amounts
pub mod Coinselect
pub mod Domain
pub mod Journal
pub mod Policy
pub mod Service
