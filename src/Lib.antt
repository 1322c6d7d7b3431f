-- ===== src/Lib.antt =====
-- Verification of the crip-wallet control plane: the path of a transfer from its intent to the
-- settlement of its budget.
--
-- The program and its parts. An agent sends an intent (packages/schemas). The policy engine
-- (packages/policy-engine) decides on it without state. An operation follows the lifecycle of
-- packages/schemas/src/lifecycle.ts. The budget ledger (packages/budget-ledger) sets the amount
-- aside for the operation, follows its broadcast, and settles or returns it, in serializable
-- transactions on PostgreSQL; components that act on the ledger are authenticated by
-- packages/trust-boundary, and every change writes an event of packages/audit in the same
-- transaction.
--
-- Before an operation is authorized its transfer is constructed, decoded again and verified
-- (packages/transaction-pipeline); after that it is signed, and broadcast under a lock by the
-- local adapter (adapters/local-anvil), which persists an attempt before it sends.
--
-- Files. Base has the names and lemmas that all share. Schemas/ has one module for each file of
-- packages/schemas/src that is modelled: Lifecycle (lifecycle.ts, with Lifecycle/Order), Money
-- (money.ts, with Money/Decimal for the numbers of decimal texts and Money/Bounds), Common
-- (common.ts), Grade (enforcement-grade.ts), Intent (intent.ts) and PolicyContract (policy.ts).
-- Policy/ has packages/policy-engine/src/index.ts: Atomic is compareAtomic, isAtomicAtMost and
-- subtractAtomic, Rules is evaluateRules, Engine is evaluatePolicy. Store has the rows of the
-- tables (migrations/), Store/Tables a SELECT and an UPDATE by key, Store/Tx a transaction as a
-- function from a database to an error or a result with a new database, Store/Query its reads,
-- and Store/Funds the balance of budgets with the moves that keep it. TrustBoundary has
-- verifyComponentAction, Audit has appendAuditEvent. Ledger/ has packages/budget-ledger/src:
-- Auth, Binding, Rows and Events are its helpers, Reserve is reserveBudget, Transitions is
-- authorizeReservation to disputeReservation, Lease is claimRecoveryLease, Recovery is
-- resolveRecovery, Serializable is withSerializableTransaction of transaction.ts. What the
-- operations leave is in Ledger/Fences, Ledger/Reserving, Ledger/Outcomes, Ledger/Broadcasting,
-- Ledger/Sending, Ledger/Recovering and Ledger/Leases, and Ledger/Balance puts them together;
-- Ledger/Authenticated says what the authentication of a component has checked, Ledger/Again and
-- Ledger/Replaying what becomes of a reserve request that is repeated. Transfer/ has
-- packages/transaction-pipeline/src: Candidate (candidate.ts), Decode (decode-transfer.ts),
-- Construct (construct-transfer.ts), Verify (verify-transfer.ts), Values for what is known of
-- values of type unknown, and Digits, Words and Encoding for the numbers and the calldata;
-- Decoding, Constructing, Comparing and Roundtrip have the theorems. Adapter/ has
-- adapters/local-anvil/src: World is the state of a broadcast and the actions on it, Attempts the
-- rows of broadcast attempts (broadcast-store.ts, execution-store.ts), Broadcast is
-- broadcast-core.ts, Execution is execution-core.ts; Rows, Sends, Once and Runs say what they
-- leave. Control/ has packages/approvals/src/control.ts: Fences is assertTarget, ensureFence,
-- lockMutationFence and lockControlFences, Events the audit events of fences, Rows the operations
-- that a command affects, Statements and Invalidate what it does to them, Change is
-- changeControlFence, Revalidate is revalidateAuthorization; Later, Frame, Changing, Changed,
-- Revalidated and Stopped have the theorems. Evidence/ has
-- packages/transaction-pipeline/src/chain-evidence.ts: Unknown has the values of type unknown,
-- Parse parseTransaction to transferFromLog, Expectation the tests of the expectation, Checks and
-- Verify verifyUntrustedChainEvidence; Matching, Settling and Verified have the theorems. Control
-- and Ledger share the fences, operations and reservations of one database. Names are those of
-- the source in snake case.
--
-- Conventions and bounds. A text is its list of UTF-16 units, a numeric column a natural number:
-- a statement that would make one negative fails, as its CHECK constraint demands. Amounts are
-- parsed by atomicUnitSchema before they are read as numbers. A timestamp is a number, and the
-- clocks of the database and the process are arguments. A transaction runs alone, since its
-- isolation is serializable: row locks have no counterpart. Serialization failures are a
-- parameter of the retry loop, which runs on the number of retries left, so no fuel is needed; no
-- other loop of the modelled code is unbounded. Parameters are the signature check and digest of
-- node:crypto, the schema and hash of audit events, the hash of policy decisions and the digest
-- of reserve requests, the URL parser, the schema and hash of execution envelopes, the encoder,
-- parser, serializer and hash of viem, and the sender of raw transactions, whose reply may depend
-- on the whole world. The decimal text of n is written in at most n + 1 steps, which is enough
-- since each step divides by ten; words have 64 digits. An action of the adapter that throws
-- keeps what it has committed, since its statements commit one by one. The signer of
-- signer-core.ts is an interface: the theorems on executions ask that it neither sends nor writes
-- attempts.
--
-- Not modelled: triggers of the migrations and the checks of text formats in them, which only
-- refuse statements, such as the canonical authorization that an AUTHORIZED, BROADCAST or
-- FINALIZED reservation needs at the commit (migrations 0019 and 0023) and the fence on releases
-- of a reservation with an attempt that may be sent (0023); so what is said of a success of an
-- operation holds where the database commits it, and none is said to be committed (but the
-- transition of a broadcast attempt is modelled), the order in which a command takes the rows of
-- a SELECT, approvals and the authentication of owners (packages/approvals/src/core.ts,
-- packages/approvals/src/owner-auth.ts), the schema of execution envelopes
-- (packages/schemas/src/envelope.ts), the simulation and preparation of
-- packages/transaction-pipeline, and of the local adapter (adapters/local-anvil) the signer, the
-- reconciliation and the processes.
pub mod Base
pub mod Schemas
pub mod Policy
pub mod Store
pub mod Adapter
pub mod Control
pub mod Transfer
pub mod Evidence
pub mod TrustBoundary
pub mod Audit
pub mod Ledger
