-- ===== src/Ledger.antt =====
-- packages/budget-ledger/src/ledger.ts: budgets and the reservations on them. The requests and
-- what the environment provides; the children have the operations.
pub mod Auth
pub mod Authenticated
pub mod Binding
pub mod Rows
pub mod Events
pub mod Reserve
pub mod Transitions
pub mod Lease
pub mod Recovery
pub mod Serializable
pub mod Effect
pub mod Outcomes
pub mod Broadcasting
pub mod Sending
pub mod Fences
pub mod Reserving
pub mod Again
pub mod Replaying
pub mod Recovering
pub mod Leases
pub mod Balance
pub mod Fixture
pub mod Runs
pub mod Tests
use crip_wallet.Base.{ℕ, Bool, Option}
use crip_wallet.Schemas.Money.{Text}
use crip_wallet.Store.{AuditActorType, RecoveryOutcome}
use crip_wallet.TrustBoundary.{ComponentAuthorization, Crypto}
use crip_wallet.Audit.{AuditLibrary}

-- What the ledger calls and does not define: node:crypto, the audit schemas with their hash, and
-- the digest of a reserve request (amount, budget, expiry, operation and canonical payload).
pub record Env : Type 0 where
  pub crypto : Crypto
  pub library : AuditLibrary
  pub hash_idempotency_payload : Text → Text → ℕ → Text → Text → Text

-- `Partial<AuditCorrelation>`
pub record AssertedCorrelation : Type 0 where
  pub reservation_id : Option Text
  pub budget_id : Option Text
  pub owner_id : Option Text
  pub agent_id : Option Text
  pub wallet_id : Option Text
  pub intent_id : Option Text
  pub operation_id : Option Text
  pub policy_id : Option Text
  pub policy_version : Option ℕ

-- `AuditContext`
pub record AuditContext : Type 0 where
  pub event_id : Text
  pub actor_type : AuditActorType
  pub actor_id : Text
  pub trace_id : Text
  pub asserted_correlation : Option AssertedCorrelation
  pub component_auth : Option ComponentAuthorization

pub record BroadcastEvidence : Type 0 where
  pub transaction_hash : Text
  pub nonce : Text
  pub receipt_reference : Text

pub record RecoveryLease : Type 0 where
  pub operation_id : Text
  pub reservation_id : Text
  pub credential_id : Text
  pub component_id : Text
  pub lease_version : ℕ
  pub lease_expires_at : ℕ

-- `RecoveryResolution`
pub record RecoveryResolution : Type 0 where
  pub attempt_id : Text
  pub operation_id : Text
  pub reservation_id : Text
  pub lease_version : ℕ
  pub outcome : RecoveryOutcome
  pub reason : Text
  pub actual_spend_atomic : Option Text
  pub proof_reference : Option Text
  pub verified_revert : Bool
  pub audit : AuditContext

-- `RecoveryClaimRequest`; the deprecated time is left out, as the code ignores it. A duration
-- that is no natural number is `none`.
pub record RecoveryClaimRequest : Type 0 where
  pub attempt_id : Text
  pub operation_id : Text
  pub reservation_id : Text
  pub lease_duration_seconds : Option ℕ
  pub audit : AuditContext

-- `ReserveRequest`; an expiry that is no date is `none`, and the payload is its canonical text.
pub record ReserveRequest : Type 0 where
  pub reservation_id : Text
  pub budget_id : Text
  pub operation_id : Text
  pub idempotency_key : Text
  pub idempotency_payload : Text
  pub amount_atomic : Text
  pub expires_at : Option ℕ
  pub audit : AuditContext

-- `TransitionInput`
pub record TransitionInput : Type 0 where
  pub reservation_id : Text
  pub audit : AuditContext
