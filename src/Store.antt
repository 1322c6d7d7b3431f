-- ===== src/Store.antt =====
-- The rows of the PostgreSQL tables that the packages read and write (migrations/), one record
-- for each table with the columns that the code uses. Texts are lists of UTF-16 units, numeric
-- columns are natural numbers, and a timestamp is its number of milliseconds.
pub mod Tables
pub mod Tx
pub mod Query
pub mod Funds
use crip_wallet.Base.{ℕ, Bool, List, Option}
use crip_wallet.Schemas.Money.{Text}
use crip_wallet.Schemas.Lifecycle.{LifecycleState}
use crip_wallet.Schemas.PolicyContract.{PolicyStatus}

-- `ReservationStatus` of packages/budget-ledger/src/ledger.ts
pub data ReservationStatus : Type 0 where
  held authorized broadcast finalized released expired disputed : ReservationStatus

-- `ComponentRole` of packages/trust-boundary/src/index.ts
pub data ComponentRole : Type 0 where
  adapter reconciler : ComponentRole

pub data CredentialStatus : Type 0 where
  active revoked : CredentialStatus

-- `AuthenticatedComponent` of ledger.ts
pub record AuthenticatedComponent : Type 0 where
  pub credential_id : Text
  pub component_id : Text
  pub role : ComponentRole
  pub auth_payload_hash : Text
  pub signature : Text

-- budget_accounts (`BudgetRow`)
pub record Budget : Type 0 where
  pub budget_id : Text
  pub agent_id : Text
  pub wallet_id : Text
  pub policy_id : Text
  pub policy_version : ℕ
  pub allocated : ℕ
  pub available : ℕ
  pub reserved : ℕ
  pub finalized_spend : ℕ
  pub version : ℕ

-- budget_reservations (`ReservationRow`, and `ReservationSnapshot`, its rendering)
pub record Reservation : Type 0 where
  pub reservation_id : Text
  pub budget_id : Text
  pub operation_id : Text
  pub idempotency_key : Text
  pub amount_atomic : ℕ
  pub finalized_spend_atomic : ℕ
  pub status : ReservationStatus
  pub expires_at : ℕ
  pub proof_reference : Option Text

-- operations
pub record Operation : Type 0 where
  pub operation_id : Text
  pub intent_id : Text
  pub agent_id : Text
  pub wallet_id : Text
  pub policy_id : Text
  pub policy_version : ℕ
  pub current_state : LifecycleState

-- intents
pub record IntentRow : Type 0 where
  pub intent_id : Text
  pub agent_id : Text
  pub wallet_id : Text
  pub policy_id : Text
  pub policy_version : ℕ

-- agents
pub record Agent : Type 0 where
  pub agent_id : Text
  pub owner_id : Text

-- wallets
pub record Wallet : Type 0 where
  pub wallet_id : Text
  pub owner_id : Text

-- policies
pub record PolicyRow : Type 0 where
  pub policy_id : Text
  pub owner_id : Text
  pub agent_id : Text
  pub wallet_id : Text
  pub status : PolicyStatus

-- `ControlScopeType` and `ControlState` of packages/approvals/src/control.ts
pub data ControlScopeType : Type 0 where
  system owner agent policy : ControlScopeType

pub data ControlState : Type 0 where
  active paused revoked : ControlState

-- control_fences
pub record ControlFence : Type 0 where
  pub scope_type : ControlScopeType
  pub scope_id : Text
  pub fence_version : ℕ
  pub state : ControlState
  pub last_control_event_id : Option Text

-- `ControlFenceSnapshot`
pub record ControlFenceSnapshot : Type 0 where
  pub system_fence_version : ℕ
  pub system_state : ControlState
  pub owner_fence_version : ℕ
  pub owner_state : ControlState
  pub agent_fence_version : ℕ
  pub agent_state : ControlState
  pub policy_fence_version : ℕ
  pub policy_state : ControlState

-- trusted_component_credentials
pub record Credential : Type 0 where
  pub credential_id : Text
  pub component_id : Text
  pub component_role : ComponentRole
  pub public_key : Text
  pub status : CredentialStatus

pub data VerificationStatus : Type 0 where
  pending verified : VerificationStatus

-- reservation_broadcast_evidence (`BroadcastEvidenceRow`); the five columns of each
-- authentication are one field, and `verified_by` is written with the second.
pub record BroadcastEvidenceRow : Type 0 where
  pub reservation_id : Text
  pub transaction_hash : Text
  pub nonce : ℕ
  pub receipt_reference : Text
  pub adapter : AuthenticatedComponent
  pub verification_status : VerificationStatus
  pub verification : Option AuthenticatedComponent

-- idempotency_records
pub record IdempotencyRecord : Type 0 where
  pub idempotency_key : Text
  pub payload_hash : Text
  pub intent_id : Text
  pub operation_id : Text
  pub reservation_id : Option Text

pub data LeaseState : Type 0 where
  active resolved : LeaseState

-- operation_recovery_leases
pub record Lease : Type 0 where
  pub operation_id : Text
  pub reservation_id : Text
  pub credential_id : Text
  pub lease_version : ℕ
  pub lease_expires_at : ℕ
  pub lease_state : LeaseState

-- `RecoveryOutcome` of ledger.ts
pub data RecoveryOutcome : Type 0 where
  confirmed failed ambiguous conflict : RecoveryOutcome

-- recovery_attempts
pub record RecoveryAttempt : Type 0 where
  pub attempt_id : Text
  pub operation_id : Text
  pub reservation_id : Text
  pub lease_version : ℕ
  pub credential_id : Text
  pub outcome : RecoveryOutcome
  pub resolution_hash : Text
  pub reason : Text
  pub actual_spend_atomic : Option ℕ
  pub proof_reference : Option Text

-- `ApprovalStatus` of packages/approvals/src/core.ts
pub data ApprovalStatus : Type 0 where
  pending approved rejected expired revoked consumed : ApprovalStatus

-- approval_requests
pub record ApprovalRow : Type 0 where
  pub approval_id : Text
  pub operation_id : Text
  pub reservation_id : Text
  pub envelope_id : Text
  pub envelope_revision : ℕ
  pub envelope_hash : Text
  pub policy_decision_id : Text
  pub policy_decision_hash : Text
  pub policy_version : ℕ
  pub approver_id : Option Text
  pub issued_at : ℕ
  pub expires_at : ℕ
  pub nonce : Text
  pub status : ApprovalStatus
  pub revoked_at : Option ℕ
  pub reason : Option Text
  pub fences : ControlFenceSnapshot

-- approval_decisions of the type REVOKE
pub record RevokeDecision : Type 0 where
  pub approval_decision_id : Text
  pub approval_id : Text
  pub approver_id : Text
  pub decided_at : ℕ
  pub envelope_hash : Text
  pub policy_decision_id : Text
  pub policy_version : ℕ
  pub decision_nonce : Text
  pub reason : Text
  pub fences : ControlFenceSnapshot

-- authorization_invalidations
pub record Invalidation : Type 0 where
  pub invalidation_id : Text
  pub authorization_id : Text
  pub operation_id : Text
  pub control_event_id : Text
  pub reason : Text

-- authorization_evidence
pub record AuthorizationRow : Type 0 where
  pub authorization_id : Text
  pub operation_id : Text
  pub reservation_id : Text
  pub envelope_id : Text
  pub envelope_revision : ℕ
  pub envelope_hash : Text
  pub policy_decision_id : Text
  pub policy_decision_hash : Text
  pub policy_id : Text
  pub policy_version : ℕ
  pub approval_id : Option Text
  pub consumption_nonce : Text
  pub issued_at : ℕ
  pub expires_at : ℕ
  pub fences : ControlFenceSnapshot

-- execution_envelopes
pub record EnvelopeRow : Type 0 where
  pub operation_id : Text
  pub envelope_id : Text
  pub revision : ℕ
  pub envelope_hash : Text

-- policy_decisions
pub record DecisionRow : Type 0 where
  pub operation_id : Text
  pub decision_id : Text
  pub decision_hash : Text
  pub policy_id : Text
  pub policy_version : ℕ

-- `AuditEventType` of packages/audit/src/index.ts: those that the modelled code writes.
pub data AuditEventType : Type 0 where
  reservation_created reservation_broadcast evidence_verified : AuditEventType
  reservation_released reservation_expired reservation_finalized : AuditEventType
  reservation_disputed recovery_claimed recovery_ambiguous : AuditEventType
  recovery_resolved recovery_conflict : AuditEventType
  approval_revoked operation_state_changed : AuditEventType

-- `AuditCorrelation`
pub record AuditCorrelation : Type 0 where
  pub reservation_id : Text
  pub budget_id : Text
  pub owner_id : Text
  pub agent_id : Text
  pub wallet_id : Text
  pub intent_id : Text
  pub operation_id : Text
  pub policy_id : Text
  pub policy_version : ℕ

-- The members that packages/approvals/src/control.ts adds to the `data` of an operation's event
pub record ControlData : Type 0 where
  pub approval_id : Option Text
  pub envelope : Option EnvelopeRow
  pub decision : Option (Text × Text)
  pub policy_version : ℕ
  pub issued_at : Option ℕ
  pub expires_at : Option ℕ
  pub scope_type : ControlScopeType
  pub scope_id : Text
  pub fence_version : ℕ
  pub control_state : ControlState
  pub authorization_id : Option Text
  pub invalidation_id : Option Text
  pub previous_state : Option LifecycleState
  pub state : Option LifecycleState

-- The `data` of an audit event: the members that the modelled code writes.
pub record AuditData : Type 0 where
  pub reservation_id : Text
  pub amount_atomic : Option ℕ
  pub authenticated : Option AuthenticatedComponent
  pub transaction_hash : Option Text
  pub nonce : Option ℕ
  pub proof_reference : Option Text
  pub verification_status : Option VerificationStatus
  pub reason : Option Text
  pub attempt_id : Option Text
  pub lease_version : Option ℕ
  pub actual_spend_atomic : Option ℕ
  pub recovery_outcome : Option RecoveryOutcome
  pub resolution_hash : Option Text
  pub control : Option ControlData

-- `AuditActorType` of packages/audit/src/index.ts
pub data AuditActorType : Type 0 where
  owner agent service system worker adapter : AuditActorType

-- audit_events
pub record AuditEvent : Type 0 where
  pub event_id : Text
  pub event_type : AuditEventType
  pub sequence : ℕ
  pub actor_type : AuditActorType
  pub actor_id : Text
  pub trace_id : Text
  pub correlation : AuditCorrelation
  pub details : AuditData
  pub previous_event_hash : Option Text
  pub event_hash : Text

-- The rows of audit_events that belong to no operation: the control events of a fence
pub data ControlEventType : Type 0 where
  system_paused system_resumed owner_revoked agent_revoked policy_revoked : ControlEventType

pub record ControlEvent : Type 0 where
  pub event_id : Text
  pub event_type : ControlEventType
  pub sequence : ℕ
  pub actor_type : AuditActorType
  pub actor_id : Text
  pub trace_id : Text
  pub scope_type : ControlScopeType
  pub scope_id : Text
  pub fence_version : ℕ
  pub control_state : ControlState
  pub previous_control_state : ControlState
  pub previous_event_hash : Option Text
  pub event_hash : Text

-- The database.
pub record Db : Type 0 where
  pub budgets : List Budget
  pub reservations : List Reservation
  pub operations : List Operation
  pub intents : List IntentRow
  pub agents : List Agent
  pub wallets : List Wallet
  pub policies : List PolicyRow
  pub fences : List ControlFence
  pub credentials : List Credential
  pub evidence : List BroadcastEvidenceRow
  pub idempotency : List IdempotencyRecord
  pub leases : List Lease
  pub attempts : List RecoveryAttempt
  pub authorizations : List AuthorizationRow
  pub invalidations : List Invalidation
  pub owners : List Text
  pub approvals : List ApprovalRow
  pub approval_decisions : List RevokeDecision
  pub control_audit : List ControlEvent
  pub envelopes : List EnvelopeRow
  pub decisions : List DecisionRow
  pub audit : List AuditEvent
