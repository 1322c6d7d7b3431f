-- ===== src/Control/Statements.antt =====
-- packages/approvals/src/control.ts: the statements that the invalidations share
-- (operationAudit, releaseReservation, revokeApproval and the UPDATE of an operation).
use crip_wallet.Base.{
  ℕ, ◌+◌, ◌-◌, Bool, true, false, not, ◌&&◌, ◌∷◌, ◌++◌, any, leb, Option, none, some,
}
use crip_wallet.Schemas.Money.{Text, units}
use crip_wallet.Schemas.Common.{same_text}
use crip_wallet.Schemas.Lifecycle.{LifecycleState}
use crip_wallet.Store.{
  Operation, Budget, Reservation, ReservationStatus, ApprovalRow, ApprovalStatus, RevokeDecision,
  ControlScopeType, ControlState, AuditEventType, ControlData,
}
use crip_wallet.Store.Tables.{find, update}
use crip_wallet.Store.Tx.{
  Tx, ◌>>=◌, ◌>>◌, gets, modify, or_throw, require, control_target_not_found, check_violation,
  unique_violation,
}
use crip_wallet.Store.Funds.{is_budget, is_reservation}
use crip_wallet.Audit.{AuditLibrary, append_audit_event}
use crip_wallet.Ledger.Binding.{is_operation}
use crip_wallet.Ledger.Rows.{is_checked, set_status}
use crip_wallet.Transfer.Digits.{decimal}
use crip_wallet.Control.{ChangeControlFenceRequest}
use crip_wallet.Control.Rows.{ControlOperationRow, is_open}

-- The new version and state of the fence, and the event of its change
pub record FenceChange : Type 0 where
  pub request : ChangeControlFenceRequest
  pub fence_version : ℕ
  pub state : ControlState

abbrev pub fence_event_id : Text → ℕ → Text
fence_event_id event_id version = event_id ++ (units ":fence:" ++ decimal version)

-- `iso` of timestamps, `controlData` and the members that depend on the event
abbrev control_data :
    FenceChange
    → ControlOperationRow
    → Option Text
    → Option LifecycleState
    → Option LifecycleState
    → ControlData
control_data change row invalidation previous state = record {
  approval_id = row.approval_id;
  envelope = row.envelope;
  decision = row.decision;
  policy_version = row.policy_version;
  issued_at = row.issued_at;
  expires_at = row.expires_at;
  scope_type = change.request.scope_type;
  scope_id = change.request.scope_id;
  fence_version = change.fence_version;
  control_state = change.state;
  authorization_id = row.authorization_id;
  invalidation_id = invalidation;
  previous_state = previous;
  state = state;
}

abbrev scope_name : ControlScopeType → Text
scope_name ControlScopeType.system = units "SYSTEM"
scope_name ControlScopeType.owner = units "OWNER"
scope_name ControlScopeType.agent = units "AGENT"
scope_name ControlScopeType.policy = units "POLICY"

-- The reason that the rows and events give
abbrev pub fence_reason : ChangeControlFenceRequest → Text
fence_reason request =
    units "control fence " ++ (scope_name request.scope_type ++ (units ":" ++ request.scope_id))

-- `operationAudit`
unfoldable pub operation_audit :
    AuditLibrary
    → FenceChange
    → ControlOperationRow
    → AuditEventType
    → Text
    → Option Text
    → Option LifecycleState
    → Option LifecycleState
    → Tx (Unit {0})
operation_audit library change row event_type suffix invalidation previous state =
    append_audit_event library (record {
      event_id =
          fence_event_id change.request.audit.event_id change.fence_version
          ++ (units ":" ++ (row.operation_id ++ (units ":" ++ suffix)));
      event_type = event_type;
      actor_type = change.request.audit.actor_type;
      actor_id = change.request.audit.actor_id;
      trace_id = change.request.audit.trace_id;
      correlation = record {
        reservation_id = row.reservation_id;
        budget_id = row.budget_id;
        owner_id = row.owner_id;
        agent_id = row.agent_id;
        wallet_id = row.wallet_id;
        intent_id = row.intent_id;
        operation_id = row.operation_id;
        policy_id = row.policy_id;
        policy_version = row.policy_version;
      };
      details = record {
        reservation_id = row.reservation_id;
        amount_atomic = none;
        authenticated = none;
        transaction_hash = none;
        nonce = none;
        proof_reference = none;
        verification_status = none;
        reason = some (fence_reason change.request);
        attempt_id = none;
        lease_version = none;
        actual_spend_atomic = none;
        recovery_outcome = none;
        resolution_hash = none;
        control = some (control_data change row invalidation previous state);
      };
    })

abbrev pub covers : Text → ℕ → Budget → Bool
covers id amount b = is_budget id b && leb amount b.reserved

abbrev give_back_row : ℕ → Budget → Budget
give_back_row amount b = record b {
  available = b.available + amount;
  reserved = b.reserved - amount;
  version = b.version + 1;
}

abbrev is_unsent_status : ReservationStatus → Bool
is_unsent_status ReservationStatus.held = true
is_unsent_status ReservationStatus.authorized = true
is_unsent_status _ = false

abbrev pub is_releasable : Text → Reservation → Bool
is_releasable id r = is_reservation id r && is_unsent_status r.status

-- `releaseReservation`
unfoldable pub release_reservation_row : ControlOperationRow → Tx (Unit {0})
release_reservation_row row = do
  budget ← gets (λ db. find (covers row.budget_id row.amount_atomic) db.budgets)
  or_throw budget control_target_not_found
  modify (λ db. record db {
    budgets =
        update (covers row.budget_id row.amount_atomic) (give_back_row row.amount_atomic)
          db.budgets;
  })
  found ← gets (λ db. find (is_releasable row.reservation_id) db.reservations)
  r ← or_throw found control_target_not_found
  require (is_checked (set_status ReservationStatus.released r)) check_violation
  modify (λ db. record db {
    reservations =
        update (is_releasable row.reservation_id) (set_status ReservationStatus.released)
          db.reservations;
  })

-- REVALIDATION_REQUIRED under a pause of the system, REVOKED otherwise
abbrev pub next_operation_state : ControlScopeType → LifecycleState
next_operation_state ControlScopeType.system = LifecycleState.revalidation_required
next_operation_state _ = LifecycleState.revoked

abbrev in_state : Text → (LifecycleState → Bool) → Operation → Bool
in_state id p o = is_operation id o && p o.current_state

-- UPDATE operations SET current_state, of one row in a state that fits
unfoldable pub move_operation : Text → (LifecycleState → Bool) → LifecycleState → Tx (Unit {0})
move_operation id p state = do
  rows ← gets (λ db. db.operations)
  require (any (in_state id p) rows) control_target_not_found
  modify (λ db. record db {
    operations = update (in_state id p) (λ o. record o { current_state = state }) db.operations;
  })

abbrev coalesce : Option Text → Text → Text
coalesce none t = t
coalesce (some s) t = s

abbrev pub is_open_row : Text → ApprovalRow → Bool
is_open_row id p = same_text p.approval_id id && is_open p.status

abbrev revoked_approval : FenceChange → ℕ → ApprovalRow → ApprovalRow
revoked_approval change now p = record p {
  status = ApprovalStatus.revoked;
  approver_id = some (coalesce p.approver_id change.request.audit.actor_id);
  revoked_at = some now;
  reason = some (fence_reason change.request);
}

abbrev revoke_decision : FenceChange → ℕ → ControlOperationRow → ApprovalRow → RevokeDecision
revoke_decision change now row p = record {
  approval_decision_id = p.approval_id ++ units ":decision:revoke";
  approval_id = p.approval_id;
  approver_id = coalesce p.approver_id change.request.audit.actor_id;
  decided_at = now;
  envelope_hash = p.envelope_hash;
  policy_decision_id = p.policy_decision_id;
  policy_version = p.policy_version;
  decision_nonce = row.nonce ++ units ":decision:revoke";
  reason = fence_reason change.request;
  fences = p.fences;
}

abbrev same_decision : RevokeDecision → RevokeDecision → Bool
same_decision d e = same_text e.approval_decision_id d.approval_decision_id

-- The UPDATE of the approval and the INSERT of its decision
unfoldable pub revoke_approval : FenceChange → ℕ → ControlOperationRow → Text → Tx (Unit {0})
revoke_approval change now row approval_id = do
  found ← gets (λ db. find (is_open_row approval_id) db.approvals)
  p ← or_throw found control_target_not_found
  decisions ← gets (λ db. db.approval_decisions)
  require (not (any (same_decision (revoke_decision change now row p)) decisions)) unique_violation
  modify (λ db. record db {
    approvals = update (is_open_row approval_id) (revoked_approval change now) db.approvals;
    approval_decisions = revoke_decision change now row p ∷ db.approval_decisions;
  })
