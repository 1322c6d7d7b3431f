-- ===== src/Control/Invalidate.antt =====
-- packages/approvals/src/control.ts: what a command does to the operations that it affects
-- (invalidatePending, invalidateAuthorized, invalidateHeldBeforeApproval,
-- invalidateAffectedAuthorizations).
use crip_wallet.Base.{ℕ, Bool, List, [], ◌∷◌, ◌++◌, none, some}
use crip_wallet.Schemas.Money.{units}
use crip_wallet.Schemas.Lifecycle.{LifecycleState, state_eq}
use crip_wallet.Store.{AuditEventType}
use crip_wallet.Store.Tx.{Tx, ◌>>=◌, ◌>>◌, pure, gets, modify, or_throw, control_target_not_found}
use crip_wallet.Audit.{AuditLibrary}
use crip_wallet.Control.Rows.{
  ControlOperationRow, select_rows, is_before_approval, held_row, pending_row, authorized_row,
}
use crip_wallet.Control.Statements.{
  FenceChange, fence_event_id, fence_reason, operation_audit, release_reservation_row,
  next_operation_state, move_operation, revoke_approval,
}

is_awaiting : LifecycleState → Bool
is_awaiting s = state_eq s LifecycleState.awaiting_approval

is_authorized_state : LifecycleState → Bool
is_authorized_state s = state_eq s LifecycleState.authorized

-- A loop over the rows
unfoldable pub for_each :
    (ControlOperationRow → Tx (Unit {0})) → List ControlOperationRow → Tx (Unit {0})
for_each f [] = pure tt
for_each f (row ∷ rows) = do f row; for_each f rows

module _ (library : AuditLibrary) (now : ℕ) (change : FenceChange) where
  next : LifecycleState
  next = next_operation_state change.request.scope_type

  -- `invalidatePending`
  unfoldable pub invalidate_pending : ControlOperationRow → Tx (Unit {0})
  unfolding is_awaiting next
  invalidate_pending row = do
    approval_id ← or_throw row.approval_id control_target_not_found
    move_operation row.operation_id is_awaiting next
    release_reservation_row row
    revoke_approval change now row approval_id
    operation_audit library change row AuditEventType.reservation_released (units "release") none
        none none
    operation_audit library change row AuditEventType.approval_revoked (units "approval-revoked")
        none none none
    operation_audit library change row AuditEventType.operation_state_changed
        (units "operation-state") none (some LifecycleState.awaiting_approval) (some next)

  -- `invalidateAuthorized`
  unfoldable pub invalidate_authorized : ControlOperationRow → Tx (Unit {0})
  unfolding is_authorized_state next
  invalidate_authorized row = do
    authorization_id ← or_throw row.authorization_id control_target_not_found
    move_operation row.operation_id is_authorized_state next
    release_reservation_row row
    modify (λ db. record db {
      invalidations =
          record {
            invalidation_id =
                change.request.audit.event_id ++ (units ":invalidation:" ++ authorization_id);
            authorization_id = authorization_id;
            operation_id = row.operation_id;
            control_event_id = fence_event_id change.request.audit.event_id change.fence_version;
            reason = fence_reason change.request;
          }
          ∷ db.invalidations;
    })
    operation_audit library change row AuditEventType.reservation_released
        (units "authorized-release")
        (some (change.request.audit.event_id ++ (units ":invalidation:" ++ authorization_id))) none
        none
    operation_audit library change row AuditEventType.operation_state_changed
        (units "authorized-operation-state")
        (some (change.request.audit.event_id ++ (units ":invalidation:" ++ authorization_id)))
        (some LifecycleState.authorized) (some next)

  -- `invalidateHeldBeforeApproval`
  unfoldable pub invalidate_held_before_approval : ControlOperationRow → Tx (Unit {0})
  unfolding next
  invalidate_held_before_approval row = do
    move_operation row.operation_id is_before_approval next
    release_reservation_row row
    operation_audit library change row AuditEventType.reservation_released (units "held-release")
        none none none
    operation_audit library change row AuditEventType.operation_state_changed
        (units "held-operation-state") none (some row.current_state) (some next)

  -- `invalidateAffectedAuthorizations`
  unfoldable pub invalidate_affected_authorizations : Tx (Unit {0})
  invalidate_affected_authorizations = do
    held ← gets (λ db.
        select_rows (held_row change.request.scope_type change.request.scope_id db) db.operations)
    for_each invalidate_held_before_approval held
    pending ← gets (λ db.
        select_rows (pending_row change.request.scope_type change.request.scope_id db) db.approvals)
    for_each invalidate_pending pending
    authorized ← gets (λ db.
        select_rows (authorized_row change.request.scope_type change.request.scope_id db)
          db.authorizations)
    for_each invalidate_authorized authorized
