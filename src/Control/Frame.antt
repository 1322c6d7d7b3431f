-- ===== src/Control/Frame.antt =====
-- packages/approvals/src/control.ts: the statements on operations, approvals and reservations
-- leave the fences alone.
use crip_wallet.Base.{ℕ, ◌≡◌, refl, ◌∙◌, Bool, true, false, List, [], ◌∷◌, Option, none, some}
use crip_wallet.Schemas.Money.{Text}
use crip_wallet.Schemas.Lifecycle.{LifecycleState}
use crip_wallet.Store.{Db, AuditEventType, ControlScopeType}
use crip_wallet.Store.Tx.{
  LedgerError, Tx, ◌>>=◌, pure, gets, modify, or_throw, require, Holds, bind-Holds, weaken-Holds,
}
use crip_wallet.Audit.{AuditLibrary, AuditEventInput, ControlEventInput, append_audit_event}
use crip_wallet.Control.Fences.{assert_target}
use crip_wallet.Control.Events.{append_control_event}
use crip_wallet.Control.Rows.{ControlOperationRow}
use crip_wallet.Control.Statements.{
  FenceChange, operation_audit, release_reservation_row, move_operation, revoke_approval,
}
use crip_wallet.Control.Invalidate.{
  invalidate_pending, invalidate_authorized, invalidate_held_before_approval, for_each,
  invalidate_affected_authorizations,
}
use crip_wallet.Control.Change.{revoke_policy}

abbrev pub SameFences : {A : Type 0} → Db → A → Db → Type 0
SameFences db a w = w.fences ≡ db.fences

abbrev pub Keeps : {A : Type 0} → Tx A → Type 0
Keeps m = (db : Db) → Holds (SameFences db) (m db)

module _ {A : Type 0} where
  bind-Keeps :
      {B : Type 0} (m : Tx A) (k : A → Tx B) → Keeps m → ((a : A) → Keeps (k a)) → Keeps (m >>= k)
  bind-Keeps m k keeps_m keeps_k db =
      bind-Holds (SameFences db) db (SameFences db) m k (keeps_m db) (λ a w e.
        weaken-Holds (SameFences db) w (SameFences w) (k a) (keeps_k a w) (λ _ v d. d ∙ e))

  gets-Keeps : (f : Db → A) → Keeps (gets f)
  unfolding Holds
  gets-Keeps f db = refl

  or_throw-Keeps : (o : Option A) (e : LedgerError) → Keeps (or_throw o e)
  unfolding Holds
  or_throw-Keeps none e db = tt
  or_throw-Keeps (some a) e db = refl

pure-Keeps : Keeps (pure (tt {0}))
unfolding Holds
pure-Keeps db = refl

require-Keeps : (b : Bool) (e : LedgerError) → Keeps (require b e)
unfolding Holds
require-Keeps true e db = refl
require-Keeps false e db = tt

modify-Keeps : (f : Db → Db) → ((db : Db) → (f db).fences ≡ db.fences) → Keeps (modify f)
unfolding Holds modify
modify-Keeps f same db = same db

module _ (library : AuditLibrary) where
  append_audit_event-Keeps : (input : AuditEventInput) → Keeps (append_audit_event library input)
  unfolding append_audit_event
  append_audit_event-Keeps input = bind-Keeps _ _ (require-Keeps _ _) (λ _.
      bind-Keeps _ _ (gets-Keeps _) (λ previous.
        bind-Keeps _ _ (gets-Keeps _)
          (λ log. bind-Keeps _ _ (require-Keeps _ _) (λ _. modify-Keeps _ (λ db. refl)))))

  pub append_control_event-Keeps :
      (input : ControlEventInput) → Keeps (append_control_event library input)
  unfolding append_control_event
  append_control_event-Keeps input = bind-Keeps _ _ (require-Keeps _ _) (λ _.
      bind-Keeps _ _ (gets-Keeps _) (λ log.
        bind-Keeps _ _ (gets-Keeps _)
          (λ operations. bind-Keeps _ _ (require-Keeps _ _) (λ _. modify-Keeps _ (λ db. refl)))))

  operation_audit-Keeps :
      (change : FenceChange) (row : ControlOperationRow) (event_type : AuditEventType)
      (suffix : Text) (invalidation : Option Text) (previous state : Option LifecycleState)
      → Keeps (operation_audit library change row event_type suffix invalidation previous state)
  unfolding operation_audit
  operation_audit-Keeps change row event_type suffix invalidation previous state =
      append_audit_event-Keeps _

move_operation-Keeps :
    (id : Text) (p : LifecycleState → Bool) (state : LifecycleState)
    → Keeps (move_operation id p state)
unfolding move_operation
move_operation-Keeps id p state =
    bind-Keeps _ _ (gets-Keeps _)
      (λ rows. bind-Keeps _ _ (require-Keeps _ _) (λ _. modify-Keeps _ (λ db. refl)))

release_reservation_row-Keeps : (row : ControlOperationRow) → Keeps (release_reservation_row row)
unfolding release_reservation_row
release_reservation_row-Keeps row = bind-Keeps _ _ (gets-Keeps _) (λ budget.
    bind-Keeps _ _ (or_throw-Keeps budget _) (λ _.
      bind-Keeps _ _ (modify-Keeps _ (λ db. refl)) (λ _. bind-Keeps _ _ (gets-Keeps _) (λ found.
        bind-Keeps _ _ (or_throw-Keeps found _)
          (λ r. bind-Keeps _ _ (require-Keeps _ _) (λ _. modify-Keeps _ (λ db. refl)))))))

revoke_approval-Keeps :
    (change : FenceChange) (now : ℕ) (row : ControlOperationRow) (id : Text)
    → Keeps (revoke_approval change now row id)
unfolding revoke_approval
revoke_approval-Keeps change now row id = bind-Keeps _ _ (gets-Keeps _) (λ found.
    bind-Keeps _ _ (or_throw-Keeps found _) (λ p.
      bind-Keeps _ _ (gets-Keeps _)
        (λ decisions. bind-Keeps _ _ (require-Keeps _ _) (λ _. modify-Keeps _ (λ db. refl)))))

for_each-Keeps :
    (f : ControlOperationRow → Tx (Unit {0})) (rows : List ControlOperationRow)
    → ((row : ControlOperationRow) → Keeps (f row))
    → Keeps (for_each f rows)
unfolding for_each
for_each-Keeps f [] h = pure-Keeps
for_each-Keeps f (row ∷ rows) h = bind-Keeps _ _ (h row) (λ _. for_each-Keeps f rows h)

pub assert_target-Keeps : (scope : ControlScopeType) (id : Text) → Keeps (assert_target scope id)
unfolding assert_target
assert_target-Keeps ControlScopeType.system id = require-Keeps _ _
assert_target-Keeps ControlScopeType.owner id =
    bind-Keeps _ _ (gets-Keeps _) (λ _. require-Keeps _ _)
assert_target-Keeps ControlScopeType.agent id =
    bind-Keeps _ _ (gets-Keeps _) (λ _. require-Keeps _ _)
assert_target-Keeps ControlScopeType.policy id =
    bind-Keeps _ _ (gets-Keeps _) (λ _. require-Keeps _ _)

pub revoke_policy-Keeps :
    (scope : ControlScopeType) (id : Text) → Keeps (modify (revoke_policy scope id))
unfolding revoke_policy
revoke_policy-Keeps ControlScopeType.system id = modify-Keeps _ (λ db. refl)
revoke_policy-Keeps ControlScopeType.owner id = modify-Keeps _ (λ db. refl)
revoke_policy-Keeps ControlScopeType.agent id = modify-Keeps _ (λ db. refl)
revoke_policy-Keeps ControlScopeType.policy id = modify-Keeps _ (λ db. refl)

module _ (library : AuditLibrary) (now : ℕ) (change : FenceChange) where
  invalidate_pending-Keeps :
      (row : ControlOperationRow) → Keeps (invalidate_pending library now change row)
  unfolding invalidate_pending
  invalidate_pending-Keeps row = bind-Keeps _ _ (or_throw-Keeps row.approval_id _) (λ approval_id.
      bind-Keeps _ _ (move_operation-Keeps _ _ _) (λ _.
        bind-Keeps _ _ (release_reservation_row-Keeps row) (λ _.
          bind-Keeps _ _ (revoke_approval-Keeps change now row approval_id) (λ _.
            bind-Keeps _ _ (operation_audit-Keeps library change row _ _ _ _ _) (λ _.
              bind-Keeps _ _ (operation_audit-Keeps library change row _ _ _ _ _)
                (λ _. operation_audit-Keeps library change row _ _ _ _ _))))))

  invalidate_authorized-Keeps :
      (row : ControlOperationRow) → Keeps (invalidate_authorized library now change row)
  unfolding invalidate_authorized
  invalidate_authorized-Keeps row =
      bind-Keeps _ _ (or_throw-Keeps row.authorization_id _) (λ authorization_id.
        bind-Keeps _ _ (move_operation-Keeps _ _ _) (λ _.
          bind-Keeps _ _ (release_reservation_row-Keeps row) (λ _.
            bind-Keeps _ _ (modify-Keeps _ (λ db. refl)) (λ _.
              bind-Keeps _ _ (operation_audit-Keeps library change row _ _ _ _ _)
                (λ _. operation_audit-Keeps library change row _ _ _ _ _)))))

  invalidate_held_before_approval-Keeps :
      (row : ControlOperationRow) → Keeps (invalidate_held_before_approval library now change row)
  unfolding invalidate_held_before_approval
  invalidate_held_before_approval-Keeps row = bind-Keeps _ _ (move_operation-Keeps _ _ _) (λ _.
      bind-Keeps _ _ (release_reservation_row-Keeps row) (λ _.
        bind-Keeps _ _ (operation_audit-Keeps library change row _ _ _ _ _)
          (λ _. operation_audit-Keeps library change row _ _ _ _ _)))

  pub invalidate_affected_authorizations-Keeps :
      Keeps (invalidate_affected_authorizations library now change)
  unfolding invalidate_affected_authorizations
  invalidate_affected_authorizations-Keeps = bind-Keeps _ _ (gets-Keeps _) (λ held.
      bind-Keeps _ _ (for_each-Keeps _ held invalidate_held_before_approval-Keeps) (λ _.
        bind-Keeps _ _ (gets-Keeps _) (λ pending.
          bind-Keeps _ _ (for_each-Keeps _ pending invalidate_pending-Keeps) (λ _.
            bind-Keeps _ _ (gets-Keeps _)
              (λ authorized. for_each-Keeps _ authorized invalidate_authorized-Keeps)))))
