-- ===== src/Ledger/Events.antt =====
-- packages/budget-ledger/src/ledger.ts: the audit events of the ledger (transitionEventId,
-- recoveryEventId, eventData, writeTransitionAudit, writeRecoveryAudit).
pub mod Frame
use crip_wallet.Base.{ℕ, List, [], ◌∷◌, ◌++◌, map, Option, none, some, ◌==◌, if◌then◌else◌}
use crip_wallet.Schemas.Money.{Text, units}
use crip_wallet.Store.{
  Reservation, ComponentRole, AuthenticatedComponent, AuditEventType, AuditActorType,
  AuditCorrelation, AuditData,
}
use crip_wallet.Store.AuditEventType.{
  reservation_created, reservation_broadcast, evidence_verified, reservation_released,
  reservation_expired, reservation_finalized, reservation_disputed, recovery_claimed,
  recovery_ambiguous, recovery_resolved, recovery_conflict, approval_revoked,
  operation_state_changed,
}
use crip_wallet.Store.Tx.{Tx}
use crip_wallet.Audit.{append_audit_event}
use crip_wallet.Ledger.{Env, AuditContext}

-- The literals of `AuditEventType`
event_name : AuditEventType → Text
event_name reservation_created = units "budget.reservation.created"
event_name reservation_broadcast = units "budget.reservation.broadcast"
event_name evidence_verified = units "budget.reservation.evidence.verified"
event_name reservation_released = units "budget.reservation.released"
event_name reservation_expired = units "budget.reservation.expired"
event_name reservation_finalized = units "budget.reservation.finalized"
event_name reservation_disputed = units "budget.reservation.disputed"
event_name recovery_claimed = units "execution.recovery.claimed"
event_name recovery_ambiguous = units "execution.recovery.ambiguous"
event_name recovery_resolved = units "execution.recovery.resolved"
event_name recovery_conflict = units "execution.recovery.conflict"
event_name approval_revoked = units "approval.revoked"
event_name operation_state_changed = units "operation.state.changed"

-- `eventType.replaceAll(".", ":")`
unfoldable pub colon_name : AuditEventType → Text
unfolding event_name
colon_name t = map (λ c. if c == b'.' then b':' else c) (event_name t)

-- `transitionEventId`
abbrev pub transition_event_id : AuditContext → AuditEventType → Text
transition_event_id audit t = audit.event_id ++ (units ":" ++ colon_name t)

-- `recoveryEventId`, with the suffix that `writeRecoveryAudit` gives it
abbrev pub recovery_event_id : AuditContext → AuditEventType → Text → Text
recovery_event_id audit t attempt_id =
    audit.event_id ++ (units ":recovery:" ++ (colon_name t ++ (units ":" ++ attempt_id)))

-- `eventData` without more members
abbrev pub event_data : Reservation → AuditData
event_data r = record {
  reservation_id = r.reservation_id;
  amount_atomic = some r.amount_atomic;
  authenticated = none;
  transaction_hash = none;
  nonce = none;
  proof_reference = none;
  verification_status = none;
  reason = none;
  attempt_id = none;
  lease_version = none;
  actual_spend_atomic = none;
  recovery_outcome = none;
  resolution_hash = none;
  control = none;
}

abbrev actor_type_of : ComponentRole → AuditActorType
actor_type_of ComponentRole.adapter = AuditActorType.adapter
actor_type_of ComponentRole.reconciler = AuditActorType.worker

-- `writeTransitionAudit`, of the caller itself
unfoldable pub write_transition_audit :
    Env → AuditContext → AuditEventType → AuditCorrelation → AuditData → Tx (Unit {0})
write_transition_audit env audit event_type correlation details =
    append_audit_event env.library (record {
      event_id = transition_event_id audit event_type;
      event_type = event_type;
      actor_type = audit.actor_type;
      actor_id = audit.actor_id;
      trace_id = audit.trace_id;
      correlation = correlation;
      details = details;
    })

-- `writeTransitionAudit`, of an authenticated component
unfoldable pub write_component_audit :
    Env
    → AuditContext
    → AuditEventType
    → AuditCorrelation
    → AuditData
    → AuthenticatedComponent
    → Tx (Unit {0})
write_component_audit env audit event_type correlation details authenticated =
    append_audit_event env.library (record {
      event_id = transition_event_id audit event_type;
      event_type = event_type;
      actor_type = actor_type_of authenticated.role;
      actor_id = authenticated.component_id;
      trace_id = audit.trace_id;
      correlation = correlation;
      details = record details { authenticated = some authenticated };
    })

-- `writeRecoveryAudit`
unfoldable pub write_recovery_audit :
    Env
    → AuditContext
    → AuditEventType
    → AuditCorrelation
    → AuditData
    → AuthenticatedComponent
    → Text
    → Tx (Unit {0})
write_recovery_audit env audit event_type correlation details authenticated attempt_id =
    append_audit_event env.library (record {
      event_id = recovery_event_id audit event_type attempt_id;
      event_type = event_type;
      actor_type = AuditActorType.worker;
      actor_id = authenticated.component_id;
      trace_id = audit.trace_id;
      correlation = correlation;
      details = record details { authenticated = some authenticated; attempt_id = some attempt_id };
    })
