-- ===== src/Audit.antt =====
-- packages/audit/src/index.ts: the append-only audit log, one hash chain for each operation.
-- The schema library and the hash are parameters. Control events, which belong to no operation,
-- are those of Control/Events.
pub mod Chain
pub mod Frame
use crip_wallet.Base.{
  ℕ, suc, ◌+◌, Bool, true, false, List, [], ◌∷◌, Option, none, some, not, any, ltb, if◌then◌else◌,
}
use crip_wallet.Schemas.Money.{Text}
use crip_wallet.Schemas.Common.{same_text}
use crip_wallet.Store.{
  AuditEventType, AuditActorType, AuditCorrelation, AuditData, AuditEvent, Db,
  AuthenticatedComponent, ControlEventType, ControlScopeType, ControlState,
}
use crip_wallet.Store.Tx.{Tx, ◌>>=◌, ◌>>◌, gets, modify, require, audit_refused, unique_violation}
use crip_wallet.TrustBoundary.{ComponentAuthorization}

-- `AuditEventInput`; operation-bound, as all events of the ledger are.
pub record AuditEventInput : Type 0 where
  pub event_id : Text
  pub event_type : AuditEventType
  pub actor_type : AuditActorType
  pub actor_id : Text
  pub trace_id : Text
  pub correlation : AuditCorrelation
  pub details : AuditData

-- `AuditEventInput` of a control event, which belongs to no operation
pub record ControlEventInput : Type 0 where
  pub event_id : Text
  pub event_type : ControlEventType
  pub actor_type : AuditActorType
  pub actor_id : Text
  pub trace_id : Text
  pub scope_type : ControlScopeType
  pub scope_id : Text
  pub fence_version : ℕ
  pub control_state : ControlState
  pub previous_control_state : ControlState

-- `auditDataSchema.parse` and `auditEventSchema.parse` as a test, and the hash of an event
-- without its own hash.
pub record AuditLibrary : Type 0 where
  pub accepts : AuditEventInput → Bool
  pub hash : AuditEventInput → ℕ → Option Text → Text
  pub accepts_control : ControlEventInput → Bool
  pub hash_control : ControlEventInput → ℕ → Option Text → Text

abbrev pub of_operation : Text → AuditEvent → Bool
of_operation operation_id e = same_text e.correlation.operation_id operation_id

abbrev pub same_event : Text → AuditEvent → Bool
same_event event_id e = same_text e.event_id event_id

abbrev newer : AuditEvent → Option AuditEvent → AuditEvent
newer e none = e
newer e (some f) = if ltb e.sequence f.sequence then f else e

-- `ORDER BY sequence_no DESC LIMIT 1` among the events of an operation
unfoldable pub latest : Text → List AuditEvent → Option AuditEvent
latest operation_id [] = none
latest operation_id (e ∷ log) =
    let rest = latest operation_id log in
    if of_operation operation_id e then some (newer e rest) else rest

abbrev pub sequence_of : Option AuditEvent → ℕ
sequence_of none = 0
sequence_of (some e) = e.sequence

abbrev pub hash_of : Option AuditEvent → Option Text
hash_of none = none
hash_of (some e) = some e.event_hash

module _ (library : AuditLibrary) where
  -- The row that `appendAuditEvent` inserts after the previous one.
  unfoldable pub next_event : Option AuditEvent → AuditEventInput → AuditEvent
  next_event previous input = record {
    event_id = input.event_id;
    event_type = input.event_type;
    sequence = sequence_of previous + 1;
    actor_type = input.actor_type;
    actor_id = input.actor_id;
    trace_id = input.trace_id;
    correlation = input.correlation;
    details = input.details;
    previous_event_hash = hash_of previous;
    event_hash = library.hash input (sequence_of previous + 1) (hash_of previous);
  }

  -- `appendAuditEvent`
  unfoldable pub append_audit_event : AuditEventInput → Tx (Unit {0})
  append_audit_event input = do
    require (library.accepts input) audit_refused
    previous ← gets (λ db. latest input.correlation.operation_id db.audit)
    log ← gets (λ db. db.audit)
    require (not (any (same_event input.event_id) log)) unique_violation
    modify (λ db. record db { audit = next_event previous input ∷ db.audit })
