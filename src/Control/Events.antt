-- ===== src/Control/Events.antt =====
-- packages/audit/src/index.ts and packages/approvals/src/control.ts: the audit events of fences,
-- one hash chain for each scope.
use crip_wallet.Base.{
  ℕ, ◌+◌, Bool, not, ◌&&◌, List, [], ◌∷◌, any, ltb, Option, none, some, if◌then◌else◌,
}
use crip_wallet.Schemas.Money.{Text}
use crip_wallet.Schemas.Common.{same_text}
use crip_wallet.Store.{
  ControlScopeType, ControlEvent, ControlEventType, system_paused, system_resumed, owner_revoked,
  agent_revoked, policy_revoked,
}
use crip_wallet.Store.Tx.{Tx, ◌>>=◌, ◌>>◌, gets, modify, require, audit_refused, unique_violation}
use crip_wallet.Ledger.Binding.{same_scope}
use crip_wallet.Audit.{AuditLibrary, ControlEventInput, same_event}
use crip_wallet.Control.{ControlCommand, pause}

abbrev pub of_scope : ControlScopeType → Text → ControlEvent → Bool
of_scope scope id e = same_scope e.scope_type scope && same_text e.scope_id id

abbrev pub same_control_event : Text → ControlEvent → Bool
same_control_event event_id e = same_text e.event_id event_id

abbrev newer : ControlEvent → Option ControlEvent → ControlEvent
newer e none = e
newer e (some f) = if ltb e.sequence f.sequence then f else e

-- `ORDER BY sequence_no DESC LIMIT 1` among the events of a scope
unfoldable pub latest_of_scope : ControlScopeType → Text → List ControlEvent → Option ControlEvent
latest_of_scope scope id [] = none
latest_of_scope scope id (e ∷ log) =
    let rest = latest_of_scope scope id log in
    if of_scope scope id e then some (newer e rest) else rest

abbrev sequence_of : Option ControlEvent → ℕ
sequence_of none = 0
sequence_of (some e) = e.sequence

abbrev hash_of : Option ControlEvent → Option Text
hash_of none = none
hash_of (some e) = some e.event_hash

unfoldable pub next_control_event :
    AuditLibrary → Option ControlEvent → ControlEventInput → ControlEvent
next_control_event library previous input = record {
  event_id = input.event_id;
  event_type = input.event_type;
  sequence = sequence_of previous + 1;
  actor_type = input.actor_type;
  actor_id = input.actor_id;
  trace_id = input.trace_id;
  scope_type = input.scope_type;
  scope_id = input.scope_id;
  fence_version = input.fence_version;
  control_state = input.control_state;
  previous_control_state = input.previous_control_state;
  previous_event_hash = hash_of previous;
  event_hash = library.hash_control input (sequence_of previous + 1) (hash_of previous);
}

-- `appendAuditEvent` of a control event
unfoldable pub append_control_event : AuditLibrary → ControlEventInput → Tx (Unit {0})
append_control_event library input = do
  require (library.accepts_control input) audit_refused
  log ← gets (λ db. db.control_audit)
  operations ← gets (λ db. db.audit)
  require
      (not (any (same_control_event input.event_id) log)
        && not (any (same_event input.event_id) operations))
      unique_violation
  modify (λ db. record db {
    control_audit =
        next_control_event library (latest_of_scope input.scope_type input.scope_id log) input
        ∷ db.control_audit;
  })

-- `eventType`
abbrev pub event_type : ControlScopeType → ControlCommand → ControlEventType
event_type ControlScopeType.system pause = system_paused
event_type ControlScopeType.system _ = system_resumed
event_type ControlScopeType.agent _ = agent_revoked
event_type ControlScopeType.owner _ = owner_revoked
event_type ControlScopeType.policy _ = policy_revoked
