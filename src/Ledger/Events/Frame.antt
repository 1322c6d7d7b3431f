-- ===== src/Ledger/Events/Frame.antt =====
-- packages/budget-ledger/src/ledger.ts: the audit events of the ledger change the log alone.
use crip_wallet.Base.{List, sym, subst}
use crip_wallet.Schemas.Money.{Text}
use crip_wallet.Store.{
  Db, AuditEvent, AuditEventType, AuditCorrelation, AuditData, AuthenticatedComponent,
}
use crip_wallet.Store.Tx.{Tx, ◌>>◌, Holds, weaken-Holds}
use crip_wallet.Audit.Frame.{append-Holds, append_audit_event_lem}
use crip_wallet.Audit.{append_audit_event}
use crip_wallet.Ledger.{Env, AuditContext}
use crip_wallet.Ledger.Events.{write_transition_audit, write_component_audit, write_recovery_audit}

-- The database with another log.
abbrev pub with_log : Db → List AuditEvent → Db
with_log db log = record db { audit = log }

module _ {B : Type 0} (P : B → Db → Type 0) (db : Db) (env : Env) (audit : AuditContext)
    (event_type : AuditEventType) (correlation : AuditCorrelation) (details : AuditData) (k : Tx B)
    (h : (log : List AuditEvent) → Holds P (k (with_log db log))) where
  pub write_transition_audit-Holds :
      Holds P ((write_transition_audit env audit event_type correlation details >> k) db)
  unfolding write_transition_audit
  write_transition_audit-Holds = append-Holds P env.library _ db k (h _)

  pub write_component_audit-Holds :
      (a : AuthenticatedComponent)
      → Holds P ((write_component_audit env audit event_type correlation details a >> k) db)
  unfolding write_component_audit
  write_component_audit-Holds a = append-Holds P env.library _ db k (h _)

  pub write_recovery_audit-Holds :
      (a : AuthenticatedComponent) (attempt_id : Text)
      → Holds P
          ((write_recovery_audit env audit event_type correlation details a attempt_id >> k) db)
  unfolding write_recovery_audit
  write_recovery_audit-Holds a attempt_id = append-Holds P env.library _ db k (h _)

-- As the last statement.
pub write_recovery_audit_last :
    (Q : Db → Type 0) (db : Db) (env : Env) (audit : AuditContext) (event_type : AuditEventType)
    (correlation : AuditCorrelation) (details : AuditData) (a : AuthenticatedComponent)
    (attempt_id : Text)
    → ((log : List AuditEvent) → Q (with_log db log))
    → Holds
        (λ _ w. Q w)
        (write_recovery_audit env audit event_type correlation details a attempt_id db)
unfolding write_recovery_audit
write_recovery_audit_last Q db env audit event_type correlation details a attempt_id h =
    weaken-Holds (λ _ w. Q w) db _ (append_audit_event env.library _)
      (append_audit_event_lem env.library _ db) (λ _ w e. subst Q (sym e) (h _))
