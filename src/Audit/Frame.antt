-- ===== src/Audit/Frame.antt =====
-- packages/audit/src/index.ts: `appendAuditEvent` changes the log alone.
use crip_wallet.Base.{◌≡◌, refl, sym, subst, not, any, ◌∷◌}
use crip_wallet.Store.{Db}
use crip_wallet.Store.Tx.{
  Tx, ◌>>◌, Holds, bind-Holds, require-Holds, gets-Holds, audit_refused, unique_violation, modify,
}
use crip_wallet.Audit.{
  AuditLibrary, AuditEventInput, append_audit_event, same_event, latest, next_event,
}

-- The database with another event in its log.
abbrev pub with_event : AuditLibrary → AuditEventInput → Db → Db
with_event library input db = record db {
  audit = next_event library (latest input.correlation.operation_id db.audit) input ∷ db.audit;
}

pub append_audit_event_lem :
    (library : AuditLibrary) (input : AuditEventInput) (db : Db)
    → Holds (λ _ w. w ≡ with_event library input db) (append_audit_event library input db)
unfolding append_audit_event modify Holds
append_audit_event_lem library input db =
    require-Holds _ db (library.accepts input) audit_refused _ (λ _. gets-Holds _ db _ _ (
      gets-Holds _ db _ _ (
        require-Holds _ db (not (any (same_event input.event_id) db.audit)) unique_violation _
          (λ _. refl))))

pub append-Holds :
    {B : Type 0} (P : B → Db → Type 0) (library : AuditLibrary) (input : AuditEventInput) (db : Db)
    (k : Tx B)
    → Holds P (k (with_event library input db))
    → Holds P ((append_audit_event library input >> k) db)
append-Holds P library input db k h =
    bind-Holds P db _ (append_audit_event library input) (λ _. k)
      (append_audit_event_lem library input db) (λ _ w e. subst (λ x. Holds P (k x)) (sym e) h)
