-- ===== src/Audit/Chain.antt =====
-- packages/audit/src/index.ts: the events of an operation form a chain.
use crip_wallet.Base.{
  ◌+◌, ◌≡◌, refl, sym, ap, subst, ◌∙◌, true, List, [], ◌∷◌, Option, none, some, arith,
  if◌then◌else◌, Bool-cases, inl, inr,
}
use crip_wallet.Schemas.Money.{Text}
use crip_wallet.Schemas.Common.{same_text_iff}
use crip_wallet.Store.{Db, AuditEvent}
use crip_wallet.Store.Tx.{Holds, weaken-Holds}
use crip_wallet.Audit.{
  AuditLibrary, AuditEventInput, of_operation, newer, latest, sequence_of, hash_of, next_event,
  append_audit_event,
}
use crip_wallet.Audit.Frame.{append_audit_event_lem}

-- The event of an operation that was written last.
unfoldable pub last_of : Text → List AuditEvent → Option AuditEvent
last_of operation_id [] = none
last_of operation_id (e ∷ log) =
    if of_operation operation_id e then some e else last_of operation_id log

-- Each event of the operation has the next number after the one written before it, from 1 on, and
-- that event's hash.
abbrev pub IsChained : Text → List AuditEvent → Type 0
IsChained operation_id [] = Unit
IsChained operation_id (e ∷ log) =
    (of_operation operation_id e ≡ true
      → (e.sequence ≡ sequence_of (last_of operation_id log) + 1)
        × (e.previous_event_hash ≡ hash_of (last_of operation_id log)))
    × IsChained operation_id log

newest :
    (e : AuditEvent) (o : Option AuditEvent)
    → e.sequence ≡ sequence_of o + 1
    → some (newer e o) ≡ some e
newest e none h = refl
newest e (some f) h = ground (arith, h)

latest_lem :
    (operation_id : Text) (log : List AuditEvent)
    → IsChained operation_id log
    → latest operation_id log ≡ last_of operation_id log
unfolding latest last_of
latest_lem operation_id [] h = refl
latest_lem operation_id (e ∷ log) (h, rest) = elim (Bool-cases (of_operation operation_id e)) [
  | inl own ↦
      rw (own, latest_lem operation_id log rest) (newest e (last_of operation_id log) (h own).0)
  | inr other ↦ rw (other) (latest_lem operation_id log rest)
]

next_event_lem :
    (library : AuditLibrary) (input : AuditEventInput) (operation_id : Text) (log : List AuditEvent)
    → IsChained operation_id log
    → let e = next_event library (latest input.correlation.operation_id log) input in
      of_operation operation_id e ≡ true
      → (e.sequence ≡ sequence_of (last_of operation_id log) + 1)
        × (e.previous_event_hash ≡ hash_of (last_of operation_id log))
unfolding next_event
next_event_lem library input operation_id log h own =
    let same = (same_text_iff input.correlation.operation_id operation_id).0 own in
    let found = ap (λ t. latest t log) same ∙ latest_lem operation_id log h in
    (ap (λ o. sequence_of o + 1) found, ap hash_of found)

-- An append keeps the chain of every operation.
pub append_audit_event-IsChained :
    (library : AuditLibrary) (input : AuditEventInput) (db : Db) (operation_id : Text)
    → IsChained operation_id db.audit
    → Holds (λ _ w. IsChained operation_id w.audit) (append_audit_event library input db)
append_audit_event-IsChained library input db operation_id h =
    weaken-Holds _ db _ (append_audit_event library input) (append_audit_event_lem library input db)
      (λ _ w e.
        subst (λ (x : Db). IsChained operation_id x.audit) (sym e)
          (next_event_lem library input operation_id db.audit h, h))
