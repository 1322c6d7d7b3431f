-- ===== src/Ledger/Reserve.antt =====
-- packages/budget-ledger/src/ledger.ts: `reserveBudget`, the check of the available funds, the
-- reservation, its idempotency record and its audit event.
use crip_wallet.Base.{ℕ, Bool, ◌∷◌, Option, none, some, leb}
use crip_wallet.Schemas.Money.{Text}
use crip_wallet.Schemas.Common.{same_text}
use crip_wallet.Store.{
  Db, Reservation, ReservationStatus, IdempotencyRecord, AuditEventType, AuditCorrelation,
}
use crip_wallet.Store.Tables.{find, update}
use crip_wallet.Store.Tx.{
  Tx, ◌>>=◌, ◌>>◌, pure, gets, modify, or_throw, require, reservation_not_found,
  insufficient_budget, idempotency_conflict, invalid_timestamp, no_result,
}
use crip_wallet.Store.Query.{reads, select}
use crip_wallet.Store.Funds.{is_budget}
use crip_wallet.Ledger.{Env, ReserveRequest}
use crip_wallet.Ledger.Auth.{parse_positive_atomic}
use crip_wallet.Ledger.Binding.{
  map_audit_correlation, get_reservation, get_reservation_binding_for_reserve,
  assert_audit_correlation, lock_reservation_control_fences,
}
use crip_wallet.Ledger.Rows.{update_budget, set_aside, insert_reservation}
use crip_wallet.Ledger.Events.{event_data, write_transition_audit}

abbrev pub is_record : Text → IdempotencyRecord → Bool
is_record key i = same_text i.idempotency_key key

-- The digest of the request.
abbrev pub payload_hash : Env → ReserveRequest → ℕ → Text
payload_hash env q expires_at =
    env.hash_idempotency_payload q.amount_atomic q.budget_id expires_at q.operation_id
      q.idempotency_payload

-- The row of the INSERT.
abbrev pub new_reservation : ReserveRequest → ℕ → ℕ → Reservation
new_reservation q amount expires_at = record {
  reservation_id = q.reservation_id;
  budget_id = q.budget_id;
  operation_id = q.operation_id;
  idempotency_key = q.idempotency_key;
  amount_atomic = amount;
  finalized_spend_atomic = 0;
  status = ReservationStatus.held;
  expires_at = expires_at;
  proof_reference = none;
}

-- The branch of a key that is in the table already.
unfoldable pub replay : Text → IdempotencyRecord → Tx Reservation
replay hash existing = do
  require (same_text existing.payload_hash hash) idempotency_conflict
  id ← or_throw existing.reservation_id no_result
  reads (get_reservation id)

-- INSERT INTO idempotency_records
abbrev pub insert_record : Env → ReserveRequest → ℕ → AuditCorrelation → Db → Db
insert_record env q expires_at correlation db = record db {
  idempotency =
      record {
        idempotency_key = q.idempotency_key;
        payload_hash = payload_hash env q expires_at;
        intent_id = correlation.intent_id;
        operation_id = q.operation_id;
        reservation_id = none;
      }
      ∷ db.idempotency;
}

-- UPDATE idempotency_records
abbrev pub complete_record : ReserveRequest → Db → Db
complete_record q db = record db {
  idempotency =
      update (is_record q.idempotency_key)
        (λ i. record i { reservation_id = some q.reservation_id }) db.idempotency;
}

-- The branch of a new key.
unfoldable pub reserve_new : Env → ReserveRequest → ℕ → ℕ → AuditCorrelation → Tx Reservation
reserve_new env q amount expires_at correlation = do
  modify (insert_record env q expires_at correlation)
  budget ← reads (select (λ db. find (is_budget q.budget_id) db.budgets) reservation_not_found)
  require (leb amount budget.available) insufficient_budget
  update_budget q.budget_id (set_aside amount)
  insert_reservation (new_reservation q amount expires_at)
  modify (complete_record q)
  write_transition_audit env q.audit AuditEventType.reservation_created correlation
      (event_data (new_reservation q amount expires_at))
  pure (new_reservation q amount expires_at)

-- The branch on the idempotency record of the key.
abbrev pub replay_or_reserve :
    Env → ReserveRequest → ℕ → ℕ → AuditCorrelation → Option IdempotencyRecord → Tx Reservation
replay_or_reserve env q amount expires_at correlation (some i) =
    replay (payload_hash env q expires_at) i
replay_or_reserve env q amount expires_at correlation none =
    reserve_new env q amount expires_at correlation

-- `reserveBudget`
unfoldable pub reserve_budget : Env → ReserveRequest → Tx Reservation
reserve_budget env q = do
  amount ← reads (parse_positive_atomic q.amount_atomic)
  expires_at ← or_throw q.expires_at invalid_timestamp
  reads (lock_reservation_control_fences q.operation_id)
  row ← reads (get_reservation_binding_for_reserve q.budget_id q.operation_id)
  reads (assert_audit_correlation q.audit (map_audit_correlation q.reservation_id row))
  existing ← gets (λ db. find (is_record q.idempotency_key) db.idempotency)
  replay_or_reserve env q amount expires_at (map_audit_correlation q.reservation_id row) existing
