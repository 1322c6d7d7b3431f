-- ===== src/Ledger/Lease.antt =====
-- packages/budget-ledger/src/ledger.ts: `claimRecoveryLease`. The clock of the database is an argument.
use crip_wallet.Base.{ℕ, ◌+◌, ◌*◌, Bool, true, false, not, ◌&&◌, ◌∷◌, Option, none, some, leb, ltb}
use crip_wallet.Schemas.Money.{Text}
use crip_wallet.Schemas.Common.{same_text}
use crip_wallet.Store.{Db, ComponentRole, AuditEventType, Lease, LeaseState}
use crip_wallet.Store.Tables.{find, update}
use crip_wallet.Store.Tx.{
  Tx, ◌>>=◌, ◌>>◌, pure, gets, modify, or_throw, require, recovery_lease_stale, recovery_lease_held,
  budget_binding_mismatch,
}
use crip_wallet.Store.Query.{reads}
use crip_wallet.TrustBoundary.{claim_payload}
use crip_wallet.Ledger.{Env, RecoveryClaimRequest, RecoveryLease}
use crip_wallet.Ledger.Auth.{authenticate_component}
use crip_wallet.Ledger.Binding.{get_reservation_for_update}
use crip_wallet.Ledger.Events.{event_data, write_recovery_audit}

abbrev pub is_lease : Text → Lease → Bool
is_lease id l = same_text l.operation_id id

abbrev pub is_active_lease : LeaseState → Bool
is_active_lease LeaseState.active = true
is_active_lease LeaseState.resolved = false

-- `MAX_RECOVERY_LEASE_SECONDS`
abbrev pub max_recovery_lease_seconds : ℕ
max_recovery_lease_seconds = 300

-- `Number.MAX_SAFE_INTEGER`
abbrev pub max_safe_integer : ℕ
max_safe_integer = 9007199254740991

-- A lease that nobody else may take yet.
abbrev pub is_held_lease : ℕ → Lease → Bool
is_held_lease now l = is_active_lease l.lease_state && ltb now l.lease_expires_at

-- INSERT INTO operation_recovery_leases ... ON CONFLICT DO UPDATE
abbrev pub put_lease : Option Lease → Lease → Db → Db
put_lease none l db = record db { leases = l ∷ db.leases }
put_lease (some old) l db = record db {
  leases = update (is_lease l.operation_id) (λ _. l) db.leases;
}

abbrev pub next_version : Option Lease → ℕ
next_version none = 1
next_version (some l) = l.lease_version + 1

abbrev pub is_taken : ℕ → Option Lease → Bool
is_taken now none = false
is_taken now (some l) = is_held_lease now l

-- `claimRecoveryLease`, `now` by the database's clock
unfoldable pub claim_recovery_lease : Env → ℕ → RecoveryClaimRequest → Tx RecoveryLease
claim_recovery_lease env now input = do
  seconds ← or_throw input.lease_duration_seconds recovery_lease_stale
  require (ltb 0 seconds && leb seconds max_recovery_lease_seconds) recovery_lease_stale
  binding ← reads (get_reservation_for_update input.reservation_id)
  require (same_text binding.reservation.operation_id input.operation_id) budget_binding_mismatch
  authenticated ← reads (
      authenticate_component env input.audit.component_auth ComponentRole.reconciler
        (claim_payload input.attempt_id input.operation_id input.reservation_id seconds))
  current ← gets (λ db. find (is_lease input.operation_id) db.leases)
  require (not (is_taken now current)) recovery_lease_held
  require (leb (next_version current) max_safe_integer) recovery_lease_stale
  modify (
      put_lease current (record {
        operation_id = input.operation_id;
        reservation_id = input.reservation_id;
        credential_id = authenticated.credential_id;
        lease_version = next_version current;
        lease_expires_at = now + seconds * 1000;
        lease_state = LeaseState.active;
      }))
  write_recovery_audit env input.audit AuditEventType.recovery_claimed binding.correlation
      (record (event_data binding.reservation) { lease_version = some (next_version current) })
      authenticated input.attempt_id
  pure (record {
    operation_id = input.operation_id;
    reservation_id = input.reservation_id;
    credential_id = authenticated.credential_id;
    component_id = authenticated.component_id;
    lease_version = next_version current;
    lease_expires_at = now + seconds * 1000;
  })
