-- ===== src/Ledger/Tests.antt =====
-- Instances of the theorems on packages/budget-ledger/src.
use crip_wallet.Base.{ℕ, ◌≤◌, ◌<◌, ◌≡◌, refl, Bool, true, [], ◌∷◌, some, arith, ◌==◌, ◌≢◌}
use crip_wallet.Schemas.Money.{units}
use crip_wallet.Store.{Db, RecoveryOutcome, AuditEventType}
use crip_wallet.Store.ReservationStatus.{held, authorized, broadcast, released, expired, disputed}
use crip_wallet.Store.Tables.{find}
use crip_wallet.Store.Tx.{Holds}
use crip_wallet.Audit.{append_audit_event}
use crip_wallet.Ledger.Auth.{receipt_pattern}
use crip_wallet.Ledger.Reserve.{reserve_budget}
use crip_wallet.Ledger.Transitions.{
  authorize_reservation, mark_reservation_broadcast, verify_broadcast_evidence, release_reservation,
  expire_reservation, finalize_reservation, dispute_reservation,
}
use crip_wallet.Ledger.Lease.{claim_recovery_lease}
use crip_wallet.Ledger.Recovery.{resolve_recovery, recovery_payload}
use crip_wallet.Ledger.Authenticated.{Authenticated}
use crip_wallet.Ledger.Replaying.{reserve_budget-reserve_budget, reserve_budget-IsRefused}
use crip_wallet.Ledger.{ReserveRequest}
use crip_wallet.Base.Ensures.{ok}
use crip_wallet.Store.Tx.{IsRefused}
use crip_wallet.Store.{AuthenticatedComponent, ComponentRole}
use crip_wallet.Schemas.Money.{positive_atomic_unit, atomic_unit}
use crip_wallet.Schemas.Money.Decimal.{value}
use crip_wallet.Ledger.Rows.Effects.{Balanced}
use crip_wallet.Ledger.Balance.{Run, start, next, release, AllRetaining, run-Balanced}
use crip_wallet.Ledger.Fences.{Unfenced}
use crip_wallet.Ledger.Reserving.{Reserving, reserve_budget_lem}
use crip_wallet.Ledger.Outcomes.{
  Touched, Closing, Finalizing, release_reservation_lem, expire_reservation_lem,
  finalize_reservation_lem,
}
use crip_wallet.Ledger.Broadcasting.{
  IsAuthorized, Sending, sending_states, authorize_reservation_lem,
}
use crip_wallet.Ledger.Sending.{
  Signed, mark_reservation_broadcast_lem, verify_broadcast_evidence_lem, dispute_reservation_lem,
}
use crip_wallet.Ledger.Effect.{Effect}
use crip_wallet.Ledger.Leases.{Recovering, Claimed, resolve_recovery_lem, claim_recovery_lease_lem}
use crip_wallet.Ledger.Binding.{is_evidence}
use crip_wallet.Ledger.Events.{event_data}
use crip_wallet.Ledger.Serializable.{
  attempt_work, serialization_failure, with_serializable_transaction,
  with_serializable_transaction-first, with_serializable_transaction-all_fail,
}
use crip_wallet.Store.{BroadcastEvidenceRow, VerificationStatus, AuditActorType}
use crip_wallet.Store.Funds.{funds, is_live}
use crip_wallet.Schemas.Common.{evm_hash}
use crip_wallet.Schemas.Lifecycle.{LifecycleState}
use crip_wallet.Audit.{AuditEventInput}
use crip_wallet.Audit.Chain.{last_of, IsChained, append_audit_event-IsChained}
use crip_wallet.Ledger.Fixture.{
  env, reservation, database, fresh_database, input, request, after, database-AllBalanced,
}
use crip_wallet.Ledger.Runs.{
  ledger, claim_request, resolution, sent_evidence, adapter_input, reconciler_input,
}

abbrev released_database : Db
released_database = after (release_reservation env input) (database held)

release_run : Run env (database held) released_database
unfolding ledger
release_run = next start (release input (_, refl))

release_run-AllRetaining : AllRetaining release_run
unfolding AllRetaining release_run
release_run-AllRetaining = (tt, tt)

run-Balanced_example : Balanced released_database
run-Balanced_example =
    run-Balanced env (database held) released_database release_run release_run-AllRetaining
      (database-AllBalanced held refl refl)

reserve_budget_lem_example :
    Holds
      (λ r' w.
        (positive_atomic_unit request.amount_atomic ≡ true)
        × (Unfenced request.operation_id fresh_database)
        × ((expires_at : ℕ) × (request.expires_at ≡ some expires_at)
            × Reserving env request expires_at fresh_database w r'))
      (reserve_budget env request fresh_database)
reserve_budget_lem_example = reserve_budget_lem env request fresh_database

abbrev reserved_database : Db
reserved_database = after (reserve_budget env request) fresh_database

reserve_budget-reserve_budget_example :
    reserve_budget env request reserved_database ≡ ok (reservation held, reserved_database)
unfolding ledger
reserve_budget-reserve_budget_example =
    reserve_budget-reserve_budget env request fresh_database reserved_database (reservation held)
      refl

-- A request under the key of the reservation, with another payload
abbrev other_request : ReserveRequest
other_request = record request { idempotency_payload = units "other" }

reserve_budget-IsRefused_example : IsRefused (reserve_budget env other_request reserved_database)
unfolding ledger
reserve_budget-IsRefused_example =
    reserve_budget-IsRefused env request other_request fresh_database reserved_database
      (reservation held) 5000 5000 refl refl refl refl (λ e. cc)

authorize_reservation_lem_example :
    Holds
      (Touched (units "r") (database authorized) (λ r b r' w.
        (r.status ≡ authorized)
        × IsAuthorized (LifecycleState.authorized ∷ []) (database authorized) r
        × (r' ≡ r)
        × (w ≡ database authorized)))
      (authorize_reservation input (database authorized))
authorize_reservation_lem_example = authorize_reservation_lem input (database authorized)

mark_reservation_broadcast_lem_example :
    Holds
      (Touched (units "r") (database broadcast) (λ r b r' w.
        (evm_hash sent_evidence.transaction_hash ≡ true)
        × (atomic_unit sent_evidence.nonce ≡ true)
        × (receipt_pattern sent_evidence.receipt_reference ≡ true)
        × Signed env adapter_input sent_evidence (database broadcast) r
        × IsAuthorized sending_states (database broadcast) r
        × Sending sent_evidence (database broadcast) w r r'))
      (mark_reservation_broadcast env adapter_input sent_evidence (database broadcast))
mark_reservation_broadcast_lem_example =
    mark_reservation_broadcast_lem env adapter_input sent_evidence (database broadcast)

verify_broadcast_evidence_lem_example :
    Holds
      (Touched (units "r") (database broadcast) (λ r b r' w.
        (r.status ≡ broadcast)
        × (r' ≡ r)
        × (funds w ≡ funds (database broadcast))
        × ((e : BroadcastEvidenceRow) × (find (is_evidence r.reservation_id) w.evidence ≡ some e)
            × (e.verification_status ≡ VerificationStatus.verified))))
      (verify_broadcast_evidence env reconciler_input (database broadcast))
verify_broadcast_evidence_lem_example =
    verify_broadcast_evidence_lem env reconciler_input (database broadcast)

release_reservation_lem_example :
    Holds
      (Touched (units "r") (database held) (λ r b r' w. Closing released (database held) w r r' b))
      (release_reservation env input (database held))
release_reservation_lem_example = release_reservation_lem env input (database held)

expire_reservation_lem_example :
    Holds
      (Touched (units "r") (database authorized) (λ r b r' w.
        Closing expired (database authorized) w r r' b
        × (r.status ≢ expired → (now : ℕ) × (some 5000 ≡ some now) × (r.expires_at ≤ now))))
      (expire_reservation env input (some 5000) (database authorized))
expire_reservation_lem_example = expire_reservation_lem env input (some 5000) (database authorized)

finalize_reservation_lem_example :
    Holds
      (λ r' w.
        (atomic_unit (units "250") ≡ true)
        × Touched
            (units "r")
            (database broadcast)
            (λ r b r'' w'.
              Finalizing (value (units "250")) (units "receipt:1") (database broadcast) w' r r'' b)
            r'
            w)
      (finalize_reservation env input (units "250") (units "receipt:1") (database broadcast))
finalize_reservation_lem_example =
    finalize_reservation_lem env input (units "250") (units "receipt:1") (database broadcast)

dispute_reservation_lem_example :
    Holds
      (Touched (units "r") (database broadcast) (λ r b r' w.
        Effect (database broadcast) w r r' × (r'.status ≡ disputed) × (is_live r.status ≡ true)))
      (dispute_reservation env input (units "why") (database broadcast))
dispute_reservation_lem_example =
    dispute_reservation_lem env input (units "why") (database broadcast)

resolve_recovery_lem_example :
    Holds
      (Touched (units "r") (database broadcast) (λ r b r' w.
        (r.operation_id ≡ units "o")
        × ((a : AuthenticatedComponent) × Authenticated env
              (resolution RecoveryOutcome.confirmed).audit.component_auth
              ComponentRole.reconciler
              (recovery_payload
                (resolution RecoveryOutcome.confirmed)
                (find (is_evidence (units "r")) (database broadcast).evidence))
              (database broadcast)
              a
            × Recovering 8999
                (resolution RecoveryOutcome.confirmed)
                a
                (database broadcast)
                w
                r
                r')))
      (resolve_recovery env 8999 (resolution RecoveryOutcome.confirmed) (database broadcast))
resolve_recovery_lem_example =
    resolve_recovery_lem env 8999 (resolution RecoveryOutcome.confirmed) (database broadcast)

claim_recovery_lease_lem_example :
    Holds
      (λ lease w. Claimed env 9000 claim_request (database broadcast) lease w)
      (claim_recovery_lease env 9000 claim_request (database broadcast))
claim_recovery_lease_lem_example =
    claim_recovery_lease_lem env 9000 claim_request (database broadcast)

-- The first attempt fails, the second is let pass.
abbrev first_fails : ℕ → Bool
first_fails n = n == 0

before_one : (j : ℕ) → j < 1 → first_fails j ≡ true
before_one j l = ground (arith, l)

with_serializable_transaction-first_example :
    with_serializable_transaction first_fails (λ _. database held) (release_reservation env input) 3
    ≡ attempt_work first_fails (λ _. database held) (release_reservation env input) 1
with_serializable_transaction-first_example =
    with_serializable_transaction-first first_fails (λ _. database held)
      (release_reservation env input) 3 1 (omega arith) (omega arith) before_one refl

abbrev always_fails : ℕ → Bool
always_fails n = true

all_before : (j : ℕ) → j ≤ 3 → always_fails j ≡ true
all_before j l = refl

with_serializable_transaction-all_fail_example :
    with_serializable_transaction always_fails
      (λ _. database held)
      (release_reservation env input)
      3
    ≡ serialization_failure
with_serializable_transaction-all_fail_example =
    with_serializable_transaction-all_fail always_fails (λ _. database held)
      (release_reservation env input) 3 (omega arith) all_before

abbrev event_input : AuditEventInput
event_input = record {
  event_id = units "ev2";
  event_type = AuditEventType.reservation_released;
  actor_type = AuditActorType.service;
  actor_id = units "svc";
  trace_id = units "t";
  correlation = record {
    reservation_id = units "r";
    budget_id = units "b";
    owner_id = units "owner";
    agent_id = units "a";
    wallet_id = units "w";
    intent_id = units "i";
    operation_id = units "o";
    policy_id = units "p";
    policy_version = 1;
  };
  details = event_data (reservation released);
}

released-IsChained : IsChained (units "o") released_database.audit
unfolding ledger last_of
released-IsChained = (λ _. (refl, refl), tt)

append_audit_event-IsChained_example :
    Holds
      (λ _ w. IsChained (units "o") w.audit)
      (append_audit_event env.library event_input released_database)
append_audit_event-IsChained_example =
    append_audit_event-IsChained env.library event_input released_database (units "o")
      released-IsChained
