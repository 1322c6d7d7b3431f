-- ===== src/Ledger/Runs.antt =====
-- Tests of packages/budget-ledger/src/ledger.ts on one database.
use crip_wallet.Base.{◌≡◌, refl, true, false, [], some}
use crip_wallet.Schemas.Money.{units}
use crip_wallet.Store.{ComponentRole, RecoveryOutcome}
use crip_wallet.Store.ReservationStatus.{held, authorized, broadcast, released}
use crip_wallet.Ledger.{
  TransitionInput, RecoveryClaimRequest, RecoveryResolution, BroadcastEvidence,
}
use crip_wallet.Store.Tables.{find, update, count}
use crip_wallet.Store.Tx.{◌>>=◌, modify}
use crip_wallet.Store.Query.{◌>>=◌ as query_bind, reads, select}
use crip_wallet.Audit.{latest, next_event, append_audit_event}
use crip_wallet.TrustBoundary.{component_pattern, base64url_pattern, verify_component_action}
use crip_wallet.Ledger.Auth.{
  authenticate_component, parse_atomic, parse_positive_atomic, receipt_pattern,
  parse_broadcast_evidence,
}
use crip_wallet.Ledger.Binding.{
  is_consistent, join_operation, get_reservation_binding_for_reserve, get_reservation,
  get_reservation_for_update, is_asserted, lock_reservation_control_fences, get_broadcast_evidence,
  is_canonical_authorization, assert_canonical_authorization_evidence,
}
use crip_wallet.Ledger.Rows.{
  update_budget, update_reservation, insert_reservation, return_funds, settle_funds,
}
use crip_wallet.Ledger.Events.{
  colon_name, write_transition_audit, write_component_audit, write_recovery_audit,
}
use crip_wallet.Ledger.Reserve.{replay, reserve_new, reserve_budget}
use crip_wallet.Ledger.Transitions.{
  transition_reservation, authorize_reservation, confirm_broadcast, first_broadcast,
  mark_reservation_broadcast, verify_broadcast_evidence, close_reservation, release_reservation,
  expire_reservation, finalize_broadcast, finalize_reservation, dispute_reservation,
}
use crip_wallet.Ledger.Lease.{claim_recovery_lease}
use crip_wallet.Ledger.Recovery.{
  parse_spend, verify_pending, resolve_confirmed, resolve_unsent, resolve_reverted,
  resolve_disputed, resolve_outcome, record_resolution, resolve_new, resolve_recovery,
}
use crip_wallet.Schemas.Lifecycle.{state_eq, state_index}
use crip_wallet.Schemas.Money.{
  positive_atomic_unit, atomic_unit, canonical_atomic, is_within_uint256, text_compare,
  maximum_uint256_decimal,
}
use crip_wallet.Schemas.Money.Decimal.{value}
use crip_wallet.Schemas.Common.{same_text, hex_pattern}
use crip_wallet.Ledger.Fixture.{
  env, database, fresh_database, audit, authorization, input, request, succeeds,
}

-- All the definitions that the tests run.
unfoldable pub ledger : Unit {0}
unfolding find update count ◌>>=◌ modify query_bind reads select latest next_event
    append_audit_event component_pattern base64url_pattern verify_component_action
    authenticate_component parse_atomic parse_positive_atomic receipt_pattern
    parse_broadcast_evidence is_consistent join_operation get_reservation_binding_for_reserve
    get_reservation get_reservation_for_update is_asserted lock_reservation_control_fences
    get_broadcast_evidence is_canonical_authorization assert_canonical_authorization_evidence
    update_budget update_reservation insert_reservation return_funds settle_funds colon_name
    write_transition_audit write_component_audit write_recovery_audit replay reserve_new
    reserve_budget transition_reservation authorize_reservation confirm_broadcast first_broadcast
    mark_reservation_broadcast verify_broadcast_evidence close_reservation release_reservation
    expire_reservation finalize_broadcast finalize_reservation dispute_reservation
    claim_recovery_lease parse_spend verify_pending resolve_confirmed resolve_unsent
    resolve_reverted resolve_disputed resolve_outcome record_resolution resolve_new resolve_recovery
    state_eq same_text positive_atomic_unit atomic_unit canonical_atomic is_within_uint256
    text_compare maximum_uint256_decimal value hex_pattern state_index
ledger = tt

abbrev pub claim_request : RecoveryClaimRequest
claim_request = record {
  attempt_id = units "at";
  operation_id = units "o";
  reservation_id = units "r";
  lease_duration_seconds = some 60;
  audit = audit (authorization ComponentRole.reconciler (units "d"));
}

abbrev pub resolution : RecoveryOutcome → RecoveryResolution
resolution outcome = record {
  attempt_id = units "at";
  operation_id = units "o";
  reservation_id = units "r";
  lease_version = 3;
  outcome = outcome;
  reason = units "why";
  actual_spend_atomic = some (units "250");
  proof_reference = some (units "receipt:1");
  verified_revert = false;
  audit = audit (authorization ComponentRole.reconciler (units "d"));
}

pub operation_tests :
    (succeeds (reserve_budget env request) fresh_database ≡ true)
    × (succeeds (reserve_budget env request) (database held) ≡ true)
    × (succeeds (authorize_reservation input) (database authorized) ≡ true)
    × (succeeds (authorize_reservation input) (database held) ≡ false)
    × (succeeds (release_reservation env input) (database held) ≡ true)
    × (succeeds (release_reservation env input) (database broadcast) ≡ false)
    × (succeeds (expire_reservation env input (some 5000)) (database authorized) ≡ true)
    × (succeeds (expire_reservation env input (some 4999)) (database authorized) ≡ false)
    × (succeeds
          (finalize_reservation env input (units "250") (units "receipt:1"))
          (database broadcast)
        ≡ true)
    × (succeeds
          (finalize_reservation env input (units "301") (units "receipt:1"))
          (database broadcast)
        ≡ false)
    × (succeeds (claim_recovery_lease env 9000 claim_request) (database broadcast) ≡ true)
    × (succeeds (claim_recovery_lease env 8999 claim_request) (database broadcast) ≡ false)
    × (succeeds
          (resolve_recovery env 8999 (resolution RecoveryOutcome.confirmed))
          (database broadcast)
        ≡ true)
    × (succeeds
          (resolve_recovery env 9000 (resolution RecoveryOutcome.confirmed))
          (database broadcast)
        ≡ false)
    × (succeeds
          (resolve_recovery env 8999 (resolution RecoveryOutcome.ambiguous))
          (database released)
        ≡ true)
unfolding ledger
operation_tests =
    (refl, refl, refl, refl, refl, refl, refl, refl, refl, refl, refl, refl, refl, refl, refl)

abbrev pub sent_evidence : BroadcastEvidence
sent_evidence = record {
  transaction_hash = units "0x0000000000000000000000000000000000000000000000000000000000000000";
  nonce = units "7";
  receipt_reference = units "receipt:1";
}

abbrev pub adapter_input : TransitionInput
adapter_input = record input { audit = audit (authorization ComponentRole.adapter (units "c")) }

abbrev pub reconciler_input : TransitionInput
reconciler_input = record input {
  audit = audit (authorization ComponentRole.reconciler (units "d"));
}

pub sending_tests :
    (succeeds (mark_reservation_broadcast env adapter_input sent_evidence) (database broadcast)
      ≡ true)
    × (succeeds
          (mark_reservation_broadcast env adapter_input sent_evidence)
          (record (database authorized) { evidence = [] })
        ≡ true)
    × (succeeds (mark_reservation_broadcast env input sent_evidence) (database broadcast) ≡ false)
    × (succeeds (verify_broadcast_evidence env reconciler_input) (database broadcast) ≡ true)
    × (succeeds (dispute_reservation env input (units "why")) (database broadcast) ≡ true)
unfolding ledger
sending_tests = (refl, refl, refl, refl, refl)
