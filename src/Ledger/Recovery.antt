-- ===== src/Ledger/Recovery.antt =====
-- packages/budget-ledger/src/ledger.ts: `resolveRecovery`. The clock of the process is an argument.
use crip_wallet.Base.{
  ℕ, Bool, true, false, not, ◌&&◌, ◌||◌, ◌∷◌, Option, none, some, ◌==◌, leb, ltb, if◌then◌else◌,
}
use crip_wallet.Schemas.Money.{Text, is_empty}
use crip_wallet.Schemas.Common.{same_text}
use crip_wallet.Store.{
  Reservation, ComponentRole, VerificationStatus, AuditEventType, AuditData, AuditCorrelation,
  AuthenticatedComponent, BroadcastEvidenceRow, Lease, LeaseState, RecoveryAttempt, RecoveryOutcome,
}
use crip_wallet.Store.ReservationStatus.{broadcast, released, disputed}
use crip_wallet.Store.RecoveryOutcome.{confirmed, failed, ambiguous, conflict}
use crip_wallet.Base.Ensures.{Result}
use crip_wallet.Store.Tables.{find, update}
use crip_wallet.Store.Tx.{
  Tx, ◌>>=◌, ◌>>◌, pure, throw, gets, modify, or_throw, require, recovery_lease_stale,
  budget_binding_mismatch, recovery_conflict, invalid_broadcast_evidence, invalid_atomic_amount,
  invalid_reservation_transition,
}
use crip_wallet.Store.Query.{Query, reads, pure as answer}
use crip_wallet.TrustBoundary.{AuthPayload, resolve_payload}
use crip_wallet.Ledger.{Env, RecoveryResolution}
use crip_wallet.Ledger.Auth.{authenticate_component, parse_atomic}
use crip_wallet.Ledger.Binding.{get_reservation_for_update, is_evidence}
use crip_wallet.Ledger.Rows.{
  update_reservation, set_status, set_finalized, return_funds, settle_funds,
}
use crip_wallet.Ledger.Events.{event_data, write_recovery_audit}
use crip_wallet.Ledger.Transitions.{is_status, is_unsent, is_verified, verify_evidence}
use crip_wallet.Ledger.Lease.{is_lease, is_active_lease}

-- A member that is present and not the empty text.
abbrev given : Option Text → Option Text
given none = none
given (some t) = if is_empty t then none else some t

abbrev is_given : Option Text → Bool
is_given o = elim (given o) [ none ↦ false | some t ↦ true ]

-- `actualSpend` of `resolveRecovery`
unfoldable pub parse_spend : Option Text → Query (Option ℕ)
parse_spend text db = elim (given text) [
  | none ↦ answer none db
  | some t ↦ elim (parse_atomic t db) [
    | Result.ok n ↦ answer (some n) db
    | Result.err e ↦ Result.err e
  ]
]

abbrev pub is_confirmed : RecoveryOutcome → Bool
is_confirmed confirmed = true
is_confirmed _ = false

abbrev pub is_failed : RecoveryOutcome → Bool
is_failed failed = true
is_failed _ = false

abbrev pub is_uncertain : RecoveryOutcome → Bool
is_uncertain ambiguous = true
is_uncertain conflict = true
is_uncertain _ = false

abbrev reference_of : BroadcastEvidenceRow → Text × ℕ × Text
reference_of e = (e.transaction_hash, e.nonce, e.receipt_reference)

abbrev option_map : {A B : Type 0} → (A → B) → Option A → Option B
option_map f none = none
option_map f (some a) = some (f a)

-- `recoveryPayload`
abbrev pub recovery_payload : RecoveryResolution → Option BroadcastEvidenceRow → AuthPayload
recovery_payload input evidence =
    resolve_payload input.attempt_id input.operation_id input.reservation_id input.lease_version
      input.outcome input.reason input.actual_spend_atomic input.proof_reference
      input.verified_revert (option_map reference_of evidence)

abbrev pub is_attempt : Text → RecoveryAttempt → Bool
is_attempt id a = same_text a.attempt_id id

-- The replay of an attempt that is recorded.
abbrev pub is_same_attempt : RecoveryResolution → Text → RecoveryAttempt → Bool
is_same_attempt input hash a =
    same_text a.operation_id input.operation_id
    && (same_text a.reservation_id input.reservation_id && same_text a.resolution_hash hash)

-- The lease that the resolution names, live and owned by the component.
abbrev pub owns_lease : ℕ → RecoveryResolution → AuthenticatedComponent → Lease → Bool
owns_lease now input authenticated l =
    same_text l.reservation_id input.reservation_id
    && (same_text l.credential_id authenticated.credential_id
        && (l.lease_version == input.lease_version
            && (is_active_lease l.lease_state && ltb now l.lease_expires_at)))

abbrev matches_proof : Option Text → BroadcastEvidenceRow → Bool
matches_proof none e = false
matches_proof (some t) e = same_text t e.receipt_reference

-- The details of the events of a resolution.
abbrev resolution_data : RecoveryResolution → Reservation → AuditData
resolution_data input r = record (event_data r) { lease_version = some input.lease_version }

module _ (env : Env) (input : RecoveryResolution) (authenticated : AuthenticatedComponent) where
  abbrev write : AuditEventType → AuditCorrelation → AuditData → Tx (Unit {0})
  write event_type correlation details =
      write_recovery_audit env input.audit event_type correlation details authenticated
        input.attempt_id

  -- The part of CONFIRMED that verifies evidence that is pending.
  unfoldable pub verify_pending :
      Reservation → AuditCorrelation → BroadcastEvidenceRow → Tx (Unit {0})
  verify_pending r correlation e = if is_verified e.verification_status then pure tt else (do
    modify (verify_evidence input.reservation_id authenticated)
    write AuditEventType.evidence_verified correlation (record (resolution_data input r) {
      transaction_hash = some e.transaction_hash;
      nonce = some e.nonce;
      proof_reference = some e.receipt_reference;
      verification_status = some VerificationStatus.verified;
    }))

  -- The branch of CONFIRMED.
  unfoldable pub resolve_confirmed :
      Option ℕ → Option BroadcastEvidenceRow → Reservation → AuditCorrelation → Tx Reservation
  resolve_confirmed actual_spend evidence r correlation = do
    e ← or_throw evidence invalid_broadcast_evidence
    require (is_status r.status broadcast) invalid_broadcast_evidence
    require (matches_proof input.proof_reference e) invalid_broadcast_evidence
    spend ← or_throw actual_spend invalid_broadcast_evidence
    require (leb spend r.amount_atomic) invalid_atomic_amount
    verify_pending r correlation e
    settle_funds r spend input.proof_reference
    write AuditEventType.reservation_finalized correlation (record (resolution_data input r) {
      actual_spend_atomic = some spend;
      proof_reference = input.proof_reference;
      transaction_hash = some e.transaction_hash;
      nonce = some e.nonce;
    })
    pure (set_finalized spend input.proof_reference r)

  -- The branch of FAILED before the broadcast.
  unfoldable pub resolve_unsent : Reservation → AuditCorrelation → Tx Reservation
  resolve_unsent r correlation = do
    return_funds r released
    write AuditEventType.reservation_released correlation
        (record (resolution_data input r) { reason = some input.reason })
    pure (set_status released r)

  abbrev is_zero : Option ℕ → Bool
  is_zero none = false
  is_zero (some n) = n == 0

  -- The branch of FAILED with a verified revert.
  unfoldable pub resolve_reverted :
      Option ℕ → Option BroadcastEvidenceRow → Reservation → AuditCorrelation → Tx Reservation
  resolve_reverted actual_spend evidence r correlation = do
    e ← or_throw evidence invalid_broadcast_evidence
    require
        (is_verified e.verification_status
          && (matches_proof input.proof_reference e && is_zero actual_spend))
        invalid_broadcast_evidence
    return_funds r released
    write AuditEventType.reservation_released correlation (record (resolution_data input r) {
      reason = some input.reason;
      proof_reference = input.proof_reference;
      actual_spend_atomic = some 0;
    })
    pure (set_status released r)

  -- The branch that retains the reservation.
  unfoldable pub resolve_disputed : Reservation → AuditCorrelation → Tx Reservation
  resolve_disputed r correlation = if is_status r.status disputed then pure r else (do
    update_reservation input.reservation_id (set_status disputed)
    write AuditEventType.reservation_disputed correlation
        (record (resolution_data input r) { reason = some input.reason })
    pure (set_status disputed r))

  -- The chain of branches on the outcome.
  unfoldable pub resolve_outcome :
      Option ℕ → Option BroadcastEvidenceRow → Reservation → AuditCorrelation → Tx Reservation
  resolve_outcome actual_spend evidence r correlation =
      if is_confirmed input.outcome
      then resolve_confirmed actual_spend evidence r correlation
      else if is_failed input.outcome && is_unsent r.status
      then resolve_unsent r correlation
      else if is_failed input.outcome && (input.verified_revert && is_status r.status broadcast)
      then resolve_reverted actual_spend evidence r correlation
      else if is_uncertain input.outcome
          || (is_failed input.outcome
              && (is_status r.status broadcast || is_status r.status disputed))
      then resolve_disputed r correlation
      else throw invalid_reservation_transition

  abbrev event_of : RecoveryOutcome → AuditEventType
  event_of ambiguous = AuditEventType.recovery_ambiguous
  event_of conflict = AuditEventType.recovery_conflict
  event_of _ = AuditEventType.recovery_resolved

  -- The writes after the branches: the attempt, the lease and the last event.
  unfoldable pub record_resolution : Option ℕ → Reservation → AuditCorrelation → Tx (Unit {0})
  record_resolution actual_spend next correlation = do
    modify (λ db. record db {
      attempts =
          record {
            attempt_id = input.attempt_id;
            operation_id = input.operation_id;
            reservation_id = input.reservation_id;
            lease_version = input.lease_version;
            credential_id = authenticated.credential_id;
            outcome = input.outcome;
            resolution_hash = authenticated.auth_payload_hash;
            reason = input.reason;
            actual_spend_atomic = actual_spend;
            proof_reference = input.proof_reference;
          }
          ∷ db.attempts;
      leases =
          update (is_lease input.operation_id) (λ l. record l { lease_state = LeaseState.resolved })
            db.leases;
    })
    write (event_of input.outcome) correlation (record (resolution_data input next) {
      recovery_outcome = some input.outcome;
      resolution_hash = some authenticated.auth_payload_hash;
      reason = some input.reason;
    })

  -- The resolution of an attempt that is not recorded yet.
  unfoldable pub resolve_new :
      ℕ → Option ℕ → Option BroadcastEvidenceRow → Reservation → AuditCorrelation → Tx Reservation
  resolve_new now actual_spend evidence r correlation = do
    lease ← gets (λ db. find (is_lease input.operation_id) db.leases)
    current ← or_throw lease recovery_lease_stale
    require (owns_lease now input authenticated current) recovery_lease_stale
    next ← resolve_outcome actual_spend evidence r correlation
    record_resolution actual_spend next correlation
    pure next

-- The branch on the attempt that has the id.
abbrev pub replay_or_resolve :
    Env
    → RecoveryResolution
    → AuthenticatedComponent
    → ℕ
    → Option ℕ
    → Option BroadcastEvidenceRow
    → Reservation
    → AuditCorrelation
    → Option RecoveryAttempt
    → Tx Reservation
replay_or_resolve env input a now spend evidence r correlation (some prior) =
    require (is_same_attempt input a.auth_payload_hash prior) recovery_conflict >> pure r
replay_or_resolve env input a now spend evidence r correlation none =
    resolve_new env input a now spend evidence r correlation

-- `resolveRecovery`, `now` by the clock of the process
unfoldable pub resolve_recovery : Env → ℕ → RecoveryResolution → Tx Reservation
resolve_recovery env now input = do
  spend ← reads (parse_spend input.actual_spend_atomic)
  require
      (not (is_confirmed input.outcome)
        || (is_given input.actual_spend_atomic && is_given input.proof_reference))
      invalid_broadcast_evidence
  binding ← reads (get_reservation_for_update input.reservation_id)
  require (same_text binding.reservation.operation_id input.operation_id) budget_binding_mismatch
  evidence ← gets (λ db. find (is_evidence input.reservation_id) db.evidence)
  authenticated ← reads (
      authenticate_component env input.audit.component_auth ComponentRole.reconciler
        (recovery_payload input evidence))
  prior ← gets (λ db. find (is_attempt input.attempt_id) db.attempts)
  replay_or_resolve env input authenticated now spend evidence binding.reservation
      binding.correlation prior
