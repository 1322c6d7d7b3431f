-- ===== src/Ledger/Transitions.antt =====
-- packages/budget-ledger/src/ledger.ts: the transitions of a reservation, from
-- `authorizeReservation` to `disputeReservation`.
use crip_wallet.Base.{
  ℕ, Bool, true, false, not, any, ◌&&◌, ◌||◌, [], ◌∷◌, Option, none, some, ◌==◌, leb, if◌then◌else◌,
}
use crip_wallet.Schemas.Money.{Text}
use crip_wallet.Schemas.Common.{same_text}
use crip_wallet.Schemas.Lifecycle.{LifecycleState}
use crip_wallet.Store.{
  Db, Reservation, ReservationStatus, ComponentRole, VerificationStatus, AuditEventType,
  AuditCorrelation, AuthenticatedComponent, BroadcastEvidenceRow,
}
use crip_wallet.Store.ReservationStatus.{
  held, authorized, broadcast, finalized, released, expired, disputed,
}
use crip_wallet.Store.Tables.{update}
use crip_wallet.Store.Tx.{
  Tx, ◌>>=◌, ◌>>◌, pure, gets, modify, or_throw, require, invalid_reservation_transition,
  recovery_conflict, invalid_timestamp, reservation_not_expired, invalid_broadcast_evidence,
  invalid_atomic_amount, unique_violation,
}
use crip_wallet.Store.Query.{reads}
use crip_wallet.TrustBoundary.{broadcast_payload, verify_payload}
use crip_wallet.Ledger.{Env, TransitionInput, BroadcastEvidence}
use crip_wallet.Ledger.Auth.{authenticate_component, parse_atomic, parse_broadcast_evidence}
use crip_wallet.Ledger.Binding.{
  get_reservation_for_update, assert_audit_correlation, get_broadcast_evidence, is_evidence,
  assert_canonical_authorization_evidence,
}
use crip_wallet.Ledger.Rows.{
  update_reservation, set_status, set_finalized, return_funds, settle_funds,
}
use crip_wallet.Ledger.Events.{event_data, write_transition_audit, write_component_audit}

abbrev pub is_status : ReservationStatus → ReservationStatus → Bool
is_status held held = true
is_status authorized authorized = true
is_status broadcast broadcast = true
is_status finalized finalized = true
is_status released released = true
is_status expired expired = true
is_status disputed disputed = true
is_status _ _ = false

-- `transitionReservation`
unfoldable pub transition_reservation :
    TransitionInput → (Reservation → AuditCorrelation → Tx Reservation) → Tx Reservation
transition_reservation input transition = do
  binding ← reads (get_reservation_for_update input.reservation_id)
  reads (assert_audit_correlation input.audit binding.correlation)
  transition binding.reservation binding.correlation

-- `authorizeReservation`
unfoldable pub authorize_reservation : TransitionInput → Tx Reservation
authorize_reservation input = transition_reservation input (λ r correlation. do
  require (is_status r.status authorized) invalid_reservation_transition
  reads (assert_canonical_authorization_evidence r (LifecycleState.authorized ∷ []))
  pure r)

abbrev pub is_verified : VerificationStatus → Bool
is_verified VerificationStatus.verified = true
is_verified VerificationStatus.pending = false

-- The branch of `markReservationBroadcast` for a reservation that is broadcast already.
unfoldable pub confirm_broadcast : Reservation → BroadcastEvidence → ℕ → Tx Reservation
confirm_broadcast r evidence nonce = do
  existing ← reads (get_broadcast_evidence r.reservation_id)
  require
      (same_text existing.transaction_hash evidence.transaction_hash
        && (existing.nonce == nonce
            && same_text existing.receipt_reference evidence.receipt_reference))
      recovery_conflict
  pure r

-- The row of the INSERT.
abbrev pub new_evidence :
    Text → BroadcastEvidence → ℕ → AuthenticatedComponent → BroadcastEvidenceRow
new_evidence id evidence nonce authenticated = record {
  reservation_id = id;
  transaction_hash = evidence.transaction_hash;
  nonce = nonce;
  receipt_reference = evidence.receipt_reference;
  adapter = authenticated;
  verification_status = VerificationStatus.pending;
  verification = none;
}

-- The branch of `markReservationBroadcast` for an authorized reservation.
unfoldable pub first_broadcast :
    Env
    → TransitionInput
    → Reservation
    → AuditCorrelation
    → BroadcastEvidence
    → ℕ
    → AuthenticatedComponent
    → Tx Reservation
first_broadcast env input r correlation evidence nonce authenticated = do
  rows ← gets (λ db. db.evidence)
  require (not (any (is_evidence r.reservation_id) rows)) unique_violation
  modify (λ db. record db {
    evidence = new_evidence r.reservation_id evidence nonce authenticated ∷ db.evidence;
  })
  update_reservation r.reservation_id (set_status broadcast)
  write_component_audit env input.audit AuditEventType.reservation_broadcast correlation
      (record (event_data r) {
        transaction_hash = some evidence.transaction_hash;
        nonce = some nonce;
        proof_reference = some evidence.receipt_reference;
      })
      authenticated
  pure (set_status broadcast r)

-- `markReservationBroadcast`
unfoldable pub mark_reservation_broadcast :
    Env → TransitionInput → BroadcastEvidence → Tx Reservation
mark_reservation_broadcast env input evidence = transition_reservation input (λ r correlation. do
  nonce ← reads (parse_broadcast_evidence evidence)
  authenticated ← reads (
      authenticate_component env input.audit.component_auth ComponentRole.adapter (
        broadcast_payload r.reservation_id evidence.transaction_hash nonce
          evidence.receipt_reference))
  require (is_status r.status authorized || is_status r.status broadcast)
      invalid_reservation_transition
  reads (
      assert_canonical_authorization_evidence r
        (LifecycleState.authorized ∷ LifecycleState.signing ∷ LifecycleState.signed ∷ []))
  if is_status r.status broadcast
      then confirm_broadcast r evidence nonce
      else first_broadcast env input r correlation evidence nonce authenticated)

-- The UPDATE that verifies the evidence.
abbrev pub verify_evidence : Text → AuthenticatedComponent → Db → Db
verify_evidence id authenticated db = record db {
  evidence =
      update (is_evidence id)
        (λ e. record e {
          verification_status = VerificationStatus.verified;
          verification = some authenticated;
        })
        db.evidence;
}

-- `verifyBroadcastEvidence`
unfoldable pub verify_broadcast_evidence : Env → TransitionInput → Tx Reservation
verify_broadcast_evidence env input = transition_reservation input (λ r correlation. do
  require (is_status r.status broadcast) invalid_reservation_transition
  evidence ← reads (get_broadcast_evidence r.reservation_id)
  authenticated ← reads (
      authenticate_component env input.audit.component_auth ComponentRole.reconciler (
        verify_payload r.reservation_id evidence.transaction_hash evidence.nonce
          evidence.receipt_reference))
  if is_verified evidence.verification_status then pure r else (do
    modify (verify_evidence r.reservation_id authenticated)
    write_component_audit env input.audit AuditEventType.evidence_verified correlation
        (record (event_data r) {
          transaction_hash = some evidence.transaction_hash;
          nonce = some evidence.nonce;
          proof_reference = some evidence.receipt_reference;
          verification_status = some VerificationStatus.verified;
        })
        authenticated
    pure r))

abbrev pub is_unsent : ReservationStatus → Bool
is_unsent held = true
is_unsent authorized = true
is_unsent _ = false

-- The writes of `releaseReservation` and of `expireReservation`.
unfoldable pub close_reservation :
    Env
    → TransitionInput
    → Reservation
    → AuditCorrelation
    → ReservationStatus
    → AuditEventType
    → Tx Reservation
close_reservation env input r correlation status event_type = do
  return_funds r status
  write_transition_audit env input.audit event_type correlation (event_data r)
  pure (set_status status r)

-- `releaseReservation`
unfoldable pub release_reservation : Env → TransitionInput → Tx Reservation
release_reservation env input = transition_reservation input (λ r correlation.
    if is_status r.status released then pure r else (do
      require (is_unsent r.status) invalid_reservation_transition
      close_reservation env input r correlation released AuditEventType.reservation_released))

-- `expireReservation`; a time that is no date is `none`.
unfoldable pub expire_reservation : Env → TransitionInput → Option ℕ → Tx Reservation
expire_reservation env input time = transition_reservation input (λ r correlation.
    if is_status r.status expired then pure r else (do
      require (is_unsent r.status) invalid_reservation_transition
      now ← or_throw time invalid_timestamp
      require (leb r.expires_at now) reservation_not_expired
      close_reservation env input r correlation expired AuditEventType.reservation_expired))

-- What `finalizeReservation` does with the reservation.
unfoldable pub finalize_broadcast :
    Env → TransitionInput → ℕ → Text → Reservation → AuditCorrelation → Tx Reservation
finalize_broadcast env input spend proof_reference r correlation = do
  require (is_status r.status broadcast) invalid_reservation_transition
  evidence ← reads (get_broadcast_evidence r.reservation_id)
  require (is_verified evidence.verification_status) invalid_broadcast_evidence
  require (same_text proof_reference evidence.receipt_reference) invalid_broadcast_evidence
  require (leb spend r.amount_atomic) invalid_atomic_amount
  settle_funds r spend (some proof_reference)
  write_transition_audit env input.audit AuditEventType.reservation_finalized correlation
      (record (event_data r) {
        proof_reference = some proof_reference;
        transaction_hash = some evidence.transaction_hash;
        nonce = some evidence.nonce;
      })
  pure (set_finalized spend (some proof_reference) r)

-- `finalizeReservation`
unfoldable pub finalize_reservation : Env → TransitionInput → Text → Text → Tx Reservation
finalize_reservation env input actual_spend_atomic proof_reference = do
  spend ← reads (parse_atomic actual_spend_atomic)
  transition_reservation input (λ r correlation.
      if is_status r.status finalized
      then pure r
      else finalize_broadcast env input spend proof_reference r correlation)

abbrev pub is_open : ReservationStatus → Bool
is_open held = true
is_open authorized = true
is_open broadcast = true
is_open _ = false

-- `disputeReservation`
unfoldable pub dispute_reservation : Env → TransitionInput → Text → Tx Reservation
dispute_reservation env input reason = transition_reservation input (λ r correlation.
    if is_status r.status disputed then pure r else (do
      require (is_open r.status) invalid_reservation_transition
      update_reservation r.reservation_id (set_status disputed)
      write_transition_audit env input.audit AuditEventType.reservation_disputed correlation
          (record (event_data r) { reason = some reason })
      pure (set_status disputed r)))
