-- ===== src/Ledger/Recovering.antt =====
-- packages/budget-ledger/src/ledger.ts: what the recovery of an uncertain outcome has done when it
-- succeeds.
use crip_wallet.Base.{
  ℕ, ◌≡◌, inl, inr, refl, sym, ap, ◌∙◌, true, false, ◌&&◌, ◌||◌, Option, some, arith, leb,
  Bool-cases,
}
use crip_wallet.Store.{
  ReservationStatus, Budget, Reservation, Db, BroadcastEvidenceRow, AuthenticatedComponent,
  AuditCorrelation, AuditEventType, Lease, RecoveryOutcome,
}
use crip_wallet.Store.ReservationStatus.{broadcast, released, disputed}
use crip_wallet.Store.Tables.{find}
use crip_wallet.Store.Tx.{
  Tx, ◌>>◌, Holds, if-Holds, require-Holds, bind-Holds, pure-Holds, gets-Holds, modify-Holds,
  or_throw-Holds, weaken-Holds, throw-Holds, recovery_lease_stale, invalid_broadcast_evidence,
  invalid_atomic_amount, invalid_reservation_transition,
}
use crip_wallet.Store.Funds.{Funds, funds, is_budget, is_reservation, is_live}
use crip_wallet.Ledger.{Env, RecoveryResolution}
use crip_wallet.Ledger.Rows.{give_back, set_status, return_funds, settle_funds, update_reservation}
use crip_wallet.Ledger.Rows.Effects.{
  with_reservation, Paid, return_funds_lem, settle_funds_lem, update_reservation_lem, Paid-funds,
}
use crip_wallet.Ledger.Effect.{Effect, idle, returned, settled, relabelled}
use crip_wallet.Ledger.Events.Frame.{
  with_log, write_recovery_audit-Holds, write_recovery_audit_last,
}
use crip_wallet.Ledger.Outcomes.{Current, is_status_sound}
use crip_wallet.Ledger.Transitions.{is_status, is_unsent, is_verified}
use crip_wallet.Ledger.Lease.{is_lease}
use crip_wallet.Ledger.Recovery.{
  is_confirmed, is_failed, is_uncertain, owns_lease, verify_pending, resolve_confirmed,
  resolve_unsent, resolve_reverted, resolve_disputed, resolve_outcome, record_resolution,
  resolve_new,
}

unsent-is_live : (s : ReservationStatus) → is_unsent s ≡ true → is_live s ≡ true
unsent-is_live s e = ground arith

-- What the branches do: a step of the money, or the dispute of a reservation that is closed.
pub data Resolved (outcome : RecoveryOutcome) (db w : Db) (r r' : Reservation) : Type 0 where
  stepped : Effect db w r r' → Resolved outcome db w r r'
  reopened :
      is_live r.status ≡ false
      → is_uncertain outcome ≡ true
      → r' ≡ set_status disputed r
      → funds w ≡ funds (with_reservation r.reservation_id (set_status disputed) db)
      → Resolved outcome db w r r'

uncertain-if :
    (outcome : RecoveryOutcome) (s : ReservationStatus)
    → (is_uncertain outcome
        || (is_failed outcome && (is_status s broadcast || is_status s disputed)))
      ≡ true
    → is_live s ≡ false
    → is_uncertain outcome ≡ true
uncertain-if outcome s e closed = ground arith

Effect-funds :
    {db v w : Db} {r r' : Reservation} → funds w ≡ funds v → Effect db v r r' → Effect db w r r'
Effect-funds same (idle e f) = idle e (same ∙ f)
Effect-funds same (returned b s found live closed unspent e p) =
    returned b s found live closed unspent e (Paid-funds refl same p)
Effect-funds same (settled b n proof found sent enough e p) =
    settled b n proof found sent enough e (Paid-funds refl same p)
Effect-funds same (relabelled s live live' e f) = relabelled s live live' e (same ∙ f)

Resolved-funds :
    {outcome : RecoveryOutcome} {db v w : Db} {r r' : Reservation}
    → funds w ≡ funds v
    → Resolved outcome db v r r'
    → Resolved outcome db w r r'
Resolved-funds same (stepped e) = stepped (Effect-funds same e)
Resolved-funds same (reopened closed uncertain e f) = reopened closed uncertain e (same ∙ f)

module _ (env : Env) (input : RecoveryResolution) (a : AuthenticatedComponent) (db : Db)
    (r : Reservation) (b : Budget) (c : AuditCorrelation)
    (now : Current input.reservation_id db r b) where
  returned-Effect :
      {w : Db}
      → is_live r.status ≡ true
      → Paid (give_back r.amount_atomic) (set_status released) r b db w
      → Effect db w r (set_status released r)
  returned-Effect live p = returned b released now.budgeted live refl refl refl p

  disputed-Resolved :
      {w : Db}
      → (is_live r.status ≡ false → is_uncertain input.outcome ≡ true)
      → funds w ≡ funds (with_reservation r.reservation_id (set_status disputed) db)
      → Resolved input.outcome db w r (set_status disputed r)
  disputed-Resolved h e = elim (Bool-cases (is_live r.status)) [
    | inl live ↦ stepped (relabelled disputed live refl refl e)
    | inr closed ↦ reopened closed (h closed) refl e
  ]

  resolve_unsent-Holds :
      is_unsent r.status ≡ true
      → Holds (λ r' w. Effect db w r r') (resolve_unsent env input a r c db)
  unfolding resolve_unsent
  resolve_unsent-Holds unsent =
      bind-Holds _ db _ (return_funds r released) _
        (return_funds_lem r b db now.budgeted now.reserved released)
        (λ _ w p.
          write_recovery_audit-Holds _ w env input.audit AuditEventType.reservation_released c _ _
            (λ log.
              pure-Holds _ (with_log w log) _
                (returned-Effect (unsent-is_live r.status unsent) (Paid-funds refl refl p)))
            a input.attempt_id)

  resolve_reverted-Holds :
      (spend : Option ℕ) (evidence : Option BroadcastEvidenceRow)
      → r.status ≡ broadcast
      → Holds (λ r' w. Effect db w r r') (resolve_reverted env input a spend evidence r c db)
  unfolding resolve_reverted
  resolve_reverted-Holds spend evidence sent =
      or_throw-Holds _ db evidence invalid_broadcast_evidence _ (λ e _.
        require-Holds _ db _ invalid_broadcast_evidence _ (λ _.
          bind-Holds _ db _ (return_funds r released) _
            (return_funds_lem r b db now.budgeted now.reserved released)
            (λ _ w p.
              write_recovery_audit-Holds _ w env input.audit AuditEventType.reservation_released c _
                _
                (λ log.
                  pure-Holds _ (with_log w log) _
                    (returned-Effect (ap is_live sent) (Paid-funds refl refl p)))
                a input.attempt_id)))

  resolve_disputed-Holds :
      (is_live r.status ≡ false → is_uncertain input.outcome ≡ true)
      → Holds (λ r' w. Resolved input.outcome db w r r') (resolve_disputed env input a r c db)
  unfolding resolve_disputed
  resolve_disputed-Holds h =
      if-Holds _ db (is_status r.status disputed) _ _
        (λ _. pure-Holds _ db r (stepped (idle refl refl)))
        (λ _.
          bind-Holds _ db _ (update_reservation input.reservation_id (set_status disputed)) _
            (update_reservation_lem input.reservation_id (set_status disputed) db
              (ap (λ t. find (is_reservation t) db.reservations) (sym now.named) ∙ now.reserved))
            (λ _ w (_, e).
              write_recovery_audit-Holds _ w env input.audit AuditEventType.reservation_disputed c _
                _
                (λ log. pure-Holds _ (with_log w log) _ (
                  disputed-Resolved h (
                    ap funds e
                    ∙ ap (λ t. funds (with_reservation t (set_status disputed) db))
                        (sym now.named))))
                a input.attempt_id))

  verify_pending-funds :
      (e : BroadcastEvidenceRow)
      → Holds (λ _ w. funds w ≡ funds db) (verify_pending env input a r c e db)
  unfolding verify_pending
  verify_pending-funds e =
      if-Holds _ db (is_verified e.verification_status) _ _ (λ _. pure-Holds _ db tt refl)
        (λ _. modify-Holds _ db _ _ (
          write_recovery_audit_last (λ w. funds w ≡ funds db) _ env input.audit _ _ _ a
            input.attempt_id (λ log. refl)))

  verify_pending-Holds :
      {B : Type 0} (P : B → Db → Type 0) (e : BroadcastEvidenceRow) (k : Tx B)
      → ((w : Db) → funds w ≡ funds db → Holds P (k w))
      → Holds P ((verify_pending env input a r c e >> k) db)
  verify_pending-Holds P e k h =
      bind-Holds P db (λ _ w. funds w ≡ funds db) (verify_pending env input a r c e) (λ _. k)
        (verify_pending-funds e) (λ _ w same. h w same)

  resolve_confirmed-Holds :
      (spend : Option ℕ) (evidence : Option BroadcastEvidenceRow)
      → Holds (λ r' w. Effect db w r r') (resolve_confirmed env input a spend evidence r c db)
  unfolding resolve_confirmed
  resolve_confirmed-Holds spend evidence =
      or_throw-Holds _ db evidence invalid_broadcast_evidence _ (λ e _.
        require-Holds _ db (is_status r.status broadcast) invalid_broadcast_evidence _ (λ sent.
          require-Holds _ db _ invalid_broadcast_evidence _ (λ _.
            or_throw-Holds _ db spend invalid_broadcast_evidence _ (λ n _.
              require-Holds _ db (leb n r.amount_atomic) invalid_atomic_amount _ (λ enough.
                verify_pending-Holds _ e _ (λ d same.
                  bind-Holds _ d _ (settle_funds r n input.proof_reference) _
                    (settle_funds_lem r b d
                      (ap (λ (f : Funds). find (is_budget r.budget_id) f.budgets) same
                        ∙ now.budgeted)
                      (ap (λ (f : Funds). find (is_reservation r.reservation_id) f.reservations)
                          same
                        ∙ now.reserved)
                      n input.proof_reference)
                    (λ _ w p.
                      write_recovery_audit-Holds _ w env input.audit
                        AuditEventType.reservation_finalized c _ _
                        (λ log. pure-Holds _ (with_log w log) _ (
                          settled b n input.proof_reference now.budgeted
                            (is_status_sound r.status broadcast sent) enough refl
                            (Paid-funds same refl p)))
                        a input.attempt_id)))))))

  stepped-Holds :
      (m : Tx Reservation)
      → Holds (λ r' w. Effect db w r r') (m db)
      → Holds (λ r' w. Resolved input.outcome db w r r') (m db)
  stepped-Holds m h = weaken-Holds _ db _ m h (λ r' w e. stepped e)

  resolve_outcome-Holds :
      (spend : Option ℕ) (evidence : Option BroadcastEvidenceRow)
      → Holds
          (λ r' w. Resolved input.outcome db w r r')
          (resolve_outcome env input a spend evidence r c db)
  unfolding resolve_outcome
  resolve_outcome-Holds spend evidence =
      if-Holds _ db (is_confirmed input.outcome) _ _
        (λ _.
          stepped-Holds (resolve_confirmed env input a spend evidence r c)
            (resolve_confirmed-Holds spend evidence))
        (λ _.
          if-Holds _ db (is_failed input.outcome && is_unsent r.status) _ _
            (λ e.
              stepped-Holds (resolve_unsent env input a r c) (resolve_unsent-Holds (ground arith)))
            (λ _.
              if-Holds _ db
                (is_failed input.outcome && (input.verified_revert && is_status r.status broadcast))
                _ _
                (λ e. stepped-Holds (resolve_reverted env input a spend evidence r c) (
                  resolve_reverted-Holds spend evidence
                    (is_status_sound r.status broadcast (ground arith))))
                (λ _.
                  if-Holds _ db _ _ _
                    (λ e.
                      resolve_disputed-Holds
                        (λ closed. uncertain-if input.outcome r.status e closed))
                    (λ _. throw-Holds _ db invalid_reservation_transition))))

  record_resolution-funds :
      (spend : Option ℕ) (next : Reservation) (d : Db)
      → Holds (λ _ w. funds w ≡ funds d) (record_resolution env input a spend next c d)
  unfolding record_resolution
  record_resolution-funds spend next d = modify-Holds _ d _ _ (
      write_recovery_audit_last (λ w. funds w ≡ funds d) _ env input.audit _ _ _ a input.attempt_id
        (λ log. refl))

  record_resolution-Holds :
      {B : Type 0} (P : B → Db → Type 0) (spend : Option ℕ) (next : Reservation) (d : Db) (k : Tx B)
      → ((w : Db) → funds w ≡ funds d → Holds P (k w))
      → Holds P ((record_resolution env input a spend next c >> k) d)
  record_resolution-Holds P spend next d k h =
      bind-Holds P d (λ _ w. funds w ≡ funds d) (record_resolution env input a spend next c)
        (λ _. k) (record_resolution-funds spend next d) (λ _ w same. h w same)

  pub resolve_new-Holds :
      (time : ℕ) (spend : Option ℕ) (evidence : Option BroadcastEvidenceRow)
      → Holds
          (λ r' w.
            Resolved input.outcome db w r r'
            × ((l : Lease) × (find (is_lease input.operation_id) db.leases ≡ some l)
                × (owns_lease time input a l ≡ true)))
          (resolve_new env input a time spend evidence r c db)
  unfolding resolve_new
  resolve_new-Holds time spend evidence =
      gets-Holds _ db (λ d. find (is_lease input.operation_id) d.leases) _
        (or_throw-Holds _ db (find (is_lease input.operation_id) db.leases) recovery_lease_stale _
          (λ l at. require-Holds _ db (owns_lease time input a l) recovery_lease_stale _ (λ owns.
            bind-Holds _ db _ (resolve_outcome env input a spend evidence r c) _
              (resolve_outcome-Holds spend evidence)
              (λ r' w done.
                record_resolution-Holds _ spend r' w _
                  (λ w' same. pure-Holds _ w' r' (Resolved-funds same done, (l, at, owns)))))))
