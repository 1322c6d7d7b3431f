-- ===== src/Ledger/Sending.antt =====
-- packages/budget-ledger/src/ledger.ts: what a broadcast, the verification of its evidence and a
-- dispute have done when they succeed.
use crip_wallet.Base.{ℕ, ◌≡◌, refl, sym, ap, subst, true, ◌||◌, some, arith}
use crip_wallet.Base.Ensures.{ok, Ensures-ok}
use crip_wallet.Schemas.Money.{Text, atomic_unit}
use crip_wallet.Schemas.Money.Decimal.{value}
use crip_wallet.Schemas.Common.{evm_hash}
use crip_wallet.Store.{
  ReservationStatus, Db, Reservation, BroadcastEvidenceRow, VerificationStatus, ComponentRole,
  AuditEventType, AuthenticatedComponent,
}
use crip_wallet.Store.ReservationStatus.{authorized, broadcast, disputed}
use crip_wallet.Store.Tables.{find, find_holds}
use crip_wallet.Store.Funds.Moves.{find-update}
use crip_wallet.Store.Tx.{
  Holds, if-Holds, require-Holds, bind-Holds, pure-Holds, modify-Holds, weaken-Holds,
  invalid_reservation_transition, invalid_broadcast_evidence,
}
use crip_wallet.Store.Query.{reads-Holds, require-Ensures, query-Ensures}
use crip_wallet.Store.Funds.{funds, is_live}
use crip_wallet.TrustBoundary.{broadcast_payload, verify_payload}
use crip_wallet.Ledger.{Env, TransitionInput, BroadcastEvidence}
use crip_wallet.Ledger.Auth.{
  authenticate_component, parse_broadcast_evidence, parse_atomic, receipt_pattern,
}
use crip_wallet.Ledger.Authenticated.{Authenticated, authenticate_component-Authenticated}
use crip_wallet.Ledger.Binding.{is_evidence, assert_canonical_authorization_evidence}
use crip_wallet.Ledger.Rows.{set_status, update_reservation}
use crip_wallet.Ledger.Rows.Effects.{update_reservation_lem}
use crip_wallet.Ledger.Effect.{Effect, idle, relabelled}
use crip_wallet.Ledger.Events.Frame.{
  with_log, write_transition_audit-Holds, write_component_audit-Holds,
}
use crip_wallet.Ledger.Outcomes.{
  Touched, transition_reservation-Holds, is_status_sound, is_verified_sound, parse_atomic-Ensures,
  get_broadcast_evidence-Holds,
}
use crip_wallet.Ledger.Transitions.{
  is_status, is_open, is_verified, confirm_broadcast, first_broadcast, mark_reservation_broadcast,
  verify_evidence, verify_broadcast_evidence, dispute_reservation,
}
use crip_wallet.Ledger.Broadcasting.{
  IsAuthorized, is_authorized, sending_states, Sending, confirm_broadcast-Holds,
  first_broadcast-Holds,
}

parsed_evidence :
    (evidence : BroadcastEvidence) (db : Db) {n : ℕ}
    → parse_broadcast_evidence evidence db ≡ ok n
    → (evm_hash evidence.transaction_hash ≡ true)
      × (atomic_unit evidence.nonce ≡ true)
      × (value evidence.nonce ≡ n)
      × (receipt_pattern evidence.receipt_reference ≡ true)
unfolding parse_broadcast_evidence
parsed_evidence evidence db {n} e =
    Ensures-ok
      (λ n.
        (evm_hash evidence.transaction_hash ≡ true)
        × (atomic_unit evidence.nonce ≡ true)
        × (value evidence.nonce ≡ n)
        × (receipt_pattern evidence.receipt_reference ≡ true))
      (parse_broadcast_evidence evidence db)
      (require-Ensures _ db (evm_hash evidence.transaction_hash) invalid_broadcast_evidence _
        (λ hash.
          query-Ensures _ db (λ n. (atomic_unit evidence.nonce ≡ true) × (value evidence.nonce ≡ n))
            (parse_atomic evidence.nonce) _ (parse_atomic-Ensures evidence.nonce db)
            (λ n (valid, number).
              require-Ensures _ db (receipt_pattern evidence.receipt_reference)
                invalid_broadcast_evidence _ (λ receipt. (hash, valid, number, receipt)))))
      e

-- An adapter has signed the evidence for the reservation.
abbrev pub Signed : Env → TransitionInput → BroadcastEvidence → Db → Reservation → Type 0
Signed env input evidence db r =
    (a : AuthenticatedComponent) × Authenticated env input.audit.component_auth
      ComponentRole.adapter
      (broadcast_payload r.reservation_id evidence.transaction_hash (value evidence.nonce)
        evidence.receipt_reference)
      db a

-- A broadcast needs evidence with a well-formed hash, a canonical nonce and a well-formed receipt,
-- an adapter with an active credential whose signature on it verifies, the canonical authorization,
-- and no other evidence on record; the money stays aside.
pub mark_reservation_broadcast_lem :
    (env : Env) (input : TransitionInput) (evidence : BroadcastEvidence) (db : Db)
    → Holds
        (Touched input.reservation_id db (λ r b r' w.
          (evm_hash evidence.transaction_hash ≡ true)
          × (atomic_unit evidence.nonce ≡ true)
          × (receipt_pattern evidence.receipt_reference ≡ true)
          × Signed env input evidence db r
          × IsAuthorized sending_states db r
          × Sending evidence db w r r'))
        (mark_reservation_broadcast env input evidence db)
unfolding mark_reservation_broadcast
mark_reservation_broadcast_lem env input evidence db =
    transition_reservation-Holds _ input _ db (λ r b c now.
      reads-Holds _ db (parse_broadcast_evidence evidence) _ (λ nonce parsed.
        let (hash, valid, number, receipt) = parsed_evidence evidence db parsed in
        reads-Holds _ db
          (authenticate_component env input.audit.component_auth ComponentRole.adapter (
            broadcast_payload r.reservation_id evidence.transaction_hash nonce
              evidence.receipt_reference))
          _
          (λ a authenticated.
            let signed : Signed env input evidence db r =
              subst
                (λ m.
                  (c : AuthenticatedComponent) × Authenticated env input.audit.component_auth
                    ComponentRole.adapter
                    (broadcast_payload r.reservation_id evidence.transaction_hash m
                      evidence.receipt_reference)
                    db c)
                (sym number)
                (
                  a,
                  Ensures-ok _ _
                      (authenticate_component-Authenticated env input.audit.component_auth
                        ComponentRole.adapter
                        (broadcast_payload r.reservation_id evidence.transaction_hash nonce
                          evidence.receipt_reference)
                        db)
                      authenticated,
                ) in
            require-Holds _ db (is_status r.status authorized || is_status r.status broadcast)
              invalid_reservation_transition _
              (λ either.
                reads-Holds _ db (assert_canonical_authorization_evidence r sending_states) _
                  (λ u ok_u.
                    let auth = is_authorized sending_states r db ok_u in
                    if-Holds _ db (is_status r.status broadcast) _ _
                      (λ is.
                        weaken-Holds _ db _ (confirm_broadcast r evidence nonce)
                          (confirm_broadcast-Holds db r evidence nonce number
                            (is_status_sound r.status broadcast is))
                          (λ r' w h. (r, b, now, (hash, valid, receipt, signed, auth, h))))
                      (λ is_not.
                        weaken-Holds _ db _ (first_broadcast env input r c evidence nonce a)
                          (first_broadcast-Holds env input db r b c evidence nonce a now number
                            (ground (arith, is_status_sound r.status authorized)))
                          (λ r' w h. (r, b, now, (hash, valid, receipt, signed, auth, h)))))))))

open-is_live : (s : ReservationStatus) → is_open s ≡ true → is_live s ≡ true
open-is_live s e = ground arith

verified-found :
    (id : Text) (a : AuthenticatedComponent) (db : Db) {e : BroadcastEvidenceRow}
    → find (is_evidence id) db.evidence ≡ some e
    → find (is_evidence id) (verify_evidence id a db).evidence
      ≡ some (record e { verification_status = VerificationStatus.verified; verification = some a })
verified-found id a db found =
    find-update (is_evidence id) _ db.evidence found (find_holds (is_evidence id) db.evidence found)

-- A verification marks the evidence of a broadcast reservation and moves no money.
pub verify_broadcast_evidence_lem :
    (env : Env) (input : TransitionInput) (db : Db)
    → Holds
        (Touched input.reservation_id db (λ r b r' w.
          (r.status ≡ broadcast)
          × (r' ≡ r)
          × (funds w ≡ funds db)
          × ((e : BroadcastEvidenceRow) × (find (is_evidence r.reservation_id) w.evidence ≡ some e)
              × (e.verification_status ≡ VerificationStatus.verified))))
        (verify_broadcast_evidence env input db)
unfolding verify_broadcast_evidence
verify_broadcast_evidence_lem env input db = transition_reservation-Holds _ input _ db (λ r b c now.
    require-Holds _ db (is_status r.status broadcast) invalid_reservation_transition _ (λ is.
      get_broadcast_evidence-Holds _ r.reservation_id db _ (λ e found.
        reads-Holds _ db
          (authenticate_component env input.audit.component_auth ComponentRole.reconciler
            (verify_payload r.reservation_id e.transaction_hash e.nonce e.receipt_reference))
          _
          (λ a _.
            if-Holds _ db (is_verified e.verification_status) _ _
              (λ before. pure-Holds _ db r (
                r,
                b,
                now,
                (
                  is_status_sound r.status broadcast is,
                  refl,
                  refl,
                  (e, found, is_verified_sound e.verification_status before),
                ),
              ))
              (λ _. modify-Holds _ db _ _ (
                write_component_audit-Holds _ _ env input.audit AuditEventType.evidence_verified c _
                  _
                  (λ log. pure-Holds _ _ r (
                    r,
                    b,
                    now,
                    (
                      is_status_sound r.status broadcast is,
                      refl,
                      refl,
                      (_, verified-found r.reservation_id a db found, refl),
                    ),
                  ))
                  a))))))

-- A dispute keeps the amount of an open reservation aside.
pub dispute_reservation_lem :
    (env : Env) (input : TransitionInput) (reason : Text) (db : Db)
    → Holds
        (Touched input.reservation_id db
          (λ r b r' w. Effect db w r r' × (r'.status ≡ disputed) × (is_live r.status ≡ true)))
        (dispute_reservation env input reason db)
unfolding dispute_reservation
dispute_reservation_lem env input reason db =
    transition_reservation-Holds _ input _ db (λ r b c now.
      if-Holds _ db (is_status r.status disputed) _ _
        (λ is.
          let same = is_status_sound r.status disputed is in
          pure-Holds _ db r (r, b, now, (idle refl refl, same, ap is_live same)))
        (λ _. require-Holds _ db (is_open r.status) invalid_reservation_transition _ (λ open_.
          let live = open-is_live r.status open_ in
          bind-Holds _ db _ (update_reservation r.reservation_id (set_status disputed)) _
            (update_reservation_lem r.reservation_id (set_status disputed) db now.reserved)
            (λ _ w (_, e).
              write_transition_audit-Holds _ w env input.audit AuditEventType.reservation_disputed c
                _ _
                (λ log.
                  pure-Holds _ (with_log w log) _
                    (r, b, now, (relabelled disputed live refl refl (ap funds e), refl, live)))))))
