-- ===== src/Ledger/Broadcasting.antt =====
-- packages/budget-ledger/src/ledger.ts: the canonical authorization and its confirmation, and what a
-- broadcast leaves.
use crip_wallet.Base.{
  ℕ, ◌≡◌, refl, sym, ap, ◌∙◌, true, not, List, [], ◌∷◌, any, some, arith, ◌==◌, ==_iff,
}
use crip_wallet.Base.Ensures.{ok, Ensures-ok}
use crip_wallet.Schemas.Money.Decimal.{value}
use crip_wallet.Schemas.Common.{same_text_iff}
use crip_wallet.Schemas.Lifecycle.{LifecycleState}
use crip_wallet.Store.{
  Budget, Reservation, Db, BroadcastEvidenceRow, VerificationStatus, AuditCorrelation,
  AuditEventType, AuthenticatedComponent,
}
use crip_wallet.Store.ReservationStatus.{authorized, broadcast}
use crip_wallet.Store.Tables.{find, count}
use crip_wallet.Store.Tx.{
  Holds, require-Holds, bind-Holds, pure-Holds, gets-Holds, modify-Holds,
  invalid_reservation_transition, recovery_conflict, unique_violation,
}
use crip_wallet.Store.Query.{gets as count_rows, reads-Holds, guard-Ensures, query-Ensures}
use crip_wallet.Store.Funds.{funds}
use crip_wallet.Ledger.{Env, TransitionInput, BroadcastEvidence}
use crip_wallet.Ledger.Binding.{
  is_evidence, assert_canonical_authorization_evidence, is_canonical_authorization,
}
use crip_wallet.Ledger.Rows.{set_status, update_reservation}
use crip_wallet.Ledger.Rows.Effects.{with_reservation, update_reservation_lem}
use crip_wallet.Ledger.Events.Frame.{with_log, write_component_audit-Holds}
use crip_wallet.Ledger.Outcomes.{
  Current, Touched, transition_reservation-Holds, is_status_sound, get_broadcast_evidence-Holds,
}
use crip_wallet.Ledger.Transitions.{
  is_status, authorize_reservation, confirm_broadcast, first_broadcast, new_evidence,
}

-- There is exactly one authorization of the reservation's operation that is current, consistent
-- with its envelope and decision, and in one of the states.
abbrev pub IsAuthorized : List LifecycleState → Db → Reservation → Type 0
IsAuthorized states db r = count (is_canonical_authorization db r states) db.authorizations ≡ 1

pub is_authorized :
    (states : List LifecycleState) (r : Reservation) (db : Db) {u : Unit {0}}
    → assert_canonical_authorization_evidence r states db ≡ ok u
    → IsAuthorized states db r
unfolding assert_canonical_authorization_evidence
is_authorized states r db {u} e =
    Ensures-ok (λ _. IsAuthorized states db r) (assert_canonical_authorization_evidence r states db)
      (query-Ensures _ db
        (λ n. n ≡ count (is_canonical_authorization db r states) db.authorizations)
        (count_rows (λ d. count (is_canonical_authorization d r states) d.authorizations)) _ refl
        (λ n same.
          guard-Ensures _ (n == 1) invalid_reservation_transition db
            (λ one. sym same ∙ (==_iff n 1).0 one)))
      e

-- An authorization is only ever confirmed: it needs the status and the canonical evidence, and
-- changes nothing.
pub authorize_reservation_lem :
    (input : TransitionInput) (db : Db)
    → Holds
        (Touched input.reservation_id db (λ r b r' w.
          (r.status ≡ authorized)
          × IsAuthorized (LifecycleState.authorized ∷ []) db r
          × (r' ≡ r)
          × (w ≡ db)))
        (authorize_reservation input db)
unfolding authorize_reservation
authorize_reservation_lem input db = transition_reservation-Holds _ input _ db (λ r b c now.
    require-Holds _ db (is_status r.status authorized) invalid_reservation_transition _ (λ e.
      reads-Holds _ db (assert_canonical_authorization_evidence r (LifecycleState.authorized ∷ []))
        _
        (λ u ok_u. pure-Holds _ db r (
          r,
          b,
          now,
          (
            is_status_sound r.status authorized e,
            is_authorized (LifecycleState.authorized ∷ []) r db ok_u,
            refl,
            refl,
          ),
        ))))

-- The states in which an operation may be sent.
abbrev pub sending_states : List LifecycleState
sending_states = LifecycleState.authorized ∷ LifecycleState.signing ∷ LifecycleState.signed ∷ []

-- The evidence that a row records.
abbrev pub Records : BroadcastEvidence → BroadcastEvidenceRow → Type 0
Records evidence e =
    (e.transaction_hash ≡ evidence.transaction_hash)
    × (e.nonce ≡ value evidence.nonce)
    × (e.receipt_reference ≡ evidence.receipt_reference)

-- A broadcast is recorded once; a second one has to have the same evidence.
pub data Sending (evidence : BroadcastEvidence) (db w : Db) (r r' : Reservation) : Type 0 where
  repeated :
      (e : BroadcastEvidenceRow)
      → r.status ≡ broadcast
      → find (is_evidence r.reservation_id) db.evidence ≡ some e
      → Records evidence e
      → r' ≡ r
      → w ≡ db
      → Sending evidence db w r r'
  sent :
      (e : BroadcastEvidenceRow)
      → r.status ≡ authorized
      → not (any (is_evidence r.reservation_id) db.evidence) ≡ true
      → Records evidence e
      → e.reservation_id ≡ r.reservation_id
      → e.verification_status ≡ VerificationStatus.pending
      → r' ≡ set_status broadcast r
      → funds w ≡ funds (with_reservation r.reservation_id (set_status broadcast) db)
      → w.evidence ≡ e ∷ db.evidence
      → Sending evidence db w r r'

pub confirm_broadcast-Holds :
    (db : Db) (r : Reservation) (evidence : BroadcastEvidence) (nonce : ℕ)
    → value evidence.nonce ≡ nonce
    → r.status ≡ broadcast
    → Holds (λ r' w. Sending evidence db w r r') (confirm_broadcast r evidence nonce db)
unfolding confirm_broadcast
confirm_broadcast-Holds db r evidence nonce number sent_before =
    get_broadcast_evidence-Holds _ r.reservation_id db _ (λ e found.
      require-Holds _ db _ recovery_conflict _ (λ same. pure-Holds _ db r (
        repeated e sent_before found
          (ground (
            arith,
            same_text_iff e.transaction_hash evidence.transaction_hash,
            same_text_iff e.receipt_reference evidence.receipt_reference,
            ==_iff e.nonce nonce,
          ))
          refl refl)))

pub first_broadcast-Holds :
    (env : Env) (input : TransitionInput) (db : Db) (r : Reservation) (b : Budget)
    (c : AuditCorrelation) (evidence : BroadcastEvidence) (nonce : ℕ) (a : AuthenticatedComponent)
    → Current input.reservation_id db r b
    → value evidence.nonce ≡ nonce
    → r.status ≡ authorized
    → Holds (λ r' w. Sending evidence db w r r') (first_broadcast env input r c evidence nonce a db)
unfolding first_broadcast
first_broadcast-Holds env input db r b c evidence nonce a now number ready = gets-Holds _ db _ _ (
    require-Holds _ db _ unique_violation _ (λ new. modify-Holds _ db _ _ (
      let d = record db {
        evidence = new_evidence r.reservation_id evidence nonce a ∷ db.evidence;
      } in
      bind-Holds _ d _ (update_reservation r.reservation_id (set_status broadcast)) _
        (update_reservation_lem r.reservation_id (set_status broadcast) d now.reserved)
        (λ _ w (_, e).
          write_component_audit-Holds _ w env input.audit AuditEventType.reservation_broadcast c _ _
            (λ log. pure-Holds _ (with_log w log) _ (
              sent (new_evidence r.reservation_id evidence nonce a) ready new
                (refl, sym number, refl) refl refl refl (ap funds e)
                (ap (λ (x : Db). x.evidence) e)))
            a))))
