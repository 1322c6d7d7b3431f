-- ===== src/Ledger/Balance.antt =====
-- packages/budget-ledger/src/ledger.ts: the money over any run of the ledger's operations.
use crip_wallet.Base.{ℕ, ◌≡◌, refl, sym, ap, subst, ◌∙◌, true, false, Option, some, arith}
use crip_wallet.Base.Ensures.{ok, Ensures-ok}
use crip_wallet.Schemas.Money.{Text}
use crip_wallet.Store.{AuthenticatedComponent, Db, Reservation, Budget, ReservationStatus}
use crip_wallet.Store.ReservationStatus.{broadcast, finalized}
use crip_wallet.Store.Tables.{find}
use crip_wallet.Store.Tx.{Tx, Holds}
use crip_wallet.Store.Funds.{funds, is_live, is_reservation, AllBalanced}
use crip_wallet.Ledger.{
  Env, TransitionInput, ReserveRequest, BroadcastEvidence, RecoveryClaimRequest, RecoveryResolution,
}
use crip_wallet.Ledger.Reserve.{reserve_budget}
use crip_wallet.Ledger.Reserving.{reserve_budget_lem, Reserving-Balanced}
use crip_wallet.Ledger.Transitions.{
  is_unsent, authorize_reservation, mark_reservation_broadcast, verify_broadcast_evidence,
  release_reservation, expire_reservation, finalize_reservation, dispute_reservation,
}
use crip_wallet.Ledger.Lease.{claim_recovery_lease}
use crip_wallet.Ledger.Recovery.{is_uncertain, resolve_recovery}
use crip_wallet.Ledger.Rows.Effects.{Balanced}
use crip_wallet.Ledger.Effect.{Effect, idle, returned, settled, relabelled, Effect-Balanced}
use crip_wallet.Ledger.Outcomes.{
  Current, Closing, already, closing, release_reservation_lem, expire_reservation_lem, Finalizing,
  finalizing, finalize_reservation_lem,
}
use crip_wallet.Ledger.Broadcasting.{Sending, repeated, sent, authorize_reservation_lem}
use crip_wallet.Ledger.Sending.{
  mark_reservation_broadcast_lem, verify_broadcast_evidence_lem, dispute_reservation_lem,
}
use crip_wallet.Ledger.Recovering.{stepped, reopened}
use crip_wallet.Ledger.Leases.{
  Recovering, replayed, recovered, resolve_recovery_lem, claim_recovery_lease_lem,
}

-- A transaction from one database to another.
abbrev Commits : {A : Type 0} → Tx A → Db → Db → Type 0
Commits {A} m db w = (a : A) × (m db ≡ ok (a, w))

-- A committed operation of the ledger.
pub data LedgerStep (env : Env) (db w : Db) : Type 0 where
  reserve : (q : ReserveRequest) → Commits (reserve_budget env q) db w → LedgerStep env db w
  authorize : (i : TransitionInput) → Commits (authorize_reservation i) db w → LedgerStep env db w
  mark :
      (i : TransitionInput) (e : BroadcastEvidence)
      → Commits (mark_reservation_broadcast env i e) db w
      → LedgerStep env db w
  verify :
      (i : TransitionInput) → Commits (verify_broadcast_evidence env i) db w → LedgerStep env db w
  release : (i : TransitionInput) → Commits (release_reservation env i) db w → LedgerStep env db w
  expire :
      (i : TransitionInput) (time : Option ℕ)
      → Commits (expire_reservation env i time) db w
      → LedgerStep env db w
  finalize :
      (i : TransitionInput) (spend proof : Text)
      → Commits (finalize_reservation env i spend proof) db w
      → LedgerStep env db w
  dispute :
      (i : TransitionInput) (reason : Text)
      → Commits (dispute_reservation env i reason) db w
      → LedgerStep env db w
  claim :
      (now : ℕ) (i : RecoveryClaimRequest)
      → Commits (claim_recovery_lease env now i) db w
      → LedgerStep env db w
  resolve :
      (now : ℕ) (i : RecoveryResolution)
      → Commits (resolve_recovery env now i) db w
      → LedgerStep env db w

-- Any number of them, by whichever callers.
pub data Run (env : Env) (db : Db) : Db → Type 0 where
  start : Run env db db
  next : {v w : Db} → Run env db v → LedgerStep env v w → Run env db w

-- A resolution as AMBIGUOUS or CONFLICT names a reservation that still holds its amount.
abbrev IsRetaining : {env : Env} {db w : Db} → LedgerStep env db w → Type 0
IsRetaining {db = db} (resolve now i _) =
    (r : Reservation)
    → is_uncertain i.outcome ≡ true
    → find (is_reservation i.reservation_id) db.reservations ≡ some r
    → is_live r.status ≡ true
IsRetaining _ = Unit

-- All resolutions of a run do.
unfoldable pub AllRetaining : {env : Env} {db w : Db} → Run env db w → Type 0
AllRetaining start = Unit
AllRetaining (next run step) = AllRetaining run × IsRetaining step

outcome :
    {A : Type 0} (P : A → Db → Type 0) (m : Tx A) (db w : Db) (a : A)
    → Holds P (m db)
    → m db ≡ ok (a, w)
    → P a w
unfolding Holds
outcome P m db w a h e = Ensures-ok (λ r. P r.0 r.1) (m db) h e

unsent-is_live : (s : ReservationStatus) → is_unsent s ≡ true → is_live s ≡ true
unsent-is_live s e = ground arith

Closing-Effect :
    {status : ReservationStatus} {id : Text} {db w : Db} {r r' : Reservation} {b : Budget}
    → Current id db r b
    → is_live status ≡ false
    → (status ≡ finalized → ⊥)
    → Closing status db w r r' b
    → Effect db w r r'
Closing-Effect now closed unspent (already _ e f) = idle e (ap funds f)
Closing-Effect {status} {r = r} {b = b} now closed unspent (closing unsent e p) =
    returned b status now.budgeted (unsent-is_live r.status unsent) closed (ground arith) e p

Finalizing-Effect :
    {spend : ℕ} {proof id : Text} {db w : Db} {r r' : Reservation} {b : Budget}
    → Current id db r b
    → Finalizing spend proof db w r r' b
    → Effect db w r r'
Finalizing-Effect now (Finalizing.already _ e f) = idle e (ap funds f)
Finalizing-Effect {spend} {proof} {b = b} now (finalizing _ at _ _ _ enough e p) =
    settled b spend (some proof) now.budgeted at (ground arith) e p

Sending-Effect :
    {evidence : BroadcastEvidence} {db w : Db} {r r' : Reservation}
    → Sending evidence db w r r'
    → Effect db w r r'
Sending-Effect (repeated _ _ _ _ e f) = idle e (ap funds f)
Sending-Effect (sent _ ready _ _ _ _ e f _) = relabelled broadcast (ap is_live ready) refl e f

-- A resolution is an effect unless it reopens a reservation.
Recovering-Effect :
    {now : ℕ} {input : RecoveryResolution} {a : AuthenticatedComponent} {db w : Db}
    {r r' : Reservation}
    → (is_uncertain input.outcome ≡ true → is_live r.status ≡ true)
    → Recovering now input a db w r r'
    → Effect db w r r'
Recovering-Effect live (replayed _ _ _ _ _ e f) = idle e (ap funds f)
Recovering-Effect live (recovered _ _ (stepped e)) = e
Recovering-Effect live (recovered _ _ (reopened closed uncertain _ _)) =
    ground (arith, live uncertain)

touched-Balanced :
    {id : Text} {db w : Db} {r r' : Reservation} {b : Budget}
    → Current id db r b
    → Effect db w r r'
    → Balanced db
    → Balanced w
touched-Balanced {db = db} {w} {r} {r'} now e balanced =
    Effect-Balanced db w r r' now.reserved e balanced

step-Balanced :
    (env : Env) (db w : Db)
    → (step : LedgerStep env db w) → IsRetaining step
    → Balanced db
    → Balanced w
step-Balanced env db w (reserve q (a, e)) live balanced =
    let (_, _, (t, _, h)) =
      outcome _ (reserve_budget env q) db w a (reserve_budget_lem env q db) e in
    Reserving-Balanced env q t db w a h balanced
step-Balanced env db w (authorize i (a, e)) live balanced =
    let (_, _, _, (_, _, _, same)) =
      outcome _ (authorize_reservation i) db w a (authorize_reservation_lem i db) e in
    subst Balanced (sym same) balanced
step-Balanced env db w (mark i evidence (a, e)) live balanced =
    let (_, _, now, (_, _, _, _, _, h)) =
      outcome _ (mark_reservation_broadcast env i evidence) db w a
        (mark_reservation_broadcast_lem env i evidence db) e in
    touched-Balanced now (Sending-Effect h) balanced
step-Balanced env db w (verify i (a, e)) live balanced =
    let (_, _, _, (_, _, kept, _)) =
      outcome _ (verify_broadcast_evidence env i) db w a (verify_broadcast_evidence_lem env i db)
        e in
    subst AllBalanced (sym kept) balanced
step-Balanced env db w (release i (a, e)) live balanced =
    let (_, _, now, h) =
      outcome _ (release_reservation env i) db w a (release_reservation_lem env i db) e in
    touched-Balanced now (Closing-Effect now refl (λ x. cc) h) balanced
step-Balanced env db w (expire i t (a, e)) live balanced =
    let (_, _, now, (h, _)) =
      outcome _ (expire_reservation env i t) db w a (expire_reservation_lem env i t db) e in
    touched-Balanced now (Closing-Effect now refl (λ x. cc) h) balanced
step-Balanced env db w (finalize i spend proof (a, e)) live balanced =
    let (_, (_, _, now, h)) =
      outcome _ (finalize_reservation env i spend proof) db w a
        (finalize_reservation_lem env i spend proof db) e in
    touched-Balanced now (Finalizing-Effect now h) balanced
step-Balanced env db w (dispute i reason (a, e)) live balanced =
    let (_, _, now, (h, _, _)) =
      outcome _ (dispute_reservation env i reason) db w a (dispute_reservation_lem env i reason db)
        e in
    touched-Balanced now h balanced
step-Balanced env db w (claim t i (a, e)) live balanced =
    let claimed =
      outcome _ (claim_recovery_lease env t i) db w a (claim_recovery_lease_lem env t i db) e in
    subst AllBalanced (sym claimed.kept) balanced
step-Balanced env db w (resolve t i (a, e)) live balanced =
    let (r, _, now, (_, (_, _, h))) =
      outcome _ (resolve_recovery env t i) db w a (resolve_recovery_lem env t i db) e in
    touched-Balanced now
      (Recovering-Effect
        (λ uncertain.
          live r uncertain
            (ap (λ x. find (is_reservation x) db.reservations) (sym now.named) ∙ now.reserved))
        h)
      balanced

-- Over any run of committed operations from a database whose budgets are balanced, in which
-- resolutions as AMBIGUOUS or CONFLICT name live reservations, every budget stays balanced: its parts add up to the allocation, its reserved part is the sum of what its
-- live reservations hold back, and its finalized part the sum of what its finalized ones spent.
pub run-Balanced :
    (env : Env) (db w : Db) (run : Run env db w) → AllRetaining run → Balanced db → Balanced w
unfolding AllRetaining
run-Balanced env db w start all balanced = balanced
run-Balanced env db w (next {v} run step) (all, last) balanced =
    step-Balanced env v w step last (run-Balanced env db v run all balanced)
