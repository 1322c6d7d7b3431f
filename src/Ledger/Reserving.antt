-- ===== src/Ledger/Reserving.antt =====
-- packages/budget-ledger/src/ledger.ts: what `reserveBudget` has done when it succeeds.
use crip_wallet.Base.{
  ℕ, ◌+◌, ◌-◌, ◌≤◌, ◌≡◌, refl, sym, ap, subst, ◌∙◌, Bool, true, false, not, List, ◌∷◌, any, Option,
  none, some, arith, leb, leb_iff, if◌then◌else◌,
}
use crip_wallet.Base.Ensures.{ok, err, Ensures-ok}
use crip_wallet.Schemas.Money.{Text, positive_atomic_unit}
use crip_wallet.Schemas.Money.Decimal.{value}
use crip_wallet.Schemas.Common.{same_text, same_text_iff}
use crip_wallet.Store.{
  Budget, Reservation, ReservationStatus, Db, IdempotencyRecord, AuditCorrelation, AuditEventType,
}
use crip_wallet.Store.Tables.{find, update}
use crip_wallet.Store.Tx.{
  Tx, ◌>>◌, Holds, require-Holds, bind-Holds, pure-Holds, gets-Holds, modify-Holds, modify,
  or_throw-Holds, weaken-Holds, reservation_not_found, insufficient_budget, idempotency_conflict,
  invalid_timestamp, no_result, invalid_atomic_amount, unique_violation,
}
use crip_wallet.Store.Query.{Query, reads, reads-Holds, select, select-found, require-Ensures}
use crip_wallet.Store.Funds.{Funds, funds, is_budget, is_reservation, AllBalanced}
use crip_wallet.Store.Funds.Moves.{set_aside-AllBalanced}
use crip_wallet.Ledger.{Env, ReserveRequest}
use crip_wallet.Ledger.Auth.{parse_positive_atomic}
use crip_wallet.Ledger.Binding.{
  lock_reservation_control_fences, get_reservation, get_reservation_binding_for_reserve,
  assert_audit_correlation, map_audit_correlation,
}
use crip_wallet.Ledger.Rows.{set_aside, update_budget, insert_reservation, shares_key}
use crip_wallet.Ledger.Rows.Effects.{Balanced, update_budget_lem}
use crip_wallet.Ledger.Events.Frame.{write_transition_audit-Holds}
use crip_wallet.Ledger.Reserve.{
  is_record, payload_hash, new_reservation, replay, insert_record, complete_record, reserve_new,
  replay_or_reserve, reserve_budget,
}
use crip_wallet.Ledger.Fences.{Unfenced, lock-Unfenced}

-- The budget after the UPDATE
abbrev pub aside : ℕ → Budget → Budget
aside n b = record b {
  available = b.available - n;
  reserved = b.reserved + n;
  version = b.version + 1;
}

pub set_aside-aside : (n : ℕ) (b : Budget) {c : Budget} → set_aside n b ≡ some c → c ≡ aside n b
set_aside-aside n b {c} e = split (leb n b.available) e
  where
    split : (fits : Bool) → (if fits then some (aside n b) else none) ≡ some c → c ≡ aside n b
    split true d = cc
    split false d = cc

-- A reservation that is new, or that of the request which had the key before.
pub data Reserving (env : Env) (q : ReserveRequest) (expires_at : ℕ) (db w : Db) (r' : Reservation)
    : Type 0 where
  replayed :
      (i : IdempotencyRecord) (id : Text)
      → find (is_record q.idempotency_key) db.idempotency ≡ some i
      → i.payload_hash ≡ payload_hash env q expires_at
      → i.reservation_id ≡ some id
      → find (is_reservation id) db.reservations ≡ some r'
      → w ≡ db
      → Reserving env q expires_at db w r'
  created :
      (b after : Budget)
      → find (is_record q.idempotency_key) db.idempotency ≡ none
      → find (is_budget q.budget_id) db.budgets ≡ some b
      → value q.amount_atomic ≤ b.available
      → after ≡ record b {
        available = b.available - value q.amount_atomic;
        reserved = b.reserved + value q.amount_atomic;
        version = b.version + 1;
      }
      → r' ≡ record {
        reservation_id = q.reservation_id;
        budget_id = q.budget_id;
        operation_id = q.operation_id;
        idempotency_key = q.idempotency_key;
        amount_atomic = value q.amount_atomic;
        finalized_spend_atomic = 0;
        status = ReservationStatus.held;
        expires_at = expires_at;
        proof_reference = none;
      }
      → not (any (shares_key r') db.reservations) ≡ true
      → w.budgets ≡ update (is_budget q.budget_id) (λ _. after) db.budgets
      → w.reservations ≡ r' ∷ db.reservations
      → Reserving env q expires_at db w r'

pub read_last-Holds :
    {A : Type 0} (P : A → Db → Type 0) (m : Query A) (db : Db)
    → ((a : A) → m db ≡ ok a → P a db)
    → Holds P (reads m db)
unfolding reads Holds
read_last-Holds P m db h =
    elim (m db) as (λ x. m db ≡ x → Holds P (elim x [ ok a ↦ ok (a, db) | err e ↦ err e ])) [
      | ok a ↦ λ e. h a e
      | err e ↦ λ _. tt
    ]
      refl

found_reservation :
    (id : Text) (db : Db) {r : Reservation}
    → get_reservation id db ≡ ok r
    → find (is_reservation id) db.reservations ≡ some r
unfolding get_reservation
found_reservation id db {r} e =
    Ensures-ok (λ a. find (is_reservation id) db.reservations ≡ some a) (get_reservation id db)
      (select-found (λ d. find (is_reservation id) d.reservations) reservation_not_found db) e

inserted :
    (r : Reservation) (db : Db)
    → Holds
        (λ _ w.
          (not (any (shares_key r) db.reservations) ≡ true)
          × (w ≡ record db { reservations = r ∷ db.reservations }))
        (insert_reservation r db)
unfolding insert_reservation modify Holds
inserted r db = gets-Holds _ db _ _ (
    require-Holds _ db (not (any (shares_key r) db.reservations)) unique_violation _
      (λ e. (e, refl)))

replay-Holds :
    (env : Env) (q : ReserveRequest) (expires_at : ℕ) (db : Db) (i : IdempotencyRecord)
    → find (is_record q.idempotency_key) db.idempotency ≡ some i
    → Holds
        (λ r' w. Reserving env q expires_at db w r')
        (replay (payload_hash env q expires_at) i db)
unfolding replay
replay-Holds env q expires_at db i found =
    require-Holds _ db (same_text i.payload_hash (payload_hash env q expires_at))
      idempotency_conflict _
      (λ same. or_throw-Holds _ db i.reservation_id no_result _ (λ id at.
        read_last-Holds _ (get_reservation id) db (λ r got.
          replayed i id found
            ((same_text_iff i.payload_hash (payload_hash env q expires_at)).0 same) at
            (found_reservation id db got) refl)))

pub insert_reservation-Holds :
    {B : Type 0} (P : B → Db → Type 0) (r : Reservation) (db : Db) (k : Tx B)
    → (not (any (shares_key r) db.reservations) ≡ true
        → Holds P (k (record db { reservations = r ∷ db.reservations })))
    → Holds P ((insert_reservation r >> k) db)
unfolding insert_reservation
insert_reservation-Holds P r db k h =
    bind-Holds P db
      (λ _ w.
        (not (any (shares_key r) db.reservations) ≡ true)
        × (w ≡ record db { reservations = r ∷ db.reservations }))
      _ (λ _. k) (inserted r db) (λ _ w (new, e). subst (λ x. Holds P (k x)) (sym e) (h new))

reserve_new-Holds :
    (env : Env) (q : ReserveRequest) (expires_at : ℕ) (c : AuditCorrelation) (db : Db)
    → find (is_record q.idempotency_key) db.idempotency ≡ none
    → Holds
        (λ r' w. Reserving env q expires_at db w r')
        (reserve_new env q (value q.amount_atomic) expires_at c db)
unfolding reserve_new
reserve_new-Holds env q expires_at c db new =
    let r = new_reservation q (value q.amount_atomic) expires_at in
    modify-Holds _ db (insert_record env q expires_at c) _ (
      let d = insert_record env q expires_at c db in
      reads-Holds _ d (select (λ x. find (is_budget q.budget_id) x.budgets) reservation_not_found) _
        (λ b got.
          let found =
            Ensures-ok _ _
              (select-found (λ x. find (is_budget q.budget_id) x.budgets) reservation_not_found d)
              got in
          require-Holds _ d (leb (value q.amount_atomic) b.available) insufficient_budget _
            (λ enough.
              bind-Holds _ d _ (update_budget q.budget_id (set_aside (value q.amount_atomic))) _
                (update_budget_lem q.budget_id (set_aside (value q.amount_atomic)) d found)
                (λ _ w (after, changed, e). insert_reservation-Holds _ r w _ (λ unique.
                  modify-Holds _ _ (complete_record q) _ (
                    write_transition_audit-Holds _ _ env q.audit AuditEventType.reservation_created
                      c _ _
                      (λ log. pure-Holds _ _ r (
                        created b after new found
                          ((leb_iff (value q.amount_atomic) b.available).0 enough)
                          (set_aside-aside (value q.amount_atomic) b changed) refl
                          (subst (λ (x : Db). not (any (shares_key r) x.reservations) ≡ true) e
                            unique)
                          (ap (λ (x : Db). x.budgets) e)
                          (ap (λ (x : Db). r ∷ x.reservations) e)))))))))

parsed_positive :
    (text : Text) (db : Db) {n : ℕ}
    → parse_positive_atomic text db ≡ ok n
    → (positive_atomic_unit text ≡ true) × (value text ≡ n)
unfolding parse_positive_atomic
parsed_positive text db {n} h =
    Ensures-ok (λ a. (positive_atomic_unit text ≡ true) × (value text ≡ a))
      (parse_positive_atomic text db)
      (require-Ensures _ db (positive_atomic_unit text) invalid_atomic_amount _ (λ e. (e, refl))) h

-- The last statement of `reserveBudget`, by the record of the key.
decide-Holds :
    (env : Env) (q : ReserveRequest) (expires_at n : ℕ) (c : AuditCorrelation) (db : Db)
    (existing : Option IdempotencyRecord)
    → find (is_record q.idempotency_key) db.idempotency ≡ existing
    → value q.amount_atomic ≡ n
    → Holds
        (λ r' w. Reserving env q expires_at db w r')
        (replay_or_reserve env q n expires_at c existing db)
decide-Holds env q expires_at n c db (some i) found number =
    replay-Holds env q expires_at db i found
decide-Holds env q expires_at n c db none found number =
    subst
      (λ m.
        Holds (λ r' w. Reserving env q expires_at db w r') (reserve_new env q m expires_at c db))
      number (reserve_new-Holds env q expires_at c db found)

-- A reservation is made only for a positive amount and under active fences. It is the one of an
-- earlier request with the same key and digest, and nothing changes, or a new one with status HELD,
-- whose amount was available in its budget and moves from the available to the reserved part.
pub reserve_budget_lem :
    (env : Env) (q : ReserveRequest) (db : Db)
    → Holds
        (λ r' w.
          (positive_atomic_unit q.amount_atomic ≡ true)
          × (Unfenced q.operation_id db)
          × ((expires_at : ℕ) × (q.expires_at ≡ some expires_at)
              × Reserving env q expires_at db w r'))
        (reserve_budget env q db)
unfolding reserve_budget
reserve_budget_lem env q db =
    reads-Holds _ db (parse_positive_atomic q.amount_atomic) _ (λ n parsed.
      let (positive, number) = parsed_positive q.amount_atomic db parsed in
      or_throw-Holds _ db q.expires_at invalid_timestamp _ (λ expires_at at.
        reads-Holds _ db (lock_reservation_control_fences q.operation_id) _ (λ u locked.
          let unfenced =
            Ensures-ok (λ _. Unfenced q.operation_id db) _ (lock-Unfenced q.operation_id db)
              locked in
          reads-Holds _ db (get_reservation_binding_for_reserve q.budget_id q.operation_id) _
            (λ row _.
              reads-Holds _ db
                (assert_audit_correlation q.audit (map_audit_correlation q.reservation_id row)) _
                (λ _ _.
                  gets-Holds _ db (λ d. find (is_record q.idempotency_key) d.idempotency) _
                    (weaken-Holds _ db _
                      (replay_or_reserve env q n expires_at
                        (map_audit_correlation q.reservation_id row)
                        (find (is_record q.idempotency_key) db.idempotency))
                      (decide-Holds env q expires_at n (map_audit_correlation q.reservation_id row)
                        db _ refl number)
                      (λ r' w h. (positive, unfenced, (expires_at, at, h)))))))))

-- Setting money aside keeps the sum of the parts.
aside_sum :
    (n : ℕ) (b c : Budget)
    → n ≤ b.available
    → c ≡ aside n b
    → c.available + c.reserved + c.finalized_spend ≡ b.available + b.reserved + b.finalized_spend
aside_sum n b c enough e =
    ap (λ (x : Budget). x.available + x.reserved + x.finalized_spend) e ∙ omega arith

abbrev with_rows : List Reservation → List Budget → Funds
with_rows rows budgets = record { budgets = budgets; reservations = rows }

pub Reserving-Balanced :
    (env : Env) (q : ReserveRequest) (expires_at : ℕ) (db w : Db) (r' : Reservation)
    → Reserving env q expires_at db w r'
    → Balanced db
    → Balanced w
Reserving-Balanced env q expires_at db w r' (replayed _ _ _ _ _ _ e) balanced =
    subst Balanced (sym e) balanced
Reserving-Balanced env q expires_at db w r'
      (created b after _ found enough changed e _ budgets rows) balanced =
    let r = new_reservation q (value q.amount_atomic) expires_at in
    let own = (same_text_iff q.budget_id q.budget_id).1 refl in
    subst AllBalanced
      (sym (
        ap (with_rows w.reservations) budgets
        ∙ ap (λ x. with_rows x (update (is_budget q.budget_id) (λ _. after) db.budgets))
            (rows ∙ ap (λ x. x ∷ db.reservations) e)))
      (set_aside-AllBalanced (funds db) r b after found (ap (λ (x : Budget). x.budget_id) changed)
        (ap (λ (x : Budget). x.allocated) changed)
        (aside_sum (value q.amount_atomic) b after enough changed)
        (ground (arith, ap (λ (x : Budget). x.reserved) changed))
        (ground (arith, ap (λ (x : Budget). x.finalized_spend) changed)) balanced)
