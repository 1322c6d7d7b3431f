-- ===== src/Ledger/Rows.antt =====
-- packages/budget-ledger/src/ledger.ts: the statements that write budgets and reservations, with
-- the CHECK and UNIQUE constraints of migrations/0001_ws003_budget_ledger.sql that they meet.
pub mod Effects
use crip_wallet.Base.{
  ℕ, ◌+◌, ◌-◌, Bool, true, false, not, ◌&&◌, ◌||◌, List, [], ◌∷◌, any, Option, none, some, ◌==◌,
  leb, if◌then◌else◌,
}
use crip_wallet.Schemas.Money.{Text}
use crip_wallet.Schemas.Common.{same_text}
use crip_wallet.Store.{ReservationStatus, Budget, Reservation, Db}
use crip_wallet.Base.Ensures.{Result}
use crip_wallet.Store.Tables.{find, update}
use crip_wallet.Store.Tx.{
  Tx, ◌>>=◌, ◌>>◌, gets, modify, or_throw, require, check_violation, unique_violation,
}
use crip_wallet.Store.Funds.{is_budget, is_reservation}

-- An UPDATE of a budget to the row given, or `none` where a column would be negative.
unfoldable pub update_budget : Text → (Budget → Option Budget) → Tx (Unit {0})
update_budget id change db = elim (find (is_budget id) db.budgets) [
  | none ↦ Result.ok (tt, db)
  | some b ↦
      (do
        c ← or_throw (change b) check_violation
        modify (λ d. record d { budgets = update (is_budget id) (λ _. c) d.budgets }))
        db
]

-- SET available = available - amount, reserved = reserved + amount
abbrev pub set_aside : ℕ → Budget → Option Budget
set_aside amount b =
    if leb amount b.available
    then some (record b {
      available = b.available - amount;
      reserved = b.reserved + amount;
      version = b.version + 1;
    })
    else none

-- SET available = available + amount, reserved = reserved - amount
abbrev pub give_back : ℕ → Budget → Option Budget
give_back amount b =
    if leb amount b.reserved
    then some (record b {
      available = b.available + amount;
      reserved = b.reserved - amount;
      version = b.version + 1;
    })
    else none

-- SET available = available + (amount - spend), reserved = reserved - amount,
-- finalized_spend = finalized_spend + spend
abbrev pub settle : ℕ → ℕ → Budget → Option Budget
settle amount spend b =
    if leb amount b.reserved && leb spend (b.available + amount)
    then some (record b {
      available = b.available + amount - spend;
      reserved = b.reserved - amount;
      finalized_spend = b.finalized_spend + spend;
      version = b.version + 1;
    })
    else none

abbrev pub is_closed : ReservationStatus → Bool
is_closed ReservationStatus.released = true
is_closed ReservationStatus.expired = true
is_closed ReservationStatus.disputed = true
is_closed _ = false

-- The CHECK constraints of a reservation's row: budget_reservations_finalized and
-- budget_reservations_terminal_spend.
abbrev pub is_checked : Reservation → Bool
is_checked r =
    leb r.finalized_spend_atomic r.amount_atomic
    && (not (is_closed r.status) || r.finalized_spend_atomic == 0)

-- An UPDATE of a reservation.
unfoldable pub update_reservation : Text → (Reservation → Reservation) → Tx (Unit {0})
update_reservation id change db = elim (find (is_reservation id) db.reservations) [
  | none ↦ Result.ok (tt, db)
  | some r ↦
      (do
        require (is_checked (change r)) check_violation
        modify (λ d. record d { reservations = update (is_reservation id) change d.reservations }))
        db
]

-- The keys of a reservation that no other row may have.
abbrev pub shares_key : Reservation → Reservation → Bool
shares_key r other =
    same_text other.reservation_id r.reservation_id
    || (same_text other.operation_id r.operation_id
        || same_text other.idempotency_key r.idempotency_key)

-- INSERT INTO budget_reservations
unfoldable pub insert_reservation : Reservation → Tx (Unit {0})
insert_reservation r = do
  rows ← gets (λ db. db.reservations)
  require (not (any (shares_key r) rows)) unique_violation
  modify (λ db. record db { reservations = r ∷ db.reservations })

abbrev pub set_status : ReservationStatus → Reservation → Reservation
set_status status r = record r { status = status }

abbrev pub set_finalized : ℕ → Option Text → Reservation → Reservation
set_finalized spend proof r = record r {
  status = ReservationStatus.finalized;
  finalized_spend_atomic = spend;
  proof_reference = proof;
}

-- The two statements that release or expire a reservation.
unfoldable pub return_funds : Reservation → ReservationStatus → Tx (Unit {0})
return_funds r status = do
  update_budget r.budget_id (give_back r.amount_atomic)
  update_reservation r.reservation_id (set_status status)

-- The two statements that finalize a reservation.
unfoldable pub settle_funds : Reservation → ℕ → Option Text → Tx (Unit {0})
settle_funds r spend proof = do
  update_budget r.budget_id (settle r.amount_atomic spend)
  update_reservation r.reservation_id (set_finalized spend proof)
