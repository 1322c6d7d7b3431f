-- ===== src/Ledger/Effect.antt =====
-- packages/budget-ledger/src/ledger.ts: what an operation on a reservation may do with the money.
use crip_wallet.Base.{ℕ, ◌≡◌, refl, sym, ap, subst, true, false, Option, some, arith, leb}
use crip_wallet.Schemas.Money.{Text}
use crip_wallet.Store.{ReservationStatus, Budget, Reservation, Db}
use crip_wallet.Store.ReservationStatus.{broadcast}
use crip_wallet.Store.Tables.{find}
use crip_wallet.Store.Funds.{funds, is_budget, is_reservation, is_live, is_finalized, AllBalanced}
use crip_wallet.Store.Funds.Moves.{relabel-AllBalanced}
use crip_wallet.Ledger.Rows.{set_status, set_finalized, give_back, settle}
use crip_wallet.Ledger.Rows.Effects.{
  Balanced, with_reservation, Paid, returned-Balanced, settled-Balanced,
}

-- The step of a reservation `r` of the database `db`, to `r'` in `w`.
pub data Effect (db w : Db) (r r' : Reservation) : Type 0 where
  idle : r' ≡ r → funds w ≡ funds db → Effect db w r r'
  -- the amount goes back to the budget
  returned :
      (b : Budget) (status : ReservationStatus)
      → find (is_budget r.budget_id) db.budgets ≡ some b
      → is_live r.status ≡ true
      → is_live status ≡ false
      → is_finalized status ≡ false
      → r' ≡ set_status status r
      → Paid (give_back r.amount_atomic) (set_status status) r b db w
      → Effect db w r r'
  -- the spend is paid and the rest goes back
  settled :
      (b : Budget) (spend : ℕ) (proof : Option Text)
      → find (is_budget r.budget_id) db.budgets ≡ some b
      → r.status ≡ broadcast
      → leb spend r.amount_atomic ≡ true
      → r' ≡ set_finalized spend proof r
      → Paid (settle r.amount_atomic spend) (set_finalized spend proof) r b db w
      → Effect db w r r'
  -- the amount stays aside
  relabelled :
      (status : ReservationStatus)
      → is_live r.status ≡ true
      → is_live status ≡ true
      → r' ≡ set_status status r
      → funds w ≡ funds (with_reservation r.reservation_id (set_status status) db)
      → Effect db w r r'

not_finalized : (s : ReservationStatus) → is_live s ≡ true → is_finalized s ≡ false
not_finalized s h = ground arith

relabelled-Balanced :
    (db : Db) (r : Reservation) (status : ReservationStatus)
    → find (is_reservation r.reservation_id) db.reservations ≡ some r
    → is_live r.status ≡ true
    → is_live status ≡ true
    → Balanced db
    → Balanced (with_reservation r.reservation_id (set_status status) db)
relabelled-Balanced db r status reserved live live' =
    relabel-AllBalanced (funds db) r (set_status status) reserved (λ id. rw (live, live') refl)
      (λ id. rw (not_finalized r.status live, not_finalized status live') refl)

pub Effect-Balanced :
    (db w : Db) (r r' : Reservation)
    → find (is_reservation r.reservation_id) db.reservations ≡ some r
    → Effect db w r r'
    → Balanced db
    → Balanced w
Effect-Balanced db w r r' reserved (idle _ e) balanced = subst AllBalanced (sym e) balanced
Effect-Balanced db w r r' reserved (returned b status found live closed unspent _ p) balanced =
    returned-Balanced r b db found reserved live balanced status closed unspent p
Effect-Balanced db w r r' reserved (settled b spend proof found sent _ _ p) balanced =
    settled-Balanced r b db found reserved (ap is_live sent) balanced spend proof p
Effect-Balanced db w r r' reserved (relabelled status live live' _ e) balanced =
    subst AllBalanced (sym e) (relabelled-Balanced db r status reserved live live' balanced)
