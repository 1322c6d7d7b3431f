-- ===== src/Store/Funds.antt =====
-- The money of the database, its budgets and reservations, and the moves that a transaction may
-- make with it. The rows are those of packages/budget-ledger/src/ledger.ts.
pub mod Moves
use crip_wallet.Base.{
  ℕ, ◌+◌, ◌-◌, ◌≡◌, refl, Bool, true, false, List, [], ◌∷◌, Option, none, some, if◌then◌else◌,
}
use crip_wallet.Schemas.Money.{Text}
use crip_wallet.Schemas.Common.{same_text}
use crip_wallet.Store.{
  ReservationStatus, held, authorized, broadcast, finalized, released, expired, disputed, Budget,
  Reservation, Db,
}
use crip_wallet.Store.Tables.{find, update}

pub record Funds : Type 0 where
  pub budgets : List Budget
  pub reservations : List Reservation

abbrev pub funds : Db → Funds
funds db = record { budgets = db.budgets; reservations = db.reservations }

abbrev pub is_budget : Text → Budget → Bool
is_budget id b = same_text b.budget_id id

abbrev pub is_reservation : Text → Reservation → Bool
is_reservation id r = same_text r.reservation_id id

-- A status under which the amount is still set aside.
abbrev pub is_live : ReservationStatus → Bool
is_live held = true
is_live authorized = true
is_live broadcast = true
is_live disputed = true
is_live _ = false

-- What a reservation holds back, and what it has spent, of the budget named.
abbrev pub hold : Text → Reservation → ℕ
hold id r =
    if same_text r.budget_id id then (if is_live r.status then r.amount_atomic else 0) else 0

abbrev pub is_finalized : ReservationStatus → Bool
is_finalized finalized = true
is_finalized _ = false

abbrev pub spent : Text → Reservation → ℕ
spent id r =
    if same_text r.budget_id id
    then (if is_finalized r.status then r.finalized_spend_atomic else 0)
    else 0

unfoldable pub total : (Reservation → ℕ) → List Reservation → ℕ
total weight [] = 0
total weight (r ∷ rows) = weight r + total weight rows

-- A budget is balanced if its parts add up to the allocation, its reserved part is what the live
-- reservations hold back and its finalized part is what the reservations have spent.
pub record IsBalanced (rows : List Reservation) (b : Budget) : Type 0 where
  pub adds_up : b.allocated ≡ b.available + b.reserved + b.finalized_spend
  pub backed : b.reserved ≡ total (hold b.budget_id) rows
  pub accounted : b.finalized_spend ≡ total (spent b.budget_id) rows

abbrev pub AllBalanced : Funds → Type 0
AllBalanced f =
    (id : Text) (b : Budget) → find (is_budget id) f.budgets ≡ some b → IsBalanced f.reservations b
