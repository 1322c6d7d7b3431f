-- ===== src/Ledger/Binding/Found.antt =====
-- packages/budget-ledger/src/ledger.ts: what a read of a reservation with its bindings has found.
use crip_wallet.Base.{◌≡◌, refl, true, some}
use crip_wallet.Base.Ensures.{Ensures}
use crip_wallet.Schemas.Money.{Text}
use crip_wallet.Schemas.Common.{same_text_iff}
use crip_wallet.Store.{Db}
use crip_wallet.Store.Tables.{find, find_holds}
use crip_wallet.Store.Tx.{reservation_not_found, budget_binding_mismatch}
use crip_wallet.Store.Query.{query-Ensures, select-Ensures, require-Ensures}
use crip_wallet.Store.Funds.{is_budget, is_reservation}
use crip_wallet.Ledger.Binding.{
  BindingRow, ReservationBinding, map_audit_correlation, is_consistent, join_operation,
  get_reservation, get_reservation_for_update,
}

-- A row of the joins has the budget by its id.
pub join-Found :
    (budget_id operation_id : Text) (db : Db)
    → Ensures
        (λ row. find (is_budget budget_id) db.budgets ≡ some row.budget)
        (join_operation budget_id operation_id db)
unfolding join_operation
join-Found budget_id operation_id db = select-Ensures _ db _ reservation_not_found _ (λ o _.
    select-Ensures _ db _ reservation_not_found _ (λ i _.
      select-Ensures _ db _ reservation_not_found _ (λ a _.
        select-Ensures _ db _ reservation_not_found _ (λ w _.
          select-Ensures _ db _ reservation_not_found _
            (λ p _. select-Ensures _ db _ reservation_not_found _ (λ b found. found))))))

-- The reservation and its budget are in the database, and the bindings agree.
pub record Found (id : Text) (db : Db) (binding : ReservationBinding) : Type 0 where
  pub row : BindingRow
  pub reserved : find (is_reservation id) db.reservations ≡ some binding.reservation
  pub named : binding.reservation.reservation_id ≡ id
  pub budgeted : find (is_budget binding.reservation.budget_id) db.budgets ≡ some row.budget
  pub consistent : is_consistent row ≡ true
  pub correlated :
      binding.correlation ≡ map_audit_correlation binding.reservation.reservation_id row

pub get_reservation_for_update-Found :
    (id : Text) (db : Db) → Ensures (Found id db) (get_reservation_for_update id db)
unfolding get_reservation_for_update get_reservation
get_reservation_for_update-Found id db =
    select-Ensures _ db (λ d. find (is_reservation id) d.reservations) reservation_not_found _
      (λ r at.
        query-Ensures _ db _ (join_operation r.budget_id r.operation_id) _
          (join-Found r.budget_id r.operation_id db)
          (λ row found.
            require-Ensures _ db (is_consistent row) budget_binding_mismatch _ (λ consistent.
              record {
                row = row;
                reserved = at;
                named =
                    (same_text_iff r.reservation_id id).0
                      (find_holds (is_reservation id) db.reservations at);
                budgeted = found;
                consistent = consistent;
                correlated = refl;
              })))
