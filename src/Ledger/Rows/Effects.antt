-- ===== src/Ledger/Rows/Effects.antt =====
-- packages/budget-ledger/src/ledger.ts: what the writes of budgets and reservations leave.
use crip_wallet.Base.{ℕ, ◌+◌, ◌≡◌, refl, sym, ap, subst, ◌∙◌, true, false, Option, some, arith}
use crip_wallet.Schemas.Money.{Text}
use crip_wallet.Schemas.Common.{same_text_iff}
use crip_wallet.Store.{ReservationStatus, Budget, Reservation, Db}
use crip_wallet.Store.Tables.{find, update}
use crip_wallet.Store.Tx.{
  ◌>>◌, Holds, check_violation, or_throw-Holds, require-Holds, bind-Holds, weaken-Holds, modify,
}
use crip_wallet.Store.Funds.{
  Funds, funds, is_budget, is_reservation, is_live, is_finalized, AllBalanced,
}
use crip_wallet.Store.Funds.Moves.{settle-AllBalanced}
use crip_wallet.Ledger.Rows.{
  update_budget, update_reservation, give_back, settle, is_checked, set_status, set_finalized,
  return_funds, settle_funds,
}

abbrev pub Balanced : Db → Type 0
Balanced db = AllBalanced (funds db)

abbrev pub with_budget : Text → Budget → Db → Db
with_budget id c db = record db { budgets = update (is_budget id) (λ _. c) db.budgets }

abbrev pub with_reservation : Text → (Reservation → Reservation) → Db → Db
with_reservation id f db = record db { reservations = update (is_reservation id) f db.reservations }

pub update_budget_lem :
    (id : Text) (change : Budget → Option Budget) (db : Db) {b : Budget}
    → find (is_budget id) db.budgets ≡ some b
    → Holds
        (λ _ w. (c : Budget) × (change b ≡ some c) × (w ≡ with_budget id c db))
        (update_budget id change db)
unfolding update_budget modify Holds
update_budget_lem id change db {b} found =
    rw (found, update_budget)
      (or_throw-Holds _ db (change b) check_violation _ (λ c e. (c, e, refl)))

pub update_reservation_lem :
    (id : Text) (change : Reservation → Reservation) (db : Db) {r : Reservation}
    → find (is_reservation id) db.reservations ≡ some r
    → Holds
        (λ _ w. (is_checked (change r) ≡ true) × (w ≡ with_reservation id change db))
        (update_reservation id change db)
unfolding update_reservation modify Holds
update_reservation_lem id change db {r} found =
    rw (found, update_reservation)
      (require-Holds _ db (is_checked (change r)) check_violation _ (λ e. (e, refl)))

-- What `return_funds` and `settle_funds` leave.
pub record Paid (change : Budget → Option Budget) (f : Reservation → Reservation) (r : Reservation)
    (b : Budget) (db w : Db) : Type 0 where
  pub after : Budget
  pub changed : change b ≡ some after
  pub checked : is_checked (f r) ≡ true
  pub result :
      funds w ≡ funds (with_reservation r.reservation_id f (with_budget r.budget_id after db))

-- The sums of a budget's row after `give_back` and `settle`.
record Changed (spend amount : ℕ) (b c : Budget) : Type 0 where
  pub same_id : c.budget_id ≡ b.budget_id
  pub same_allocation : c.allocated ≡ b.allocated
  pub same_sum :
      c.available + c.reserved + c.finalized_spend ≡ b.available + b.reserved + b.finalized_spend
  pub less_reserved : c.reserved + amount ≡ b.reserved
  pub more_spent : c.finalized_spend ≡ b.finalized_spend + spend

give_back-Changed : (n : ℕ) (b : Budget) {c : Budget} → give_back n b ≡ some c → Changed 0 n b c
give_back-Changed n b {c} e = record {
  same_id = ground arith;
  same_allocation = ground arith;
  same_sum = ground arith;
  less_reserved = ground arith;
  more_spent = ground arith;
}

settle-Changed : (n s : ℕ) (b : Budget) {c : Budget} → settle n s b ≡ some c → Changed s n b c
settle-Changed n s b {c} e = record {
  same_id = ground arith;
  same_allocation = ground arith;
  same_sum = ground arith;
  less_reserved = ground arith;
  more_spent = ground arith;
}

live-not_finalized : (s : ReservationStatus) → is_live s ≡ true → is_finalized s ≡ false
live-not_finalized s h = ground arith

module _ (r : Reservation) (b : Budget) (db : Db)
    (found : find (is_budget r.budget_id) db.budgets ≡ some b)
    (reserved : find (is_reservation r.reservation_id) db.reservations ≡ some r) where
  pay_lem :
      (change : Budget → Option Budget) (f : Reservation → Reservation)
      → Holds
          (λ _ w. Paid change f r b db w)
          ((update_budget r.budget_id change >> update_reservation r.reservation_id f) db)
  pay_lem change f =
      bind-Holds (λ _ w. Paid change f r b db w) db
        (λ _ w. (c : Budget) × (change b ≡ some c) × (w ≡ with_budget r.budget_id c db))
        (update_budget r.budget_id change) (λ _. update_reservation r.reservation_id f)
        (update_budget_lem r.budget_id change db found)
        (λ _ w (c, e, at).
          subst
            (λ x. Holds (λ _ w'. Paid change f r b db w') (update_reservation r.reservation_id f x))
            (sym at)
            (weaken-Holds (λ _ w'. Paid change f r b db w') (with_budget r.budget_id c db)
              (λ _ w'.
                (is_checked (f r) ≡ true)
                × (w' ≡ with_reservation r.reservation_id f (with_budget r.budget_id c db)))
              (update_reservation r.reservation_id f)
              (update_reservation_lem r.reservation_id f (with_budget r.budget_id c db) reserved)
              (λ _ w' (ch, e'). record {
                after = c;
                changed = e;
                checked = ch;
                result = ap funds e';
              })))

  pub return_funds_lem :
      (status : ReservationStatus)
      → Holds
          (λ _ w. Paid (give_back r.amount_atomic) (set_status status) r b db w)
          (return_funds r status db)
  unfolding return_funds
  return_funds_lem status = pay_lem (give_back r.amount_atomic) (set_status status)

  pub settle_funds_lem :
      (spend : ℕ) (proof : Option Text)
      → Holds
          (λ _ w. Paid (settle r.amount_atomic spend) (set_finalized spend proof) r b db w)
          (settle_funds r spend proof db)
  unfolding settle_funds
  settle_funds_lem spend proof = pay_lem (settle r.amount_atomic spend) (set_finalized spend proof)

  module _ (live : is_live r.status ≡ true) (balanced : Balanced db) where
    pub returned-Balanced :
        (status : ReservationStatus) {w : Db}
        → is_live status ≡ false
        → is_finalized status ≡ false
        → Paid (give_back r.amount_atomic) (set_status status) r b db w
        → Balanced w
    returned-Balanced status closed unspent p = subst AllBalanced (sym p.result) (
        let d = give_back-Changed r.amount_atomic b p.changed in
        let settled = live-not_finalized r.status live in
        let own = (same_text_iff r.budget_id r.budget_id).1 refl in
        settle-AllBalanced (funds db) r (set_status status) reserved b p.after found d.same_id
          d.same_allocation d.same_sum (ground (arith, d.less_reserved))
          (ground (arith, d.more_spent)) refl balanced)

    pub settled-Balanced :
        (spend : ℕ) (proof : Option Text) {w : Db}
        → Paid (settle r.amount_atomic spend) (set_finalized spend proof) r b db w
        → Balanced w
    settled-Balanced spend proof p = subst AllBalanced (sym p.result) (
        let d = settle-Changed r.amount_atomic spend b p.changed in
        let settled = live-not_finalized r.status live in
        let own = (same_text_iff r.budget_id r.budget_id).1 refl in
        settle-AllBalanced (funds db) r (set_finalized spend proof) reserved b p.after found
          d.same_id d.same_allocation d.same_sum (ground (arith, d.less_reserved))
          (ground (arith, d.more_spent)) refl balanced)

-- The budgets and reservations alone decide what `Paid` says.
pub Paid-funds :
    {change : Budget → Option Budget} {f : Reservation → Reservation} {r : Reservation} {b : Budget}
    {db d v w : Db}
    → funds d ≡ funds db
    → funds w ≡ funds v
    → Paid change f r b d v
    → Paid change f r b db w
Paid-funds {change} {f} {r} {b} before later p = record {
  after = p.after;
  changed = p.changed;
  checked = p.checked;
  result =
      later
      ∙ (p.result
          ∙ ap
              (λ (x : Funds). record x {
                budgets = update (is_budget r.budget_id) (λ _. p.after) x.budgets;
                reservations = update (is_reservation r.reservation_id) f x.reservations;
              })
              before);
}
