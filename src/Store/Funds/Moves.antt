-- ===== src/Store/Funds/Moves.antt =====
-- The changes of rows that keep every budget balanced.
use crip_wallet.Base.{
  ℕ, ◌+◌, ◌≡◌, refl, sym, ap, subst, ◌⊎◌, ◌∙◌, Bool, true, false, List, [], ◌∷◌, some, arith,
  Bool-cases, inl, inr,
}
use crip_wallet.Schemas.Money.{Text}
use crip_wallet.Schemas.Common.{same_text, same_text_iff}
use crip_wallet.Store.{Budget, Reservation}
use crip_wallet.Store.Tables.{find, update, find_holds}
use crip_wallet.Store.Funds.{
  Funds, is_budget, is_reservation, hold, spent, total, IsBalanced, AllBalanced,
}

-- Rewriting one row moves a total by that row's weight.
pub total-update :
    (weight : Reservation → ℕ) (p : Reservation → Bool) (f : Reservation → Reservation)
    (rows : List Reservation) {r : Reservation}
    → find p rows ≡ some r
    → total weight (update p f rows) + weight r ≡ total weight rows + weight (f r)
unfolding total find update
total-update weight p f [] e = cc
total-update weight p f (x ∷ rows) {r} e = ground (arith, total-update weight p f rows {r = r})

pub find-update :
    {R : Type 0} (p : R → Bool) (f : R → R) (rows : List R) {r : R}
    → find p rows ≡ some r
    → p (f r) ≡ true
    → find p (update p f rows) ≡ some (f r)
unfolding find update
find-update p f [] e h = cc
find-update p f (x ∷ rows) {r} e h = ground (arith, find-update p f rows {r = r})

pub find-update_other :
    {R : Type 0} (p q : R → Bool) (f : R → R) (rows : List R)
    → ((x : R) → p x ≡ true → q x ≡ false)
    → ((x : R) → p x ≡ true → q (f x) ≡ false)
    → find q (update p f rows) ≡ find q rows
unfolding find update
find-update_other p q f [] h k = refl
find-update_other p q f (x ∷ rows) h k = ground (arith, find-update_other p q f rows h k, h x, k x)

some-injective : {A : Type 0} {a b : A} → some a ≡ some b → a ≡ b
some-injective e = cc

hold-unrelated : (id : Text) (q : Reservation) → same_text q.budget_id id ≡ false → hold id q ≡ 0
hold-unrelated id q e = rw (e) refl

spent-unrelated : (id : Text) (q : Reservation) → same_text q.budget_id id ≡ false → spent id q ≡ 0
spent-unrelated id q e = rw (e) refl

-- Two ids are the same or no budget has both.
ids-differ :
    (id other : Text)
    → (id ≡ other) ⊎ ((b : Budget) → is_budget id b ≡ true → is_budget other b ≡ false)
ids-differ id other = elim (Bool-cases (same_text id other)) [
  | inl e ↦ inl ((same_text_iff id other).0 e)
  | inr e ↦ inr (λ b h. ap (λ t. same_text t other) ((same_text_iff b.budget_id id).0 h) ∙ e)
]

-- Only the reservations of the budget named hold back or spend something else.
abbrev Unrelated : Text → List Reservation → List Reservation → Type 0
Unrelated id rows rows' =
    (other : Text)
    → same_text id other ≡ false
    → (total (hold other) rows' ≡ total (hold other) rows)
      × (total (spent other) rows' ≡ total (spent other) rows)

-- A new row of one budget.
module _ (v : Funds) (rows' : List Reservation) (id : Text) (b c : Budget)
    (found : find (is_budget id) v.budgets ≡ some b) (ids : c.budget_id ≡ b.budget_id)
    (allocation : c.allocated ≡ b.allocated)
    (parts : c.available + c.reserved + c.finalized_spend
      ≡ b.available + b.reserved + b.finalized_spend)
    (held_back : c.reserved + total (hold id) v.reservations ≡ b.reserved + total (hold id) rows')
    (finalized_part : c.finalized_spend + total (spent id) v.reservations
      ≡ b.finalized_spend + total (spent id) rows')
    (unrelated : Unrelated id v.reservations rows') where
  id-of : b.budget_id ≡ id
  id-of = (same_text_iff b.budget_id id).0 (find_holds (is_budget id) v.budgets found)

  at-c : is_budget id c ≡ true
  at-c = (same_text_iff c.budget_id id).1 (ids ∙ id-of)

  settled : IsBalanced v.reservations b → IsBalanced rows' c
  settled old = record {
    adds_up = omega (arith, old.adds_up, parts, allocation);
    backed = omega (
      arith,
      ap (λ t. total (hold t) rows') (ids ∙ id-of),
      ap (λ t. total (hold t) v.reservations) id-of,
      old.backed,
      held_back,
    );
    accounted = omega (
      arith,
      ap (λ t. total (spent t) rows') (ids ∙ id-of),
      ap (λ t. total (spent t) v.reservations) id-of,
      old.accounted,
      finalized_part,
    );
  }

  after : List Budget
  after = update (is_budget id) (λ _. c) v.budgets

  apart :
      (other : Text) (x : Budget)
      → AllBalanced v
      → ((y : Budget) → is_budget id y ≡ true → is_budget other y ≡ false)
      → find (is_budget other) v.budgets ≡ some x
      → IsBalanced rows' x
  apart other x all differ at =
      let old = all other x at in
      let own = (same_text_iff x.budget_id other).0 (find_holds (is_budget other) v.budgets at) in
      let away =
        ap (λ t. same_text t x.budget_id) (sym id-of)
        ∙ (ap (same_text b.budget_id) own ∙ differ b (find_holds (is_budget id) v.budgets found)) in
      record {
        adds_up = old.adds_up;
        backed = old.backed ∙ sym (unrelated x.budget_id away).0;
        accounted = old.accounted ∙ sym (unrelated x.budget_id away).1;
      }

  rewrite_budget-AllBalanced :
      AllBalanced v → AllBalanced (record { budgets = after; reservations = rows' })
  unfolding after
  rewrite_budget-AllBalanced all other x at = elim (ids-differ id other) [
    | inl e ↦
        subst (IsBalanced rows')
          (some-injective (
            sym (find-update (is_budget id) (λ _. c) v.budgets found at-c)
            ∙ (ap (λ t. find (is_budget t) after) e ∙ at)))
          (settled (all id b found))
    | inr differ ↦ apart other x all differ (
        sym (
          find-update_other (is_budget id) (is_budget other) (λ _. c) v.budgets differ
            (λ y h. differ c at-c))
        ∙ at)
  ]

module _ (v : Funds) (r : Reservation) (f : Reservation → Reservation) where
  module _ (e : find (is_reservation r.reservation_id) v.reservations ≡ some r) where
    -- A reservation that stays with its budget leaves the totals of the others.
    total-other :
        (weight : Reservation → ℕ)
        → weight (f r) ≡ weight r
        → total weight (update (is_reservation r.reservation_id) f v.reservations)
          ≡ total weight v.reservations
    total-other weight h =
        omega (arith, total-update weight (is_reservation r.reservation_id) f v.reservations e, h)

    -- A reservation that holds back and has spent what it did keeps the balance.
    pub relabel-AllBalanced :
        ((id : Text) → hold id (f r) ≡ hold id r)
        → ((id : Text) → spent id (f r) ≡ spent id r)
        → AllBalanced v
        → AllBalanced
            (record v { reservations = update (is_reservation r.reservation_id) f v.reservations })
    relabel-AllBalanced h k all id b found =
        let old = all id b found in
        record {
          adds_up = old.adds_up;
          backed = old.backed ∙ sym (total-other (hold b.budget_id) (h b.budget_id));
          accounted = old.accounted ∙ sym (total-other (spent b.budget_id) (k b.budget_id));
        }

    -- What the reservation stops holding back, its budget gets back or has spent.
    pub settle-AllBalanced :
        (b c : Budget)
        → find (is_budget r.budget_id) v.budgets ≡ some b
        → c.budget_id ≡ b.budget_id
        → c.allocated ≡ b.allocated
        → c.available + c.reserved + c.finalized_spend
          ≡ b.available + b.reserved + b.finalized_spend
        → c.reserved + hold r.budget_id r ≡ b.reserved + hold r.budget_id (f r)
        → c.finalized_spend + spent r.budget_id r ≡ b.finalized_spend + spent r.budget_id (f r)
        → (f r).budget_id ≡ r.budget_id
        → AllBalanced v
        → AllBalanced (record {
          budgets = update (is_budget r.budget_id) (λ _. c) v.budgets;
          reservations = update (is_reservation r.reservation_id) f v.reservations;
        })
    unfolding after
    settle-AllBalanced b c found ids allocation parts back spend same_id =
        let rows' = update (is_reservation r.reservation_id) f v.reservations in
        let moved =
          total-update (hold r.budget_id) (is_reservation r.reservation_id) f v.reservations e in
        let paid =
          total-update (spent r.budget_id) (is_reservation r.reservation_id) f v.reservations e in
        rewrite_budget-AllBalanced v rows' r.budget_id b c found ids allocation parts
          (omega (arith, moved, back)) (omega (arith, paid, spend))
          (λ other away.
            let away_too = ap (λ t. same_text t other) same_id ∙ away in
            (
              total-other (hold other)
                  (hold-unrelated other (f r) away_too ∙ sym (hold-unrelated other r away)),
              total-other (spent other)
                  (spent-unrelated other (f r) away_too ∙ sym (spent-unrelated other r away)),
            ))

-- A new reservation holds back what its budget has set aside.
pub set_aside-AllBalanced :
    (v : Funds) (r : Reservation) (b c : Budget)
    → find (is_budget r.budget_id) v.budgets ≡ some b
    → c.budget_id ≡ b.budget_id
    → c.allocated ≡ b.allocated
    → c.available + c.reserved + c.finalized_spend ≡ b.available + b.reserved + b.finalized_spend
    → c.reserved ≡ b.reserved + hold r.budget_id r
    → c.finalized_spend ≡ b.finalized_spend + spent r.budget_id r
    → AllBalanced v
    → AllBalanced (record {
      budgets = update (is_budget r.budget_id) (λ _. c) v.budgets;
      reservations = r ∷ v.reservations;
    })
unfolding after total
set_aside-AllBalanced v r b c found ids allocation parts back spend =
    rewrite_budget-AllBalanced v (r ∷ v.reservations) r.budget_id b c found ids allocation parts
      (omega (arith, back)) (omega (arith, spend))
      (λ other away.
        (omega (arith, hold-unrelated other r away), omega (arith, spent-unrelated other r away)))
