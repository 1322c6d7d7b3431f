-- ===== src/Store/Tables.antt =====
-- Reading and updating one row of a table by its key.
use crip_wallet.Base.{
  ℕ, suc, ◌≡◌, Bool, true, List, [], ◌∷◌, Option, none, some, arith, if◌then◌else◌,
}

module _ {R : Type 0} where
  -- The row of a SELECT by key, the first that fits.
  unfoldable pub find : (R → Bool) → List R → Option R
  find p [] = none
  find p (r ∷ rows) = if p r then some r else find p rows

  -- An UPDATE of that row.
  unfoldable pub update : (R → Bool) → (R → R) → List R → List R
  update p f [] = []
  update p f (r ∷ rows) = if p r then f r ∷ rows else r ∷ update p f rows

  -- `rowCount` of a SELECT
  unfoldable pub count : (R → Bool) → List R → ℕ
  count p [] = 0
  count p (r ∷ rows) = let rest = count p rows in if p r then suc rest else rest

  pub find_holds : (p : R → Bool) (rows : List R) {r : R} → find p rows ≡ some r → p r ≡ true
  unfolding find
  find_holds p [] e = cc
  find_holds p (x ∷ rows) {r} e = ground (arith, find_holds p rows {r = r})
