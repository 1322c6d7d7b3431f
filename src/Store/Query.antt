-- ===== src/Store/Query.antt =====
-- The reads of a transaction: they look at the database, or fail, and change nothing. Row locks
-- have no counterpart, since a transaction here runs alone.
use crip_wallet.Base.{◌≡◌, refl, Bool, true, false, Option, none, some}
use crip_wallet.Base.Ensures.{Result, ok, err, Ensures}
use crip_wallet.Store.{Db}
use crip_wallet.Store.Tx.{LedgerError, Tx, ◌>>=◌ as tx_bind, Holds}

abbrev pub Query : Type 0 → Type 0
Query A = Db → Result LedgerError A

infixl 5 ◌>>=◌ ◌>>◌
unfoldable pub ◌>>=◌ : {A B : Type 0} → Query A → (A → Query B) → Query B
◌>>=◌ m k db = elim (m db) [ ok a ↦ k a db | err e ↦ err e ]

abbrev pub ◌>>◌ : {A B : Type 0} → Query A → Query B → Query B
m >> k = m >>= λ _. k

abbrev pub pure : {A : Type 0} → A → Query A
pure a db = ok a

-- A SELECT
abbrev pub gets : {A : Type 0} → (Db → A) → Query A
gets f db = ok (f db)

abbrev pub or_throw : {A : Type 0} → Option A → LedgerError → Query A
or_throw none e db = err e
or_throw (some a) e db = ok a

abbrev pub require : Bool → LedgerError → Query (Unit {0})
require true e db = ok tt
require false e db = err e

-- A read in a transaction.
unfoldable pub reads : {A : Type 0} → Query A → Tx A
reads q db = elim (q db) [ ok a ↦ ok (a, db) | err e ↦ err e ]

pub reads-Holds :
    {A B : Type 0} (P : B → Db → Type 0) (db : Db) (q : Query A) (k : A → Tx B)
    → ((a : A) → q db ≡ ok a → Holds P (k a db))
    → Holds P (tx_bind (reads q) k db)
unfolding reads tx_bind Holds
reads-Holds P db q k h =
    elim (q db)
        as (λ x.
          (q db ≡ x) → Holds P (tx_bind (λ d. elim x [ ok a ↦ ok (a, d) | err e ↦ err e ]) k db)) [
            | ok a ↦ λ e. h a e
            | err e ↦ λ _. tt
          ]
      refl

-- A SELECT that has to give a row.
unfoldable pub select : {A : Type 0} → (Db → Option A) → LedgerError → Query A
select f e db = or_throw (f db) e db

module _ {A B : Type 0} (P : B → Type 0) (db : Db) where
  pub query-Ensures :
      (Q : A → Type 0) (q : Query A) (k : A → Query B)
      → Ensures Q (q db)
      → ((a : A) → Q a → Ensures P (k a db))
      → Ensures P ((q >>= k) db)
  unfolding ◌>>=◌ select
  query-Ensures Q q k h f =
      elim (q db) as (λ x. Ensures Q x → Ensures P (elim x [ ok a ↦ k a db | err e ↦ err e ])) [
        | ok a ↦ λ h'. f a h'
        | err e ↦ λ _. tt
      ]
        h

  pub or_throw-Ensures :
      (o : Option A) (e : LedgerError) (k : A → Query B)
      → ((a : A) → o ≡ some a → Ensures P (k a db))
      → Ensures P ((or_throw o e >>= k) db)
  unfolding ◌>>=◌ select
  or_throw-Ensures none e k h = tt
  or_throw-Ensures (some a) e k h = h a refl

  pub select-Ensures :
      (f : Db → Option A) (e : LedgerError) (k : A → Query B)
      → ((a : A) → f db ≡ some a → Ensures P (k a db))
      → Ensures P ((select f e >>= k) db)
  unfolding ◌>>=◌ select
  select-Ensures f e k h =
      elim (f db)
          as (λ o.
            f db ≡ o → Ensures P (elim (or_throw o e db) [ ok a ↦ k a db | err x ↦ err x ])) [
              | none ↦ λ _. tt
              | some a ↦ λ at. h a at
            ]
        refl

module _ {B : Type 0} (P : B → Type 0) (db : Db) where
  pub require-Ensures :
      (b : Bool) (e : LedgerError) (k : Query B)
      → (b ≡ true → Ensures P (k db))
      → Ensures P ((require b e >> k) db)
  unfolding ◌>>=◌ select
  require-Ensures true e k h = h refl
  require-Ensures false e k h = tt

pub select-found :
    {A : Type 0} (f : Db → Option A) (e : LedgerError) (db : Db)
    → Ensures (λ a. f db ≡ some a) (select f e db)
unfolding select
select-found f e db = elim (f db) as (λ o. Ensures (λ a. o ≡ some a) (or_throw o e db)) [
  | none ↦ tt
  | some a ↦ refl
]

pub guard-Ensures :
    (P : Unit {0} → Type 0) (b : Bool) (e : LedgerError) (db : Db)
    → (b ≡ true → P tt)
    → Ensures P (require b e db)
guard-Ensures P true e db h = h refl
guard-Ensures P false e db h = tt
