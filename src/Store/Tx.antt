-- ===== src/Store/Tx.antt =====
-- The body of a transaction: it reads and changes the database, or fails with an error.
-- packages/budget-ledger/src/errors.ts lists the error codes.
use crip_wallet.Base.{◌≡◌, refl, Bool, true, false, Option, none, some, if◌then◌else◌}
use crip_wallet.Base.Ensures.{Result, ok, err, Ensures, Ensures-ok}
use crip_wallet.Store.{Db}

-- `LedgerErrorCode`, the codes of `ControlFenceError`, and the failures that no code stands for: a TypeError, a violated
-- constraint of the database, an audit event that its schema refuses, and a plain Error.
pub data LedgerError : Type 0 where
  insufficient_budget idempotency_conflict reservation_not_found : LedgerError
  invalid_reservation_transition reservation_not_expired : LedgerError
  invalid_proof_reference invalid_broadcast_evidence : LedgerError
  budget_binding_mismatch audit_correlation_mismatch : LedgerError
  control_fence_inactive invalid_atomic_amount component_not_trusted : LedgerError
  component_authentication_failed recovery_lease_held : LedgerError
  recovery_lease_stale recovery_conflict : LedgerError
  invalid_command control_target_not_found authorization_revalidation_required : LedgerError
  invalid_timestamp check_violation unique_violation audit_refused no_result : LedgerError

abbrev pub Tx : Type 0 → Type 0
Tx A = Db → Result LedgerError (A × Db)

infixl 5 ◌>>=◌ ◌>>◌
unfoldable pub ◌>>=◌ : {A B : Type 0} → Tx A → (A → Tx B) → Tx B
◌>>=◌ m k db = elim (m db) [ ok (a, db') ↦ k a db' | err e ↦ err e ]

abbrev pub ◌>>◌ : {A B : Type 0} → Tx A → Tx B → Tx B
m >> k = m >>= λ _. k

abbrev pub pure : {A : Type 0} → A → Tx A
pure a db = ok (a, db)

abbrev pub throw : {A : Type 0} → LedgerError → Tx A
throw e db = err e

-- A query.
abbrev pub gets : {A : Type 0} → (Db → A) → Tx A
gets f db = ok (f db, db)

-- A statement that always succeeds.
unfoldable pub modify : (Db → Db) → Tx (Unit {0})
modify f db = ok (tt, f db)

abbrev pub or_throw : {A : Type 0} → Option A → LedgerError → Tx A
or_throw none e = throw e
or_throw (some a) e = pure a

-- `if (!condition) throw`
abbrev pub require : Bool → LedgerError → Tx (Unit {0})
require true e = pure tt
require false e = throw e

-- What the database and the result satisfy if the transaction succeeds.
unfoldable pub Holds : {A : Type 0} → (A → Db → Type 0) → Result LedgerError (A × Db) → Type 0
Holds P = Ensures (λ r. P r.0 r.1)

module _ {A B : Type 0} (P : B → Db → Type 0) (db : Db) where
  pub gets-Holds : (f : Db → A) (k : A → Tx B) → Holds P (k (f db) db) → Holds P ((gets f >>= k) db)
  unfolding ◌>>=◌ Holds
  gets-Holds f k h = h

  pub or_throw-Holds :
      (o : Option A) (e : LedgerError) (k : A → Tx B)
      → ((a : A) → o ≡ some a → Holds P (k a db))
      → Holds P ((or_throw o e >>= k) db)
  unfolding ◌>>=◌ Holds
  or_throw-Holds none e k h = tt
  or_throw-Holds (some a) e k h = h a refl

module _ {B : Type 0} (P : B → Db → Type 0) (db : Db) where
  pub require-Holds :
      (b : Bool) (e : LedgerError) (k : Tx B)
      → (b ≡ true → Holds P (k db))
      → Holds P ((require b e >> k) db)
  unfolding ◌>>=◌ Holds
  require-Holds true e k h = h refl
  require-Holds false e k h = tt

  pub if-Holds :
      (b : Bool) (x y : Tx B)
      → (b ≡ true → Holds P (x db))
      → (b ≡ false → Holds P (y db))
      → Holds P ((if b then x else y) db)
  unfolding ◌>>=◌ Holds
  if-Holds true x y f g = f refl
  if-Holds false x y f g = g refl

  pub bind-Holds :
      {A : Type 0} (Q : A → Db → Type 0) (m : Tx A) (k : A → Tx B)
      → Holds Q (m db)
      → ((a : A) (w : Db) → Q a w → Holds P (k a w))
      → Holds P ((m >>= k) db)
  unfolding ◌>>=◌ Holds
  bind-Holds Q m k h f =
      elim (m db) as (λ x. Holds Q x → Holds P (elim x [ ok (a, w) ↦ k a w | err e ↦ err e ])) [
        | ok (a, w) ↦ λ q. f a w q
        | err e ↦ λ _. tt
      ]
        h

  -- A property that holds anyway.
  pub weaken-Holds :
      (Q : B → Db → Type 0) (m : Tx B)
      → Holds Q (m db)
      → ((b : B) (w : Db) → Q b w → P b w)
      → Holds P (m db)
  unfolding ◌>>=◌ Holds
  weaken-Holds Q m h f =
      elim (m db) as (λ x. Holds Q x → Holds P x) [ ok (b, w) ↦ λ q. f b w q | err e ↦ λ _. tt ] h

  pub pure-Holds : (b : B) → P b db → Holds P (pure b db)
  unfolding Holds
  pure-Holds b h = h

  pub modify-Holds : (f : Db → Db) (k : Tx B) → Holds P (k (f db)) → Holds P ((modify f >> k) db)
  unfolding ◌>>=◌ modify Holds
  modify-Holds f k h = h

  pub throw-Holds : (e : LedgerError) → Holds P (throw e db)
  unfolding Holds
  throw-Holds e = tt

abbrev pub IsRefused : {A : Type 0} → Result LedgerError A → Type 0
IsRefused r = (e : LedgerError) × (r ≡ err e)

-- A transaction that cannot succeed is refused.
pub refuse :
    {A : Type 0} (r : Result LedgerError (A × Db))
    → ((a : A) (w : Db) → r ≡ ok (a, w) → ⊥)
    → IsRefused r
refuse (err e) h = (e, refl)
refuse (ok (a, w)) h = elim (h a w refl) [ ]

-- What a successful transaction satisfies
pub holds_at :
    {A : Type 0} (P : A → Db → Type 0) (m : Tx A) (db : Db) {a : A} {w : Db}
    → Holds P (m db)
    → m db ≡ ok (a, w)
    → P a w
unfolding Holds
holds_at P m db h e = Ensures-ok (λ x. P x.0 x.1) (m db) h e
