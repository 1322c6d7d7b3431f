-- ===== src/Adapter/World.antt =====
-- adapters/local-anvil/src: the state that a broadcast reads and changes, and actions on it.
-- An action that throws keeps what it has committed, so its error comes with a world.
use crip_wallet.Base.{ℕ, Bool, true, false, ◌≡◌, refl, List, Option, none, some, if◌then◌else◌}
use crip_wallet.Base.Ensures.{Result, ok, err}
use crip_wallet.Schemas.Money.{Text}
use crip_wallet.Store.{Reservation}

-- `BroadcastAttemptStatus`
pub data AttemptStatus : Type 0 where
  started accepted rejected unknown conflict : AttemptStatus

-- `DurableSignedTransaction`, a row of signed_transactions
pub record SignedTransaction : Type 0 where
  pub signed_transaction_id : Text
  pub operation_id : Text
  pub reservation_id : Text
  pub envelope_id : Text
  pub envelope_revision : ℕ
  pub envelope_hash : Text
  pub authorization_id : Text
  pub fixture_instance_id : Text
  pub expected_transaction_hash : Text

-- `BroadcastAttempt`, a row of broadcast_attempts; the columns copied from the signed
-- transaction are one field.
pub record BroadcastAttempt : Type 0 where
  pub attempt_id : Text
  pub signed : SignedTransaction
  pub status : AttemptStatus
  pub response_transaction_hash : Option Text
  pub classification_reason : Option Text

-- `SignAuthorizedTransferIds`, the request
pub record TransferIds : Type 0 where
  pub operation_id : Text
  pub authorization_id : Text
  pub adapter_request_id : Text

-- A call of `sendRawTransaction`, with the request that it served
pub record Sent : Type 0 where
  pub request : TransferIds
  pub raw_transaction : Text

-- Attempts are in the order of their creation, the calls of the sender in the opposite order.
pub record World : Type 0 where
  pub reservations : List Reservation
  pub signed : List SignedTransaction
  pub attempts : List BroadcastAttempt
  pub sent : List Sent

-- What the modelled code throws
pub data BroadcastError : Type 0 where
  invalid_request invalid_identity invalid_encoding : BroadcastError
  evidence_not_found binding_mismatch hash_mismatch : BroadcastError
  reservation_not_authorized attempt_not_persisted attempt_not_found : BroadcastError
  attempt_refused : BroadcastError

abbrev pub Act : Type 0 → Type 0
Act A = World → Result BroadcastError A × World

abbrev continue :
    {A B : Type 0} → (A → Act B) → Result BroadcastError A → World → Result BroadcastError B × World
continue k (ok a) w = k a w
continue k (err e) w = (err e, w)

infixl 5 ◌>>=◌ ◌>>◌
unfoldable pub ◌>>=◌ : {A B : Type 0} → Act A → (A → Act B) → Act B
◌>>=◌ m k w = let r = m w in continue k r.0 r.1

abbrev pub ◌>>◌ : {A B : Type 0} → Act A → Act B → Act B
m >> k = m >>= λ _. k

abbrev pub pure : {A : Type 0} → A → Act A
pure a w = (ok a, w)

abbrev pub throw : {A : Type 0} → BroadcastError → Act A
throw e w = (err e, w)

abbrev pub gets : {A : Type 0} → (World → A) → Act A
gets f w = (ok (f w), w)

abbrev pub or_throw : {A : Type 0} → Option A → BroadcastError → Act A
or_throw none e = throw e
or_throw (some a) e = pure a

-- `if (!condition) throw`
abbrev pub require : Bool → BroadcastError → Act (Unit {0})
require true e = pure tt
require false e = throw e

unfoldable pub modify : (World → World) → Act (Unit {0})
modify f w = (ok tt, f w)

-- What the result and the world after an action satisfy, whether it throws or not
unfoldable pub Leaves :
    {A : Type 0}
    → (Result BroadcastError A → World → Type 0)
    → Result BroadcastError A × World
    → Type 0
Leaves P r = P r.0 r.1

module _ {B : Type 0} (P : Result BroadcastError B → World → Type 0) (w : World)
    (unchanged : (e : BroadcastError) → P (err e) w) where
  pub require-Leaves :
      (b : Bool) (e : BroadcastError) (k : Act B)
      → (b ≡ true → Leaves P (k w))
      → Leaves P ((require b e >> k) w)
  unfolding ◌>>=◌ Leaves
  require-Leaves true e k h = h refl
  require-Leaves false e k h = unchanged e

  pub or_throw-Leaves :
      {A : Type 0} (o : Option A) (e : BroadcastError) (k : A → Act B)
      → ((a : A) → o ≡ some a → Leaves P (k a w))
      → Leaves P ((or_throw o e >>= k) w)
  unfolding ◌>>=◌ Leaves
  or_throw-Leaves none e k h = unchanged e
  or_throw-Leaves (some a) e k h = h a refl

pub if-Leaves :
    {A : Type 0} (P : Result BroadcastError A → World → Type 0) (w : World) (b : Bool) (x y : Act A)
    → (b ≡ true → Leaves P (x w))
    → (b ≡ false → Leaves P (y w))
    → Leaves P ((if b then x else y) w)
if-Leaves P w true x y f g = f refl
if-Leaves P w false x y f g = g refl

pub or_throw_last-Leaves :
    {A : Type 0} (P : Result BroadcastError A → World → Type 0) (w : World) (o : Option A)
    (e : BroadcastError)
    → P (err e) w
    → ((a : A) → o ≡ some a → P (ok a) w)
    → Leaves P (or_throw o e w)
unfolding Leaves
or_throw_last-Leaves P w none e u h = u
or_throw_last-Leaves P w (some a) e u h = h a refl

pub require_last-Leaves :
    (P : Result BroadcastError (Unit {0}) → World → Type 0) (w : World) (b : Bool)
    (e : BroadcastError)
    → P (err e) w
    → (b ≡ true → P (ok tt) w)
    → Leaves P (require b e w)
unfolding Leaves
require_last-Leaves P w true e u h = h refl
require_last-Leaves P w false e u h = u

module _ {A B : Type 0} (P : Result BroadcastError B → World → Type 0) (w : World) where
  pub gets-Leaves :
      (f : World → A) (k : A → Act B) → Leaves P (k (f w) w) → Leaves P ((gets f >>= k) w)
  unfolding ◌>>=◌ Leaves
  gets-Leaves f k h = h

  -- An action that ends normally or throws, and what follows it
  pub bind-Leaves :
      (Q : Result BroadcastError A → World → Type 0) (m : Act A) (k : A → Act B)
      → Leaves Q (m w)
      → ((a : A) (v : World) → Q (ok a) v → Leaves P (k a v))
      → ((e : BroadcastError) (v : World) → Q (err e) v → P (err e) v)
      → Leaves P ((m >>= k) w)
  unfolding ◌>>=◌ Leaves
  bind-Leaves Q m k h f g = ended (m w) h
    where
      ended :
          (r : Result BroadcastError A × World)
          → Q r.0 r.1
          → P (continue k r.0 r.1).0 (continue k r.0 r.1).1
      ended (ok a, v) q = f a v q
      ended (err e, v) q = g e v q
