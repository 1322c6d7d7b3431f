-- ===== src/Adapter/Attempts.antt =====
-- adapters/local-anvil/src/broadcast-store.ts: the rows of broadcast attempts, with the trigger
-- enforce_broadcast_attempt_transition of migrations/0023_p205_broadcast_safety.sql.
use crip_wallet.Base.{Bool, true, false, not, ◌&&◌, ◌||◌, [], ◌∷◌, ◌++◌, Option, none, some}
use crip_wallet.Schemas.Money.{Text}
use crip_wallet.Schemas.Common.{same_text}
use crip_wallet.Store.{Reservation, ReservationStatus}
use crip_wallet.Store.Tables.{find, update}
use crip_wallet.Store.Funds.{is_reservation}
use crip_wallet.Adapter.World.{
  AttemptStatus, started, accepted, conflict, SignedTransaction, BroadcastAttempt, TransferIds,
  World, reservation_not_authorized, attempt_not_persisted, attempt_not_found, attempt_refused, Act,
  ◌>>=◌, ◌>>◌, pure, gets, or_throw, require, modify,
}

abbrev pub is_signed : Text → SignedTransaction → Bool
is_signed id s = same_text s.signed_transaction_id id

-- `findSignedTransaction`
unfoldable pub find_signed_transaction : Text → Act (Option SignedTransaction)
find_signed_transaction id = gets (λ w. find (is_signed id) w.signed)

abbrev pub is_authorized : Option Reservation → Bool
is_authorized none = false
is_authorized (some r) = elim (r.status) [ ReservationStatus.authorized ↦ true | _ ↦ false ]

-- `attempt_id = $1 OR signed_transaction_id = $2`
abbrev pub is_attempt_of : Text → Text → BroadcastAttempt → Bool
is_attempt_of attempt_id signed_id a =
    same_text a.attempt_id attempt_id || same_text a.signed.signed_transaction_id signed_id

abbrev pub new_attempt : Text → SignedTransaction → BroadcastAttempt
new_attempt attempt_id signed = record {
  attempt_id = attempt_id;
  signed = signed;
  status = started;
  response_transaction_hash = none;
  classification_reason = none;
}

abbrev pub append_attempt : Text → Option SignedTransaction → World → World
append_attempt attempt_id none w = w
append_attempt attempt_id (some s) w = record w {
  attempts = w.attempts ++ (new_attempt attempt_id s ∷ []);
}

-- INSERT ... SELECT ... FROM signed_transactions, where no attempt has either key
unfoldable pub insert_attempt : Text → Text → World → World
insert_attempt attempt_id signed_id w =
    append_attempt attempt_id (find (is_signed signed_id) w.signed) w

unfoldable pub existing_or_inserted : Text → Text → Option BroadcastAttempt → Act BroadcastAttempt
existing_or_inserted attempt_id signed_id (some a) = pure a
existing_or_inserted attempt_id signed_id none = do
  modify (insert_attempt attempt_id signed_id)
  inserted ← gets (λ w. find (is_attempt_of attempt_id signed_id) w.attempts)
  or_throw inserted attempt_not_persisted

-- `startBroadcastAttempt`
unfoldable pub start_broadcast_attempt : SignedTransaction → Text → Act BroadcastAttempt
unfolding existing_or_inserted
start_broadcast_attempt signed attempt_id = do
  reservation ← gets (λ w. find (is_reservation signed.reservation_id) w.reservations)
  require (is_authorized reservation) reservation_not_authorized
  existing ← gets (λ w. find (is_attempt_of attempt_id signed.signed_transaction_id) w.attempts)
  existing_or_inserted attempt_id signed.signed_transaction_id existing

-- What an attempt ends with
pub record Classification : Type 0 where
  pub status : AttemptStatus
  pub response_transaction_hash : Option Text
  pub classification_reason : Text

abbrev pub is_attempt : Text → BroadcastAttempt → Bool
is_attempt id a = same_text a.attempt_id id

abbrev pub is_started : AttemptStatus → Bool
is_started started = true
is_started _ = false

abbrev pub same_hash : Option Text → Text → Bool
same_hash none t = false
same_hash (some s) t = same_text s t

abbrev pub other_hash : Option Text → Text → Bool
other_hash none t = false
other_hash (some s) t = not (same_text s t)

abbrev pub status_allows : Classification → Text → Bool
status_allows c expected = elim (c.status) [
  | started ↦ false
  | accepted ↦ same_hash c.response_transaction_hash expected
  | conflict ↦ other_hash c.response_transaction_hash expected
  | _ ↦ true
]

-- The trigger on an UPDATE
unfoldable pub is_transition : BroadcastAttempt → Classification → Bool
is_transition a c = is_started a.status && status_allows c a.signed.expected_transaction_hash

abbrev pub finished : Classification → BroadcastAttempt → BroadcastAttempt
finished c a = record a {
  status = c.status;
  response_transaction_hash = c.response_transaction_hash;
  classification_reason = some c.classification_reason;
}

-- `finishBroadcastAttempt`
unfoldable pub finish_broadcast_attempt : Text → Classification → Act BroadcastAttempt
finish_broadcast_attempt attempt_id c = do
  row ← gets (λ w. find (is_attempt attempt_id) w.attempts)
  a ← or_throw row attempt_not_found
  require (is_transition a c) attempt_refused
  modify (λ w. record w { attempts = update (is_attempt attempt_id) (finished c) w.attempts })
  pure (finished c a)

-- `findBroadcastAttempt` of execution-store.ts
abbrev pub is_attempt_for : TransferIds → BroadcastAttempt → Bool
is_attempt_for ids a =
    same_text a.signed.operation_id ids.operation_id
    && same_text a.signed.authorization_id ids.authorization_id

unfoldable pub find_broadcast_attempt : TransferIds → Act (Option BroadcastAttempt)
find_broadcast_attempt ids = gets (λ w. find (is_attempt_for ids) w.attempts)
