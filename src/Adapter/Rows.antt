-- ===== src/Adapter/Rows.antt =====
-- What the statements of adapters/local-anvil/src/broadcast-store.ts leave.
use crip_wallet.Base.{
  ◌≡◌, refl, ◌∙◌, Bool, true, false, ◌||◌, List, [], ◌∷◌, ◌++◌, all, any, Option, none, some, arith,
}
use crip_wallet.Base.Ensures.{Result, ok, err}
use crip_wallet.Schemas.Money.{Text}
use crip_wallet.Store.Tables.{find, update}
use crip_wallet.Store.Funds.{is_reservation}
use crip_wallet.Adapter.World.{
  started, accepted, conflict, SignedTransaction, BroadcastAttempt, TransferIds, World,
  BroadcastError, ◌>>=◌, Leaves, require-Leaves, or_throw-Leaves, or_throw_last-Leaves, modify,
  attempt_not_persisted,
}
use crip_wallet.Adapter.Attempts.{
  is_signed, is_authorized, is_attempt_of, append_attempt, insert_attempt, existing_or_inserted,
  start_broadcast_attempt, Classification, is_attempt, same_hash, other_hash, is_transition,
  finished, finish_broadcast_attempt, is_attempt_for,
}

module _ {A : Type 0} (p : A → Bool) where
  pub any-append : (xs ys : List A) → any p (xs ++ ys) ≡ (any p xs || any p ys)
  any-append [] ys = refl
  any-append (x ∷ xs) ys = ground (arith, any-append xs ys)

  pub all-append : (xs ys : List A) → all p xs ≡ true → all p ys ≡ true → all p (xs ++ ys) ≡ true
  all-append [] ys h k = k
  all-append (x ∷ xs) ys h k = ground (arith, all-append xs ys)

  pub find-none : (xs : List A) → find p xs ≡ none → any p xs ≡ false
  unfolding find
  find-none [] e = refl
  find-none (x ∷ xs) e = ground (arith, find-none xs)

module _ {A : Type 0} (p q : A → Bool) where
  pub find-any : (xs : List A) {a : A} → find q xs ≡ some a → p a ≡ true → any p xs ≡ true
  unfolding find
  find-any [] e h = cc
  find-any (x ∷ xs) {a} e h = ground (arith, find-any xs {a = a})

  pub find-all : (xs : List A) {a : A} → find q xs ≡ some a → all p xs ≡ true → p a ≡ true
  unfolding find
  find-all [] e h = cc
  find-all (x ∷ xs) {a} e h = ground (arith, find-all xs {a = a})

  pub any-update :
      (f : A → A) (xs : List A) → ((x : A) → p (f x) ≡ p x) → any p (update q f xs) ≡ any p xs
  unfolding update
  any-update f [] h = refl
  any-update f (x ∷ xs) h = ground (arith, any-update f xs h, h x)

  pub all-update :
      (f : A → A) (xs : List A) {a : A}
      → find q xs ≡ some a
      → p (f a) ≡ true
      → all p xs ≡ true
      → all p (update q f xs) ≡ true
  unfolding find update
  all-update f [] e h k = cc
  all-update f (x ∷ xs) {a} e h k = ground (arith, all-update f xs {a = a})

-- An accepted attempt has the expected hash as its response, a conflicting one another hash, and
-- a started one none.
unfoldable pub is_valid : BroadcastAttempt → Bool
is_valid a = elim (a.status) [
  | started ↦ elim (a.response_transaction_hash) [ none ↦ true | some h ↦ false ]
  | accepted ↦ same_hash a.response_transaction_hash a.signed.expected_transaction_hash
  | conflict ↦ other_hash a.response_transaction_hash a.signed.expected_transaction_hash
  | _ ↦ true
]

abbrev pub AttemptsValid : World → Type 0
AttemptsValid w = all is_valid w.attempts ≡ true

-- A later world has the attempts of every request that an earlier one has, and stays valid.
pub record Later (w v : World) : Type 0 where
  pub kept :
      (ids : TransferIds)
      → any (is_attempt_for ids) w.attempts ≡ true
      → any (is_attempt_for ids) v.attempts ≡ true
  pub stays_valid : AttemptsValid w → AttemptsValid v

pub Later-refl : (w : World) → Later w w
Later-refl w = record { kept = λ ids h. h; stays_valid = λ h. h }

pub Later-trans : (u v w : World) → Later u v → Later v w → Later u w
Later-trans u v w h k = record {
  kept = λ ids e. k.kept ids (h.kept ids e);
  stays_valid = λ e. k.stays_valid (h.stays_valid e);
}

append_attempt-Later :
    (id : Text) (o : Option SignedTransaction) (w : World)
    → Later w (append_attempt id o w) × ((append_attempt id o w).sent ≡ w.sent)
unfolding is_valid
append_attempt-Later id none w = (Later-refl w, refl)
append_attempt-Later id (some s) w = (
  record {
    kept = λ ids h. any-append (is_attempt_for ids) w.attempts _ ∙ ground arith;
    stays_valid = λ h. all-append is_valid w.attempts _ h refl;
  },
  refl,
)

-- What a start leaves: the attempt of the signed transaction, found by either key, where the
-- reservation was AUTHORIZED before.
pub record Began (signed : SignedTransaction) (attempt_id : Text) (w : World) (a : BroadcastAttempt)
    (v : World) : Type 0 where
  pub backed : is_authorized (find (is_reservation signed.reservation_id) w.reservations) ≡ true
  pub found : find (is_attempt_of attempt_id signed.signed_transaction_id) v.attempts ≡ some a
  pub later : Later w v
  pub unsent : v.sent ≡ w.sent

abbrev pub StartPost :
    SignedTransaction → Text → World → Result BroadcastError BroadcastAttempt → World → Type 0
StartPost signed attempt_id w (ok a) v = Began signed attempt_id w a v
StartPost signed attempt_id w (err e) v = Later w v × (v.sent ≡ w.sent)

module _ (signed : SignedTransaction) (attempt_id : Text) (w : World) where
  existing_or_inserted_lem :
      (o : Option BroadcastAttempt)
      → find (is_attempt_of attempt_id signed.signed_transaction_id) w.attempts ≡ o
      → is_authorized (find (is_reservation signed.reservation_id) w.reservations) ≡ true
      → Leaves
          (StartPost signed attempt_id w)
          (existing_or_inserted attempt_id signed.signed_transaction_id o w)
  unfolding existing_or_inserted ◌>>=◌ modify Leaves insert_attempt
  existing_or_inserted_lem (some a) e b = record {
    backed = b;
    found = e;
    later = Later-refl w;
    unsent = refl;
  }
  existing_or_inserted_lem none e b =
      let v = insert_attempt attempt_id signed.signed_transaction_id w in
      let (later, unsent) =
        append_attempt-Later attempt_id (find (is_signed signed.signed_transaction_id) w.signed)
          w in
      or_throw_last-Leaves (StartPost signed attempt_id w) v
        (find (is_attempt_of attempt_id signed.signed_transaction_id) v.attempts)
        attempt_not_persisted (later, unsent)
        (λ a f. record { backed = b; found = f; later = later; unsent = unsent })

  -- A start gives the attempt of the transaction where its reservation is AUTHORIZED.
  pub start_broadcast_attempt_lem :
      Leaves (StartPost signed attempt_id w) (start_broadcast_attempt signed attempt_id w)
  unfolding start_broadcast_attempt ◌>>=◌ Leaves
  start_broadcast_attempt_lem =
      require-Leaves (StartPost signed attempt_id w) w (λ e. (Later-refl w, refl)) _ _ _
        (existing_or_inserted_lem _ refl)

abbrev pub FinishPost :
    Text → Classification → World → Result BroadcastError BroadcastAttempt → World → Type 0
FinishPost attempt_id c w (ok b) v =
    (a : BroadcastAttempt) × (find (is_attempt attempt_id) w.attempts ≡ some a)
    × (is_transition a c ≡ true)
    × (b ≡ finished c a)
    × Later w v
    × (v.sent ≡ w.sent)
FinishPost attempt_id c w (err e) v = v ≡ w

pub transition-is_valid :
    (a : BroadcastAttempt) (c : Classification)
    → is_transition a c ≡ true
    → is_valid (finished c a) ≡ true
unfolding is_transition is_valid
transition-is_valid a c h = ground arith

-- A finished attempt was STARTED; no attempt goes.
pub finish_broadcast_attempt_lem :
    (attempt_id : Text) (c : Classification) (w : World)
    → Leaves (FinishPost attempt_id c w) (finish_broadcast_attempt attempt_id c w)
unfolding finish_broadcast_attempt ◌>>=◌ modify Leaves
finish_broadcast_attempt_lem attempt_id c w =
    or_throw-Leaves (FinishPost attempt_id c w) w (λ e. refl) _ _ _
      (λ a found.
        require-Leaves (FinishPost attempt_id c w) w (λ e. refl) _ _ _
          (λ allowed.
            let later : Later w
                (record w { attempts = update (is_attempt attempt_id) (finished c) w.attempts }) =
              record {
                kept = λ ids h.
                    any-update (is_attempt_for ids) (is_attempt attempt_id) (finished c) w.attempts
                      (λ x. refl)
                    ∙ h;
                stays_valid =
                    all-update is_valid (is_attempt attempt_id) (finished c) w.attempts found
                      (transition-is_valid a c allowed);
              } in
            let post : FinishPost attempt_id c w (ok (finished c a))
                (record w { attempts = update (is_attempt attempt_id) (finished c) w.attempts }) =
              (a, found, allowed, refl, later, refl) in
            post))
