-- ===== src/Adapter/Sends.antt =====
-- What a broadcast of adapters/local-anvil/src/broadcast-core.ts sends, and what it leaves.
use crip_wallet.Base.{
  ◌≡◌, refl, sym, ap, subst, ◌∙◌, ◌⊎◌, inl, inr, true, not, List, ◌∷◌, any, some, arith,
  Option-cases,
}
use crip_wallet.Base.Ensures.{Result, ok, err}
use crip_wallet.Schemas.Common.{same_text, same_text_iff}
use crip_wallet.Store.Tables.{find}
use crip_wallet.Store.Funds.{is_reservation}
use crip_wallet.Adapter.World.{
  accepted, SignedTransaction, BroadcastAttempt, Sent, World, BroadcastError, ◌>>=◌, Leaves,
  require-Leaves, if-Leaves, or_throw-Leaves, bind-Leaves, modify, pure,
}
use crip_wallet.Adapter.Attempts.{
  is_signed, is_authorized, is_attempt_of, find_signed_transaction, start_broadcast_attempt,
  Classification, finish_broadcast_attempt, is_attempt_for, is_started,
}
use crip_wallet.Adapter.Rows.{
  find-any, find-all, is_valid, AttemptsValid, Later, Later-refl, Later-trans, Began, StartPost,
  start_broadcast_attempt_lem, FinishPost, finish_broadcast_attempt_lem, transition-is_valid,
}
use crip_wallet.Adapter.Broadcast.{
  BroadcastEnv, BroadcastInput, BroadcastResult, classify, is_accepted, is_bound, assert_safe_input,
  canonical_signed_transaction_hash, log_sent, send_and_finish, continue_attempt, broadcast_checked,
  broadcast_signed_transaction,
}

-- The attempt was accepted, with the expected hash as the response.
abbrev pub IsAccepted : BroadcastAttempt → Type 0
IsAccepted a =
    (a.status ≡ accepted) × (a.response_transaction_hash ≡ some a.signed.expected_transaction_hash)

accepted_hash :
    (a : BroadcastAttempt)
    → a.status ≡ accepted
    → is_valid a ≡ true
    → a.response_transaction_hash ≡ some a.signed.expected_transaction_hash
unfolding is_valid
accepted_hash a e h = elim (Option-cases a.response_transaction_hash) [
  | inl absent ↦ ground arith
  | inr (s, found) ↦ ground (arith, same_text_iff s a.signed.expected_transaction_hash)
]

pub valid-IsAccepted :
    (a : BroadcastAttempt) → is_valid a ≡ true → is_accepted a.status ≡ true → IsAccepted a
unfolding is_valid
valid-IsAccepted a h k =
    let status : a.status ≡ accepted = ground arith in (status, accepted_hash a status h)

abbrev pub entry : BroadcastInput → Sent
entry input = record { request = input.request; raw_transaction = input.raw_transaction }

abbrev Unchanged : World → Result BroadcastError (Unit {0}) → World → Type 0
Unchanged w r v = v ≡ w

assert_safe_input_lem :
    (input : BroadcastInput) (w : World) → Leaves (Unchanged w) (assert_safe_input input w)
unfolding assert_safe_input ◌>>=◌ Leaves
assert_safe_input_lem input w = ground arith

-- The bytes went out once: they are those of the signed transaction that the input names, which
-- is bound to the request, on an AUTHORIZED reservation, and the request has an attempt.
pub record Delivered (env : BroadcastEnv) (input : BroadcastInput) (w v : World) : Type 0 where
  pub signed : SignedTransaction
  pub found : find (is_signed input.signed_transaction_id) w.signed ≡ some signed
  pub operation : signed.operation_id ≡ input.request.operation_id
  pub authorization : signed.authorization_id ≡ input.request.authorization_id
  pub expected :
      canonical_signed_transaction_hash env.library input.raw_transaction
      ≡ some signed.expected_transaction_hash
  pub backed : is_authorized (find (is_reservation signed.reservation_id) w.reservations) ≡ true
  pub sent_once : v.sent ≡ entry input ∷ w.sent
  pub attempted : any (is_attempt_for input.request) v.attempts ≡ true

-- A result is a success where its attempt is accepted, and its attempt is valid.
abbrev pub Succeeds : World → Result BroadcastError BroadcastResult → Type 0
Succeeds w (ok b) =
    (b.is_ok ≡ is_accepted b.attempt.status) × (AttemptsValid w → is_valid b.attempt ≡ true)
Succeeds w (err e) = Unit

-- What a broadcast leaves
pub record Broadcasted (env : BroadcastEnv) (input : BroadcastInput) (w : World)
    (r : Result BroadcastError BroadcastResult) (v : World) : Type 0 where
  pub later : Later w v
  pub sends : (v.sent ≡ w.sent) ⊎ Delivered env input w v
  pub succeeds : Succeeds w r

module _ (env : BroadcastEnv) (input : BroadcastInput) (w : World) where
  quiet : (e : BroadcastError) → Broadcasted env input w (err e) w
  quiet e = record { later = Later-refl w; sends = inl refl; succeeds = tt }

  module _ (signed : SignedTransaction)
      (found : find (is_signed input.signed_transaction_id) w.signed ≡ some signed)
      (operation : signed.operation_id ≡ input.request.operation_id)
      (authorization : signed.authorization_id ≡ input.request.authorization_id)
      (expected : canonical_signed_transaction_hash env.library input.raw_transaction
        ≡ some signed.expected_transaction_hash) where
    bound-is_attempt_for :
        (a : BroadcastAttempt) → is_bound a signed ≡ true → is_attempt_for input.request a ≡ true
    unfolding is_bound
    bound-is_attempt_for a h =
        let same_operation : same_text a.signed.operation_id signed.operation_id ≡ true =
          ground arith in
        let same_authorization : same_text a.signed.authorization_id signed.authorization_id
            ≡ true =
          ground arith in
        ground (
          arith,
          ap (same_text a.signed.operation_id) operation,
          ap (same_text a.signed.authorization_id) authorization,
        )

    delivered :
        (a : BroadcastAttempt) (u v : World)
        → Began signed input.attempt_id w a u
        → is_bound a signed ≡ true
        → Later u v
        → v.sent ≡ entry input ∷ u.sent
        → Delivered env input w v
    delivered a u v began bound later sent = record {
      signed = signed;
      found = found;
      operation = operation;
      authorization = authorization;
      expected = expected;
      backed = began.backed;
      sent_once = sent ∙ ap (λ (s : List Sent). entry input ∷ s) began.unsent;
      attempted = later.kept input.request (
          find-any (is_attempt_for input.request)
            (is_attempt_of input.attempt_id signed.signed_transaction_id) u.attempts began.found
            (bound-is_attempt_for a bound));
    }

    finish_lem :
        (a : BroadcastAttempt) (u : World) (c : Classification)
        → Began signed input.attempt_id w a u
        → is_bound a signed ≡ true
        → Leaves (Broadcasted env input w) (
            (do
              completed ← finish_broadcast_attempt a.attempt_id c
              pure (record { is_ok = is_accepted c.status; attempt = completed }))
              (log_sent env input u))
    unfolding ◌>>=◌ Leaves
    finish_lem a u c began bound =
        bind-Leaves (Broadcasted env input w) (log_sent env input u)
          (FinishPost a.attempt_id c (log_sent env input u))
          (finish_broadcast_attempt a.attempt_id c) _
          (finish_broadcast_attempt_lem a.attempt_id c (log_sent env input u))
          (λ b v (x, found, allowed, same, later, sent).
            let after : Later u v = record { kept = later.kept; stays_valid = later.stays_valid } in
            record {
              later = Later-trans w u v began.later after;
              sends = inr (delivered a u v began bound after sent);
              succeeds = (
                ap (λ (y : BroadcastAttempt). is_accepted y.status) (sym same),
                λ _. ap is_valid same ∙ transition-is_valid x c allowed,
              );
            })
          (λ e v same. subst (Broadcasted env input w (err e)) (sym same) (record {
            later = record { kept = began.later.kept; stays_valid = began.later.stays_valid };
            sends = inr (
                delivered a u (log_sent env input u) began bound
                  (record { kept = λ _ h. h; stays_valid = λ h. h }) refl);
            succeeds = tt;
          }))

    send_and_finish_lem :
        (a : BroadcastAttempt) (u : World)
        → Began signed input.attempt_id w a u
        → is_bound a signed ≡ true
        → Leaves (Broadcasted env input w) (send_and_finish env signed input a u)
    unfolding send_and_finish ◌>>=◌ modify Leaves
    send_and_finish_lem a u began bound =
        finish_lem a u
          (classify signed.expected_transaction_hash (env.send u input.raw_transaction)) began bound

    reported :
        (a : BroadcastAttempt) (u : World)
        → Began signed input.attempt_id w a u
        → Broadcasted env input w (ok (record { is_ok = is_accepted a.status; attempt = a })) u
    reported a u began = record {
      later = began.later;
      sends = inl began.unsent;
      succeeds = (
        refl,
        λ valid.
            find-all is_valid (is_attempt_of input.attempt_id signed.signed_transaction_id)
              u.attempts began.found (began.later.stays_valid valid),
      );
    }

    -- A finished attempt is reported as it is, a started one is sent.
    continue_attempt_lem :
        (a : BroadcastAttempt) (u : World)
        → Began signed input.attempt_id w a u
        → is_bound a signed ≡ true
        → Leaves (Broadcasted env input w) (continue_attempt env signed input a u)
    unfolding continue_attempt Leaves
    continue_attempt_lem a u began bound =
        if-Leaves (Broadcasted env input w) u (not (is_started a.status))
          (pure (record { is_ok = is_accepted a.status; attempt = a }))
          (send_and_finish env signed input a) (λ _. reported a u began)
          (λ _. send_and_finish_lem a u began bound)

  started_post :
      (signed : SignedTransaction) (e : BroadcastError) (v : World)
      → StartPost signed input.attempt_id w (err e) v
      → Broadcasted env input w (err e) v
  started_post signed e v (later, unsent) = record {
    later = later;
    sends = inl unsent;
    succeeds = tt;
  }

  broadcast_checked_lem : Leaves (Broadcasted env input w) (broadcast_checked env input w)
  unfolding broadcast_checked find_signed_transaction ◌>>=◌
  broadcast_checked_lem = or_throw-Leaves P w quiet _ _ _ (λ signed found.
      require-Leaves P w quiet _ _ _ (λ operation. require-Leaves P w quiet _ _ _ (λ authorization.
        or_throw-Leaves P w quiet _ _ _ (λ hash derived. require-Leaves P w quiet _ _ _ (λ expected.
          bind-Leaves P w (StartPost signed input.attempt_id w)
            (start_broadcast_attempt signed input.attempt_id) _
            (start_broadcast_attempt_lem signed input.attempt_id w)
            (λ a u began.
              require-Leaves P u (λ e. started_post signed e u (began.later, began.unsent)) _ _ _
                (λ bound.
                  continue_attempt_lem signed found ((same_text_iff _ _).0 operation)
                    ((same_text_iff _ _).0 authorization)
                    (derived ∙ ap some ((same_text_iff _ _).0 expected)) a u began bound))
            (started_post signed))))))
    where
      P : Result BroadcastError BroadcastResult → World → Type 0
      P = Broadcasted env input w

  -- A broadcast sends at most once, and only the bytes of the durable signed transaction that the
  -- input names, with its expected hash, bound to the operation and the authorization of the
  -- request, on an AUTHORIZED reservation; the request then has a persisted attempt. A request
  -- that has an attempt keeps one, valid attempts stay valid, and the result is a success where
  -- its attempt is accepted.
  pub broadcast_signed_transaction_lem :
      Leaves (Broadcasted env input w) (broadcast_signed_transaction env input w)
  unfolding broadcast_signed_transaction ◌>>=◌
  broadcast_signed_transaction_lem =
      bind-Leaves (Broadcasted env input w) w (Unchanged w) (assert_safe_input input)
        (λ _. broadcast_checked env input) (assert_safe_input_lem input w)
        (λ _ v same.
          subst (λ (u : World). Leaves (Broadcasted env input w) (broadcast_checked env input u))
            (sym same) broadcast_checked_lem)
        (λ e v same. subst (Broadcasted env input w (err e)) (sym same) (quiet e))
