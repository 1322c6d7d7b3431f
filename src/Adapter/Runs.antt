-- ===== src/Adapter/Runs.antt =====
-- Sequences of executions of adapters/local-anvil/src/execution-core.ts. The lock of an operation
-- makes the executions of one operation follow one another.
use crip_wallet.Base.{
  ℕ, suc, ◌≤◌, ◌≡◌, sym, ap, ◌∙◌, ◌⊎◌, inl, inr, Bool, true, false, ◌&&◌, List, [], ◌∷◌, any, arith,
  Bool-cases,
}
use crip_wallet.Schemas.Common.{same_text, same_text_iff}
use crip_wallet.Store.Tables.{count}
use crip_wallet.Adapter.World.{TransferIds, Sent, World, BroadcastAttempt, Leaves}
use crip_wallet.Adapter.Attempts.{is_attempt_for}
use crip_wallet.Adapter.Rows.{AttemptsValid}
use crip_wallet.Adapter.Execution.{ExecutionEnv, execute_authorized_transfer_core}
use crip_wallet.Adapter.Once.{
  LeavesAttempts, SentFirst, Executed, execute_authorized_transfer_core_lem,
}

abbrev pub is_sent_for : TransferIds → Sent → Bool
is_sent_for ids s =
    same_text s.request.operation_id ids.operation_id
    && same_text s.request.authorization_id ids.authorization_id

-- How often the sender was called for an operation and an authorization
abbrev pub sends_for : TransferIds → World → ℕ
sends_for ids w = count (is_sent_for ids) w.sent

-- Executions one after another
unfoldable pub run : ExecutionEnv → List TransferIds → World → World
run env [] w = w
run env (ids ∷ rest) w = run env rest (execute_authorized_transfer_core env ids w).1

-- Nothing was sent for the request, or once and it has an attempt.
Fenced : TransferIds → World → Type 0
Fenced ids w =
    (sends_for ids w ≡ 0) ⊎ ((sends_for ids w ≤ 1) × (any (is_attempt_for ids) w.attempts ≡ true))

module _ (ids : TransferIds) (w v : World) where
  unsent-Fenced :
      v.sent ≡ w.sent
      → (any (is_attempt_for ids) w.attempts ≡ true → any (is_attempt_for ids) v.attempts ≡ true)
      → Fenced ids w
      → Fenced ids v
  unfolding Fenced
  unsent-Fenced e kept (inl none_sent) = inl (ap (count (is_sent_for ids)) e ∙ none_sent)
  unsent-Fenced e kept (inr (once, attempted)) = inr (rw e once, kept attempted)

any-same :
    (a b : TransferIds) (xs : List BroadcastAttempt)
    → a.operation_id ≡ b.operation_id
    → a.authorization_id ≡ b.authorization_id
    → any (is_attempt_for a) xs ≡ any (is_attempt_for b) xs
any-same a b xs e f =
    ap
      (λ o.
        any
          (λ (x : BroadcastAttempt).
            same_text x.signed.operation_id o
            && same_text x.signed.authorization_id a.authorization_id)
          xs)
      e
    ∙ ap
        (λ t.
          any
            (λ (x : BroadcastAttempt).
              same_text x.signed.operation_id b.operation_id
              && same_text x.signed.authorization_id t)
            xs)
        f

-- One more call of the sender
count-own :
    (p : Sent → Bool) (s : Sent) (xs : List Sent) → p s ≡ true → count p (s ∷ xs) ≡ suc (count p xs)
unfolding count
count-own p s xs h = ground arith

count-other :
    (p : Sent → Bool) (s : Sent) (xs : List Sent) → p s ≡ false → count p (s ∷ xs) ≡ count p xs
unfolding count
count-other p s xs h = ground arith

module _ (ids other : TransferIds) (w v : World) (first : SentFirst other w v) where
  entry : Sent
  entry = record { request = other; raw_transaction = first.raw_transaction }

  own-Fenced : is_sent_for ids entry ≡ true → Fenced ids w → Fenced ids v
  unfolding Fenced entry
  own-Fenced own h =
      let operation = (same_text_iff other.operation_id ids.operation_id).0 (ground arith) in
      let authorization =
        (same_text_iff other.authorization_id ids.authorization_id).0 (ground arith) in
      let before = any-same other ids w.attempts operation authorization in
      let after = any-same other ids v.attempts operation authorization in
      let sends =
        ap (count (is_sent_for ids)) first.sent_once
        ∙ count-own (is_sent_for ids) entry w.sent own in
      inr (
        elim h [
          | inl none_sent ↦ omega (arith, sends, none_sent)
          | inr (once, attempted) ↦ absurd (cc (before, attempted, first.unattempted))
        ],
        sym after ∙ first.attempted,
      )

  other-Fenced :
      is_sent_for ids entry ≡ false
      → (any (is_attempt_for ids) w.attempts ≡ true → any (is_attempt_for ids) v.attempts ≡ true)
      → Fenced ids w
      → Fenced ids v
  unfolding Fenced entry
  other-Fenced apart kept h =
      let sends =
        ap (count (is_sent_for ids)) first.sent_once
        ∙ count-other (is_sent_for ids) entry w.sent apart in
      elim h [
        | inl none_sent ↦ inl (sends ∙ none_sent)
        | inr (once, attempted) ↦ inr (rw sends once, kept attempted)
      ]

  first-Fenced :
      (any (is_attempt_for ids) w.attempts ≡ true → any (is_attempt_for ids) v.attempts ≡ true)
      → Fenced ids w
      → Fenced ids v
  first-Fenced kept h = elim (Bool-cases (is_sent_for ids entry)) [
    | inl own ↦ own-Fenced own h
    | inr apart ↦ other-Fenced apart kept h
  ]

module _ (env : ExecutionEnv) (law : LeavesAttempts env) where
  step :
      (other : TransferIds) (w : World)
      → let r = execute_authorized_transfer_core env other w in Executed env other w r.0 r.1
  unfolding Leaves
  step other w = execute_authorized_transfer_core_lem env other w law

  step-Fenced :
      (ids other : TransferIds) (w : World)
      → Fenced ids w
      → Fenced ids (execute_authorized_transfer_core env other w).1
  step-Fenced ids other w h =
      let done = step other w in
      let v = (execute_authorized_transfer_core env other w).1 in
      elim done.sends [
        | inl quietly ↦ unsent-Fenced ids w v quietly (done.later.kept ids) h
        | inr first ↦ first-Fenced ids other w v first (done.later.kept ids) h
      ]

  run-Fenced :
      (ids : TransferIds) (calls : List TransferIds) (w : World)
      → Fenced ids w
      → Fenced ids (run env calls w)
  unfolding run
  run-Fenced ids [] w h = h
  run-Fenced ids (other ∷ rest) w h = run-Fenced ids rest _ (step-Fenced ids other w h)

  -- With a signer that neither sends nor writes attempts: over any executions, of this request and
  -- others, from a world that has sent nothing for an operation and authorization, the sender is
  -- called at most once for them, whatever its calls end with.
  pub sends_for-run :
      (ids : TransferIds) (calls : List TransferIds) (w : World)
      → sends_for ids w ≡ 0
      → sends_for ids (run env calls w) ≤ 1
  unfolding Fenced
  sends_for-run ids calls w h = elim (run-Fenced ids calls w (inl h)) [
    | inl none_sent ↦ omega (arith, none_sent)
    | inr (once, attempted) ↦ once
  ]

  -- With such a signer any executions keep the attempts valid: an accepted one has the expected
  -- hash as its response, a conflicting one another hash and a started one none.
  pub run-AttemptsValid :
      (calls : List TransferIds) (w : World) → AttemptsValid w → AttemptsValid (run env calls w)
  unfolding run
  run-AttemptsValid [] w h = h
  run-AttemptsValid (other ∷ rest) w h =
      run-AttemptsValid rest _ ((step other w).later.stays_valid h)
