-- ===== src/Adapter/Once.antt =====
-- What executions of adapters/local-anvil/src/execution-core.ts send: an authorized transfer is
-- sent at most once.
use crip_wallet.Base.{
  ◌≡◌, refl, ap, ◌∙◌, ◌⊎◌, inl, inr, Bool, true, false, not, List, ◌∷◌, all, any, Option, none,
  some, arith, if◌then◌else◌,
}
use crip_wallet.Base.Ensures.{Result, ok, err}
use crip_wallet.Schemas.Money.{Text, is_empty}
use crip_wallet.Store.Tables.{find}
use crip_wallet.Adapter.World.{
  SignedTransaction, BroadcastAttempt, TransferIds, Sent, World, BroadcastError, ◌>>=◌, Leaves,
  if-Leaves, bind-Leaves, pure,
}
use crip_wallet.Adapter.Attempts.{is_attempt_for, find_broadcast_attempt}
use crip_wallet.Adapter.Rows.{find-all, is_valid, AttemptsValid, Later, find-none}
use crip_wallet.Adapter.Broadcast.{
  BroadcastInput, canonical_signed_transaction_hash, is_accepted, authorized_transfer_request,
  broadcast_signed_transaction,
}
use crip_wallet.Adapter.Sends.{
  IsAccepted, valid-IsAccepted, Broadcasted, Delivered, broadcast_signed_transaction_lem,
}
use crip_wallet.Adapter.Execution.{
  SignedMaterial, SignerOutcome, refusal, success, ExecutionEnv, ExecutionOutcome, refused,
  not_accepted, executed, attempt_id_of, internal_code, invalid_request_code, is_expected_hash,
  is_evidence_for, find_durable_signed_evidence, lifecycle_result, broadcast_material,
  after_signing, with_raw, check_hash, existing_or_sign, present, execute_authorized_transfer_core,
}

-- The signer of signer-core.ts neither sends nor writes attempts.
abbrev pub LeavesAttempts : ExecutionEnv → Type 0
LeavesAttempts env =
    (ids : TransferIds) (again : Bool) (w : World)
    → ((env.sign_authorized_transfer ids again w).1.attempts ≡ w.attempts)
      × ((env.sign_authorized_transfer ids again w).1.sent ≡ w.sent)

-- A success names an accepted attempt and authorizes its expected hash.
abbrev pub Outcome : ExecutionEnv → TransferIds → ExecutionOutcome → Type 0
Outcome env ids (executed l again authorization) =
    IsAccepted l.attempt
    × (authorization ≡ env.authorize_result ids l.attempt.signed.expected_transaction_hash)
Outcome env ids (refused code) = Unit
Outcome env ids (not_accepted l) = Unit

abbrev OutcomeOf :
    ExecutionEnv → TransferIds → World → Result BroadcastError ExecutionOutcome → Type 0
OutcomeOf env ids w (ok o) = AttemptsValid w → Outcome env ids o
OutcomeOf env ids w (err e) = Unit

-- The request had no attempt, its bytes went out once, and now it has one.
pub record SentFirst (ids : TransferIds) (w v : World) : Type 0 where
  pub unattempted : any (is_attempt_for ids) w.attempts ≡ false
  pub raw_transaction : Text
  pub sent_once : v.sent ≡ record { request = ids; raw_transaction = raw_transaction } ∷ w.sent
  pub attempted : any (is_attempt_for ids) v.attempts ≡ true

-- What an execution leaves
pub record Executed (env : ExecutionEnv) (ids : TransferIds) (w : World)
    (r : Result BroadcastError ExecutionOutcome) (v : World) : Type 0 where
  pub later : Later w v
  pub sends : (v.sent ≡ w.sent) ⊎ SentFirst ids w v
  pub outcome : OutcomeOf env ids w r

if-Outcome :
    (env : ExecutionEnv) (ids : TransferIds) (b : Bool) (x y : ExecutionOutcome)
    → (b ≡ true → Outcome env ids x)
    → (b ≡ false → Outcome env ids y)
    → Outcome env ids (if b then x else y)
if-Outcome env ids true x y f g = f refl
if-Outcome env ids false x y f g = g refl

module _ (env : ExecutionEnv) (ids : TransferIds) where
  lifecycle_result_lem :
      (a : BroadcastAttempt) (durable again : Bool)
      → is_valid a ≡ true
      → Outcome env ids (lifecycle_result env ids a durable again)
  unfolding lifecycle_result
  lifecycle_result_lem a durable again h =
      if-Outcome env ids (not (is_accepted a.status)) _ _ (λ _. tt)
        (λ e. (valid-IsAccepted a h (ground arith), refl))

  module _ (w : World) where
    quiet :
        (r : Result BroadcastError ExecutionOutcome) (v : World)
        → OutcomeOf env ids w r
        → v.attempts ≡ w.attempts
        → v.sent ≡ w.sent
        → Executed env ids w r v
    quiet r v outcome same unsent = record {
      later = record {
        kept = λ other h. ap (any (is_attempt_for other)) same ∙ h;
        stays_valid = λ h. ap (all is_valid) same ∙ h;
      };
      sends = inl unsent;
      outcome = outcome;
    }

    module _ (fresh : any (is_attempt_for ids) w.attempts ≡ false) (u : World)
        (same : u.attempts ≡ w.attempts) (unsent : u.sent ≡ w.sent) where
      told : (code : Text) → Executed env ids w (ok (refused code)) u
      told code = quiet (ok (refused code)) u (λ _. tt) same unsent

      moved :
          (r : Result BroadcastError ExecutionOutcome) (v : World)
          → Later u v
          → (v.sent ≡ w.sent) ⊎ SentFirst ids w v
          → OutcomeOf env ids w r
          → Executed env ids w r v
      moved r v later sends outcome = record {
        later = record {
          kept = λ other h. later.kept other (ap (any (is_attempt_for other)) same ∙ h);
          stays_valid = λ h. later.stays_valid (ap (all is_valid) same ∙ h);
        };
        sends = sends;
        outcome = outcome;
      }

      abbrev input : SignedMaterial → Text → BroadcastInput
      input material raw = record {
        request = ids;
        signed_transaction_id = material.signed_transaction_id;
        attempt_id = attempt_id_of material.signed_transaction_id;
        raw_transaction = raw;
      }

      relayed :
          (material : SignedMaterial) (raw : Text) (v : World)
          → (v.sent ≡ u.sent) ⊎ Delivered env.broadcast (input material raw) u v
          → (v.sent ≡ w.sent) ⊎ SentFirst ids w v
      relayed material raw v (inl quietly) = inl (quietly ∙ unsent)
      relayed material raw v (inr d) = inr (record {
        unattempted = fresh;
        raw_transaction = raw;
        sent_once =
            d.sent_once
            ∙ ap (λ (s : List Sent). record { request = ids; raw_transaction = raw } ∷ s) unsent;
        attempted = d.attempted;
      })

      broadcast_material_lem :
          (material : SignedMaterial) (raw : Text)
          → Leaves (Executed env ids w) (broadcast_material env ids material raw u)
      unfolding broadcast_material ◌>>=◌ Leaves
      broadcast_material_lem material raw =
          bind-Leaves (Executed env ids w) u (Broadcasted env.broadcast (input material raw) u)
            (broadcast_signed_transaction env.broadcast (input material raw)) _
            (broadcast_signed_transaction_lem env.broadcast (input material raw) u)
            (λ b v post. moved (ok _) v post.later (relayed material raw v post.sends) (λ valid.
              lifecycle_result_lem b.attempt material.from_durable_evidence
                material.from_durable_evidence (post.succeeds.1 (ap (all is_valid) same ∙ valid))))
            (λ e v post. moved (err e) v post.later (relayed material raw v post.sends) tt)

      check_hash_lem :
          (durable : Option SignedTransaction) (signed : Text) (material : SignedMaterial)
          (raw : Text) (derived : Option Text)
          → Leaves (Executed env ids w) (check_hash env ids durable signed material raw derived u)
      unfolding check_hash Leaves
      check_hash_lem durable signed material raw none = told internal_code
      check_hash_lem durable signed material raw (some derived) =
          if-Leaves (Executed env ids w) u (is_expected_hash derived signed durable)
            (broadcast_material env ids material raw) (pure (refused internal_code))
            (λ _. broadcast_material_lem material raw) (λ _. told internal_code)

      with_raw_lem :
          (durable : Option SignedTransaction) (signed : Text) (material : SignedMaterial)
          (raw : Option Text)
          → Leaves (Executed env ids w) (with_raw env ids durable signed material raw u)
      unfolding with_raw Leaves
      with_raw_lem durable signed material none = told internal_code
      with_raw_lem durable signed material (some raw) =
          if-Leaves (Executed env ids w) u (is_empty raw) (pure (refused internal_code)) _
            (λ _. told internal_code)
            (λ _.
              check_hash_lem durable signed material raw
                (canonical_signed_transaction_hash env.broadcast.library raw))

      after_signing_lem :
          (durable : Option SignedTransaction) (o : SignerOutcome)
          → Leaves (Executed env ids w) (after_signing env ids durable o u)
      unfolding after_signing Leaves
      after_signing_lem durable (refusal code) = told code
      after_signing_lem durable (success signed none) = told internal_code
      after_signing_lem durable (success signed (some material)) =
          with_raw_lem durable signed material material.raw_transaction

    existing_or_sign_lem :
        (o : Option BroadcastAttempt)
        → LeavesAttempts env
        → find (is_attempt_for ids) w.attempts ≡ o
        → Leaves (Executed env ids w) (existing_or_sign env ids o w)
    unfolding existing_or_sign find_durable_signed_evidence ◌>>=◌ Leaves
    existing_or_sign_lem (some a) law e =
        quiet (ok _) w
          (λ valid.
            lifecycle_result_lem a true false
              (find-all is_valid (is_attempt_for ids) w.attempts e valid))
          refl refl
    existing_or_sign_lem none law e =
        let durable = find (is_evidence_for ids) w.signed in
        bind-Leaves (Executed env ids w) w (λ r v. (v.attempts ≡ w.attempts) × (v.sent ≡ w.sent))
          (env.sign_authorized_transfer ids (present durable)) (after_signing env ids durable)
          (law ids (present durable) w)
          (λ o v (same, unsent).
            after_signing_lem (find-none (is_attempt_for ids) w.attempts e) v same unsent durable o)
          (λ f v (same, unsent). quiet (err f) v tt same unsent)

    -- With a signer that neither sends nor writes attempts, an execution sends nothing for a
    -- request that has an attempt; it sends at most once for one that has none, which then has an
    -- attempt. A request that has an attempt keeps one, valid attempts stay valid, and if they are
    -- valid a success names an attempt accepted with the expected hash and authorizes that hash.
    pub execute_authorized_transfer_core_lem :
        LeavesAttempts env
        → Leaves (Executed env ids w) (execute_authorized_transfer_core env ids w)
    unfolding execute_authorized_transfer_core find_broadcast_attempt ◌>>=◌ Leaves
    execute_authorized_transfer_core_lem law =
        if-Leaves (Executed env ids w) w (not (authorized_transfer_request ids))
          (pure (refused invalid_request_code)) _
          (λ _. quiet (ok (refused invalid_request_code)) w (λ _. tt) refl refl)
          (λ _. existing_or_sign_lem (find (is_attempt_for ids) w.attempts) law refl)
