-- ===== src/Adapter/Execution.antt =====
-- adapters/local-anvil/src/execution-core.ts: an authorized transfer is signed and broadcast under
-- a lock of its operation, so that calls for one operation follow one another. The signer of
-- signer-core.ts is an interface here: an action that ends with a refusal or a transaction hash,
-- and that may hand over the signed bytes.
use crip_wallet.Base.{Bool, true, false, not, ◌&&◌, ◌++◌, Option, none, some, if◌then◌else◌}
use crip_wallet.Schemas.Money.{Text, units, is_empty}
use crip_wallet.Transfer.Slices.{take, drop}
use crip_wallet.Schemas.Common.{same_text}
use crip_wallet.Store.Tables.{find}
use crip_wallet.TrustBoundary.{ComponentAuthorization}
use crip_wallet.Adapter.World.{
  SignedTransaction, BroadcastAttempt, TransferIds, Act, ◌>>=◌, pure, gets,
}
use crip_wallet.Adapter.Attempts.{find_broadcast_attempt}
use crip_wallet.Adapter.Broadcast.{
  BroadcastEnv, is_accepted, authorized_transfer_request, canonical_signed_transaction_hash,
  broadcast_signed_transaction,
}

-- What `onSignedMaterial` is given
pub record SignedMaterial : Type 0 where
  pub signed_transaction_id : Text
  pub expected_transaction_hash : Text
  pub raw_transaction : Option Text
  pub from_durable_evidence : Bool

-- `SignerRefusalCode`, by its text, and `SignerSuccess` by its hash, with the material handed over
pub data SignerOutcome : Type 0 where
  refusal : Text → SignerOutcome
  success : Text → Option SignedMaterial → SignerOutcome

pub record ExecutionEnv : Type 0 where
  pub broadcast : BroadcastEnv
  pub sign_authorized_transfer : TransferIds → Bool → Act SignerOutcome
  pub authorize_result : TransferIds → Text → ComponentAuthorization

-- The fields that a lifecycle result has in both cases
pub record Lifecycle : Type 0 where
  pub ids : TransferIds
  pub attempt : BroadcastAttempt
  pub from_durable_evidence : Bool

-- `ExecuteAuthorizedTransferOutcome`
pub data ExecutionOutcome : Type 0 where
  refused : Text → ExecutionOutcome
  not_accepted : Lifecycle → ExecutionOutcome
  executed : Lifecycle → Bool → ComponentAuthorization → ExecutionOutcome

abbrev pub invalid_request_code : Text
invalid_request_code = units "INVALID_REQUEST"

abbrev pub internal_code : Text
internal_code = units "INTERNAL"

abbrev pub is_evidence_for : TransferIds → SignedTransaction → Bool
is_evidence_for ids s =
    same_text s.operation_id ids.operation_id && same_text s.authorization_id ids.authorization_id

-- `findDurableSignedEvidence` of signer-store.ts, by its hash
unfoldable pub find_durable_signed_evidence : TransferIds → Act (Option SignedTransaction)
find_durable_signed_evidence ids = gets (λ w. find (is_evidence_for ids) w.signed)

-- `signedTransactionId.replace(/^signed:/, "attempt:")`
unfoldable pub attempt_id_of : Text → Text
attempt_id_of t = if same_text (take 7 t) (units "signed:") then units "attempt:" ++ drop 7 t else t

abbrev pub present : Option SignedTransaction → Bool
present none = false
present (some s) = true

-- The hash is the signer's, and that of the evidence if there was some.
unfoldable pub is_expected_hash : Text → Text → Option SignedTransaction → Bool
is_expected_hash derived signed none = same_text derived signed
is_expected_hash derived signed (some s) =
    same_text derived signed && same_text derived s.expected_transaction_hash

module _ (env : ExecutionEnv) where
  -- `lifecycleResult`
  unfoldable pub lifecycle_result : TransferIds → BroadcastAttempt → Bool → Bool → ExecutionOutcome
  lifecycle_result ids a durable rematerialized =
      let common : Lifecycle = record { ids = ids; attempt = a; from_durable_evidence = durable } in
      if not (is_accepted a.status)
      then not_accepted common
      else executed common rematerialized
          (env.authorize_result ids a.signed.expected_transaction_hash)

  -- The broadcast of the bytes that the signer handed over
  unfoldable pub broadcast_material : TransferIds → SignedMaterial → Text → Act ExecutionOutcome
  broadcast_material ids material raw = do
    b ← broadcast_signed_transaction env.broadcast record {
      request = ids;
      signed_transaction_id = material.signed_transaction_id;
      attempt_id = attempt_id_of material.signed_transaction_id;
      raw_transaction = raw;
    }
    pure (
        lifecycle_result ids b.attempt material.from_durable_evidence
          material.from_durable_evidence)

  unfoldable pub check_hash :
      TransferIds
      → Option SignedTransaction
      → Text
      → SignedMaterial
      → Text
      → Option Text
      → Act ExecutionOutcome
  check_hash ids durable signed material raw none = pure (refused internal_code)
  check_hash ids durable signed material raw (some derived) =
      if is_expected_hash derived signed durable
      then broadcast_material ids material raw
      else pure (refused internal_code)

  unfoldable pub with_raw :
      TransferIds
      → Option SignedTransaction
      → Text
      → SignedMaterial
      → Option Text
      → Act ExecutionOutcome
  unfolding check_hash
  with_raw ids durable signed material none = pure (refused internal_code)
  with_raw ids durable signed material (some raw) =
      if is_empty raw
      then pure (refused internal_code)
      else check_hash ids durable signed material raw
          (canonical_signed_transaction_hash env.broadcast.library raw)

  -- What the signer's outcome leads to
  unfoldable pub after_signing :
      TransferIds → Option SignedTransaction → SignerOutcome → Act ExecutionOutcome
  unfolding with_raw
  after_signing ids durable (refusal code) = pure (refused code)
  after_signing ids durable (success signed none) = pure (refused internal_code)
  after_signing ids durable (success signed (some material)) =
      with_raw ids durable signed material material.raw_transaction

  unfoldable pub existing_or_sign : TransferIds → Option BroadcastAttempt → Act ExecutionOutcome
  existing_or_sign ids (some a) = pure (lifecycle_result ids a true false)
  existing_or_sign ids none = do
    durable ← find_durable_signed_evidence ids
    outcome ← env.sign_authorized_transfer ids (present durable)
    after_signing ids durable outcome

  -- `executeAuthorizedTransferCore`
  unfoldable pub execute_authorized_transfer_core : TransferIds → Act ExecutionOutcome
  unfolding existing_or_sign
  execute_authorized_transfer_core ids =
      if not (authorized_transfer_request ids)
      then pure (refused invalid_request_code)
      else (do existing ← find_broadcast_attempt ids; existing_or_sign ids existing)
