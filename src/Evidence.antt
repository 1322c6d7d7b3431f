-- ===== src/Evidence.antt =====
-- packages/transaction-pipeline/src/chain-evidence.ts: what is known of a transfer that was sent,
-- and what a verification of its transaction, receipt, blocks and logs gives.
pub mod Unknown
pub mod Parse
pub mod Expectation
pub mod Checks
pub mod Verify
pub mod Matching
pub mod Settling
pub mod Verified
mod Tests
use crip_wallet.Base.{ℕ, Bool, List, Option}
use crip_wallet.Schemas.Money.{Text}

-- The members of `ExecutionEnvelopeV2` that the verification reads
pub record AssetDelta : Type 0 where
  pub asset_address : Text
  pub from : Text
  pub to : Text
  pub amount_atomic : Text

pub record ExecutionEnvelope : Type 0 where
  pub envelope_id : Text
  pub revision : ℕ
  pub envelope_hash : Text
  pub budget_reservation_id : Text
  pub from : Text
  pub to : Text
  pub value : Text
  pub calldata : Text
  pub recipient : Text
  pub amount_atomic : Text
  pub expected_asset_deltas : List AssetDelta
  pub nonce : Text
  pub transaction_type : Text
  pub gas_limit : Text
  pub max_priority_fee_per_gas : Text
  pub max_fee_per_gas : Text

pub record LocalFixtureIdentity : Type 0 where
  pub fixture_instance_id : Text
  pub chain_id : Text
  pub wallet_address : Text
  pub token_address : Text
  pub rpc_url : Text

pub record ChainEvidenceExpectation : Type 0 where
  pub operation_id : Text
  pub reservation_id : Text
  pub envelope_id : Text
  pub envelope_revision : ℕ
  pub envelope_hash : Text
  pub authorization_id : Text
  pub fixture_instance_id : Text
  pub expected_transaction_hash : Text
  pub fixture : LocalFixtureIdentity
  pub envelope : ExecutionEnvelope

-- The parts of a `URL`
pub record Url : Type 0 where
  pub protocol : Text
  pub hostname : Text
  pub username : Text
  pub password : Text
  pub pathname : Text
  pub query : Text
  pub fragment : Text

-- `new URL`, `canonicalExecutionEnvelopeV2Schema` as a test, and `hashExecutionEnvelope`
pub record EnvelopeLibrary : Type 0 where
  pub parse_url : Text → Option Url
  pub accepts : ExecutionEnvelope → Bool
  pub hash : ExecutionEnvelope → Text

-- `ChainEvidenceMismatchCode`
pub data ChainEvidenceMismatchCode : Type 0 where
  invalid_expectation fixture_mismatch envelope_invalid : ChainEvidenceMismatchCode
  transaction_missing malformed_transaction transaction_hash_mismatch : ChainEvidenceMismatchCode
  transaction_chain_mismatch transaction_from_mismatch : ChainEvidenceMismatchCode
  transaction_to_mismatch transaction_input_mismatch : ChainEvidenceMismatchCode
  transaction_value_mismatch transaction_nonce_mismatch : ChainEvidenceMismatchCode
  transaction_type_mismatch transaction_gas_mismatch : ChainEvidenceMismatchCode
  transaction_priority_fee_mismatch transaction_max_fee_mismatch : ChainEvidenceMismatchCode
  transaction_access_list_mismatch transaction_block_mismatch : ChainEvidenceMismatchCode
  receipt_missing malformed_receipt receipt_hash_mismatch : ChainEvidenceMismatchCode
  receipt_block_mismatch receipt_status_invalid receipt_gas_invalid : ChainEvidenceMismatchCode
  receipt_log_count_mismatch canonical_block_missing malformed_block : ChainEvidenceMismatchCode
  canonical_block_mismatch malformed_log reverted_receipt_has_logs : ChainEvidenceMismatchCode
  transfer_missing transfer_duplicate transfer_malformed : ChainEvidenceMismatchCode
  unexpected_log transfer_mismatch : ChainEvidenceMismatchCode

-- The part of the evidence that a mismatch is about
pub data EvidenceSource : Type 0 where
  expectation fixture transaction receipt block log : EvidenceSource

pub record ChainEvidenceMismatch : Type 0 where
  pub code : ChainEvidenceMismatchCode
  pub source : EvidenceSource
  pub field : Option Text

pub record ParsedLog : Type 0 where
  pub address : Text
  pub topics : List Text
  pub payload : Text
  pub log_index : ℕ
  pub transaction_hash : Text
  pub block_hash : Text
  pub block_number : ℕ
  pub removed : Bool

pub record ParsedChainTransaction : Type 0 where
  pub hash : Text
  pub chain_id : ℕ
  pub block_hash : Text
  pub block_number : ℕ
  pub transaction_index : Option ℕ
  pub from : Text
  pub to : Text
  pub value : ℕ
  pub input : Text
  pub nonce : ℕ
  pub transaction_type : Text
  pub gas : ℕ
  pub max_priority_fee_per_gas : ℕ
  pub max_fee_per_gas : ℕ
  pub access_list_length : ℕ

pub record ParsedReceipt : Type 0 where
  pub transaction_hash : Text
  pub block_hash : Text
  pub block_number : ℕ
  pub status : Text
  pub gas_used : ℕ
  pub effective_gas_price : ℕ
  pub logs : List ParsedLog
  pub malformed_logs : Bool

pub record ParsedBlock : Type 0 where
  pub number : ℕ
  pub hash : Text

pub record VerifiedTransferLogEvidence : Type 0 where
  pub log_index : Text
  pub token_address : Text
  pub from : Text
  pub to : Text
  pub amount_atomic : Text

pub data ReceiptStatus : Type 0 where
  success reverted : ReceiptStatus

pub record VerifiedChainEvidence : Type 0 where
  pub operation_id : Text
  pub reservation_id : Text
  pub envelope_id : Text
  pub envelope_revision : ℕ
  pub envelope_hash : Text
  pub authorization_id : Text
  pub fixture_instance_id : Text
  pub chain_id : Text
  pub transaction_hash : Text
  pub block_number : Text
  pub block_hash : Text
  pub transaction_index : Option Text
  pub from : Text
  pub to : Text
  pub value_atomic : Text
  pub calldata : Text
  pub nonce : Text
  pub transaction_type : Text
  pub gas_limit : Text
  pub max_priority_fee_per_gas : Text
  pub max_fee_per_gas : Text
  pub receipt_status : ReceiptStatus
  pub gas_used : Text
  pub effective_gas_price : Text
  pub native_fee_atomic : Text
  pub token_spend_atomic : Text
  pub transfer : Option VerifiedTransferLogEvidence
