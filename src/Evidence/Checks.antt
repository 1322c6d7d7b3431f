-- ===== src/Evidence/Checks.antt =====
-- packages/transaction-pipeline/src/chain-evidence.ts: the tests of `verifyUntrustedChainEvidence`,
-- in their order, each with the mismatch that it reports.
use crip_wallet.Base.{
  Bool, true, false, not, ◌&&◌, ◌||◌, List, [], ◌∷◌, ◌++◌, any, length, ltb, ◌==◌, Option, none,
  some, if◌then◌else◌,
}
use crip_wallet.Schemas.Money.{Text, units}
use crip_wallet.Schemas.Money.Decimal.{value}
use crip_wallet.Schemas.Common.{same_text}
use crip_wallet.Evidence.{
  ExecutionEnvelope, ChainEvidenceExpectation, ChainEvidenceMismatchCode, EvidenceSource,
  ChainEvidenceMismatch, ParsedLog, ParsedChainTransaction, ParsedReceipt, ParsedBlock,
  VerifiedTransferLogEvidence, fixture_mismatch, transaction_missing, malformed_transaction,
  transaction_hash_mismatch, transaction_chain_mismatch, transaction_from_mismatch,
  transaction_to_mismatch, transaction_input_mismatch, transaction_value_mismatch,
  transaction_nonce_mismatch, transaction_type_mismatch, transaction_gas_mismatch,
  transaction_priority_fee_mismatch, transaction_max_fee_mismatch, transaction_access_list_mismatch,
  transaction_block_mismatch, receipt_missing, malformed_receipt, receipt_hash_mismatch,
  receipt_block_mismatch, receipt_status_invalid, receipt_gas_invalid, receipt_log_count_mismatch,
  canonical_block_missing, malformed_block, canonical_block_mismatch, malformed_log,
  reverted_receipt_has_logs, transfer_missing, transfer_duplicate, transfer_malformed,
  unexpected_log, transfer_mismatch, fixture, transaction, receipt, block, log,
}
use crip_wallet.Evidence.Unknown.{Unknown, is_missing}
use crip_wallet.Evidence.Parse.{is_transfer_log, transfer_from_log}

-- `if (fails) issues.push(mismatch(...))`
pub record Check : Type 0 where
  pub fails : Bool
  pub mismatch : ChainEvidenceMismatch

abbrev pub field_check : Bool → ChainEvidenceMismatchCode → EvidenceSource → Text → Check
field_check fails code source field = record {
  fails = fails;
  mismatch = record { code = code; source = source; field = some field };
}

abbrev pub check_all : Bool → ChainEvidenceMismatchCode → EvidenceSource → Check
check_all fails code source = record {
  fails = fails;
  mismatch = record { code = code; source = source; field = none };
}

-- The issues that the tests push
unfoldable pub report : List Check → List ChainEvidenceMismatch
report [] = []
report (c ∷ cs) = let rest = report cs in if c.fails then c.mismatch ∷ rest else rest

abbrev pub is_none {ℓ} : {A : Type ℓ} → Option A → Bool
is_none none = true
is_none (some _) = false

-- What the RPC answered
pub record UntrustedChainEvidence : Type 0 where
  pub transaction_answer : Unknown
  pub receipt_answer : Unknown
  pub canonical_block_by_number : Unknown
  pub canonical_block_by_hash : Unknown

abbrev block_check : Unknown → Option ParsedBlock → Text → Check
block_check v parsed field =
    if is_missing v
    then field_check true canonical_block_missing block field
    else field_check (is_none parsed) malformed_block block field

abbrev has_malformed_logs : Option ParsedReceipt → Bool
has_malformed_logs none = false
has_malformed_logs (some r) = r.malformed_logs

-- The tests before the first return
unfoldable pub presence_checks :
    ChainEvidenceExpectation
    → UntrustedChainEvidence
    → Option ParsedChainTransaction
    → Option ParsedReceipt
    → Option ParsedBlock
    → Option ParsedBlock
    → List Check
presence_checks x e tx r by_number by_hash =
    field_check (not (same_text x.fixture.fixture_instance_id x.fixture_instance_id))
      fixture_mismatch fixture (units "fixtureInstanceId")
    ∷ check_all (is_missing e.transaction_answer) transaction_missing transaction
    ∷ check_all (is_missing e.receipt_answer) receipt_missing receipt
    ∷ check_all (not (is_missing e.transaction_answer) && is_none tx) malformed_transaction
        transaction
    ∷ check_all (not (is_missing e.receipt_answer) && is_none r) malformed_receipt receipt
    ∷ check_all (has_malformed_logs r) malformed_log log
    ∷ block_check e.canonical_block_by_number by_number (units "byNumber")
    ∷ block_check e.canonical_block_by_hash by_hash (units "byHash")
    ∷ []

-- The transaction against the envelope
unfoldable pub transaction_checks : ChainEvidenceExpectation → ParsedChainTransaction → List Check
transaction_checks x tx =
    field_check (not (same_text tx.hash x.expected_transaction_hash)) transaction_hash_mismatch
      transaction (units "hash")
    ∷ field_check (not (tx.chain_id == 31337)) transaction_chain_mismatch transaction
        (units "chainId")
    ∷ field_check (not (same_text tx.from x.envelope.from)) transaction_from_mismatch transaction
        (units "from")
    ∷ field_check (not (same_text tx.to x.envelope.to)) transaction_to_mismatch transaction
        (units "to")
    ∷ field_check (not (same_text tx.input x.envelope.calldata)) transaction_input_mismatch
        transaction (units "input")
    ∷ field_check (not (tx.value == value x.envelope.value)) transaction_value_mismatch transaction
        (units "value")
    ∷ field_check (not (tx.nonce == value x.envelope.nonce)) transaction_nonce_mismatch transaction
        (units "nonce")
    ∷ field_check (not (same_text tx.transaction_type x.envelope.transaction_type))
        transaction_type_mismatch transaction (units "type")
    ∷ field_check (not (tx.gas == value x.envelope.gas_limit)) transaction_gas_mismatch transaction
        (units "gas")
    ∷ field_check (not (tx.max_priority_fee_per_gas == value x.envelope.max_priority_fee_per_gas))
        transaction_priority_fee_mismatch transaction (units "maxPriorityFeePerGas")
    ∷ field_check (not (tx.max_fee_per_gas == value x.envelope.max_fee_per_gas))
        transaction_max_fee_mismatch transaction (units "maxFeePerGas")
    ∷ field_check (not (tx.access_list_length == 0)) transaction_access_list_mismatch transaction
        (units "accessList")
    ∷ []

-- The transaction, the receipt and the blocks against one another
unfoldable pub block_checks :
    ChainEvidenceExpectation
    → ParsedChainTransaction
    → ParsedReceipt
    → ParsedBlock
    → ParsedBlock
    → List Check
block_checks x tx r by_number by_hash =
    field_check
      (not (tx.block_number == by_number.number) || not (same_text tx.block_hash by_number.hash))
      transaction_block_mismatch transaction (units "block")
    ∷ check_all
        (not (by_number.number == by_hash.number) || not (same_text by_number.hash by_hash.hash))
        canonical_block_mismatch block
    ∷ field_check
        (not (same_text r.transaction_hash tx.hash)
          || not (same_text r.transaction_hash x.expected_transaction_hash))
        receipt_hash_mismatch receipt (units "transactionHash")
    ∷ field_check
        (not (r.block_number == tx.block_number) || not (same_text r.block_hash tx.block_hash))
        receipt_block_mismatch receipt (units "block")
    ∷ field_check (ltb tx.gas r.gas_used) receipt_gas_invalid receipt (units "gasUsed")
    ∷ []

abbrev pub is_success : Text → Bool
is_success = same_text (units "success")

abbrev pub is_reverted : Text → Bool
is_reverted = same_text (units "reverted")

unfoldable pub status_check : Text → Check
status_check status =
    field_check (not (is_success status) && not (is_reverted status)) receipt_status_invalid receipt
      (units "status")

-- `parsedReceipt.logs.filter(...)`
unfoldable pub select_logs : (ParsedLog → Bool) → List ParsedLog → List ParsedLog
select_logs p [] = []
select_logs p (l ∷ ls) = let rest = select_logs p ls in if p l then l ∷ rest else rest

-- The tests of the one Transfer of a successful receipt
unfoldable pub transfer_log_checks : List ParsedLog → List ParsedLog → List Check
transfer_log_checks logs [] = check_all true transfer_missing log ∷ []
transfer_log_checks logs (l ∷ []) =
    check_all (is_none (transfer_from_log l)) transfer_malformed log
    ∷ field_check (not (length logs == 1)) unexpected_log receipt (units "logs")
    ∷ []
transfer_log_checks logs (_ ∷ _ ∷ _) = check_all true transfer_duplicate log ∷ []

abbrev is_other_log : ParsedLog → Bool
is_other_log l = not (is_transfer_log l)

-- The tests of all logs of a successful receipt
abbrev pub all_log_checks : List ParsedLog → List Check
all_log_checks logs =
    field_check (length logs == 0) receipt_log_count_mismatch receipt (units "logs")
    ∷ check_all (any is_other_log logs) unexpected_log log
    ∷ []

-- The logs, by the status of the receipt
unfoldable pub log_count_checks : Text → List ParsedLog → List Check
log_count_checks status logs =
    if is_reverted status
    then field_check (not (length logs == 0)) reverted_receipt_has_logs receipt (units "logs") ∷ []
    else if is_success status
    then transfer_log_checks logs (select_logs is_transfer_log logs) ++ all_log_checks logs
    else []

abbrev pub the_transfer : List ParsedLog → Option VerifiedTransferLogEvidence
the_transfer (l ∷ []) = transfer_from_log l
the_transfer _ = none

-- The Transfer that is verified
unfoldable pub transfer_of : ParsedReceipt → Option VerifiedTransferLogEvidence
transfer_of r =
    if is_reverted r.status
    then none
    else if is_success r.status
    then the_transfer (select_logs is_transfer_log r.logs)
    else none

-- The Transfer against the envelope
unfoldable pub transfer_checks : ExecutionEnvelope → Option VerifiedTransferLogEvidence → List Check
transfer_checks envelope none = []
transfer_checks envelope (some t) =
    field_check (not (same_text t.token_address envelope.to)) transfer_mismatch log
      (units "tokenAddress")
    ∷ field_check (not (same_text t.from envelope.from)) transfer_mismatch log (units "from")
    ∷ field_check (not (same_text t.to envelope.recipient)) transfer_mismatch log (units "to")
    ∷ field_check (not (same_text t.amount_atomic envelope.amount_atomic)) transfer_mismatch log
        (units "amountAtomic")
    ∷ []

-- Every log against the transaction
unfoldable pub log_checks : ParsedChainTransaction → List ParsedLog → List Check
log_checks tx [] = []
log_checks tx (l ∷ ls) =
    field_check l.removed transfer_mismatch log (units "removed")
    ∷ field_check (not (same_text l.transaction_hash tx.hash)) transfer_mismatch log
        (units "transactionHash")
    ∷ field_check (not (same_text l.block_hash tx.block_hash)) transfer_mismatch log
        (units "blockHash")
    ∷ field_check (not (l.block_number == tx.block_number)) transfer_mismatch log
        (units "blockNumber")
    ∷ log_checks tx ls
