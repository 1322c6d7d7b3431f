-- ===== src/Evidence/Verify.antt =====
-- packages/transaction-pipeline/src/chain-evidence.ts: `verifyUntrustedChainEvidence`.
use crip_wallet.Base.{ℕ, ◌*◌, List, [], ◌∷◌, ◌++◌, Option, none, some, if◌then◌else◌}
use crip_wallet.Base.Ensures.{Result, ok, err}
use crip_wallet.Schemas.Money.{Text, units}
use crip_wallet.Transfer.Digits.{decimal}
use crip_wallet.Evidence.{
  ChainEvidenceExpectation, ChainEvidenceMismatch, EnvelopeLibrary, ParsedChainTransaction,
  ParsedReceipt, ParsedBlock, success, reverted, VerifiedChainEvidence,
}
use crip_wallet.Evidence.Parse.{parse_transaction, parse_receipt, parse_block}
use crip_wallet.Evidence.Expectation.{expectation_mismatches}
use crip_wallet.Evidence.Checks.{
  Check, report, UntrustedChainEvidence, presence_checks, transaction_checks, block_checks,
  is_success, status_check, log_count_checks, transfer_of, transfer_checks, log_checks,
}

abbrev decimal_index : Option ℕ → Option Text
decimal_index none = none
decimal_index (some n) = some (decimal n)

-- The normalized evidence
unfoldable pub verified_evidence :
    ChainEvidenceExpectation → ParsedChainTransaction → ParsedReceipt → VerifiedChainEvidence
verified_evidence x tx r = record {
  operation_id = x.operation_id;
  reservation_id = x.reservation_id;
  envelope_id = x.envelope_id;
  envelope_revision = x.envelope_revision;
  envelope_hash = x.envelope_hash;
  authorization_id = x.authorization_id;
  fixture_instance_id = x.fixture_instance_id;
  chain_id = units "eip155:31337";
  transaction_hash = tx.hash;
  block_number = decimal tx.block_number;
  block_hash = tx.block_hash;
  transaction_index = decimal_index tx.transaction_index;
  from = tx.from;
  to = tx.to;
  value_atomic = decimal tx.value;
  calldata = tx.input;
  nonce = decimal tx.nonce;
  transaction_type = units "eip1559";
  gas_limit = decimal tx.gas;
  max_priority_fee_per_gas = decimal tx.max_priority_fee_per_gas;
  max_fee_per_gas = decimal tx.max_fee_per_gas;
  receipt_status = if is_success r.status then success else reverted;
  gas_used = decimal r.gas_used;
  effective_gas_price = decimal r.effective_gas_price;
  native_fee_atomic = decimal (r.gas_used * r.effective_gas_price);
  token_spend_atomic = if is_success r.status then x.envelope.amount_atomic else units "0";
  transfer = transfer_of r;
}

-- The tests after the first return
unfoldable pub parsed_checks :
    ChainEvidenceExpectation
    → ParsedChainTransaction
    → ParsedReceipt
    → ParsedBlock
    → ParsedBlock
    → List Check
parsed_checks x tx r by_number by_hash =
    transaction_checks x tx
    ++ (block_checks x tx r by_number by_hash
        ++ (status_check r.status
            ∷ (log_count_checks r.status r.logs
                ++ (transfer_checks x.envelope (transfer_of r) ++ log_checks tx r.logs))))

abbrev pub conclude :
    List ChainEvidenceMismatch
    → VerifiedChainEvidence
    → Result (List ChainEvidenceMismatch) VerifiedChainEvidence
conclude [] v = ok v
conclude (m ∷ ms) v = err (m ∷ ms)

-- The values that parse
unfoldable pub verify_parsed :
    ChainEvidenceExpectation
    → List Check
    → Option ParsedChainTransaction
    → Option ParsedReceipt
    → Option ParsedBlock
    → Option ParsedBlock
    → Result (List ChainEvidenceMismatch) VerifiedChainEvidence
verify_parsed x checks (some tx) (some r) (some by_number) (some by_hash) =
    conclude (report (checks ++ parsed_checks x tx r by_number by_hash)) (verified_evidence x tx r)
verify_parsed x checks tx r by_number by_hash = err (report checks)

-- The evidence under an expectation that holds
unfoldable pub verify_answers :
    ChainEvidenceExpectation
    → UntrustedChainEvidence
    → Result (List ChainEvidenceMismatch) VerifiedChainEvidence
verify_answers x e =
    let tx = parse_transaction e.transaction_answer in
    let r = parse_receipt e.receipt_answer in
    let by_number = parse_block e.canonical_block_by_number in
    let by_hash = parse_block e.canonical_block_by_hash in
    verify_parsed x (presence_checks x e tx r by_number by_hash) tx r by_number by_hash

-- `verifyUntrustedChainEvidence`
unfoldable pub verify_untrusted_chain_evidence :
    EnvelopeLibrary
    → ChainEvidenceExpectation
    → UntrustedChainEvidence
    → Result (List ChainEvidenceMismatch) VerifiedChainEvidence
verify_untrusted_chain_evidence library x e = elim (expectation_mismatches library x) [
  | [] ↦ verify_answers x e
  | m ∷ ms ↦ err (m ∷ ms)
]
