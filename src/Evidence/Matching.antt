-- ===== src/Evidence/Matching.antt =====
-- packages/transaction-pipeline/src/chain-evidence.ts: what it means that no test reports an issue.
use crip_wallet.Base.{◌≤◌, ◌≡◌, refl, Bool, true, not, ◌&&◌, List, [], ◌∷◌, ◌++◌, all, ◌==◌, arith}
use crip_wallet.Schemas.Money.{Text}
use crip_wallet.Schemas.Money.Decimal.{value}
use crip_wallet.Schemas.Common.{same_text, same_text_iff}
use crip_wallet.Evidence.{
  ChainEvidenceExpectation, ParsedChainTransaction, ParsedReceipt, ParsedBlock, ParsedLog,
}
use crip_wallet.Evidence.Checks.{Check, report, transaction_checks, block_checks, log_checks}

-- No test fails.
unfoldable pub passes : List Check → Bool
passes [] = true
passes (c ∷ cs) = not c.fails && passes cs

pub report_lem : (cs : List Check) → report cs ≡ [] → passes cs ≡ true
unfolding report passes
report_lem [] e = refl
report_lem (c ∷ cs) e = ground (arith, report_lem cs)

pub passes-append :
    (a b : List Check) → passes (a ++ b) ≡ true → (passes a ≡ true) × (passes b ≡ true)
unfolding passes
passes-append [] b e = (refl, e)
passes-append (c ∷ a) b e =
    let rest = passes-append a b (ground arith) in (ground (arith, rest), rest.1)

-- The transaction is that of the envelope.
pub record Matches (x : ChainEvidenceExpectation) (tx : ParsedChainTransaction) : Type 0 where
  pub hash : tx.hash ≡ x.expected_transaction_hash
  pub chain_id : tx.chain_id ≡ 31337
  pub from : tx.from ≡ x.envelope.from
  pub to : tx.to ≡ x.envelope.to
  pub input : tx.input ≡ x.envelope.calldata
  pub value_sent : tx.value ≡ value x.envelope.value
  pub nonce : tx.nonce ≡ value x.envelope.nonce
  pub transaction_type : tx.transaction_type ≡ x.envelope.transaction_type
  pub gas : tx.gas ≡ value x.envelope.gas_limit
  pub priority_fee : tx.max_priority_fee_per_gas ≡ value x.envelope.max_priority_fee_per_gas
  pub max_fee : tx.max_fee_per_gas ≡ value x.envelope.max_fee_per_gas
  pub no_access_list : tx.access_list_length ≡ 0

text_sound : (s t : Text) → not (not (same_text s t)) ≡ true → s ≡ t
text_sound s t e = (same_text_iff s t).0 (ground arith)

pub transaction_checks_lem :
    (x : ChainEvidenceExpectation) (tx : ParsedChainTransaction)
    → passes (transaction_checks x tx) ≡ true
    → Matches x tx
unfolding passes transaction_checks
transaction_checks_lem x tx e = record {
  hash = text_sound _ _ (ground arith);
  chain_id = ground arith;
  from = text_sound tx.from x.envelope.from (ground arith);
  to = text_sound tx.to x.envelope.to (ground arith);
  input = text_sound tx.input x.envelope.calldata (ground arith);
  value_sent = ground arith;
  nonce = ground arith;
  transaction_type = text_sound tx.transaction_type x.envelope.transaction_type (ground arith);
  gas = ground arith;
  priority_fee = ground arith;
  max_fee = ground arith;
  no_access_list = ground arith;
}

-- Transaction, receipt and the two answers for the block agree.
pub record Mined (x : ChainEvidenceExpectation) (tx : ParsedChainTransaction) (r : ParsedReceipt)
    (by_number by_hash : ParsedBlock) : Type 0 where
  pub transaction_number : tx.block_number ≡ by_number.number
  pub transaction_block : tx.block_hash ≡ by_number.hash
  pub same_number : by_number.number ≡ by_hash.number
  pub same_hash : by_number.hash ≡ by_hash.hash
  pub receipt_hash : r.transaction_hash ≡ x.expected_transaction_hash
  pub receipt_number : r.block_number ≡ tx.block_number
  pub receipt_block : r.block_hash ≡ tx.block_hash
  pub enough_gas : r.gas_used ≤ tx.gas

pub block_checks_lem :
    (x : ChainEvidenceExpectation) (tx : ParsedChainTransaction) (r : ParsedReceipt)
    (by_number by_hash : ParsedBlock)
    → passes (block_checks x tx r by_number by_hash) ≡ true
    → Mined x tx r by_number by_hash
unfolding passes block_checks
block_checks_lem x tx r by_number by_hash e = record {
  transaction_number = ground arith;
  transaction_block = text_sound tx.block_hash by_number.hash (ground arith);
  same_number = ground arith;
  same_hash = text_sound by_number.hash by_hash.hash (ground arith);
  receipt_hash = text_sound r.transaction_hash x.expected_transaction_hash (ground arith);
  receipt_number = ground arith;
  receipt_block = text_sound r.block_hash tx.block_hash (ground arith);
  enough_gas = ground arith;
}

-- A log of the transaction in its block
unfoldable pub is_bound_log : ParsedChainTransaction → ParsedLog → Bool
is_bound_log tx l =
    not l.removed
    && (same_text l.transaction_hash tx.hash
        && (same_text l.block_hash tx.block_hash && l.block_number == tx.block_number))

pub log_checks_lem :
    (tx : ParsedChainTransaction) (logs : List ParsedLog)
    → passes (log_checks tx logs) ≡ true
    → all (is_bound_log tx) logs ≡ true
unfolding passes log_checks is_bound_log
log_checks_lem tx [] e = refl
log_checks_lem tx (l ∷ ls) e = ground (arith, log_checks_lem tx ls)
