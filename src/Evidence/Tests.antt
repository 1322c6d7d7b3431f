-- ===== src/Evidence/Tests.antt =====
-- packages/transaction-pipeline/src/chain-evidence.ts on concrete evidence.
use crip_wallet.Base.{◌≡◌, refl, true, false, List, [], ◌∷◌, Option, none, some}
use crip_wallet.Base.Ensures.{Result, ok, err, Ensures}
use crip_wallet.Schemas.Money.{Text, units}
use crip_wallet.Schemas.Money.Decimal.{value}
use crip_wallet.Schemas.Common.{canonical_identifier, identifier_pattern, hex_pattern, same_text}
use crip_wallet.Transfer.Decode.{
  decode_text, decode_words, prefixed_hex, is_address_word, is_hex_word,
}
use crip_wallet.Transfer.Words.{hex_value}
use crip_wallet.Transfer.Digits.{decimal}
use crip_wallet.Evidence.{
  ExecutionEnvelope, ChainEvidenceExpectation, EnvelopeLibrary, ChainEvidenceMismatch,
  VerifiedChainEvidence,
}
use crip_wallet.Evidence.Unknown.{
  property, as_hash, as_address, as_hex_bytes, as_topics, null, text, bigint, boolean, array,
  dictionary, no_items, item, Members, no_members, member,
}
use crip_wallet.Evidence.Parse.{
  transfer_event_signature, parse_transaction, parse_receipt, parse_logs, parse_log, parse_block,
  is_transfer_log, transfer_from_log, transfer_arguments, topic_address,
}
use crip_wallet.Evidence.Expectation.{
  valid_expectation_shape, valid_envelope_binding, expectation_mismatches, is_expected_delta,
  decodes_to_arguments, is_local_url,
}
use crip_wallet.Evidence.Checks.{
  UntrustedChainEvidence, report, presence_checks, transaction_checks, block_checks, status_check,
  select_logs, transfer_log_checks, log_count_checks, transfer_of, transfer_checks, log_checks,
}
use crip_wallet.Evidence.Verify.{
  verify_untrusted_chain_evidence, verify_answers, verify_parsed, parsed_checks, verified_evidence,
}
use crip_wallet.Evidence.Verified.{Proven, verify_untrusted_chain_evidence_lem}

abbrev wallet : Text
wallet = units "0x1111111111111111111111111111111111111111"

abbrev token : Text
token = units "0x2222222222222222222222222222222222222222"

abbrev recipient : Text
recipient = units "0x3333333333333333333333333333333333333333"

abbrev hash : Text
hash = units "0xabababababababababababababababababababababababababababababababab"

abbrev block_hash : Text
block_hash = units "0xcdcdcdcdcdcdcdcdcdcdcdcdcdcdcdcdcdcdcdcdcdcdcdcdcdcdcdcdcdcdcdcd"

abbrev calldata : Text
calldata =
    units
      "0xa9059cbb0000000000000000000000003333333333333333333333333333333333333333000000000000000000000000000000000000000000000000000000000000002a"

-- A URL parser that knows one address, and a schema and hash of one value
abbrev library : EnvelopeLibrary
library = record {
  parse_url = λ _. some (record {
    protocol = units "http:";
    hostname = units "127.0.0.1";
    username = [];
    password = [];
    pathname = units "/";
    query = [];
    fragment = [];
  });
  accepts = λ _. true;
  hash = λ _. hash;
}

abbrev envelope : ExecutionEnvelope
envelope = record {
  envelope_id = units "e";
  revision = 1;
  envelope_hash = hash;
  budget_reservation_id = units "r";
  from = wallet;
  to = token;
  value = units "0";
  calldata = calldata;
  recipient = recipient;
  amount_atomic = units "42";
  expected_asset_deltas =
      record { asset_address = token; from = wallet; to = recipient; amount_atomic = units "42" }
      ∷ [];
  nonce = units "3";
  transaction_type = units "eip1559";
  gas_limit = units "60000";
  max_priority_fee_per_gas = units "1";
  max_fee_per_gas = units "10";
}

abbrev expected : ChainEvidenceExpectation
expected = record {
  operation_id = units "o";
  reservation_id = units "r";
  envelope_id = units "e";
  envelope_revision = 1;
  envelope_hash = hash;
  authorization_id = units "a";
  fixture_instance_id = units "f";
  expected_transaction_hash = hash;
  fixture = record {
    fixture_instance_id = units "f";
    chain_id = units "eip155:31337";
    wallet_address = wallet;
    token_address = token;
    rpc_url = units "http://127.0.0.1:8545/";
  };
  envelope = envelope;
}

abbrev transfer_log : Members
transfer_log = member (units "address") (text token) (
    member (units "topics")
      (array (
        item (text transfer_event_signature) (
          item (text (units "0x0000000000000000000000001111111111111111111111111111111111111111")) (
            item (text (units "0x0000000000000000000000003333333333333333333333333333333333333333"))
              no_items))))
      (member (units "data")
        (text (units "0x000000000000000000000000000000000000000000000000000000000000002a"))
        (member (units "logIndex") (bigint 0) (
          member (units "transactionHash") (text hash) (
            member (units "blockHash") (text block_hash) (
              member (units "blockNumber") (bigint 7)
                (member (units "removed") (boolean false) (no_members))))))))

abbrev sent_transaction : Members
sent_transaction = member (units "hash") (text hash) (
    member (units "chainId") (bigint 31337) (
      member (units "blockHash") (text block_hash) (
        member (units "blockNumber") (bigint 7) (
          member (units "from") (text wallet) (
            member (units "to") (text token) (
              member (units "value") (bigint 0) (
                member (units "input") (text calldata) (
                  member (units "nonce") (bigint 3) (
                    member (units "type") (text (units "eip1559")) (
                      member (units "gas") (bigint 60000) (
                        member (units "maxPriorityFeePerGas") (bigint 1) (
                          member (units "maxFeePerGas") (bigint 10)
                            (member (units "accessList") (array no_items) (no_members))))))))))))))

abbrev receipt_members : Members
receipt_members = member (units "transactionHash") (text hash) (
    member (units "blockHash") (text block_hash) (
      member (units "blockNumber") (bigint 7) (
        member (units "status") (text (units "success")) (
          member (units "gasUsed") (bigint 50000) (
            member (units "effectiveGasPrice") (bigint 2) (
              member (units "logs") (array (item (dictionary transfer_log) no_items))
                (no_members)))))))

abbrev block_members : Members
block_members =
    member (units "number") (bigint 7) (member (units "hash") (text block_hash) (no_members))

abbrev answers : UntrustedChainEvidence
answers = record {
  transaction_answer = dictionary sent_transaction;
  receipt_answer = dictionary receipt_members;
  canonical_block_by_number = dictionary block_members;
  canonical_block_by_hash = dictionary block_members;
}

verify_untrusted_chain_evidence_lem_example :
    Ensures
      (λ v.
        (valid_expectation_shape library expected ≡ true)
        × (valid_envelope_binding library expected ≡ true)
        × Proven expected answers v)
      (verify_untrusted_chain_evidence library expected answers)
verify_untrusted_chain_evidence_lem_example =
    verify_untrusted_chain_evidence_lem library expected answers

abbrev spend : Result (List ChainEvidenceMismatch) VerifiedChainEvidence → Option Text
spend (ok v) = some v.token_spend_atomic
spend (err _) = none

abbrev found_spend : Option Text
found_spend = spend (verify_untrusted_chain_evidence library expected answers)

abbrev unmined_spend : Option Text
unmined_spend =
    spend
      (verify_untrusted_chain_evidence library expected (record answers { receipt_answer = null }))

verified_spend : found_spend ≡ some (units "42")
unfolding verify_untrusted_chain_evidence verify_answers verify_parsed parsed_checks
    verified_evidence expectation_mismatches valid_expectation_shape valid_envelope_binding
    is_expected_delta decodes_to_arguments is_local_url decode_text decode_words prefixed_hex
    is_address_word is_hex_word hex_value decimal canonical_identifier identifier_pattern
    hex_pattern same_text parse_transaction parse_receipt parse_logs parse_log parse_block property
    as_hash as_address as_hex_bytes as_topics is_transfer_log transfer_from_log transfer_arguments
    topic_address report presence_checks transaction_checks block_checks status_check select_logs
    transfer_log_checks log_count_checks transfer_of transfer_checks log_checks value
verified_spend = refl
