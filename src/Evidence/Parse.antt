-- ===== src/Evidence/Parse.antt =====
-- packages/transaction-pipeline/src/chain-evidence.ts: parseTransaction, parseReceipt, parseLog,
-- parseBlock and transferFromLog.
use crip_wallet.Base.{
  ℕ, Bool, true, false, ◌&&◌, List, [], ◌∷◌, ◌++◌, length, ◌==◌, Option, none, some, if◌then◌else◌,
}
use crip_wallet.Schemas.Money.{Text, units}
use crip_wallet.Schemas.Common.{same_text, evm_hash}
use crip_wallet.Transfer.Slices.{take, drop}
use crip_wallet.Transfer.Digits.{decimal}
use crip_wallet.Transfer.Words.{hex_value}
use crip_wallet.Evidence.{
  ParsedChainTransaction, ParsedReceipt, ParsedBlock, ParsedLog, VerifiedTransferLogEvidence,
}
use crip_wallet.Evidence.Unknown.{
  Unknown, undefined, Items, no_items, item, property, ◌>>=◌, as_record, as_array, as_text,
  as_atomic, as_boolean, as_hash, as_address, as_hex_bytes, count_items, as_topics, address_pattern,
}

-- `transactionIndex`, which may be left out
abbrev as_index : Unknown → Option (Option ℕ)
as_index undefined = some none
as_index v = do n ← as_atomic v; some (some n)

-- `parseTransaction`
unfoldable pub parse_transaction : Unknown → Option ParsedChainTransaction
parse_transaction v = do
  m ← as_record v
  hash ← as_hash (property (units "hash") m)
  chain_id ← as_atomic (property (units "chainId") m)
  block_hash ← as_hash (property (units "blockHash") m)
  block_number ← as_atomic (property (units "blockNumber") m)
  index ← as_index (property (units "transactionIndex") m)
  from ← as_address (property (units "from") m)
  to ← as_address (property (units "to") m)
  value ← as_atomic (property (units "value") m)
  input ← as_hex_bytes (property (units "input") m)
  nonce ← as_atomic (property (units "nonce") m)
  kind ← as_text (property (units "type") m)
  gas ← as_atomic (property (units "gas") m)
  priority ← as_atomic (property (units "maxPriorityFeePerGas") m)
  fee ← as_atomic (property (units "maxFeePerGas") m)
  access ← as_array (property (units "accessList") m)
  some (record {
    hash = hash;
    chain_id = chain_id;
    block_hash = block_hash;
    block_number = block_number;
    transaction_index = index;
    from = from;
    to = to;
    value = value;
    input = input;
    nonce = nonce;
    transaction_type = kind;
    gas = gas;
    max_priority_fee_per_gas = priority;
    max_fee_per_gas = fee;
    access_list_length = count_items access;
  })

-- `parseLog`
unfoldable pub parse_log : Unknown → Option ParsedLog
parse_log v = do
  m ← as_record v
  items ← as_array (property (units "topics") m)
  address ← as_address (property (units "address") m)
  topics ← as_topics items
  payload ← as_hex_bytes (property (units "data") m)
  log_index ← as_atomic (property (units "logIndex") m)
  transaction_hash ← as_hash (property (units "transactionHash") m)
  block_hash ← as_hash (property (units "blockHash") m)
  block_number ← as_atomic (property (units "blockNumber") m)
  removed ← as_boolean (property (units "removed") m)
  some (record {
    address = address;
    topics = topics;
    payload = payload;
    log_index = log_index;
    transaction_hash = transaction_hash;
    block_hash = block_hash;
    block_number = block_number;
    removed = removed;
  })

-- The logs that parse, and whether one does not
unfoldable pub parse_logs : Items → List ParsedLog × Bool
parse_logs no_items = ([], false)
parse_logs (item x xs) =
    let (logs, malformed) = parse_logs xs in
    elim (parse_log x) [ none ↦ (logs, true) | some l ↦ (l ∷ logs, malformed) ]

-- `parseReceipt`
unfoldable pub parse_receipt : Unknown → Option ParsedReceipt
parse_receipt v = do
  m ← as_record v
  items ← as_array (property (units "logs") m)
  transaction_hash ← as_hash (property (units "transactionHash") m)
  block_hash ← as_hash (property (units "blockHash") m)
  block_number ← as_atomic (property (units "blockNumber") m)
  status ← as_text (property (units "status") m)
  gas_used ← as_atomic (property (units "gasUsed") m)
  price ← as_atomic (property (units "effectiveGasPrice") m)
  some (record {
    transaction_hash = transaction_hash;
    block_hash = block_hash;
    block_number = block_number;
    status = status;
    gas_used = gas_used;
    effective_gas_price = price;
    logs = (parse_logs items).0;
    malformed_logs = (parse_logs items).1;
  })

-- `parseBlock`
unfoldable pub parse_block : Unknown → Option ParsedBlock
parse_block v = do
  m ← as_record v
  number ← as_atomic (property (units "number") m)
  hash ← as_hash (property (units "hash") m)
  some (record { number = number; hash = hash })

-- `TRANSFER_EVENT_SIGNATURE`
abbrev pub transfer_event_signature : Text
transfer_event_signature =
    units "0xddf252ad1be2c89b69c2b068fc378daa952ba7f163c4a11628f55a4df523b3ef"

-- `log.topics[0] === TRANSFER_EVENT_SIGNATURE`
unfoldable pub is_transfer_log : ParsedLog → Bool
is_transfer_log l = elim (l.topics) [ [] ↦ false | t ∷ _ ↦ same_text t transfer_event_signature ]

-- `topicAddress`
unfoldable pub topic_address : Text → Option Text
topic_address topic =
    if same_text (take 26 topic) (units "0x000000000000000000000000")
      && address_pattern (units "0x" ++ drop 26 topic)
    then some (units "0x" ++ drop 26 topic)
    else none

-- The arguments of a log with three topics
unfoldable pub transfer_arguments : ParsedLog → List Text → Option VerifiedTransferLogEvidence
transfer_arguments l (s ∷ a ∷ b ∷ []) = do
  from ← topic_address a
  to ← topic_address b
  if length l.payload == 66 && evm_hash l.payload
      then some (record {
        log_index = decimal l.log_index;
        token_address = l.address;
        from = from;
        to = to;
        amount_atomic = decimal (hex_value (drop 2 l.payload));
      })
      else none
transfer_arguments l topics = none

-- `transferFromLog`
unfoldable pub transfer_from_log : ParsedLog → Option VerifiedTransferLogEvidence
transfer_from_log l = if is_transfer_log l then transfer_arguments l l.topics else none
