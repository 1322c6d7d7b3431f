-- ===== src/Transfer/Construct.antt =====
-- packages/transaction-pipeline/src/construct-transfer.ts: a transfer intent becomes a candidate.
-- The encoder of the application binary interface is a library's: it is the parameter `encode`,
-- which gives the calldata of `transfer(to, amount)`, or nothing where the library throws.
use crip_wallet.Base.{ℕ, Bool, true, not, ◌&&◌, ◌||◌, ltb, leb, Option, none, some, if◌then◌else◌}
use crip_wallet.Base.Ensures.{Result, ok, err}
use crip_wallet.Schemas.Money.{Text, units}
use crip_wallet.Schemas.Money.Decimal.{value}
use crip_wallet.Schemas.Common.{same_text, canonical_identifier, evm_hash}
use crip_wallet.Schemas.Intent.{
  CommonIntent, Transfer, Intent, read_state, transfer, evm_address, optionally, canonical_intent,
}
use crip_wallet.Transfer.Candidate.{
  TrustedProvenance, TransferCoreProvenance, TrustedExecutionContext, TransferCoreCandidate,
  transfer_selector, local_chain_id, static_nonce_strategy,
}

abbrev pub Encoder : Type 0
Encoder = Text → ℕ → Option Text

-- What `constructTransferCore` throws; the last is the encoder's own error.
pub data ConstructionError : Type 0 where
  not_a_transfer invalid_trusted_context invalid_provenance context_mismatch encoding_failed :
      ConstructionError

-- `Number.MAX_SAFE_INTEGER`
abbrev max_safe_integer : ℕ
max_safe_integer = 9007199254740991

unfoldable policy_version_shape : Option ℕ → Bool
policy_version_shape none = true
policy_version_shape (some n) = leb n max_safe_integer && ltb 0 n

-- The tests on the provenance that the trusted context adds
unfoldable pub is_trusted_provenance : TrustedProvenance → Bool
unfolding policy_version_shape
is_trusted_provenance p =
    optionally canonical_identifier p.operation_id
    && (optionally canonical_identifier p.policy_id
        && (policy_version_shape p.policy_version && optionally evm_hash p.policy_decision_hash))

-- The tests on the other fields of the trusted context
unfoldable pub is_trusted_context : TrustedExecutionContext → Bool
is_trusted_context t =
    same_text t.chain_id local_chain_id
    && (evm_address t.wallet_address
        && (evm_address t.token_address && canonical_identifier t.fixture_instance_id))

abbrev pub no_provenance : TrustedProvenance
no_provenance = record {
  operation_id = none;
  policy_id = none;
  policy_version = none;
  policy_decision_hash = none;
}

-- `trusted.provenance ?? {}`
abbrev pub provenance_or_empty : Option TrustedProvenance → TrustedProvenance
provenance_or_empty none = no_provenance
provenance_or_empty (some p) = p

-- `buildProvenance`
unfoldable pub build_provenance : CommonIntent → TrustedExecutionContext → TransferCoreProvenance
build_provenance c trusted = record {
  intent_id = c.intent_id;
  agent_id = c.agent_id;
  wallet_id = c.wallet_id;
  trusted = provenance_or_empty trusted.provenance;
}

-- An absent provenance has no field to test.
abbrev pub optional_provenance : Option TrustedProvenance → Bool
optional_provenance none = true
optional_provenance (some p) = is_trusted_provenance p

-- `validateTrusted`
unfoldable pub validate_trusted : TrustedExecutionContext → Result ConstructionError (Unit {0})
validate_trusted t =
    if not (is_trusted_context t)
    then err invalid_trusted_context
    else if not (optional_provenance t.provenance)
    then err invalid_provenance
    else ok tt

unfoldable pub transfer_candidate :
    CommonIntent → Transfer → TrustedExecutionContext → Text → TransferCoreCandidate
transfer_candidate c t trusted calldata = record {
  action = units "asset.transfer";
  chain_id = local_chain_id;
  sender = trusted.wallet_address;
  target = trusted.token_address;
  native_value = units "0";
  calldata = calldata;
  selector = transfer_selector;
  recipient = t.recipient;
  amount_atomic = t.amount_atomic;
  nonce_strategy = static_nonce_strategy;
  fixture_instance_id = trusted.fixture_instance_id;
  provenance = build_provenance c trusted;
}

unfoldable pub encoded_candidate :
    CommonIntent
    → Transfer
    → TrustedExecutionContext
    → Option Text
    → Result ConstructionError TransferCoreCandidate
encoded_candidate c t trusted none = err encoding_failed
encoded_candidate c t trusted (some calldata) = ok (transfer_candidate c t trusted calldata)

unfoldable pub construct_transfer :
    Encoder
    → CommonIntent
    → Transfer
    → TrustedExecutionContext
    → Result ConstructionError TransferCoreCandidate
unfolding encoded_candidate
construct_transfer encode c t trusted = elim (validate_trusted trusted) [
  | err e ↦ err e
  | ok done ↦
      if not (same_text c.chain_id local_chain_id)
        || not (same_text t.asset_address trusted.token_address)
      then err context_mismatch
      else encoded_candidate c t trusted (encode t.recipient (value t.amount_atomic))
]

unfoldable pub construct_intent :
    Encoder → Intent → TrustedExecutionContext → Result ConstructionError TransferCoreCandidate
unfolding construct_transfer
construct_intent encode (read_state c) trusted = err not_a_transfer
construct_intent encode (transfer c t) trusted = construct_transfer encode c t trusted

-- `constructTransferCore`
unfoldable pub construct_transfer_core :
    Encoder → Intent → TrustedExecutionContext → Result ConstructionError TransferCoreCandidate
unfolding construct_intent
construct_transfer_core encode intent trusted =
    if not (canonical_intent intent)
    then err not_a_transfer
    else construct_intent encode intent trusted
