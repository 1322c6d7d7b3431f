-- ===== src/Transfer/Candidate.antt =====
-- packages/transaction-pipeline/src/candidate.ts: the data of the transfer core.
use crip_wallet.Base.{ℕ, List, [], ◌∷◌, ◌++◌, Option, none, some}
use crip_wallet.Schemas.Money.{Text, units}
use crip_wallet.Transfer.Values.{Scalar, text, number, Value, scalar, dictionary}

-- The part of the provenance that the trusted context may add
pub record TrustedProvenance : Type 0 where
  pub operation_id : Option Text
  pub policy_id : Option Text
  pub policy_version : Option ℕ
  pub policy_decision_hash : Option Text

pub record TransferCoreProvenance : Type 0 where
  pub intent_id : Text
  pub agent_id : Text
  pub wallet_id : Text
  pub trusted : TrustedProvenance

pub record TrustedExecutionContext : Type 0 where
  pub wallet_address : Text
  pub token_address : Text
  pub chain_id : Text
  pub fixture_instance_id : Text
  pub provenance : Option TrustedProvenance

pub record TransferCoreCandidate : Type 0 where
  pub action : Text
  pub chain_id : Text
  pub sender : Text
  pub target : Text
  pub native_value : Text
  pub calldata : Text
  pub selector : Text
  pub recipient : Text
  pub amount_atomic : Text
  pub nonce_strategy : Text
  pub fixture_instance_id : Text
  pub provenance : TransferCoreProvenance

pub record DecodedTransfer : Type 0 where
  pub selector : Text
  pub recipient : Text
  pub amount_atomic : Text

pub data DecodeFailureCode : Type 0 where
  malformed_hex invalid_length trailing_data unknown_selector non_canonical_address_padding
        invalid_uint256 :
      DecodeFailureCode

pub data VerificationFailureCode : Type 0 where
  invalid_intent invalid_trusted_context invalid_candidate calldata_mismatch action_mismatch
        selector_mismatch chain_mismatch sender_mismatch target_mismatch native_value_mismatch
        recipient_mismatch amount_mismatch nonce_strategy_mismatch fixture_mismatch
        provenance_mismatch :
      VerificationFailureCode
  decode_failed : DecodeFailureCode → VerificationFailureCode

-- `TRANSFER_SELECTOR`
abbrev pub transfer_selector : Text
transfer_selector = units "0xa9059cbb"

-- `LOCAL_CHAIN_ID`
abbrev pub local_chain_id : Text
local_chain_id = units "eip155:31337"

-- `STATIC_NONCE_STRATEGY`
abbrev pub static_nonce_strategy : Text
static_nonce_strategy = units "pending"

abbrev optional_text : Text → Option Text → List (Text × Scalar)
optional_text key none = []
optional_text key (some t) = (key, text t) ∷ []

abbrev optional_number : Text → Option ℕ → List (Text × Scalar)
optional_number key none = []
optional_number key (some n) = (key, number n) ∷ []

-- A provenance as the object that the code builds
unfoldable pub provenance_fields : TransferCoreProvenance → List (Text × Scalar)
provenance_fields p =
    (units "intentId", text p.intent_id)
    ∷ (units "agentId", text p.agent_id)
    ∷ (units "walletId", text p.wallet_id)
    ∷ (optional_text (units "operationId") p.trusted.operation_id
        ++ optional_text (units "policyId") p.trusted.policy_id
        ++ optional_number (units "policyVersion") p.trusted.policy_version
        ++ optional_text (units "policyDecisionHash") p.trusted.policy_decision_hash)

abbrev text_field : Text → Text → Text × Value
text_field key t = (key, scalar (text t))

-- A candidate as the object that the code builds
unfoldable pub candidate_fields : TransferCoreCandidate → List (Text × Value)
candidate_fields c =
    text_field (units "action") c.action
    ∷ text_field (units "chainId") c.chain_id
    ∷ text_field (units "from") c.sender
    ∷ text_field (units "target") c.target
    ∷ text_field (units "nativeValue") c.native_value
    ∷ text_field (units "calldata") c.calldata
    ∷ text_field (units "selector") c.selector
    ∷ text_field (units "recipient") c.recipient
    ∷ text_field (units "amountAtomic") c.amount_atomic
    ∷ text_field (units "nonceStrategy") c.nonce_strategy
    ∷ text_field (units "fixtureInstanceId") c.fixture_instance_id
    ∷ (units "provenance", dictionary (provenance_fields c.provenance))
    ∷ []
