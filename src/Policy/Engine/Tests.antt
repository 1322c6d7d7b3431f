-- ===== src/Policy/Engine/Tests.antt =====
-- Tests of packages/policy-engine/src/index.ts on one policy, and instances of its theorems.
use crip_wallet.Base.{◌≡◌, ◌≢◌, ◌↔◌, ◌⊎◌, refl, [], ◌∷◌, Any, none, some}
use crip_wallet.Schemas.Money.{
  Text, units, canonical_atomic, is_within_uint256, atomic_unit, positive_atomic_unit, text_compare,
  maximum_uint256_decimal,
}
use crip_wallet.Schemas.Common.{canonical_identifier, identifier_pattern, hex_pattern}
use crip_wallet.Schemas.Grade.{control_plane}
use crip_wallet.Schemas.Intent.{
  chain_id, CommonIntent, Transfer, Intent, read_state, transfer, common_shape, transfer_shape,
  lifetime_shape, canonical_intent,
}
use crip_wallet.Schemas.PolicyContract.{
  Policy, PolicyMode, PolicyStatus, wallet_read_state, asset_transfer, policy_schema,
}
use crip_wallet.Policy.Rules.{Context, indeterminate_rule}
use crip_wallet.Policy.Engine.{
  RawPolicy, RawIntent, RawContext, parse_policy, parse_intent, parse_context, Payload, deny,
  indeterminate_verdict, evaluate_policy,
}
use crip_wallet.Policy.Engine.Rules.{SubjectAllowed, TransferAllowed}
use crip_wallet.Policy.Engine.Verdicts.{
  Granted, evaluate_transfer_iff, evaluate_read_iff, evaluate_fails_closed,
}

abbrev no_hash : Payload → Text
no_hash p = units "0x"

abbrev chain : Text
chain = units "eip155:31337"

abbrev pub token : Text
token = units "0x1111111111111111111111111111111111111111"

abbrev pub payee : Text
payee = units "0x2222222222222222222222222222222222222222"

abbrev sample_policy : Policy
sample_policy = record {
  policy_id = units "policy_1";
  version = 1;
  status = PolicyStatus.active;
  agent_id = units "agent_1";
  wallet_id = units "wallet_1";
  mode = PolicyMode.autonomous_within_policy;
  not_before = 100;
  expires_at = 1000;
  chains = chain ∷ [];
  assets = record { chain_id = chain; address = token } ∷ [];
  recipients = payee ∷ [];
  actions = asset_transfer ∷ wallet_read_state ∷ [];
  total_asset_address = token;
  total_atomic = units "1000";
  per_transaction_atomic = units "300";
  maximum_per_transaction_fee = units "50";
  minimum_budget_grade = control_plane;
  minimum_recipient_grade = control_plane;
}

abbrev pub sample_common : CommonIntent
sample_common = record {
  intent_id = units "intent_1";
  idempotency_key = units "key_1";
  agent_id = units "agent_1";
  wallet_id = units "wallet_1";
  chain_id = chain;
  objective = units "pay";
  not_before = 100;
  expires_at = 700;
  external_reference = none;
}

abbrev pub sample_transfer : Transfer
sample_transfer = record {
  asset_address = token;
  symbol_hint = none;
  decimals_hint = none;
  amount_atomic = units "250";
  display_hint = none;
  recipient = payee;
  maximum_network_fee = units "21";
}

abbrev sample_context : Context
sample_context = record {
  evaluated_at = 200;
  total_spent_atomic = units "700";
  budget_grade = control_plane;
  recipient_grade = control_plane;
}

unfoldable pub schemas : Unit {0}
unfolding policy_schema canonical_intent common_shape transfer_shape lifetime_shape chain_id
    canonical_identifier identifier_pattern hex_pattern atomic_unit positive_atomic_unit
    is_within_uint256 canonical_atomic text_compare maximum_uint256_decimal
schemas = tt

evaluate_transfer_iff_example :
    ((evaluate_policy no_hash
        (RawPolicy.shaped sample_policy)
        (RawIntent.shaped (transfer sample_common sample_transfer))
        (RawContext.shaped sample_context)).decision
      ≢ deny)
    ↔ (SubjectAllowed sample_policy sample_common sample_context
        × TransferAllowed sample_policy sample_common sample_transfer sample_context)
unfolding schemas
evaluate_transfer_iff_example =
    evaluate_transfer_iff no_hash sample_policy sample_common sample_transfer sample_context refl
      refl refl

evaluate_read_iff_example :
    ((evaluate_policy no_hash
        (RawPolicy.shaped sample_policy)
        (RawIntent.shaped (read_state sample_common))
        (RawContext.shaped sample_context)).decision
      ≢ deny)
    ↔ (SubjectAllowed sample_policy sample_common sample_context
        × Any (λ a. wallet_read_state ≡ a) sample_policy.actions)
unfolding schemas
evaluate_read_iff_example =
    evaluate_read_iff no_hash sample_policy sample_common sample_context refl refl refl

evaluate_fails_closed_example :
    let d =
      evaluate_policy no_hash
        (RawPolicy.shaped sample_policy)
        (RawIntent.shaped (transfer sample_common sample_transfer))
        (RawContext.shaped sample_context) in
    (d.decision ≢ indeterminate_verdict)
    × ((parse_policy (RawPolicy.shaped sample_policy) ≡ none)
          ⊎ (parse_intent (RawIntent.shaped (transfer sample_common sample_transfer)) ≡ none)
          ⊎ (parse_context (RawContext.shaped sample_context) ≡ none)
        → (d.decision ≡ deny) × (d.rules ≡ indeterminate_rule "input.contract" ∷ []))
    × (d.decision ≢ deny
        → (p : Policy) × (i : Intent) × (c : Context) × (parse_policy
              (RawPolicy.shaped sample_policy)
            ≡ some p)
          × (parse_intent (RawIntent.shaped (transfer sample_common sample_transfer)) ≡ some i)
          × (parse_context (RawContext.shaped sample_context) ≡ some c)
          × Granted p i d.decision)
evaluate_fails_closed_example =
    evaluate_fails_closed no_hash (RawPolicy.shaped sample_policy)
      (RawIntent.shaped (transfer sample_common sample_transfer)) (RawContext.shaped sample_context)
