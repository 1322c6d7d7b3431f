-- ===== src/Transfer/Verify.antt =====
-- packages/transaction-pipeline/src/verify-transfer.ts: a candidate is checked against the intent.
use crip_wallet.Base.{
  Bool, false, not, ◌&&◌, ◌||◌, List, [], ◌∷◌, Option, none, some, if◌then◌else◌,
}
use crip_wallet.Base.Ensures.{Result, ok, err}
use crip_wallet.Schemas.Money.{Text, units}
use crip_wallet.Schemas.Common.{same_text}
use crip_wallet.Schemas.Intent.{
  CommonIntent, Transfer, Intent, read_state, transfer, canonical_intent,
}
use crip_wallet.Transfer.Values.{Value, own, is_text, has_exact_keys, same_record}
use crip_wallet.Transfer.Candidate.{
  TrustedExecutionContext, DecodedTransfer, DecodeFailureCode, VerificationFailureCode,
  invalid_intent, invalid_trusted_context, invalid_candidate, calldata_mismatch, action_mismatch,
  selector_mismatch, chain_mismatch, sender_mismatch, target_mismatch, native_value_mismatch,
  recipient_mismatch, amount_mismatch, nonce_strategy_mismatch, fixture_mismatch,
  provenance_mismatch, decode_failed, transfer_selector, local_chain_id, static_nonce_strategy,
  provenance_fields,
}
use crip_wallet.Transfer.Decode.{decode_transfer_independent}
use crip_wallet.Transfer.Construct.{is_trusted_context, optional_provenance, build_provenance}

-- An untrusted object: its own keys with their values
abbrev pub Fields : Type 0
Fields = List (Text × Value)

-- The keys of a candidate, sorted
abbrev pub candidate_keys : List Text
candidate_keys =
    units "action"
    ∷ units "amountAtomic"
    ∷ units "calldata"
    ∷ units "chainId"
    ∷ units "fixtureInstanceId"
    ∷ units "from"
    ∷ units "nativeValue"
    ∷ units "nonceStrategy"
    ∷ units "provenance"
    ∷ units "recipient"
    ∷ units "selector"
    ∷ units "target"
    ∷ []

-- `isTrusted`
unfoldable pub is_trusted : TrustedExecutionContext → Bool
is_trusted t = is_trusted_context t && optional_provenance t.provenance

-- `sameDecoded`
unfoldable pub same_decoded : Result DecodeFailureCode DecodedTransfer → DecodedTransfer → Bool
same_decoded (err e) actual = false
same_decoded (ok d) actual =
    same_text d.selector actual.selector
    && (same_text d.recipient actual.recipient && same_text d.amount_atomic actual.amount_atomic)

-- The comparisons with the intent and the context, in the order of the code
unfoldable pub verify_fields :
    CommonIntent
    → Transfer
    → Fields
    → DecodedTransfer
    → TrustedExecutionContext
    → Result VerificationFailureCode Fields
verify_fields c t candidate actual trusted =
    if not (
      same_record (own (units "provenance") candidate)
        (provenance_fields (build_provenance c trusted)))
    then err provenance_mismatch
    else if not (is_text (own (units "action") candidate) (units "asset.transfer"))
    then err action_mismatch
    else if not (is_text (own (units "selector") candidate) transfer_selector)
    then err selector_mismatch
    else if not (is_text (own (units "chainId") candidate) local_chain_id)
        || not (is_text (own (units "chainId") candidate) c.chain_id)
    then err chain_mismatch
    else if not (is_text (own (units "from") candidate) trusted.wallet_address)
    then err sender_mismatch
    else if not (is_text (own (units "target") candidate) trusted.token_address)
        || not (is_text (own (units "target") candidate) t.asset_address)
    then err target_mismatch
    else if not (is_text (own (units "nativeValue") candidate) (units "0"))
    then err native_value_mismatch
    else if not (is_text (own (units "recipient") candidate) t.recipient)
        || not (same_text actual.recipient t.recipient)
    then err recipient_mismatch
    else if not (is_text (own (units "amountAtomic") candidate) t.amount_atomic)
        || not (same_text actual.amount_atomic t.amount_atomic)
    then err amount_mismatch
    else if not (is_text (own (units "nonceStrategy") candidate) static_nonce_strategy)
    then err nonce_strategy_mismatch
    else if not (is_text (own (units "fixtureInstanceId") candidate) trusted.fixture_instance_id)
    then err fixture_mismatch
    else ok candidate

unfoldable pub verify_decoded :
    CommonIntent
    → Transfer
    → Fields
    → Result DecodeFailureCode DecodedTransfer
    → TrustedExecutionContext
    → Result DecodeFailureCode DecodedTransfer
    → Result VerificationFailureCode Fields
verify_decoded c t candidate decoded trusted (err e) = err (decode_failed e)
verify_decoded c t candidate decoded trusted (ok actual) =
    if not (same_decoded decoded actual)
    then err calldata_mismatch
    else verify_fields c t candidate actual trusted

-- The candidate is an object with exactly the keys of a candidate.
unfoldable pub verify_candidate :
    CommonIntent
    → Transfer
    → Option Fields
    → Result DecodeFailureCode DecodedTransfer
    → TrustedExecutionContext
    → Result VerificationFailureCode Fields
verify_candidate c t none decoded trusted = err invalid_candidate
verify_candidate c t (some candidate) decoded trusted =
    if not (has_exact_keys candidate candidate_keys)
    then err invalid_candidate
    else verify_decoded c t candidate decoded trusted
        (decode_transfer_independent (own (units "calldata") candidate))

unfoldable pub verify_intent :
    Intent
    → Option Fields
    → Result DecodeFailureCode DecodedTransfer
    → TrustedExecutionContext
    → Result VerificationFailureCode Fields
verify_intent (read_state c) candidate decoded trusted = err invalid_intent
verify_intent (transfer c t) candidate decoded trusted =
    if not (is_trusted trusted)
    then err invalid_trusted_context
    else verify_candidate c t candidate decoded trusted

-- `verifyTransferCore`; a candidate that is no object is `none`.
unfoldable pub verify_transfer_core :
    Intent
    → Option Fields
    → Result DecodeFailureCode DecodedTransfer
    → TrustedExecutionContext
    → Result VerificationFailureCode Fields
unfolding verify_intent
verify_transfer_core intent candidate decoded trusted =
    if not (canonical_intent intent)
    then err invalid_intent
    else verify_intent intent candidate decoded trusted
