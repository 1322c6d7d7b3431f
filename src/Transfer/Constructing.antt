-- ===== src/Transfer/Constructing.antt =====
-- packages/transaction-pipeline/src/construct-transfer.ts: which candidates are constructed.
use crip_wallet.Base.{◌≡◌, ◌↔◌, true, Option, none, some, arith}
use crip_wallet.Base.Ensures.{ok}
use crip_wallet.Schemas.Money.{Text}
use crip_wallet.Schemas.Money.Decimal.{value}
use crip_wallet.Schemas.Money.Bounds.{atomic_unit_iff}
use crip_wallet.Schemas.Common.{same_text_iff}
use crip_wallet.Schemas.Intent.{CommonIntent, Transfer, transfer, canonical_intent}
use crip_wallet.Transfer.Candidate.{TrustedExecutionContext, TransferCoreCandidate, local_chain_id}
use crip_wallet.Transfer.Encoding.{transfer_data, IsAbiEncoder}
use crip_wallet.Transfer.Construct.{
  Encoder, validate_trusted, transfer_candidate, construct_transfer_core, construct_intent,
  construct_transfer, encoded_candidate,
}
use crip_wallet.Transfer.Verify.{is_trusted}
use crip_wallet.Transfer.Decoding.{intent_texts}

-- What `constructTransferCore` asks of a transfer intent and of its context
pub record IsConstructible (c : CommonIntent) (t : Transfer) (trusted : TrustedExecutionContext)
    : Type 0 where
  pub canonical : canonical_intent (transfer c t) ≡ true
  pub context : is_trusted trusted ≡ true
  pub chain : c.chain_id ≡ local_chain_id
  pub asset : t.asset_address ≡ trusted.token_address

validate_trusted_iff :
    (trusted : TrustedExecutionContext)
    → (validate_trusted trusted ≡ ok tt) ↔ (is_trusted trusted ≡ true)
unfolding validate_trusted is_trusted
validate_trusted_iff trusted = ground arith

-- The candidate of a transfer, with the documented calldata
abbrev pub intended_candidate :
    CommonIntent → Transfer → TrustedExecutionContext → TransferCoreCandidate
intended_candidate c t trusted =
    transfer_candidate c t trusted (transfer_data t.recipient (value t.amount_atomic))

encode_intended :
    (encode : Encoder) (c : CommonIntent) (t : Transfer)
    → IsAbiEncoder encode
    → canonical_intent (transfer c t) ≡ true
    → encode t.recipient (value t.amount_atomic)
      ≡ some (transfer_data t.recipient (value t.amount_atomic))
encode_intended encode c t abi h =
    let (address, amount) = intent_texts c t h in
    abi t.recipient (value t.amount_atomic) address ((atomic_unit_iff t.amount_atomic).0 amount).1

encoded_iff :
    (c : CommonIntent) (t : Transfer) (trusted : TrustedExecutionContext) (o : Option Text)
    (k : TransferCoreCandidate) (calldata : Text)
    → o ≡ some calldata
    → (encoded_candidate c t trusted o ≡ ok k) ↔ (k ≡ transfer_candidate c t trusted calldata)
unfolding encoded_candidate
encoded_iff c t trusted none k calldata e = absurd (cc)
encoded_iff c t trusted (some s) k calldata e = (λ h. ground arith, λ h. ground arith)

construct_parts :
    (encode : Encoder) (c : CommonIntent) (t : Transfer) (trusted : TrustedExecutionContext)
    (k : TransferCoreCandidate)
    → (construct_transfer_core encode (transfer c t) trusted ≡ ok k) ↔ (
        (canonical_intent (transfer c t) ≡ true)
        × (is_trusted trusted ≡ true)
        × (c.chain_id ≡ local_chain_id)
        × (t.asset_address ≡ trusted.token_address)
        × (encoded_candidate c t trusted (encode t.recipient (value t.amount_atomic)) ≡ ok k))
unfolding construct_transfer_core construct_intent construct_transfer
construct_parts encode c t trusted k = ground (
  arith,
  validate_trusted_iff trusted,
  same_text_iff c.chain_id local_chain_id,
  same_text_iff t.asset_address trusted.token_address,
)

-- With an encoder that does what it documents, constructTransferCore succeeds on a transfer intent
-- exactly where the intent is canonical, the context is trusted and they agree on the local chain
-- and on the token, and it then gives the candidate of the documented calldata.
pub construct_transfer_core_iff :
    (encode : Encoder) (c : CommonIntent) (t : Transfer) (trusted : TrustedExecutionContext)
    (k : TransferCoreCandidate)
    → IsAbiEncoder encode
    → (construct_transfer_core encode (transfer c t) trusted ≡ ok k)
      ↔ (IsConstructible c t trusted × (k ≡ intended_candidate c t trusted))
construct_transfer_core_iff encode c t trusted k abi = (
  λ h.
      let (canonical, context, chain, asset, candidate) =
        (construct_parts encode c t trusted k).0 h in
      let calldata = encode_intended encode c t abi canonical in
      (
        record { canonical = canonical; context = context; chain = chain; asset = asset },
        (encoded_iff c t trusted _ k _ calldata).0 candidate,
      ),
  λ (v, e). (construct_parts encode c t trusted k).1 (
    v.canonical,
    v.context,
    v.chain,
    v.asset,
    (encoded_iff c t trusted _ k _ (encode_intended encode c t abi v.canonical)).1 e,
  ),
)
