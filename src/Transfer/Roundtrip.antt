-- ===== src/Transfer/Roundtrip.antt =====
-- packages/transaction-pipeline: what is constructed, decoded and verified is the intended transfer.
use crip_wallet.Base.{◌≡◌, ◌↔◌, refl, sym, ap, subst, ◌∙◌, some}
use crip_wallet.Base.Ensures.{Result, ok}
use crip_wallet.Schemas.Common.{same_text}
use crip_wallet.Schemas.Intent.{CommonIntent, Transfer, transfer}
use crip_wallet.Transfer.Values.{text, scalar, own}
use crip_wallet.Transfer.Candidate.{
  DecodedTransfer, DecodeFailureCode, TrustedExecutionContext, TransferCoreCandidate,
  candidate_fields,
}
use crip_wallet.Transfer.Encoding.{IsAbiEncoder}
use crip_wallet.Transfer.Decode.{decode_transfer_independent}
use crip_wallet.Transfer.Construct.{
  Encoder, build_provenance, transfer_candidate, construct_transfer_core,
}
use crip_wallet.Transfer.Verify.{Fields, verify_transfer_core}
use crip_wallet.Transfer.Checks.{same_record-provenance, candidate-has_exact_keys}
use crip_wallet.Transfer.Decoding.{intended, decode-intended}
use crip_wallet.Transfer.Constructing.{
  intended_candidate, construct_transfer_core_iff, IsConstructible,
}
use crip_wallet.Transfer.Comparing.{
  verify_parts, verify_decoded_iff, fields_sound, fields_complete, IsVerified,
}

-- verifyTransferCore accepts a candidate exactly where the intent is canonical, the context is
-- trusted, the supplied decoding is the intended transfer, and the candidate has exactly the keys
-- of a candidate, with the documented calldata of the intended transfer and every other field as
-- the intent and the context say; it then gives the candidate itself.
pub verify_transfer_core_iff :
    (c : CommonIntent) (t : Transfer) (f g : Fields) (d : Result DecodeFailureCode DecodedTransfer)
    (trusted : TrustedExecutionContext)
    → (verify_transfer_core (transfer c t) (some f) d trusted ≡ ok g)
      ↔ (IsVerified c t f trusted × (d ≡ ok (intended t)) × (g ≡ f))
verify_transfer_core_iff c t f g d trusted = (
  λ h.
      let (canonical, context, exact_keys, rest) = (verify_parts c t f g d trusted).0 h in
      let (actual, decoded, supplied, fields) = (verify_decoded_iff c t f g d _ trusted).0 rest in
      let (verified, same, result) =
        fields_sound c t f g actual trusted canonical context exact_keys decoded fields in
      (verified, supplied ∙ ap ok same, result),
  λ (v, supplied, result). (verify_parts c t f g d trusted).1 (
    v.canonical,
    v.context,
    v.exact_keys,
    (verify_decoded_iff c t f g d _ trusted).1 (
      intended t,
      ap decode_transfer_independent v.calldata ∙ decode-intended c t v.canonical,
      supplied,
      fields_complete c t f trusted v ∙ ap ok (sym result),
    ),
  ),
)

intended-IsVerified :
    (c : CommonIntent) (t : Transfer) (trusted : TrustedExecutionContext)
    → IsConstructible c t trusted
    → IsVerified c t (candidate_fields (intended_candidate c t trusted)) trusted
unfolding candidate_fields transfer_candidate own same_text
intended-IsVerified c t trusted v = record {
  canonical = v.canonical;
  context = v.context;
  exact_keys = candidate-has_exact_keys (intended_candidate c t trusted);
  calldata = refl;
  provenance = same_record-provenance (build_provenance c trusted);
  action = refl;
  selector = refl;
  chain = refl;
  intent_chain = v.chain;
  sender = refl;
  target = refl;
  asset = v.asset;
  native_value = refl;
  recipient = refl;
  amount = refl;
  nonce_strategy = refl;
  fixture = refl;
}

-- Where constructTransferCore gives a candidate, with an encoder that does what it documents, its
-- calldata decodes, and verifyTransferCore accepts the candidate with that decoding unchanged.
pub verify_transfer_core-construct :
    (encode : Encoder) (c : CommonIntent) (t : Transfer) (trusted : TrustedExecutionContext)
    (k : TransferCoreCandidate)
    → IsAbiEncoder encode
    → construct_transfer_core encode (transfer c t) trusted ≡ ok k
    → verify_transfer_core
        (transfer c t)
        (some (candidate_fields k))
        (decode_transfer_independent (some (scalar (text k.calldata))))
        trusted
      ≡ ok (candidate_fields k)
unfolding transfer_candidate
verify_transfer_core-construct encode c t trusted k abi h =
    let (v, same) = (construct_transfer_core_iff encode c t trusted k abi).0 h in
    subst
      (λ (m : TransferCoreCandidate).
        verify_transfer_core (transfer c t) (some (candidate_fields m))
          (decode_transfer_independent (some (scalar (text m.calldata)))) trusted
        ≡ ok (candidate_fields m))
      (sym same)
      ((verify_transfer_core_iff c t _ _ _ trusted).1
        (intended-IsVerified c t trusted v, decode-intended c t v.canonical, refl))
