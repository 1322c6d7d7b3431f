-- ===== src/Transfer/Comparing.antt =====
-- packages/transaction-pipeline/src/verify-transfer.ts: the comparisons with intent and context.
use crip_wallet.Base.{
  ◌≡◌, ◌↔◌, refl, sym, ap, ◌∙◌, Bool, true, not, ◌||◌, Option, none, some, if◌then◌else◌, arith,
}
use crip_wallet.Base.Ensures.{Result, ok, err}
use crip_wallet.Schemas.Money.{Text, units}
use crip_wallet.Schemas.Money.Decimal.{value}
use crip_wallet.Schemas.Common.{same_text_iff}
use crip_wallet.Schemas.Intent.{CommonIntent, Transfer, transfer, canonical_intent}
use crip_wallet.Transfer.Values.{
  text, number, other, Value, scalar, dictionary, is_text_lem, own, has_exact_keys, same_record,
}
use crip_wallet.Transfer.Candidate.{
  DecodedTransfer, DecodeFailureCode, TrustedExecutionContext, action_mismatch, selector_mismatch,
  chain_mismatch, sender_mismatch, target_mismatch, native_value_mismatch, recipient_mismatch,
  amount_mismatch, nonce_strategy_mismatch, fixture_mismatch, provenance_mismatch,
  transfer_selector, local_chain_id, static_nonce_strategy, provenance_fields,
}
use crip_wallet.Transfer.Encoding.{transfer_data}
use crip_wallet.Transfer.Decode.{decode_transfer_independent}
use crip_wallet.Transfer.Construct.{build_provenance}
use crip_wallet.Transfer.Verify.{
  Fields, candidate_keys, is_trusted, same_decoded, verify_fields, verify_decoded, verify_candidate,
  verify_intent, verify_transfer_core,
}
use crip_wallet.Transfer.Checks.{is_text_iff}
use crip_wallet.Transfer.Decoding.{decode_transfer_iff, intended}

-- What `verifyTransferCore` asks of a candidate
pub record IsVerified (c : CommonIntent) (t : Transfer) (f : Fields)
    (trusted : TrustedExecutionContext) : Type 0 where
  pub canonical : canonical_intent (transfer c t) ≡ true
  pub context : is_trusted trusted ≡ true
  pub exact_keys : has_exact_keys f candidate_keys ≡ true
  pub calldata :
      own (units "calldata") f
      ≡ some (scalar (text (transfer_data t.recipient (value t.amount_atomic))))
  pub provenance :
      same_record (own (units "provenance") f) (provenance_fields (build_provenance c trusted))
      ≡ true
  pub action : own (units "action") f ≡ some (scalar (text (units "asset.transfer")))
  pub selector : own (units "selector") f ≡ some (scalar (text transfer_selector))
  pub chain : own (units "chainId") f ≡ some (scalar (text local_chain_id))
  pub intent_chain : c.chain_id ≡ local_chain_id
  pub sender : own (units "from") f ≡ some (scalar (text trusted.wallet_address))
  pub target : own (units "target") f ≡ some (scalar (text trusted.token_address))
  pub asset : t.asset_address ≡ trusted.token_address
  pub native_value : own (units "nativeValue") f ≡ some (scalar (text (units "0")))
  pub recipient : own (units "recipient") f ≡ some (scalar (text t.recipient))
  pub amount : own (units "amountAtomic") f ≡ some (scalar (text t.amount_atomic))
  pub nonce_strategy : own (units "nonceStrategy") f ≡ some (scalar (text static_nonce_strategy))
  pub fixture : own (units "fixtureInstanceId") f ≡ some (scalar (text trusted.fixture_instance_id))

module _ {F : Type 0} (p1 p2 p3 p4 p4' p5 p6 p6' p7 p8 p8' p9 p9' p10 p11 : Bool) (f g : F) where
  comparisons_iff :
      ((if not p1
          then err provenance_mismatch
          else if not p2
          then err action_mismatch
          else if not p3
          then err selector_mismatch
          else if not p4 || not p4'
          then err chain_mismatch
          else if not p5
          then err sender_mismatch
          else if not p6 || not p6'
          then err target_mismatch
          else if not p7
          then err native_value_mismatch
          else if not p8 || not p8'
          then err recipient_mismatch
          else if not p9 || not p9'
          then err amount_mismatch
          else if not p10
          then err nonce_strategy_mismatch
          else if not p11
          then err fixture_mismatch
          else ok f)
        ≡ ok g)
      ↔ ((p1 ≡ true)
          × (p2 ≡ true)
          × (p3 ≡ true)
          × (p4 ≡ true)
          × (p4' ≡ true)
          × (p5 ≡ true)
          × (p6 ≡ true)
          × (p6' ≡ true)
          × (p7 ≡ true)
          × (p8 ≡ true)
          × (p8' ≡ true)
          × (p9 ≡ true)
          × (p9' ≡ true)
          × (p10 ≡ true)
          × (p11 ≡ true)
          × (f ≡ g))
  comparisons_iff = ground arith

same_decoded_iff :
    (d : Result DecodeFailureCode DecodedTransfer) (actual : DecodedTransfer)
    → (same_decoded d actual ≡ true) ↔ (d ≡ ok actual)
unfolding same_decoded
same_decoded_iff (err e) actual = (λ h. cc, λ h. cc)
same_decoded_iff (ok d) actual = ground (
  arith,
  same_text_iff d.selector actual.selector,
  same_text_iff d.recipient actual.recipient,
  same_text_iff d.amount_atomic actual.amount_atomic,
)

pub verify_parts :
    (c : CommonIntent) (t : Transfer) (f g : Fields) (d : Result DecodeFailureCode DecodedTransfer)
    (trusted : TrustedExecutionContext)
    → (verify_transfer_core (transfer c t) (some f) d trusted ≡ ok g) ↔ (
        (canonical_intent (transfer c t) ≡ true)
        × (is_trusted trusted ≡ true)
        × (has_exact_keys f candidate_keys ≡ true)
        × (verify_decoded c t f d trusted (decode_transfer_independent (own (units "calldata") f))
            ≡ ok g))
unfolding verify_transfer_core verify_intent verify_candidate
verify_parts c t f g d trusted = ground arith

pub verify_decoded_iff :
    (c : CommonIntent) (t : Transfer) (f g : Fields)
    (d r : Result DecodeFailureCode DecodedTransfer) (trusted : TrustedExecutionContext)
    → (verify_decoded c t f d trusted r ≡ ok g) ↔ (
        (actual : DecodedTransfer) × (r ≡ ok actual)
        × (d ≡ ok actual)
        × (verify_fields c t f actual trusted ≡ ok g))
unfolding verify_decoded
verify_decoded_iff c t f g d (err e) trusted = (λ h. cc, λ (a, h, _, _). cc)
verify_decoded_iff c t f g d (ok actual) trusted = (
  λ h. (actual, refl, ground (arith, same_decoded_iff d actual), ground arith),
  λ (a, h, k, v). let same : actual ≡ a = ground arith in ground (arith, same_decoded_iff d actual),
)

decode-text :
    (v : Option Value) (d : DecodedTransfer)
    → decode_transfer_independent v ≡ ok d
    → (s : Text) × (v ≡ some (scalar (text s)))
unfolding decode_transfer_independent
decode-text none d h = cc
decode-text (some (scalar (text s))) d h = (s, refl)
decode-text (some (scalar (number n))) d h = cc
decode-text (some (scalar other)) d h = cc
decode-text (some (dictionary o)) d h = cc

entry : {s t : Text} → s ≡ t → Option.some (scalar (text s)) ≡ some (scalar (text t))
entry e = ap (λ (u : Text). some (scalar (text u))) e

same_entry : {s t : Text} → Option.some (scalar (text s)) ≡ some (scalar (text t)) → s ≡ t
same_entry e = ground arith

pub fields_sound :
    (c : CommonIntent) (t : Transfer) (f g : Fields) (actual : DecodedTransfer)
    (trusted : TrustedExecutionContext)
    → canonical_intent (transfer c t) ≡ true
    → is_trusted trusted ≡ true
    → has_exact_keys f candidate_keys ≡ true
    → decode_transfer_independent (own (units "calldata") f) ≡ ok actual
    → verify_fields c t f actual trusted ≡ ok g
    → IsVerified c t f trusted × (actual ≡ intended t) × (g ≡ f)
unfolding verify_fields
fields_sound c t f g actual trusted canonical context exact_keys decoded h =
    let (p1, p2, p3, p4, p4', p5, p6, p6', p7, p8, p8', p9, p9', p10, p11, same) =
      (comparisons_iff _ _ _ _ _ _ _ _ _ _ _ _ _ _ _ f g).0 h in
    let (input, present) = decode-text (own (units "calldata") f) actual decoded in
    let (selector, _, _, encoded) =
      (decode_transfer_iff input actual).0
        (ap decode_transfer_independent (sym present) ∙ decoded) in
    let recipient = (same_text_iff actual.recipient t.recipient).0 p8' in
    let amount = (same_text_iff actual.amount_atomic t.amount_atomic).0 p9' in
    let chain = is_text_lem _ _ p4 in
    let target = is_text_lem _ _ p6 in
    (
      record {
        canonical = canonical;
        context = context;
        exact_keys = exact_keys;
        calldata =
            present
            ∙ ap (λ (u : Text). some (scalar (text u)))
                (encoded
                  ∙ ap (λ (u : Text). transfer_data u (value actual.amount_atomic)) recipient
                  ∙ ap (λ (u : Text). transfer_data t.recipient (value u)) amount);
        provenance = p1;
        action = is_text_lem _ _ p2;
        selector = is_text_lem _ _ p3;
        chain = chain;
        intent_chain = same_entry (sym (is_text_lem _ _ p4') ∙ chain);
        sender = is_text_lem _ _ p5;
        target = target;
        asset = same_entry (sym (is_text_lem _ _ p6') ∙ target);
        native_value = is_text_lem _ _ p7;
        recipient = is_text_lem _ _ p8;
        amount = is_text_lem _ _ p9;
        nonce_strategy = is_text_lem _ _ p10;
        fixture = is_text_lem _ _ p11;
      },
      ground arith,
      sym same,
    )

pub fields_complete :
    (c : CommonIntent) (t : Transfer) (f : Fields) (trusted : TrustedExecutionContext)
    → IsVerified c t f trusted
    → verify_fields c t f (intended t) trusted ≡ ok f
unfolding verify_fields
fields_complete c t f trusted v = (comparisons_iff _ _ _ _ _ _ _ _ _ _ _ _ _ _ _ f f).1 (
  v.provenance,
  (is_text_iff _ _).1 v.action,
  (is_text_iff _ _).1 v.selector,
  (is_text_iff _ _).1 v.chain,
  (is_text_iff _ _).1 (v.chain ∙ entry (sym v.intent_chain)),
  (is_text_iff _ _).1 v.sender,
  (is_text_iff _ _).1 v.target,
  (is_text_iff _ _).1 (v.target ∙ entry (sym v.asset)),
  (is_text_iff _ _).1 v.native_value,
  (is_text_iff _ _).1 v.recipient,
  (same_text_iff _ _).1 refl,
  (is_text_iff _ _).1 v.amount,
  (same_text_iff _ _).1 refl,
  (is_text_iff _ _).1 v.nonce_strategy,
  (is_text_iff _ _).1 v.fixture,
  refl,
)
