-- ===== src/Transfer/Tests.antt =====
-- Tests of packages/transaction-pipeline and instances of its theorems.
use crip_wallet.Base.{◌≡◌, ◌↔◌, refl, true, none, some, ◌++◌, List}
use crip_wallet.Base.Ensures.{Result, ok, err}
use crip_wallet.Schemas.Money.{Text, units, atomic_unit}
use crip_wallet.Schemas.Money.Decimal.{value}
use crip_wallet.Schemas.Common.{same_text}
use crip_wallet.Schemas.Intent.{transfer, evm_address}
use crip_wallet.Policy.Engine.Tests.{sample_common, sample_transfer, token, payee, schemas}
use crip_wallet.Transfer.Digits.{decimal}
use crip_wallet.Transfer.Words.{hex_value, word}
use crip_wallet.Transfer.Values.{
  text, Value, scalar, own, is_text, same_scalar, sort_keys, same_keys, has_exact_keys,
  entry_agrees, same_record,
}
use crip_wallet.Transfer.Candidate.{
  DecodedTransfer, DecodeFailureCode, TrustedExecutionContext, transfer_selector, local_chain_id,
  candidate_fields, provenance_fields, invalid_length, trailing_data, malformed_hex,
  recipient_mismatch, sender_mismatch,
}
use crip_wallet.Transfer.Encoding.{transfer_data, IsAbiEncoder}
use crip_wallet.Transfer.Decode.{
  prefixed_hex, is_address_word, is_hex_word, decode_words, decode_text,
  decode_transfer_independent,
}
use crip_wallet.Transfer.Construct.{
  Encoder, is_trusted_provenance, is_trusted_context, build_provenance, validate_trusted,
  transfer_candidate, encoded_candidate, construct_transfer, construct_intent,
  construct_transfer_core,
}
use crip_wallet.Transfer.Verify.{
  is_trusted, same_decoded, verify_fields, verify_decoded, verify_candidate, verify_intent,
  verify_transfer_core,
}
use crip_wallet.Transfer.Decoding.{decode_transfer_iff, decode_transfer-injective, intended}
use crip_wallet.Transfer.Constructing.{
  IsConstructible, intended_candidate, construct_transfer_core_iff,
}
use crip_wallet.Transfer.Comparing.{IsVerified}
use crip_wallet.Transfer.Roundtrip.{verify_transfer_core_iff, verify_transfer_core-construct}

unfoldable pipeline : Unit {0}
unfolding schemas same_text decimal hex_value word own is_text same_scalar sort_keys same_keys
    has_exact_keys entry_agrees same_record candidate_fields provenance_fields transfer_data
    prefixed_hex is_address_word is_hex_word decode_words decode_text decode_transfer_independent
    is_trusted_provenance is_trusted_context build_provenance validate_trusted transfer_candidate
    encoded_candidate construct_transfer construct_intent construct_transfer_core is_trusted
    same_decoded verify_fields verify_decoded verify_candidate verify_intent verify_transfer_core
    value
pipeline = tt

abbrev wallet : Text
wallet = units "0x3333333333333333333333333333333333333333"

abbrev trusted : TrustedExecutionContext
trusted = record {
  wallet_address = wallet;
  token_address = token;
  chain_id = local_chain_id;
  fixture_instance_id = units "fixture_1";
  provenance = some record {
    operation_id = some (units "operation_1");
    policy_id = none;
    policy_version = some 1;
    policy_decision_hash = none;
  };
}

-- An encoder that gives the documented calldata of every transfer
abbrev documented : Encoder
documented recipient amount = some (transfer_data recipient amount)

documented-IsAbiEncoder : IsAbiEncoder documented
documented-IsAbiEncoder recipient amount h b = refl

abbrev calldata : Text
calldata =
    units
      "0xa9059cbb000000000000000000000000222222222222222222222222222222222222222200000000000000000000000000000000000000000000000000000000000000fa"

abbrev decoded : DecodedTransfer
decoded = record { selector = transfer_selector; recipient = payee; amount_atomic = units "250" }

decode_tests :
    (decode_text calldata ≡ ok decoded)
    × (transfer_data payee 250 ≡ calldata)
    × (decode_text (units "0xA9059cbb") ≡ err malformed_hex)
    × (decode_text (units "0xa9059cb") ≡ err malformed_hex)
    × (decode_text (units "0xa9059cbb") ≡ err invalid_length)
    × (decode_text (calldata ++ units "00") ≡ err trailing_data)
unfolding pipeline
decode_tests = (refl, refl, refl, refl, refl, refl)

decode_transfer_iff_example :
    (decode_transfer_independent (some (scalar (text calldata))) ≡ ok decoded) ↔ (
      (transfer_selector ≡ transfer_selector)
      × (evm_address payee ≡ true)
      × (atomic_unit (units "250") ≡ true)
      × (calldata ≡ transfer_data payee (value (units "250"))))
decode_transfer_iff_example = decode_transfer_iff calldata decoded

decode_transfer-injective_example : calldata ≡ transfer_data payee 250
unfolding pipeline
decode_transfer-injective_example =
    decode_transfer-injective calldata (transfer_data payee 250) decoded refl refl

sample_IsConstructible : IsConstructible sample_common sample_transfer trusted
unfolding pipeline
sample_IsConstructible = record { canonical = refl; context = refl; chain = refl; asset = refl }

construct_transfer_core_iff_example :
    (construct_transfer_core documented (transfer sample_common sample_transfer) trusted
      ≡ ok (intended_candidate sample_common sample_transfer trusted))
    ↔ (IsConstructible sample_common sample_transfer trusted
        × (intended_candidate sample_common sample_transfer trusted
            ≡ intended_candidate sample_common sample_transfer trusted))
construct_transfer_core_iff_example =
    construct_transfer_core_iff documented sample_common sample_transfer trusted
      (intended_candidate sample_common sample_transfer trusted) documented-IsAbiEncoder

constructed :
    construct_transfer_core documented (transfer sample_common sample_transfer) trusted
    ≡ ok (intended_candidate sample_common sample_transfer trusted)
constructed =
    (construct_transfer_core_iff documented sample_common sample_transfer trusted _
        documented-IsAbiEncoder).1
      (sample_IsConstructible, refl)

abbrev sample_fields : List (Text × Value)
sample_fields = candidate_fields (intended_candidate sample_common sample_transfer trusted)

abbrev intended_decoding : Result DecodeFailureCode DecodedTransfer
intended_decoding = ok (intended sample_transfer)

verify_transfer_core_iff_example :
    (verify_transfer_core
        (transfer sample_common sample_transfer)
        (some sample_fields)
        intended_decoding
        trusted
      ≡ ok sample_fields)
    ↔ (IsVerified sample_common sample_transfer sample_fields trusted
        × (intended_decoding ≡ ok (intended sample_transfer))
        × (sample_fields ≡ sample_fields))
verify_transfer_core_iff_example =
    verify_transfer_core_iff sample_common sample_transfer sample_fields sample_fields
      intended_decoding trusted

verify_transfer_core-construct_example :
    verify_transfer_core
      (transfer sample_common sample_transfer)
      (some sample_fields)
      (decode_transfer_independent
        (some (scalar (text (intended_candidate sample_common sample_transfer trusted).calldata))))
      trusted
    ≡ ok sample_fields
verify_transfer_core-construct_example =
    verify_transfer_core-construct documented sample_common sample_transfer trusted
      (intended_candidate sample_common sample_transfer trusted) documented-IsAbiEncoder constructed

verify_tests :
    (verify_transfer_core
        (transfer sample_common sample_transfer)
        (some sample_fields)
        (decode_text calldata)
        trusted
      ≡ ok sample_fields)
    × (verify_transfer_core
          (transfer sample_common (record sample_transfer { recipient = wallet }))
          (some sample_fields)
          (decode_text calldata)
          trusted
        ≡ err recipient_mismatch)
    × (verify_transfer_core
          (transfer sample_common sample_transfer)
          (some sample_fields)
          (decode_text calldata)
          (record trusted { wallet_address = payee })
        ≡ err sender_mismatch)
unfolding pipeline
verify_tests = (refl, refl, refl)
