-- ===== src/Evidence/Expectation.antt =====
-- packages/transaction-pipeline/src/chain-evidence.ts: validExpectationShape, validEnvelopeBinding
-- and expectationMismatches. The expectation is a value of its type, so that the tests on its
-- members' types hold.
use crip_wallet.Base.{
  ℕ, Bool, false, not, ◌&&◌, List, [], ◌∷◌, leb, ltb, ◌==◌, Option, none, some, if◌then◌else◌,
}
use crip_wallet.Base.Ensures.{ok, err}
use crip_wallet.Schemas.Money.{units, is_empty}
use crip_wallet.Schemas.Common.{same_text, canonical_identifier, evm_hash}
use crip_wallet.Transfer.Decode.{decode_text}
use crip_wallet.Evidence.{
  AssetDelta, ChainEvidenceExpectation, Url, EnvelopeLibrary, ChainEvidenceMismatch,
  invalid_expectation, envelope_invalid, expectation,
}
use crip_wallet.Evidence.Unknown.{address_pattern}

-- `Number.isSafeInteger`
abbrev max_safe_integer : ℕ
max_safe_integer = 9007199254740991

-- http://127.0.0.1 with any port
unfoldable pub is_local_url : Option Url → Bool
is_local_url none = false
is_local_url (some u) =
    same_text u.protocol (units "http:")
    && (same_text u.hostname (units "127.0.0.1")
        && (is_empty u.username
            && (is_empty u.password
                && (same_text u.pathname (units "/")
                    && (is_empty u.query && is_empty u.fragment)))))

module _ (library : EnvelopeLibrary) (x : ChainEvidenceExpectation) where
  -- `validExpectationShape`
  unfoldable pub valid_expectation_shape : Bool
  valid_expectation_shape =
      canonical_identifier x.operation_id
      && (canonical_identifier x.reservation_id
          && (canonical_identifier x.envelope_id
              && (leb x.envelope_revision max_safe_integer
                  && (ltb 0 x.envelope_revision
                      && (canonical_identifier x.authorization_id
                          && (canonical_identifier x.fixture_instance_id
                              && (evm_hash x.envelope_hash
                                  && (evm_hash x.expected_transaction_hash
                                      && (canonical_identifier x.fixture.fixture_instance_id
                                          && (same_text x.fixture.chain_id (units "eip155:31337")
                                              && (address_pattern x.fixture.wallet_address
                                                  && (address_pattern x.fixture.token_address
                                                      && is_local_url (
                                                          library.parse_url
                                                            x.fixture.rpc_url)))))))))))))

  -- The one expected change of assets
  unfoldable pub is_expected_delta : List AssetDelta → Bool
  is_expected_delta (d ∷ []) =
      same_text d.asset_address x.envelope.to
      && (same_text d.from x.envelope.from
          && (same_text d.to x.envelope.recipient
              && same_text d.amount_atomic x.envelope.amount_atomic))
  is_expected_delta _ = false

  -- The calldata decodes to the arguments of the envelope.
  unfoldable pub decodes_to_arguments : Bool
  decodes_to_arguments = elim (decode_text x.envelope.calldata) [
    | ok d ↦
        same_text d.recipient x.envelope.recipient
        && same_text d.amount_atomic x.envelope.amount_atomic
    | err _ ↦ false
  ]

  -- `validEnvelopeBinding`
  unfoldable pub valid_envelope_binding : Bool
  valid_envelope_binding =
      library.accepts x.envelope
      && (same_text x.envelope_id x.envelope.envelope_id
          && (x.envelope_revision == x.envelope.revision
              && (same_text x.envelope_hash x.envelope.envelope_hash
                  && (same_text x.reservation_id x.envelope.budget_reservation_id
                      && (same_text (library.hash x.envelope) x.envelope.envelope_hash
                          && (same_text x.envelope.from x.fixture.wallet_address
                              && (same_text x.envelope.to x.fixture.token_address
                                  && (same_text x.envelope.value (units "0")
                                      && (is_expected_delta x.envelope.expected_asset_deltas
                                          && decodes_to_arguments)))))))))

  -- `expectationMismatches`
  unfoldable pub expectation_mismatches : List ChainEvidenceMismatch
  expectation_mismatches =
      if not valid_expectation_shape
      then record { code = invalid_expectation; source = expectation; field = none } ∷ []
      else if not valid_envelope_binding
      then record { code = envelope_invalid; source = expectation; field = some (units "envelope") }
        ∷ []
      else []
