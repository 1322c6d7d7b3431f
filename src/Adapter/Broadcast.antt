-- ===== src/Adapter/Broadcast.antt =====
-- adapters/local-anvil/src/broadcast-core.ts: the broadcast of a signed transaction, persisted
-- before it is sent. The transaction library and the sender are parameters: what a call of the
-- sender ends with may depend on the whole world.
use crip_wallet.Base.{
  Bool, true, false, not, ◌&&◌, ◌∷◌, all, ◌==◌, Option, none, some, if◌then◌else◌,
}
use crip_wallet.Schemas.Money.{Text, units, is_empty}
use crip_wallet.Schemas.Common.{same_text, canonical_identifier, evm_hash, is_hex}
use crip_wallet.Adapter.World.{
  AttemptStatus, accepted, rejected, unknown, conflict, SignedTransaction, BroadcastAttempt,
  TransferIds, World, invalid_request, invalid_identity, invalid_encoding, evidence_not_found,
  binding_mismatch, hash_mismatch, Act, ◌>>=◌, ◌>>◌, pure, gets, or_throw, require, modify,
}
use crip_wallet.Adapter.Attempts.{
  find_signed_transaction, is_started, start_broadcast_attempt, Classification,
  finish_broadcast_attempt,
}

-- What `parseTransaction` gives: the fields that are read, and the rest
pub record ParsedTransaction : Type 0 where
  pub is_eip1559 : Bool
  pub r : Option Text
  pub s : Option Text
  pub y_parity : Option Bool
  pub rest : Text

-- `parseTransaction`, `serializeTransaction` and `keccak256`; `none` where they throw
pub record TransactionLibrary : Type 0 where
  pub parse : Text → Option ParsedTransaction
  pub serialize : ParsedTransaction → Option Text
  pub keccak256 : Text → Text

-- How `sendRawTransaction` ends: a response, a ProvenPreAcceptanceRejection or another error
pub data Reply : Type 0 where
  response : Text → Reply
  not_transmitted failure : Reply

pub record BroadcastEnv : Type 0 where
  pub library : TransactionLibrary
  pub send : World → Text → Reply

pub record BroadcastInput : Type 0 where
  pub request : TransferIds
  pub signed_transaction_id : Text
  pub attempt_id : Text
  pub raw_transaction : Text

pub record BroadcastResult : Type 0 where
  pub is_ok : Bool
  pub attempt : BroadcastAttempt

-- `authorizedTransferRequestSchema`
unfoldable pub authorized_transfer_request : TransferIds → Bool
authorized_transfer_request ids =
    canonical_identifier ids.operation_id
    && (canonical_identifier ids.authorization_id && canonical_identifier ids.adapter_request_id)

-- `RAW_TRANSACTION_PATTERN`: /^0x[0-9a-f]+$/
unfoldable pub raw_transaction_pattern : Text → Bool
raw_transaction_pattern (c ∷ d ∷ t) = c == b'0' && (d == b'x' && (not (is_empty t) && all is_hex t))
raw_transaction_pattern _ = false

-- `assertSafeInput`
unfoldable pub assert_safe_input : BroadcastInput → Act (Unit {0})
assert_safe_input input = do
  require (authorized_transfer_request input.request) invalid_request
  require (canonical_identifier input.signed_transaction_id) invalid_identity
  require (canonical_identifier input.attempt_id) invalid_identity
  require (raw_transaction_pattern input.raw_transaction) invalid_encoding

abbrev present {ℓ} : {A : Type ℓ} → Option A → Bool
present none = false
present (some a) = true

abbrev serializes_to : Option Text → Text → Bool
serializes_to none raw = false
serializes_to (some t) raw = same_text t raw

module _ (library : TransactionLibrary) where
  -- The tests on the parsed transaction
  unfoldable pub is_canonical : ParsedTransaction → Text → Bool
  is_canonical p raw =
      p.is_eip1559
      && (present p.r
          && (present p.s && (present p.y_parity && serializes_to (library.serialize p) raw)))

  unfoldable pub hash_parsed : Option ParsedTransaction → Text → Option Text
  hash_parsed none raw = none
  hash_parsed (some p) raw = if is_canonical p raw then some (library.keccak256 raw) else none

  -- `canonicalSignedTransactionHash`
  unfoldable pub canonical_signed_transaction_hash : Text → Option Text
  unfolding hash_parsed
  canonical_signed_transaction_hash raw = hash_parsed (library.parse raw) raw

abbrev classify_response : Text → Text → Classification
classify_response expected hash =
    if evm_hash hash && same_text hash expected
    then record {
      status = accepted;
      response_transaction_hash = some hash;
      classification_reason = units "MATCHING_RETURNED_TRANSACTION_HASH";
    }
    else if evm_hash hash
    then record {
      status = conflict;
      response_transaction_hash = some hash;
      classification_reason = units "CONTRADICTORY_RETURNED_HASH";
    }
    else record {
      status = unknown;
      response_transaction_hash = none;
      classification_reason = units "INVALID_RETURNED_HASH_UNCERTAIN";
    }

-- What the reply of the sender means
unfoldable pub classify : Text → Reply → Classification
classify expected (response hash) = classify_response expected hash
classify expected not_transmitted = record {
  status = rejected;
  response_transaction_hash = none;
  classification_reason = units "RPC_REQUEST_NOT_TRANSMITTED";
}
classify expected failure = record {
  status = unknown;
  response_transaction_hash = none;
  classification_reason = units "TRANSPORT_OR_RESPONSE_UNCERTAIN";
}

abbrev pub is_accepted : AttemptStatus → Bool
is_accepted accepted = true
is_accepted _ = false

-- The attempt is the one of the signed transaction.
unfoldable pub is_bound : BroadcastAttempt → SignedTransaction → Bool
is_bound a signed =
    same_text a.signed.signed_transaction_id signed.signed_transaction_id
    && (same_text a.signed.expected_transaction_hash signed.expected_transaction_hash
        && (same_text a.signed.operation_id signed.operation_id
            && same_text a.signed.authorization_id signed.authorization_id))

module _ (env : BroadcastEnv) where
  -- A call of `sendRawTransaction` in the log of the sender
  abbrev pub log_sent : BroadcastInput → World → World
  log_sent input w = record w {
    sent = record { request = input.request; raw_transaction = input.raw_transaction } ∷ w.sent;
  }

  -- The attempt was just started: send, classify and record.
  unfoldable pub send_and_finish :
      SignedTransaction → BroadcastInput → BroadcastAttempt → Act BroadcastResult
  send_and_finish signed input a = do
    reply ← gets (λ w. env.send w input.raw_transaction)
    modify (log_sent input)
    completed ←
        finish_broadcast_attempt a.attempt_id (classify signed.expected_transaction_hash reply)
    pure record {
      is_ok = is_accepted ((classify signed.expected_transaction_hash reply).status);
      attempt = completed;
    }

  -- Only a STARTED attempt is sent.
  unfoldable pub continue_attempt :
      SignedTransaction → BroadcastInput → BroadcastAttempt → Act BroadcastResult
  continue_attempt signed input a =
      if not (is_started a.status)
      then pure record { is_ok = is_accepted a.status; attempt = a }
      else send_and_finish signed input a

  -- `broadcastSignedTransaction`, after the tests on the input
  unfoldable pub broadcast_checked : BroadcastInput → Act BroadcastResult
  broadcast_checked input = do
    row ← find_signed_transaction input.signed_transaction_id
    signed ← or_throw row evidence_not_found
    require (same_text signed.operation_id input.request.operation_id) binding_mismatch
    require (same_text signed.authorization_id input.request.authorization_id) binding_mismatch
    hash ←
        or_throw (canonical_signed_transaction_hash env.library input.raw_transaction)
          invalid_encoding
    require (same_text hash signed.expected_transaction_hash) hash_mismatch
    a ← start_broadcast_attempt signed input.attempt_id
    require (is_bound a signed) binding_mismatch
    continue_attempt signed input a

  -- `broadcastSignedTransaction`
  unfoldable pub broadcast_signed_transaction : BroadcastInput → Act BroadcastResult
  broadcast_signed_transaction input = do assert_safe_input input; broadcast_checked input
