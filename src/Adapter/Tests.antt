-- ===== src/Adapter/Tests.antt =====
-- Tests of adapters/local-anvil on one signed transaction, and instances of its theorems.
use crip_wallet.Base.{◌≡◌, ◌≤◌, refl, Bool, true, [], ◌∷◌, Option, none, some}
use crip_wallet.Base.Ensures.{ok, err}
use crip_wallet.Schemas.Money.{Text, units}
use crip_wallet.Schemas.Common.{same_text, canonical_identifier, identifier_pattern, hex_pattern}
use crip_wallet.Store.{ComponentRole, ReservationStatus}
use crip_wallet.Store.Tables.{find, update, count}
use crip_wallet.Ledger.Fixture.{reservation}
use crip_wallet.Adapter.World.{
  AttemptStatus, accepted, unknown, conflict, SignedTransaction, TransferIds, World, Act, ◌>>=◌,
  modify, Leaves,
}
use crip_wallet.Adapter.Attempts.{
  find_signed_transaction, insert_attempt, existing_or_inserted, start_broadcast_attempt,
  is_transition, finish_broadcast_attempt, find_broadcast_attempt,
}
use crip_wallet.Adapter.Broadcast.{
  TransactionLibrary, Reply, response, failure, BroadcastEnv, BroadcastInput,
  authorized_transfer_request, raw_transaction_pattern, assert_safe_input, is_canonical,
  hash_parsed, canonical_signed_transaction_hash, classify, is_bound, send_and_finish,
  continue_attempt, broadcast_checked, broadcast_signed_transaction,
}
use crip_wallet.Adapter.Rows.{AttemptsValid, is_valid}
use crip_wallet.Adapter.Sends.{Broadcasted, broadcast_signed_transaction_lem}
use crip_wallet.Adapter.Execution.{
  SignerOutcome, success, ExecutionEnv, find_durable_signed_evidence, attempt_id_of,
  is_expected_hash, lifecycle_result, broadcast_material, check_hash, with_raw, after_signing,
  existing_or_sign, execute_authorized_transfer_core,
}
use crip_wallet.Adapter.Once.{LeavesAttempts, Executed, execute_authorized_transfer_core_lem}
use crip_wallet.Adapter.Runs.{sends_for, run, sends_for-run, run-AttemptsValid}

adapter : Unit {0}
unfolding same_text canonical_identifier identifier_pattern hex_pattern find update count ◌>>=◌
    modify Leaves find_signed_transaction insert_attempt existing_or_inserted
    start_broadcast_attempt is_transition finish_broadcast_attempt find_broadcast_attempt
    authorized_transfer_request raw_transaction_pattern assert_safe_input is_canonical hash_parsed
    canonical_signed_transaction_hash classify is_bound send_and_finish continue_attempt
    broadcast_checked broadcast_signed_transaction is_valid find_durable_signed_evidence
    attempt_id_of is_expected_hash lifecycle_result broadcast_material check_hash with_raw
    after_signing existing_or_sign execute_authorized_transfer_core run
adapter = tt

abbrev hash : Text
hash = units "0x0000000000000000000000000000000000000000000000000000000000000001"

abbrev other_hash : Text
other_hash = units "0x0000000000000000000000000000000000000000000000000000000000000002"

abbrev ids : TransferIds
ids = record {
  operation_id = units "o";
  authorization_id = units "auth";
  adapter_request_id = units "request";
}

abbrev transaction : SignedTransaction
transaction = record {
  signed_transaction_id = units "signed:o:1";
  operation_id = units "o";
  reservation_id = units "r";
  envelope_id = units "e";
  envelope_revision = 1;
  envelope_hash = units "eh";
  authorization_id = units "auth";
  fixture_instance_id = units "fixture_1";
  expected_transaction_hash = hash;
}

abbrev world : ReservationStatus → World
world status = record {
  reservations = reservation status ∷ [];
  signed = transaction ∷ [];
  attempts = [];
  sent = [];
}

-- A library that reads every text as a signed transaction with one hash
abbrev library : TransactionLibrary
library = record {
  parse = λ raw. some record {
    is_eip1559 = true;
    r = some (units "r");
    s = some (units "s");
    y_parity = some true;
    rest = raw;
  };
  serialize = λ p. some p.rest;
  keccak256 = λ raw. hash;
}

abbrev env : Reply → BroadcastEnv
env reply = record { library = library; send = λ w raw. reply }

abbrev input : BroadcastInput
input = record {
  request = ids;
  signed_transaction_id = units "signed:o:1";
  attempt_id = units "attempt:o:1";
  raw_transaction = units "0x02f8";
}

-- A signer that hands over the bytes of the durable transaction
abbrev signer : TransferIds → Bool → Act SignerOutcome
signer request again w = (
  ok (
      success hash (
        some record {
          signed_transaction_id = units "signed:o:1";
          expected_transaction_hash = hash;
          raw_transaction = some (units "0x02f8");
          from_durable_evidence = again;
        })),
  w,
)

abbrev execution : Reply → ExecutionEnv
execution reply = record {
  broadcast = env reply;
  sign_authorized_transfer = signer;
  authorize_result = λ request transaction_hash. record {
    credential_id = units "c";
    component_id = units "component";
    role = ComponentRole.adapter;
    signature = transaction_hash;
  };
}

signer_leaves : (reply : Reply) → LeavesAttempts (execution reply)
signer_leaves reply request again w = (refl, refl)

-- The status that a broadcast ends with
abbrev status_of : Reply → World → Option AttemptStatus
status_of reply w = elim ((broadcast_signed_transaction (env reply) input w).0) [
  | ok b ↦ some b.attempt.status
  | err e ↦ none
]

broadcast_tests :
    (status_of (response hash) (world ReservationStatus.authorized) ≡ some accepted)
    × (status_of (response other_hash) (world ReservationStatus.authorized) ≡ some conflict)
    × (status_of failure (world ReservationStatus.authorized) ≡ some unknown)
    × (status_of (response hash) (world ReservationStatus.held) ≡ none)
    × (sends_for ids (run (execution failure) (ids ∷ ids ∷ []) (world ReservationStatus.authorized))
        ≡ 1)
unfolding adapter
broadcast_tests = (refl, refl, refl, refl, refl)

broadcast_signed_transaction_lem_example :
    Leaves
      (Broadcasted (env failure) input (world ReservationStatus.authorized))
      (broadcast_signed_transaction (env failure) input (world ReservationStatus.authorized))
broadcast_signed_transaction_lem_example =
    broadcast_signed_transaction_lem (env failure) input (world ReservationStatus.authorized)

execute_authorized_transfer_core_lem_example :
    Leaves (Executed (execution failure) ids (world ReservationStatus.authorized)) (
      execute_authorized_transfer_core (execution failure) ids (world ReservationStatus.authorized))
execute_authorized_transfer_core_lem_example =
    execute_authorized_transfer_core_lem (execution failure) ids
      (world ReservationStatus.authorized) (signer_leaves failure)

sends_for-run_example :
    sends_for ids (run (execution failure) (ids ∷ ids ∷ []) (world ReservationStatus.authorized))
    ≤ 1
unfolding adapter
sends_for-run_example =
    sends_for-run (execution failure) (signer_leaves failure) ids (ids ∷ ids ∷ [])
      (world ReservationStatus.authorized) refl

run-AttemptsValid_example :
    AttemptsValid
      (run (execution (response hash)) (ids ∷ ids ∷ []) (world ReservationStatus.authorized))
run-AttemptsValid_example =
    run-AttemptsValid (execution (response hash)) (signer_leaves (response hash)) (ids ∷ ids ∷ [])
      (world ReservationStatus.authorized) refl
