-- ===== src/Ledger/Fixture.antt =====
-- A database with one budget and one reservation on it, for the tests of the ledger.
use crip_wallet.Base.{◌≡◌, refl, sym, subst, arith, Bool, true, false, [], ◌∷◌, Option, none, some}
use crip_wallet.Schemas.Money.{Text, units}
use crip_wallet.Schemas.Common.{same_text}
use crip_wallet.Schemas.Lifecycle.{LifecycleState}
use crip_wallet.Schemas.PolicyContract.{PolicyStatus}
use crip_wallet.Store.{
  Db, BroadcastEvidenceRow, Budget, Reservation, ReservationStatus, ControlScopeType, ControlState,
  Credential, CredentialStatus, ComponentRole, VerificationStatus, LeaseState, AuditActorType,
  AuthenticatedComponent, ControlFenceSnapshot,
}
use crip_wallet.Store.Tables.{find}
use crip_wallet.Store.Funds.{
  is_budget, is_live, is_finalized, total, IsBalanced, AllBalanced, funds,
}
use crip_wallet.Ledger.{Env, AuditContext, TransitionInput, ReserveRequest}
use crip_wallet.TrustBoundary.{ComponentAuthorization}
use crip_wallet.Base.Ensures.{ok, err}
use crip_wallet.Store.Tx.{Tx}

-- An environment that accepts every signature and event.
abbrev pub env : Env
env = record {
  crypto = record { verify = λ _ _ _. true; digest = λ _. units "digest" };
  library = record {
    accepts = λ _. true;
    hash = λ _ _ _. units "hash";
    accepts_control = λ _. true;
    hash_control = λ _ _ _. units "hash";
  };
  hash_idempotency_payload = λ amount budget expires_at operation payload. payload;
}

abbrev pub budget : Budget
budget = record {
  budget_id = units "b";
  agent_id = units "a";
  wallet_id = units "w";
  policy_id = units "p";
  policy_version = 1;
  allocated = 1000;
  available = 700;
  reserved = 300;
  finalized_spend = 0;
  version = 1;
}

abbrev pub reservation : ReservationStatus → Reservation
reservation status = record {
  reservation_id = units "r";
  budget_id = units "b";
  operation_id = units "o";
  idempotency_key = units "k";
  amount_atomic = 300;
  finalized_spend_atomic = 0;
  status = status;
  expires_at = 5000;
  proof_reference = none;
}

abbrev signer : AuthenticatedComponent
signer = record {
  credential_id = units "c";
  component_id = units "component";
  role = ComponentRole.adapter;
  auth_payload_hash = units "digest";
  signature = units "s";
}

abbrev credential : ComponentRole → Text → Credential
credential role id = record {
  credential_id = id;
  component_id = units "component";
  component_role = role;
  public_key = units "key";
  status = CredentialStatus.active;
}

abbrev pub evidence_row : BroadcastEvidenceRow
evidence_row = record {
  reservation_id = units "r";
  transaction_hash = units "0x0000000000000000000000000000000000000000000000000000000000000000";
  nonce = 7;
  receipt_reference = units "receipt:1";
  adapter = signer;
  verification_status = VerificationStatus.verified;
  verification = none;
}

-- The first versions of all fences
abbrev pub all_active : ControlFenceSnapshot
all_active = record {
  system_fence_version = 1;
  system_state = ControlState.active;
  owner_fence_version = 1;
  owner_state = ControlState.active;
  agent_fence_version = 1;
  agent_state = ControlState.active;
  policy_fence_version = 1;
  policy_state = ControlState.active;
}

-- The database, by the status of the reservation.
abbrev pub database : ReservationStatus → Db
database status = record {
  budgets = budget ∷ [];
  reservations = reservation status ∷ [];
  operations =
      record {
        operation_id = units "o";
        intent_id = units "i";
        agent_id = units "a";
        wallet_id = units "w";
        policy_id = units "p";
        policy_version = 1;
        current_state = LifecycleState.authorized;
      }
      ∷ [];
  intents =
      record {
        intent_id = units "i";
        agent_id = units "a";
        wallet_id = units "w";
        policy_id = units "p";
        policy_version = 1;
      }
      ∷ [];
  agents = record { agent_id = units "a"; owner_id = units "owner" } ∷ [];
  wallets = record { wallet_id = units "w"; owner_id = units "owner" } ∷ [];
  policies =
      record {
        policy_id = units "p";
        owner_id = units "owner";
        agent_id = units "a";
        wallet_id = units "w";
        status = PolicyStatus.active;
      }
      ∷ [];
  fences =
      record {
        scope_type = ControlScopeType.system;
        scope_id = units "system";
        fence_version = 1;
        state = ControlState.active;
        last_control_event_id = none;
      }
      ∷ record {
        scope_type = ControlScopeType.owner;
        scope_id = units "owner";
        fence_version = 1;
        state = ControlState.active;
        last_control_event_id = none;
      }
      ∷ record {
        scope_type = ControlScopeType.agent;
        scope_id = units "a";
        fence_version = 1;
        state = ControlState.active;
        last_control_event_id = none;
      }
      ∷ record {
        scope_type = ControlScopeType.policy;
        scope_id = units "p";
        fence_version = 1;
        state = ControlState.active;
        last_control_event_id = none;
      }
      ∷ [];
  credentials =
      credential ComponentRole.adapter (units "c")
      ∷ credential ComponentRole.reconciler (units "d")
      ∷ [];
  evidence = evidence_row ∷ [];
  idempotency =
      record {
        idempotency_key = units "k";
        payload_hash = units "payload";
        intent_id = units "i";
        operation_id = units "o";
        reservation_id = some (units "r");
      }
      ∷ [];
  leases =
      record {
        operation_id = units "o";
        reservation_id = units "r";
        credential_id = units "d";
        lease_version = 3;
        lease_expires_at = 9000;
        lease_state = LeaseState.active;
      }
      ∷ [];
  attempts = [];
  authorizations =
      record {
        authorization_id = units "auth";
        operation_id = units "o";
        reservation_id = units "r";
        envelope_id = units "e";
        envelope_revision = 1;
        envelope_hash = units "eh";
        policy_decision_id = units "pd";
        policy_decision_hash = units "pdh";
        policy_id = units "p";
        policy_version = 1;
        approval_id = none;
        consumption_nonce = units "nonce";
        issued_at = 1;
        expires_at = 5000;
        fences = all_active;
      }
      ∷ [];
  invalidations = [];
  owners = units "owner" ∷ [];
  approvals = [];
  approval_decisions = [];
  control_audit = [];
  envelopes =
      record {
        operation_id = units "o";
        envelope_id = units "e";
        revision = 1;
        envelope_hash = units "eh";
      }
      ∷ [];
  decisions =
      record {
        operation_id = units "o";
        decision_id = units "pd";
        decision_hash = units "pdh";
        policy_id = units "p";
        policy_version = 1;
      }
      ∷ [];
  audit = [];
}

abbrev pub audit : Option ComponentAuthorization → AuditContext
audit authorization = record {
  event_id = units "ev";
  actor_type = AuditActorType.service;
  actor_id = units "svc";
  trace_id = units "t";
  asserted_correlation = none;
  component_auth = authorization;
}

abbrev pub authorization : ComponentRole → Text → Option ComponentAuthorization
authorization role id = some (record {
  credential_id = id;
  component_id = units "component";
  role = role;
  signature = units "s";
})

abbrev pub input : TransitionInput
input = record { reservation_id = units "r"; audit = audit none }

-- A database before the reservation.
abbrev pub fresh_database : Db
fresh_database = record (database ReservationStatus.held) {
  budgets = record budget { available = 1000; reserved = 0 } ∷ [];
  reservations = [];
  idempotency = [];
}

-- The request of the reservation.
abbrev pub request : ReserveRequest
request = record {
  reservation_id = units "r";
  budget_id = units "b";
  operation_id = units "o";
  idempotency_key = units "k";
  idempotency_payload = units "payload";
  amount_atomic = units "300";
  expires_at = some 5000;
  audit = audit none;
}

find-one : {R : Type 0} (p : R → Bool) (r : R) {x : R} → find p (r ∷ []) ≡ some x → x ≡ r
unfolding find
find-one p r {x} e = ground arith

pub database-AllBalanced :
    (status : ReservationStatus)
    → is_live status ≡ true
    → is_finalized status ≡ false
    → AllBalanced (funds (database status))
unfolding total same_text
database-AllBalanced status live unspent id x e =
    subst (IsBalanced (reservation status ∷ [])) (sym (find-one (is_budget id) budget e))
      (record { adds_up = refl; backed = rw (live) refl; accounted = rw (unspent) refl })

-- The database after a transaction, and its result.
abbrev pub after : {A : Type 0} → Tx A → Db → Db
after m db = elim (m db) [ ok (a, w) ↦ w | err e ↦ db ]

abbrev pub succeeds : {A : Type 0} → Tx A → Db → Bool
succeeds m db = elim (m db) [ ok (a, w) ↦ true | err e ↦ false ]
