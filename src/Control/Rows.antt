-- ===== src/Control/Rows.antt =====
-- packages/approvals/src/control.ts: the operations that a command affects, one row for each
-- (invalidateAffectedAuthorizations). ORDER BY, which decides the order of locks and events of
-- different operations, is left out.
use crip_wallet.Base.{
  ℕ, Bool, true, false, not, ◌&&◌, List, [], ◌∷◌, any, ltb, Option, none, some, if◌then◌else◌,
}
use crip_wallet.Schemas.Money.{Text}
use crip_wallet.Schemas.Common.{same_text}
use crip_wallet.Schemas.Lifecycle.{LifecycleState, state_eq}
use crip_wallet.Store.{
  Db, Operation, Agent, Reservation, ReservationStatus, EnvelopeRow, DecisionRow, ApprovalRow,
  ApprovalStatus, AuthorizationRow, Invalidation, ControlScopeType,
}
use crip_wallet.Store.Tables.{find}
use crip_wallet.Store.Funds.{is_budget}
use crip_wallet.Ledger.Binding.{is_operation}
use crip_wallet.Control.Fences.{is_agent}

-- `ControlOperationRow`; the columns of an envelope and of a decision are there or not together.
pub record ControlOperationRow : Type 0 where
  pub approval_id : Option Text
  pub operation_id : Text
  pub reservation_id : Text
  pub budget_id : Text
  pub amount_atomic : ℕ
  pub envelope : Option EnvelopeRow
  pub decision : Option (Text × Text)
  pub policy_version : ℕ
  pub nonce : Text
  pub issued_at : Option ℕ
  pub expires_at : Option ℕ
  pub authorization_id : Option Text
  pub owner_id : Text
  pub agent_id : Text
  pub wallet_id : Text
  pub intent_id : Text
  pub policy_id : Text
  pub current_state : LifecycleState

-- `targetPredicate`
unfoldable pub target_predicate : ControlScopeType → Text → Operation → Agent → Bool
target_predicate ControlScopeType.system id o a = true
target_predicate ControlScopeType.owner id o a = same_text a.owner_id id
target_predicate ControlScopeType.agent id o a = same_text o.agent_id id
target_predicate ControlScopeType.policy id o a = same_text o.policy_id id

abbrev pub with_some {ℓ κ} : {A : Type ℓ} {B : Type κ} → Option A → (A → Option B) → Option B
with_some none f = none
with_some (some a) f = f a

-- The rows of a SELECT over one table, each with its joins
unfoldable pub select_rows : {A B : Type 0} → (A → Option B) → List A → List B
select_rows f [] = []
select_rows f (x ∷ xs) =
    let rest = select_rows f xs in elim (f x) [ none ↦ rest | some y ↦ y ∷ rest ]

-- The operation's reservation, its budget and its agent
abbrev joined : {B : Type 0} → Db → Operation → (Reservation → Agent → Option B) → Option B
joined db o f =
    with_some (find (λ (r : Reservation). same_text r.operation_id o.operation_id) db.reservations)
      (λ r.
        with_some (find (is_budget r.budget_id) db.budgets)
          (λ b. with_some (find (is_agent o.agent_id) db.agents) (f r)))

abbrev newer_revision : EnvelopeRow → Option EnvelopeRow → EnvelopeRow
newer_revision e none = e
newer_revision e (some f) = if ltb e.revision f.revision then f else e

-- `ORDER BY revision DESC LIMIT 1`
unfoldable pub latest_envelope : Text → List EnvelopeRow → Option EnvelopeRow
latest_envelope operation_id [] = none
latest_envelope operation_id (e ∷ rows) =
    let rest = latest_envelope operation_id rows in
    if same_text e.operation_id operation_id then some (newer_revision e rest) else rest

-- `ORDER BY created_at DESC LIMIT 1`: new decisions stand first.
unfoldable pub latest_decision : Text → List DecisionRow → Option (Text × Text)
latest_decision operation_id rows =
    with_some (find (λ (d : DecisionRow). same_text d.operation_id operation_id) rows)
      (λ d. some (d.decision_id, d.decision_hash))

abbrev pub is_before_approval : LifecycleState → Bool
is_before_approval s = any (state_eq s) (
    LifecycleState.policy_finalized ∷ LifecycleState.budget_reserved
    ∷ LifecycleState.envelope_finalized ∷ LifecycleState.awaiting_approval ∷ [])

abbrev pub is_open : ApprovalStatus → Bool
is_open ApprovalStatus.pending = true
is_open ApprovalStatus.approved = true
is_open _ = false

abbrev pub is_open_approval : Text → ApprovalRow → Bool
is_open_approval operation_id a = same_text a.operation_id operation_id && is_open a.status

abbrev is_held : ReservationStatus → Bool
is_held ReservationStatus.held = true
is_held _ = false

abbrev pub is_authorized_reservation : ReservationStatus → Bool
is_authorized_reservation ReservationStatus.authorized = true
is_authorized_reservation _ = false

-- A held operation without an open approval
unfoldable pub held_row : ControlScopeType → Text → Db → Operation → Option ControlOperationRow
held_row scope id db o = joined db o (λ r a.
    if is_before_approval o.current_state
      && (is_held r.status
          && (not (any (is_open_approval o.operation_id) db.approvals)
              && target_predicate scope id o a))
    then some (record {
      approval_id = none;
      operation_id = o.operation_id;
      reservation_id = r.reservation_id;
      budget_id = r.budget_id;
      amount_atomic = r.amount_atomic;
      envelope = latest_envelope o.operation_id db.envelopes;
      decision = latest_decision o.operation_id db.decisions;
      policy_version = o.policy_version;
      nonce = o.operation_id;
      issued_at = none;
      expires_at = none;
      authorization_id = none;
      owner_id = a.owner_id;
      agent_id = o.agent_id;
      wallet_id = o.wallet_id;
      intent_id = o.intent_id;
      policy_id = o.policy_id;
      current_state = o.current_state;
    })
    else none)

-- An open approval with its operation
unfoldable pub pending_row : ControlScopeType → Text → Db → ApprovalRow → Option ControlOperationRow
pending_row scope id db p = with_some (find (is_operation p.operation_id) db.operations) (λ o.
    joined db o (λ r a.
      if is_open p.status && target_predicate scope id o a
      then some (record {
        approval_id = some p.approval_id;
        operation_id = p.operation_id;
        reservation_id = p.reservation_id;
        budget_id = r.budget_id;
        amount_atomic = r.amount_atomic;
        envelope = some (record {
          operation_id = p.operation_id;
          envelope_id = p.envelope_id;
          revision = p.envelope_revision;
          envelope_hash = p.envelope_hash;
        });
        decision = some (p.policy_decision_id, p.policy_decision_hash);
        policy_version = p.policy_version;
        nonce = p.nonce;
        issued_at = some p.issued_at;
        expires_at = some p.expires_at;
        authorization_id = none;
        owner_id = a.owner_id;
        agent_id = o.agent_id;
        wallet_id = o.wallet_id;
        intent_id = o.intent_id;
        policy_id = o.policy_id;
        current_state = o.current_state;
      })
      else none))

abbrev is_invalidated : Text → Invalidation → Bool
is_invalidated authorization_id i = same_text i.authorization_id authorization_id

abbrev pub has_invalidation : Db → Text → Bool
has_invalidation db authorization_id = any (is_invalidated authorization_id) db.invalidations

-- The approval that an authorization came from, if there is one
abbrev approval_of : Db → AuthorizationRow → Option ApprovalRow
approval_of db e =
    with_some e.approval_id
      (λ id. find (λ (p : ApprovalRow). same_text p.approval_id id) db.approvals)

abbrev approval_id_of : Option ApprovalRow → Option Text
approval_id_of none = none
approval_id_of (some p) = some p.approval_id

-- COALESCE(a.nonce, e.consumption_nonce)
abbrev nonce_of : Option ApprovalRow → AuthorizationRow → Text
nonce_of none e = e.consumption_nonce
nonce_of (some p) e = p.nonce

-- An authorization of an AUTHORIZED operation on an AUTHORIZED reservation, not yet invalidated
unfoldable pub authorized_row :
    ControlScopeType → Text → Db → AuthorizationRow → Option ControlOperationRow
authorized_row scope id db e = with_some (find (is_operation e.operation_id) db.operations) (λ o.
    joined db o (λ r a.
      if same_text r.reservation_id e.reservation_id
        && (not (has_invalidation db e.authorization_id)
            && (state_eq o.current_state LifecycleState.authorized
                && (is_authorized_reservation r.status && target_predicate scope id o a)))
      then some (record {
        approval_id = approval_id_of (approval_of db e);
        operation_id = e.operation_id;
        reservation_id = e.reservation_id;
        budget_id = r.budget_id;
        amount_atomic = r.amount_atomic;
        envelope = some (record {
          operation_id = e.operation_id;
          envelope_id = e.envelope_id;
          revision = e.envelope_revision;
          envelope_hash = e.envelope_hash;
        });
        decision = some (e.policy_decision_id, e.policy_decision_hash);
        policy_version = e.policy_version;
        nonce = nonce_of (approval_of db e) e;
        issued_at = some e.issued_at;
        expires_at = some e.expires_at;
        authorization_id = some e.authorization_id;
        owner_id = a.owner_id;
        agent_id = o.agent_id;
        wallet_id = o.wallet_id;
        intent_id = o.intent_id;
        policy_id = o.policy_id;
        current_state = o.current_state;
      })
      else none))
