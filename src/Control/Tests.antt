-- ===== src/Control/Tests.antt =====
-- packages/approvals/src/control.ts on concrete databases.
use crip_wallet.Base.{ℕ, List, ◌≡◌, refl, true, [], ◌∷◌, none, map}
use crip_wallet.Base.Ensures.{ok}
use crip_wallet.Schemas.Money.{units}
use crip_wallet.Schemas.Common.{identifier_pattern}
use crip_wallet.Transfer.Digits.{decimal}
use crip_wallet.Schemas.Lifecycle.{LifecycleState}
use crip_wallet.Store.{
  Db, Operation, Agent, Budget, ReservationStatus, ControlScopeType, ControlState,
}
use crip_wallet.Store.Tx.{IsRefused, Holds}
use crip_wallet.Ledger.Reserve.{reserve_budget}
use crip_wallet.Ledger.Fixture.{fresh_database, env, database, audit, request, all_active, after}
use crip_wallet.Control.{
  revoke, ChangeControlFenceRequest, ControlFenceResult, RevalidateAuthorizationRequest,
}
use crip_wallet.Ledger.Runs.{ledger}
use crip_wallet.Store.Tables.{find, update, count}
use crip_wallet.Control.Fences.{
  insert_fence, insert_or_find, ensure_fence, lock_mutation_fence, assert_target,
  lock_control_fences,
}
use crip_wallet.Control.Events.{append_control_event, next_control_event, latest_of_scope}
use crip_wallet.Control.Rows.{
  target_predicate, select_rows, latest_envelope, latest_decision, held_row, pending_row,
  authorized_row,
}
use crip_wallet.Control.Statements.{
  operation_audit, release_reservation_row, move_operation, revoke_approval,
}
use crip_wallet.Control.Invalidate.{
  for_each, invalidate_pending, invalidate_authorized, invalidate_held_before_approval,
  invalidate_affected_authorizations,
}
use crip_wallet.Control.Change.{
  change_control_fence, change_locked, apply_command, is_command_of, commanded, next_state,
  revoke_policy,
}
use crip_wallet.Control.Revalidate.{
  names_evidence, identity, locked_evidence, same_fences, all_fences_active, is_current,
  revalidate_authorization,
}
use crip_wallet.Control.Changed.{Changed, change_control_fence_lem}
use crip_wallet.Control.Revalidated.{Revalidated, revalidate_authorization_lem}
use crip_wallet.Control.Stopped.{
  change_control_fence-reserve_budget, change_control_fence-revalidate_authorization,
}

abbrev authorized : Db
authorized = database ReservationStatus.authorized

-- The policy of the operation is revoked.
abbrev revocation : ChangeControlFenceRequest
revocation = record {
  scope_type = ControlScopeType.policy;
  scope_id = units "p";
  command = revoke;
  audit = audit none;
}

abbrev result : ControlFenceResult
result = record {
  scope_type = ControlScopeType.policy;
  scope_id = units "p";
  fence_version = 2;
  state = ControlState.revoked;
  changed = true;
}

abbrev probe : RevalidateAuthorizationRequest
probe = record { operation_id = units "o"; authorization_id = units "auth" }

abbrev moved : LifecycleState → Operation
moved state = record {
  operation_id = units "o";
  intent_id = units "i";
  agent_id = units "a";
  wallet_id = units "w";
  policy_id = units "p";
  policy_version = 1;
  current_state = state;
}

abbrev owned : Agent
owned = record { agent_id = units "a"; owner_id = units "owner" }

abbrev revoked_database : Db
revoked_database = after (change_control_fence env.library 10 revocation) authorized

-- What a run unfolds
unfoldable control : Unit {0}
unfolding ledger change_control_fence change_locked apply_command is_command_of commanded next_state
    revoke_policy insert_fence insert_or_find ensure_fence lock_mutation_fence assert_target
    append_control_event next_control_event latest_of_scope target_predicate select_rows
    latest_envelope latest_decision held_row pending_row authorized_row operation_audit
    release_reservation_row move_operation revoke_approval for_each invalidate_pending
    invalidate_authorized invalidate_held_before_approval invalidate_affected_authorizations
    names_evidence identity locked_evidence same_fences all_fences_active is_current
    lock_control_fences revalidate_authorization find update count identifier_pattern decimal
control = tt

change_control_fence_lem_example :
    Holds
      (Changed revocation authorized)
      (change_control_fence env.library 10 revocation authorized)
change_control_fence_lem_example = change_control_fence_lem env.library 10 revocation authorized

revalidate_authorization_lem_example :
    Holds (Revalidated 20 20 probe authorized) (revalidate_authorization 20 20 probe authorized)
revalidate_authorization_lem_example = revalidate_authorization_lem 20 20 probe authorized

revoked : change_control_fence env.library 10 revocation authorized ≡ ok (result, revoked_database)
unfolding control
revoked = refl

change_control_fence-revalidate_authorization_example :
    IsRefused (revalidate_authorization 20 20 probe revoked_database)
unfolding control
change_control_fence-revalidate_authorization_example =
    change_control_fence-revalidate_authorization env.library 10 revocation authorized
      revoked_database result (moved LifecycleState.revoked) owned revoked refl refl probe 20 20
      refl

-- An operation without a reservation and an authorization
abbrev unreserved : Db
unreserved = record fresh_database {
  operations = moved LifecycleState.policy_finalized ∷ [];
  authorizations = [];
}

abbrev closed_database : Db
closed_database = after (change_control_fence env.library 10 revocation) unreserved

closed : change_control_fence env.library 10 revocation unreserved ≡ ok (result, closed_database)
unfolding control
closed = refl

change_control_fence-reserve_budget_example : IsRefused (reserve_budget env request closed_database)
unfolding control
change_control_fence-reserve_budget_example =
    change_control_fence-reserve_budget env.library 10 revocation unreserved closed_database result
      (moved LifecycleState.policy_finalized) owned closed refl refl env request refl refl

-- Active fences of the versions that the evidence names pass the probe.
current : revalidate_authorization 20 20 probe authorized ≡ ok (all_active, authorized)
unfolding control
current = refl

-- The amount is available again.
abbrev balances : Db → List (ℕ × ℕ)
balances db = let row : Budget → ℕ × ℕ = λ b. (b.available, b.reserved) in map row db.budgets

given_back : balances revoked_database ≡ (1000, 0) ∷ []
unfolding control
given_back = refl
