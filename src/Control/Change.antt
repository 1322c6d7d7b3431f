-- ===== src/Control/Change.antt =====
-- packages/approvals/src/control.ts: `changeControlFence`, inside its serializable transaction.
use crip_wallet.Base.{ℕ, ◌+◌, Bool, true, false, not, ◌&&◌, some, if◌then◌else◌}
use crip_wallet.Schemas.Money.{Text, units}
use crip_wallet.Schemas.Common.{same_text}
use crip_wallet.Schemas.PolicyContract.{PolicyStatus}
use crip_wallet.Store.{Db, ControlScopeType, ControlState, ControlFence, PolicyRow}
use crip_wallet.Store.Tables.{find, update}
use crip_wallet.Store.Tx.{
  Tx, ◌>>=◌, ◌>>◌, pure, gets, modify, or_throw, require, control_target_not_found, invalid_command,
}
use crip_wallet.Ledger.Binding.{is_fence}
use crip_wallet.Audit.{AuditLibrary, ControlEventInput}
use crip_wallet.Control.{
  ControlCommand, pause, resume, revoke, ChangeControlFenceRequest, ControlFenceResult,
}
use crip_wallet.Control.Fences.{canonical_id, is_policy, assert_target, lock_mutation_fence}
use crip_wallet.Control.Events.{append_control_event, event_type}
use crip_wallet.Control.Statements.{fence_event_id}
use crip_wallet.Control.Invalidate.{invalidate_affected_authorizations}

abbrev pub is_system : ControlScopeType → Bool
is_system ControlScopeType.system = true
is_system _ = false

-- The commands of a scope: the system is paused and resumed, the others are revoked.
unfoldable pub is_command_of : ControlScopeType → ControlCommand → Bool
is_command_of ControlScopeType.system revoke = false
is_command_of ControlScopeType.system _ = true
is_command_of _ revoke = true
is_command_of _ _ = false

-- The state that a command asks for
unfoldable pub commanded : ControlCommand → ControlState
commanded pause = ControlState.paused
commanded resume = ControlState.active
commanded revoke = ControlState.revoked

abbrev pub same_state : ControlState → ControlState → Bool
same_state ControlState.active ControlState.active = true
same_state ControlState.paused ControlState.paused = true
same_state ControlState.revoked ControlState.revoked = true
same_state _ _ = false

-- `alreadyApplied`
abbrev pub already_applied : ControlCommand → ControlState → Bool
already_applied command state = same_state (commanded command) state

-- `nextState`
unfoldable pub next_state : ControlScopeType → ControlCommand → ControlState
next_state ControlScopeType.system pause = ControlState.paused
next_state ControlScopeType.system _ = ControlState.active
next_state _ command = ControlState.revoked

abbrev pub result_of : ControlFence → Bool → ControlFenceResult
result_of f changed = record {
  scope_type = f.scope_type;
  scope_id = f.scope_id;
  fence_version = f.fence_version;
  state = f.state;
  changed = changed;
}

abbrev pub changed_fence : ControlState → Text → ControlFence → ControlFence
changed_fence state event_id f = record f {
  fence_version = f.fence_version + 1;
  state = state;
  last_control_event_id = some event_id;
}

-- UPDATE policies SET status = 'revoked', where a policy is revoked
unfoldable pub revoke_policy : ControlScopeType → Text → Db → Db
revoke_policy ControlScopeType.policy id db = record db {
  policies =
      update (is_policy id) (λ (p : PolicyRow). record p { status = PolicyStatus.revoked })
        db.policies;
}
revoke_policy _ id db = db

module _ (library : AuditLibrary) (now : ℕ) (request : ChangeControlFenceRequest) where
  -- The event of `appendControlAudit`
  abbrev pub fence_event : ControlFence → ControlState → ControlEventInput
  fence_event f previous = record {
    event_id = fence_event_id request.audit.event_id f.fence_version;
    event_type = event_type request.scope_type request.command;
    actor_type = request.audit.actor_type;
    actor_id = request.audit.actor_id;
    trace_id = request.audit.trace_id;
    scope_type = request.scope_type;
    scope_id = request.scope_id;
    fence_version = f.fence_version;
    control_state = f.state;
    previous_control_state = previous;
  }

  -- The UPDATE of the fence, its event, the policy and the affected operations
  unfoldable pub apply_command : ControlFence → Tx ControlFenceResult
  apply_command current = do
    modify (λ db. record db {
      fences =
          update (is_fence request.scope_type request.scope_id)
            (changed_fence (next_state request.scope_type request.command)
              (fence_event_id request.audit.event_id (current.fence_version + 1)))
            db.fences;
    })
    updated ← gets (λ db. find (is_fence request.scope_type request.scope_id) db.fences)
    next ← or_throw updated control_target_not_found
    append_control_event library (fence_event next current.state)
    modify (revoke_policy request.scope_type request.scope_id)
    invalidate_affected_authorizations library now
        (record { request = request; fence_version = next.fence_version; state = next.state })
    pure (result_of next true)

  -- The transaction
  unfoldable pub change_locked : Tx ControlFenceResult
  change_locked = do
    assert_target request.scope_type request.scope_id
    current ← lock_mutation_fence request.scope_type request.scope_id
    if already_applied request.command current.state
        then pure (result_of current false)
        else apply_command current

  -- `changeControlFence`
  unfoldable pub change_control_fence : Tx ControlFenceResult
  change_control_fence = do
    require (canonical_id request.scope_id) control_target_not_found
    require
        (not (is_system request.scope_type && not (same_text request.scope_id (units "system"))))
        control_target_not_found
    require (is_command_of request.scope_type request.command) invalid_command
    change_locked
