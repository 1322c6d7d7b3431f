-- ===== src/Control/Fences.antt =====
-- packages/approvals/src/control.ts: finding or creating a fence, and the fences that a mutation
-- and an authorization take (assertTarget, ensureFence, lockMutationFence, lockControlFences).
use crip_wallet.Base.{Bool, true, false, not, ◌&&◌, ◌∷◌, any, none, if◌then◌else◌}
use crip_wallet.Schemas.Money.{Text, units}
use crip_wallet.Schemas.Common.{same_text, identifier_pattern}
use crip_wallet.Store.{
  Db, Agent, PolicyRow, ControlScopeType, ControlState, ControlFence, ControlFenceSnapshot,
}
use crip_wallet.Store.ControlScopeType.{system, owner, agent, policy}
use crip_wallet.Store.ControlState.{active, revoked}
use crip_wallet.Store.Tables.{find}
use crip_wallet.Store.Tx.{
  Tx, ◌>>=◌, ◌>>◌, pure, gets, modify, or_throw, require, control_target_not_found,
  authorization_revalidation_required,
}
use crip_wallet.Ledger.Binding.{is_fence, is_revoked_policy}

abbrev pub is_policy : Text → PolicyRow → Bool
is_policy id p = same_text p.policy_id id

abbrev pub is_agent : Text → Agent → Bool
is_agent id a = same_text a.agent_id id

-- `id`: /^[A-Za-z0-9][A-Za-z0-9._:_-]*$/
abbrev pub canonical_id : Text → Bool
canonical_id = identifier_pattern

abbrev pub is_revoked : ControlState → Bool
is_revoked revoked = true
is_revoked _ = false

-- `assertTarget`
unfoldable pub assert_target : ControlScopeType → Text → Tx (Unit {0})
assert_target system id = require (same_text id (units "system")) control_target_not_found
assert_target owner id = do
  owners ← gets (λ db. db.owners)
  require (any (same_text id) owners) control_target_not_found
assert_target agent id = do
  agents ← gets (λ db. db.agents)
  require (any (is_agent id) agents) control_target_not_found
assert_target policy id = do
  policies ← gets (λ db. db.policies)
  require (any (is_policy id) policies) control_target_not_found

-- INSERT INTO control_fences ... ON CONFLICT DO NOTHING
unfoldable pub insert_fence : ControlScopeType → Text → ControlState → Db → Db
insert_fence scope id state db = if any (is_fence scope id) db.fences then db else record db {
  fences =
      record {
        scope_type = scope;
        scope_id = id;
        fence_version = 1;
        state = state;
        last_control_event_id = none;
      }
      ∷ db.fences;
}

-- The fence as it is, or a new one in the state given; that of a revoked policy is revoked.
unfoldable pub insert_or_find : ControlScopeType → Text → ControlState → Bool → Tx ControlFence
insert_or_find scope id state revoked_policy = do
  modify (insert_fence scope id state)
  row ← gets (λ db. find (is_fence scope id) db.fences)
  f ← or_throw row control_target_not_found
  require (not (revoked_policy && not (is_revoked f.state))) authorization_revalidation_required
  pure f

-- `ensureFence`
unfoldable pub ensure_fence : ControlScopeType → Text → Tx ControlFence
ensure_fence policy id = do
  row ← gets (λ db. find (is_policy id) db.policies)
  p ← or_throw row control_target_not_found
  insert_or_find policy id (if is_revoked_policy p then revoked else active) (is_revoked_policy p)
ensure_fence system id = insert_or_find system id active false
ensure_fence owner id = insert_or_find owner id active false
ensure_fence agent id = insert_or_find agent id active false

-- `lockMutationFence`
unfoldable pub lock_mutation_fence : ControlScopeType → Text → Tx ControlFence
lock_mutation_fence system id = ensure_fence system (units "system")
lock_mutation_fence owner id = do ensure_fence system (units "system"); ensure_fence owner id
lock_mutation_fence agent id = do
  ensure_fence system (units "system")
  row ← gets (λ db. find (is_agent id) db.agents)
  a ← or_throw row control_target_not_found
  ensure_fence owner a.owner_id
  ensure_fence agent id
lock_mutation_fence policy id = do
  ensure_fence system (units "system")
  row ← gets (λ db. find (is_policy id) db.policies)
  p ← or_throw row control_target_not_found
  ensure_fence owner p.owner_id
  ensure_fence agent p.agent_id
  ensure_fence policy id

-- `lockControlFences`
unfoldable pub lock_control_fences : Text → Text → Text → Tx ControlFenceSnapshot
lock_control_fences owner_id agent_id policy_id = do
  s ← ensure_fence system (units "system")
  o ← ensure_fence owner owner_id
  a ← ensure_fence agent agent_id
  p ← ensure_fence policy policy_id
  pure (record {
    system_fence_version = s.fence_version;
    system_state = s.state;
    owner_fence_version = o.fence_version;
    owner_state = o.state;
    agent_fence_version = a.fence_version;
    agent_state = a.state;
    policy_fence_version = p.fence_version;
    policy_state = p.state;
  })
