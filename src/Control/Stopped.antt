-- ===== src/Control/Stopped.antt =====
-- packages/approvals/src/control.ts with packages/budget-ledger/src/ledger.ts: what a pause of the
-- system or a revocation stops.
use crip_wallet.Base.{◌≡◌, refl, sym, ap, subst, ◌∙◌, Bool, true, false, Option, some, arith, ℕ}
use crip_wallet.Base.Ensures.{ok}
use crip_wallet.Schemas.Money.{Text, units}
use crip_wallet.Schemas.Common.{same_text_iff}
use crip_wallet.Store.{
  Db, Operation, Agent, ControlScopeType, ControlState, ControlFence, ControlFenceSnapshot,
}
use crip_wallet.Store.Tables.{find, find_holds}
use crip_wallet.Store.Tx.{IsRefused, refuse, holds_at}
use crip_wallet.Ledger.{Env, ReserveRequest}
use crip_wallet.Ledger.Binding.{is_operation, is_fence, is_active_fence}
use crip_wallet.Ledger.Reserve.{reserve_budget}
use crip_wallet.Ledger.Fences.{Unfenced}
use crip_wallet.Ledger.Reserving.{reserve_budget_lem}
use crip_wallet.Audit.{AuditLibrary}
use crip_wallet.Control.{
  ControlCommand, pause, resume, revoke, ChangeControlFenceRequest, ControlFenceResult,
  RevalidateAuthorizationRequest,
}
use crip_wallet.Control.Fences.{is_agent}
use crip_wallet.Control.Rows.{target_predicate}
use crip_wallet.Control.Change.{commanded, same_state, change_control_fence}
use crip_wallet.Control.Revalidate.{identity, all_fences_active, revalidate_authorization}
use crip_wallet.Control.Changed.{Changed, change_control_fence_lem}
use crip_wallet.Control.Later.{KeptFences}
use crip_wallet.Control.Changing.{locked_id}
use crip_wallet.Control.Revalidated.{Fenced, Revalidated, revalidate_authorization_lem}

-- The commands that stop what they target
abbrev pub is_stop : ControlCommand → Bool
is_stop resume = false
is_stop _ = true

-- The identifier of the fence of an operation and its agent, by its scope
unfoldable pub fence_id_of : Operation → Agent → ControlScopeType → Text
fence_id_of o a ControlScopeType.system = units "system"
fence_id_of o a ControlScopeType.owner = a.owner_id
fence_id_of o a ControlScopeType.agent = o.agent_id
fence_id_of o a ControlScopeType.policy = o.policy_id

-- The fences of an operation and its agent are active.
abbrev Standing : Operation → Agent → Db → Type 0
Standing o a w =
    (scope : ControlScopeType)
    → (f : ControlFence) × ((find (is_fence scope (fence_id_of o a scope)) w.fences ≡ some f)
        × (f.state ≡ ControlState.active))

is_active_sound :
    (s : ControlState) → same_state s ControlState.active ≡ true → s ≡ ControlState.active
is_active_sound ControlState.active e = refl
is_active_sound ControlState.paused e = cc
is_active_sound ControlState.revoked e = cc

active_fence_sound : (f : ControlFence) → is_active_fence f ≡ true → f.state ≡ ControlState.active
active_fence_sound f e = ground arith

same_row : {A : Type 0} {x : Option A} {f g : A} → x ≡ some f → x ≡ some g → f ≡ g
same_row e d = cc

Unfenced-Standing :
    (o : Operation) (a : Agent) (w : Db)
    → find (is_operation o.operation_id) w.operations ≡ some o
    → find (is_agent o.agent_id) w.agents ≡ some a
    → Unfenced o.operation_id w
    → Standing o a w
unfolding fence_id_of
Unfenced-Standing o a w o_at a_at u scope =
    let same_o = same_row u.operation_found o_at in
    let same_a =
      same_row
        (subst (λ (x : Operation). find (is_agent x.agent_id) w.agents ≡ some u.agent) same_o
          u.agent_found)
        a_at in
    elim scope
      as (λ s.
        (f : ControlFence) × ((find (is_fence s (fence_id_of o a s)) w.fences ≡ some f)
          × (f.state ≡ ControlState.active))) [
            | ControlScopeType.system ↦ (
              u.system_fence,
              (u.system_found, active_fence_sound u.system_fence (ground (arith, u.active))),
            )
            | ControlScopeType.owner ↦ (
              u.owner_fence,
              (
                subst
                    (λ (x : Agent).
                      find (is_fence ControlScopeType.owner x.owner_id) w.fences
                      ≡ some u.owner_fence)
                    same_a u.owner_found,
                active_fence_sound u.owner_fence (ground (arith, u.active)),
              ),
            )
            | ControlScopeType.agent ↦ (
              u.agent_fence,
              (
                subst
                    (λ (x : Operation).
                      find (is_fence ControlScopeType.agent x.agent_id) w.fences
                      ≡ some u.agent_fence)
                    same_o u.agent_fence_found,
                active_fence_sound u.agent_fence (ground (arith, u.active)),
              ),
            )
            | ControlScopeType.policy ↦ (
              u.policy_fence,
              (
                subst
                    (λ (x : Operation).
                      find (is_fence ControlScopeType.policy x.policy_id) w.fences
                      ≡ some u.policy_fence)
                    same_o u.policy_fence_found,
                active_fence_sound u.policy_fence (ground (arith, u.active)),
              ),
            )
          ]

Fenced-Standing :
    (o : Operation) (a : Agent) (w v : Db) (s : ControlFenceSnapshot)
    → Fenced a.owner_id o.agent_id o.policy_id w s v
    → all_fences_active s ≡ true
    → Standing o a v
unfolding fence_id_of all_fences_active
Fenced-Standing o a w v s f active scope =
    let shown = ap all_fences_active (sym f.shown) ∙ active in
    elim scope
      as (λ s.
        (f : ControlFence) × ((find (is_fence s (fence_id_of o a s)) v.fences ≡ some f)
          × (f.state ≡ ControlState.active))) [
            | ControlScopeType.system ↦ (
              f.system_fence,
              (f.system_found, is_active_sound f.system_fence.state (ground (arith, shown))),
            )
            | ControlScopeType.owner ↦ (
              f.owner_fence,
              (f.owner_found, is_active_sound f.owner_fence.state (ground (arith, shown))),
            )
            | ControlScopeType.agent ↦ (
              f.agent_fence,
              (f.agent_found, is_active_sound f.agent_fence.state (ground (arith, shown))),
            )
            | ControlScopeType.policy ↦ (
              f.policy_fence,
              (f.policy_found, is_active_sound f.policy_fence.state (ground (arith, shown))),
            )
          ]

-- The target of a command is a fence of the operation.
target-fence_id_of :
    (scope : ControlScopeType) (id : Text) (o : Operation) (a : Agent)
    → locked_id scope id ≡ id
    → target_predicate scope id o a ≡ true
    → fence_id_of o a scope ≡ id
unfolding target_predicate fence_id_of
target-fence_id_of ControlScopeType.system id o a named e = named
target-fence_id_of ControlScopeType.owner id o a named e = (same_text_iff a.owner_id id).0 e
target-fence_id_of ControlScopeType.agent id o a named e = (same_text_iff o.agent_id id).0 e
target-fence_id_of ControlScopeType.policy id o a named e = (same_text_iff o.policy_id id).0 e

stop-commanded :
    (command : ControlCommand)
    → is_stop command ≡ true
    → commanded command ≡ ControlState.active
    → ⊥
unfolding commanded
stop-commanded pause e d = cc
stop-commanded resume e d = cc
stop-commanded revoke e d = cc

Changed-Standing :
    (request : ChangeControlFenceRequest) (db : Db) (r : ControlFenceResult) (w v : Db)
    (o : Operation) (a : Agent)
    → Changed request db r w
    → is_stop request.command ≡ true
    → target_predicate request.scope_type request.scope_id o a ≡ true
    → KeptFences w v
    → Standing o a v
    → ⊥
Changed-Standing request db r w v o a c stop target kept standing =
    let (f, (at, active)) = standing request.scope_type in
    let named = target-fence_id_of request.scope_type request.scope_id o a c.own_id target in
    let still = kept request.scope_type request.scope_id c.fence c.found in
    let same =
      same_row still
        (subst (λ id. find (is_fence request.scope_type id) v.fences ≡ some f) named at) in
    stop-commanded request.command stop
      (sym c.obeyed ∙ (ap (λ (x : ControlFence). x.state) same ∙ active))

module _ (library : AuditLibrary) (now : ℕ) (request : ChangeControlFenceRequest) (db w : Db)
    (r : ControlFenceResult) (o : Operation) (a : Agent)
    (done : change_control_fence library now request db ≡ ok (r, w))
    (stop : is_stop request.command ≡ true)
    (target : target_predicate request.scope_type request.scope_id o a ≡ true) where
  changed : Changed request db r w
  changed =
      holds_at _ (change_control_fence library now request) db
        (change_control_fence_lem library now request db) done

  -- After a successful pause of the system or revocation of an owner, agent or policy, no budget
  -- is reserved for an operation that the command targets, in the database that the command
  -- leaves.
  pub change_control_fence-reserve_budget :
      (env : Env) (q : ReserveRequest)
      → find (is_operation q.operation_id) w.operations ≡ some o
      → find (is_agent o.agent_id) w.agents ≡ some a
      → IsRefused (reserve_budget env q w)
  change_control_fence-reserve_budget env q o_at a_at =
      let own =
        (same_text_iff o.operation_id q.operation_id).0
          (find_holds (is_operation q.operation_id) w.operations o_at) in
      refuse (reserve_budget env q w) (λ r' v e.
        let (_, u, _) = holds_at _ (reserve_budget env q) w (reserve_budget_lem env q w) e in
        Changed-Standing request db r w w o a changed stop target (λ _ _ _ d. d)
          (Unfenced-Standing o a w
            (subst (λ id. find (is_operation id) w.operations ≡ some o) (sym own) o_at) a_at
            (subst (λ id. Unfenced id w) (sym own) u)))

  -- After a successful pause of the system or revocation of an owner, agent or policy, no
  -- authorization of an operation that the command targets passes revalidateAuthorization in the
  -- database that the command leaves.
  pub change_control_fence-revalidate_authorization :
      (probe : RevalidateAuthorizationRequest) (later process_now : ℕ)
      → identity probe w ≡ some (o, a)
      → IsRefused (revalidate_authorization later process_now probe w)
  change_control_fence-revalidate_authorization probe later process_now named =
      refuse (revalidate_authorization later process_now probe w) (λ s v e.
        let p : Revalidated later process_now probe w s v =
          holds_at _ (revalidate_authorization later process_now probe) w
            (revalidate_authorization_lem later process_now probe w) e in
        let same = same_row p.identified named in
        let fenced =
          subst (λ (x : Operation × Agent). Fenced x.1.owner_id x.0.agent_id x.0.policy_id w s v)
            same p.fenced in
        Changed-Standing request db r w v o a changed stop target fenced.kept
          (Fenced-Standing o a w v s fenced p.active))
