-- ===== src/Ledger/Fences.antt =====
-- packages/budget-ledger/src/ledger.ts: what `lockReservationControlFences` has checked.
use crip_wallet.Base.{◌≡◌, true, not, ◌&&◌, some}
use crip_wallet.Base.Ensures.{Ensures}
use crip_wallet.Schemas.Money.{Text, units}
use crip_wallet.Schemas.Common.{same_text}
use crip_wallet.Store.{Db, Operation, Agent, PolicyRow, ControlFence, ControlScopeType}
use crip_wallet.Store.Tables.{find}
use crip_wallet.Store.Tx.{reservation_not_found, control_fence_inactive}
use crip_wallet.Store.Query.{select-Ensures, guard-Ensures}
use crip_wallet.Ledger.Binding.{
  is_operation, is_fence, is_active_fence, is_revoked_policy, lock_reservation_control_fences,
}

-- The fences of the system and of the operation's owner, agent and policy are active, and its
-- policy is not revoked.
pub record Unfenced (operation_id : Text) (db : Db) : Type 0 where
  pub operation : Operation
  pub agent : Agent
  pub policy : PolicyRow
  pub system_fence : ControlFence
  pub owner_fence : ControlFence
  pub agent_fence : ControlFence
  pub policy_fence : ControlFence
  pub operation_found : find (is_operation operation_id) db.operations ≡ some operation
  pub agent_found : find (λ x. same_text x.agent_id operation.agent_id) db.agents ≡ some agent
  pub policy_found : find (λ x. same_text x.policy_id operation.policy_id) db.policies ≡ some policy
  pub system_found :
      find (is_fence ControlScopeType.system (units "system")) db.fences ≡ some system_fence
  pub owner_found :
      find (is_fence ControlScopeType.owner agent.owner_id) db.fences ≡ some owner_fence
  pub agent_fence_found :
      find (is_fence ControlScopeType.agent operation.agent_id) db.fences ≡ some agent_fence
  pub policy_fence_found :
      find (is_fence ControlScopeType.policy operation.policy_id) db.fences ≡ some policy_fence
  pub active :
      (is_active_fence system_fence
        && (is_active_fence owner_fence
            && (is_active_fence agent_fence
                && (is_active_fence policy_fence && not (is_revoked_policy policy)))))
      ≡ true

pub lock-Unfenced :
    (id : Text) (db : Db) → Ensures (λ _. Unfenced id db) (lock_reservation_control_fences id db)
unfolding lock_reservation_control_fences
lock-Unfenced id db =
    select-Ensures _ db (λ d. find (is_operation id) d.operations) reservation_not_found _
      (λ o o_at.
        select-Ensures _ db (λ d. find (λ x. same_text x.agent_id o.agent_id) d.agents)
          reservation_not_found _
          (λ a a_at.
            select-Ensures _ db (λ d. find (λ x. same_text x.policy_id o.policy_id) d.policies)
              reservation_not_found _
              (λ p p_at.
                select-Ensures _ db
                  (λ d. find (is_fence ControlScopeType.system (units "system")) d.fences)
                  control_fence_inactive _
                  (λ f1 at1.
                    select-Ensures _ db
                      (λ d. find (is_fence ControlScopeType.owner a.owner_id) d.fences)
                      control_fence_inactive _
                      (λ f2 at2.
                        select-Ensures _ db
                          (λ d. find (is_fence ControlScopeType.agent o.agent_id) d.fences)
                          control_fence_inactive _
                          (λ f3 at3.
                            select-Ensures _ db
                              (λ d. find (is_fence ControlScopeType.policy o.policy_id) d.fences)
                              control_fence_inactive _
                              (λ f4 at4.
                                guard-Ensures (λ _. Unfenced id db) _ control_fence_inactive db
                                  (λ active. record {
                                    operation = o;
                                    agent = a;
                                    policy = p;
                                    system_fence = f1;
                                    owner_fence = f2;
                                    agent_fence = f3;
                                    policy_fence = f4;
                                    operation_found = o_at;
                                    agent_found = a_at;
                                    policy_found = p_at;
                                    system_found = at1;
                                    owner_found = at2;
                                    agent_fence_found = at3;
                                    policy_fence_found = at4;
                                    active = active;
                                  }))))))))
