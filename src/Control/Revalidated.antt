-- ===== src/Control/Revalidated.antt =====
-- packages/approvals/src/control.ts: what `revalidateAuthorization` has checked.
use crip_wallet.Base.{ℕ, ◌≡◌, refl, true, false, some, arith, ltb}
use crip_wallet.Schemas.Money.{Text, units}
use crip_wallet.Schemas.Lifecycle.{LifecycleState, state_eq}
use crip_wallet.Store.{Db, Operation, Agent, ControlFence, ControlFenceSnapshot}
use crip_wallet.Store.ControlScopeType.{system, owner, agent, policy}
use crip_wallet.Store.Tables.{find}
use crip_wallet.Store.Tx.{
  Holds, bind-Holds, gets-Holds, or_throw-Holds, require-Holds, pure-Holds,
  control_target_not_found, authorization_revalidation_required,
}
use crip_wallet.Ledger.Binding.{is_fence}
use crip_wallet.Control.{RevalidateAuthorizationRequest}
use crip_wallet.Control.Fences.{canonical_id, lock_control_fences}
use crip_wallet.Control.Rows.{is_authorized_reservation}
use crip_wallet.Control.Later.{KeptFences, kept_trans}
use crip_wallet.Control.Changing.{ensure_fence_then}
use crip_wallet.Control.Revalidate.{
  EvidenceRow, identity, locked_evidence, same_fences, all_fences_active, is_current,
  revalidate_authorization,
}

-- The fences of a snapshot are those of the database.
pub record Fenced (owner_id agent_id policy_id : Text) (db : Db) (s : ControlFenceSnapshot) (w : Db)
    : Type 0 where
  pub system_fence : ControlFence
  pub owner_fence : ControlFence
  pub agent_fence : ControlFence
  pub policy_fence : ControlFence
  pub system_found : find (is_fence system (units "system")) w.fences ≡ some system_fence
  pub owner_found : find (is_fence owner owner_id) w.fences ≡ some owner_fence
  pub agent_found : find (is_fence agent agent_id) w.fences ≡ some agent_fence
  pub policy_found : find (is_fence policy policy_id) w.fences ≡ some policy_fence
  pub shown : s ≡ record {
    system_fence_version = system_fence.fence_version;
    system_state = system_fence.state;
    owner_fence_version = owner_fence.fence_version;
    owner_state = owner_fence.state;
    agent_fence_version = agent_fence.fence_version;
    agent_state = agent_fence.state;
    policy_fence_version = policy_fence.fence_version;
    policy_state = policy_fence.state;
  }
  pub kept : KeptFences db w

lock_control_fences-Fenced :
    (owner_id agent_id policy_id : Text) (db : Db)
    → Holds
        (Fenced owner_id agent_id policy_id db)
        (lock_control_fences owner_id agent_id policy_id db)
unfolding lock_control_fences
lock_control_fences-Fenced owner_id agent_id policy_id db =
    let P : ControlFenceSnapshot → Db → Type 0 = Fenced owner_id agent_id policy_id db in
    ensure_fence_then P system (units "system") _ db (λ s w1 (s_at, k1).
      ensure_fence_then P owner owner_id _ w1 (λ o w2 (o_at, k2).
        ensure_fence_then P agent agent_id _ w2 (λ a w3 (a_at, k3).
          ensure_fence_then P policy policy_id _ w3 (λ p w (p_at, k4).
            let from_3 = kept_trans w2.fences w3.fences w.fences k3 k4 in
            let from_2 = kept_trans w1.fences w2.fences w.fences k2 from_3 in
            pure-Holds P w _ (record {
              system_fence = s;
              owner_fence = o;
              agent_fence = a;
              policy_fence = p;
              system_found = from_2 system (units "system") s s_at;
              owner_found = from_3 owner owner_id o o_at;
              agent_found = k4 agent agent_id a a_at;
              policy_found = p_at;
              shown = refl;
              kept = kept_trans db.fences w1.fences w.fences k1 from_2;
            })))))

-- The evidence names an operation whose fences are active and as they were when the evidence was
-- made; operation and reservation are authorized, nothing has invalidated the evidence, and it is
-- valid after both clocks.
pub record Revalidated (now process_now : ℕ) (request : RevalidateAuthorizationRequest) (db : Db)
    (s : ControlFenceSnapshot) (w : Db) : Type 0 where
  pub operation : Operation
  pub agent : Agent
  pub identified : identity request db ≡ some (operation, agent)
  pub fenced : Fenced agent.owner_id operation.agent_id operation.policy_id db s w
  pub row : EvidenceRow
  pub selected : locked_evidence request now w ≡ some row
  pub operation_authorized : state_eq row.operation.current_state LifecycleState.authorized ≡ true
  pub reservation_authorized : is_authorized_reservation row.reservation.status ≡ true
  pub valid_still : ltb process_now row.evidence.expires_at ≡ true
  pub uninvalidated : row.invalidated ≡ false
  pub unchanged : same_fences row.evidence.fences s ≡ true
  pub active : all_fences_active s ≡ true

-- A successful revalidateAuthorization returns the fences of the system and of the owner, agent and
-- policy of the operation that the evidence names: all are active and as the evidence has them,
-- operation and reservation are authorized, the evidence is not invalidated and not expired at the
-- clock of the process, and existing fences are unchanged.
pub revalidate_authorization_lem :
    (now process_now : ℕ) (request : RevalidateAuthorizationRequest) (db : Db)
    → Holds
        (Revalidated now process_now request db)
        (revalidate_authorization now process_now request db)
unfolding revalidate_authorization is_current
revalidate_authorization_lem now process_now request db =
    let P : ControlFenceSnapshot → Db → Type 0 = Revalidated now process_now request db in
    require-Holds P db (canonical_id request.operation_id) control_target_not_found _ (λ _.
      require-Holds P db (canonical_id request.authorization_id) control_target_not_found _ (λ _.
        gets-Holds P db (identity request) _ (
          or_throw-Holds P db (identity request db) authorization_revalidation_required _
            (λ (o, a) identified.
              bind-Holds P db _ _ _
                (lock_control_fences-Fenced a.owner_id o.agent_id o.policy_id db)
                (λ s w fenced. gets-Holds P w (locked_evidence request now) _ (
                  or_throw-Holds P w (locked_evidence request now w)
                    authorization_revalidation_required _
                    (λ row selected.
                      require-Holds P w (is_current process_now s row)
                        authorization_revalidation_required _
                        (λ current. pure-Holds P w s (record {
                          operation = o;
                          agent = a;
                          identified = identified;
                          fenced = fenced;
                          row = row;
                          selected = selected;
                          operation_authorized = ground arith;
                          reservation_authorized = ground arith;
                          valid_still = ground arith;
                          uninvalidated = ground arith;
                          unchanged = ground arith;
                          active = ground arith;
                        })))))))))
