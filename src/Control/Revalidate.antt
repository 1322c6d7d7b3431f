-- ===== src/Control/Revalidate.antt =====
-- packages/approvals/src/control.ts: `revalidateAuthorization`, the probe of the fences of an
-- authorization, inside its serializable transaction.
use crip_wallet.Base.{ℕ, Bool, not, ◌&&◌, Option, some, ◌==◌, ltb}
use crip_wallet.Schemas.Common.{same_text}
use crip_wallet.Schemas.Lifecycle.{LifecycleState, state_eq}
use crip_wallet.Store.{Db, Operation, Agent, Reservation, AuthorizationRow, ControlFenceSnapshot}
use crip_wallet.Store.ControlState.{active}
use crip_wallet.Store.Tables.{find}
use crip_wallet.Store.Tx.{
  Tx, ◌>>=◌, ◌>>◌, pure, gets, or_throw, require, control_target_not_found,
  authorization_revalidation_required,
}
use crip_wallet.Store.Funds.{is_budget}
use crip_wallet.Ledger.Binding.{is_operation}
use crip_wallet.Control.{RevalidateAuthorizationRequest}
use crip_wallet.Control.Fences.{canonical_id, is_agent, lock_control_fences}
use crip_wallet.Control.Rows.{with_some, has_invalidation, is_authorized_reservation}
use crip_wallet.Control.Change.{same_state}

-- WHERE e.authorization_id = $1 AND e.operation_id = $2
unfoldable pub names_evidence : RevalidateAuthorizationRequest → AuthorizationRow → Bool
names_evidence request e =
    same_text e.authorization_id request.authorization_id
    && same_text e.operation_id request.operation_id

-- The operation and agent of the evidence
unfoldable pub identity : RevalidateAuthorizationRequest → Db → Option (Operation × Agent)
identity request db = with_some (find (names_evidence request) db.authorizations) (λ e.
    with_some (find (is_operation e.operation_id) db.operations)
      (λ o. with_some (find (is_agent o.agent_id) db.agents) (λ a. some (o, a))))

-- The columns of the second query
pub record EvidenceRow : Type 0 where
  pub evidence : AuthorizationRow
  pub operation : Operation
  pub reservation : Reservation
  pub invalidated : Bool

abbrev unexpired : RevalidateAuthorizationRequest → ℕ → AuthorizationRow → Bool
unexpired request now e = names_evidence request e && ltb now e.expires_at

-- The evidence, not expired, with its operation, reservation, budget and invalidation
unfoldable pub locked_evidence : RevalidateAuthorizationRequest → ℕ → Db → Option EvidenceRow
locked_evidence request now db = with_some (find (unexpired request now) db.authorizations) (λ e.
    with_some (find (is_operation e.operation_id) db.operations) (λ o.
      with_some
        (find (λ (r : Reservation). same_text r.operation_id e.operation_id) db.reservations)
        (λ r. with_some (find (is_budget r.budget_id) db.budgets) (λ b. some (record {
          evidence = e;
          operation = o;
          reservation = r;
          invalidated = has_invalidation db e.authorization_id;
        })))))

-- The versions and states of two snapshots are those of each other.
unfoldable pub same_fences : ControlFenceSnapshot → ControlFenceSnapshot → Bool
same_fences s t =
    same_state s.system_state t.system_state
    && (same_state s.owner_state t.owner_state
        && (same_state s.agent_state t.agent_state
            && (same_state s.policy_state t.policy_state
                && (s.system_fence_version == t.system_fence_version
                    && (s.owner_fence_version == t.owner_fence_version
                        && (s.agent_fence_version == t.agent_fence_version
                            && s.policy_fence_version == t.policy_fence_version))))))

unfoldable pub all_fences_active : ControlFenceSnapshot → Bool
all_fences_active s =
    same_state s.system_state active
    && (same_state s.owner_state active
        && (same_state s.agent_state active && same_state s.policy_state active))

-- `matches`, at the clock of the process
unfoldable pub is_current : ℕ → ControlFenceSnapshot → EvidenceRow → Bool
is_current process_now current row =
    state_eq row.operation.current_state LifecycleState.authorized
    && (is_authorized_reservation row.reservation.status
        && (ltb process_now row.evidence.expires_at
            && (not row.invalidated
                && (same_fences row.evidence.fences current && all_fences_active current))))

-- `revalidateAuthorization`, at the clocks of the database and the process
unfoldable pub revalidate_authorization :
    ℕ → ℕ → RevalidateAuthorizationRequest → Tx ControlFenceSnapshot
revalidate_authorization now process_now request = do
  require (canonical_id request.operation_id) control_target_not_found
  require (canonical_id request.authorization_id) control_target_not_found
  target ← gets (identity request)
  (o, a) ← or_throw target authorization_revalidation_required
  current ← lock_control_fences a.owner_id o.agent_id o.policy_id
  found ← gets (locked_evidence request now)
  row ← or_throw found authorization_revalidation_required
  require (is_current process_now current row) authorization_revalidation_required
  pure current
