-- ===== src/Ledger/Binding.antt =====
-- packages/budget-ledger/src/ledger.ts: the rows that a reservation is bound to, read with it
-- (getReservationForUpdate, getReservationBindingForReserve, lockReservationControlFences,
-- assertAuditCorrelation, assertCanonicalAuthorizationEvidence).
pub mod Found
use crip_wallet.Base.{
  ℕ, Bool, true, false, not, ◌&&◌, List, [], ◌∷◌, any, Option, none, some, ◌==◌, ltb,
}
use crip_wallet.Schemas.Money.{Text, units}
use crip_wallet.Schemas.Common.{same_text, includes_text}
use crip_wallet.Schemas.Lifecycle.{LifecycleState, state_eq}
use crip_wallet.Schemas.PolicyContract.{PolicyStatus}
use crip_wallet.Store.{
  Db, Budget, Reservation, Operation, IntentRow, Agent, Wallet, PolicyRow, ControlScopeType,
  ControlState, ControlFence, BroadcastEvidenceRow, AuthorizationRow, EnvelopeRow, DecisionRow,
  AuditCorrelation,
}
use crip_wallet.Store.Tables.{find, count}
use crip_wallet.Store.Tx.{
  LedgerError, reservation_not_found, budget_binding_mismatch, audit_correlation_mismatch,
  control_fence_inactive, invalid_reservation_transition, invalid_broadcast_evidence,
}
use crip_wallet.Store.Query.{Query, ◌>>=◌, ◌>>◌, pure, gets, require, select}
use crip_wallet.Store.Funds.{is_budget, is_reservation}
use crip_wallet.Ledger.{AssertedCorrelation, AuditContext}

abbrev pub is_operation : Text → Operation → Bool
is_operation id o = same_text o.operation_id id

-- The rows that the joins on an operation and a budget give, `BindingRow`.
pub record BindingRow : Type 0 where
  pub operation : Operation
  pub intent : IntentRow
  pub agent : Agent
  pub wallet : Wallet
  pub policy : PolicyRow
  pub budget : Budget

-- `mapAuditCorrelation`
abbrev pub map_audit_correlation : Text → BindingRow → AuditCorrelation
map_audit_correlation reservation_id row = record {
  reservation_id = reservation_id;
  budget_id = row.budget.budget_id;
  owner_id = row.agent.owner_id;
  agent_id = row.operation.agent_id;
  wallet_id = row.operation.wallet_id;
  intent_id = row.intent.intent_id;
  operation_id = row.operation.operation_id;
  policy_id = row.operation.policy_id;
  policy_version = row.operation.policy_version;
}

-- The condition of `assertBindingConsistency`
unfoldable pub is_consistent : BindingRow → Bool
is_consistent row =
    same_text row.intent.agent_id row.operation.agent_id
    && (same_text row.intent.wallet_id row.operation.wallet_id
        && (same_text row.intent.policy_id row.operation.policy_id
            && (row.intent.policy_version == row.operation.policy_version
                && (same_text row.budget.agent_id row.operation.agent_id
                    && (same_text row.budget.wallet_id row.operation.wallet_id
                        && (same_text row.budget.policy_id row.operation.policy_id
                            && (row.budget.policy_version == row.operation.policy_version
                                && (same_text row.agent.owner_id row.wallet.owner_id
                                    && (same_text row.agent.owner_id row.policy.owner_id
                                        && (same_text row.policy.agent_id row.operation.agent_id
                                            && same_text row.policy.wallet_id
                                                row.operation.wallet_id))))))))))

-- The joins of an operation with its intent, agent, wallet and policy and with a budget.
unfoldable pub join_operation : Text → Text → Query BindingRow
join_operation budget_id operation_id = do
  o ← select (λ db. find (is_operation operation_id) db.operations) reservation_not_found
  i ← select (λ db. find (λ x. same_text x.intent_id o.intent_id) db.intents) reservation_not_found
  a ← select (λ db. find (λ x. same_text x.agent_id o.agent_id) db.agents) reservation_not_found
  w ← select (λ db. find (λ x. same_text x.wallet_id o.wallet_id) db.wallets) reservation_not_found
  p ← select (λ db. find (λ x. same_text x.policy_id o.policy_id) db.policies) reservation_not_found
  b ← select (λ db. find (is_budget budget_id) db.budgets) reservation_not_found
  pure (record { operation = o; intent = i; agent = a; wallet = w; policy = p; budget = b })

-- `getReservationBindingForReserve`
unfoldable pub get_reservation_binding_for_reserve : Text → Text → Query BindingRow
get_reservation_binding_for_reserve budget_id operation_id = do
  row ← join_operation budget_id operation_id
  require (is_consistent row) budget_binding_mismatch
  pure row

-- `ReservationBinding`
pub record ReservationBinding : Type 0 where
  pub reservation : Reservation
  pub correlation : AuditCorrelation

-- `getReservation`
unfoldable pub get_reservation : Text → Query Reservation
get_reservation id = select (λ db. find (is_reservation id) db.reservations) reservation_not_found

-- `getReservationForUpdate`
unfoldable pub get_reservation_for_update : Text → Query ReservationBinding
get_reservation_for_update id = do
  r ← get_reservation id
  row ← join_operation r.budget_id r.operation_id
  require (is_consistent row) budget_binding_mismatch
  pure (record { reservation = r; correlation = map_audit_correlation r.reservation_id row })

abbrev agrees : Option Text → Text → Bool
agrees none t = true
agrees (some s) t = same_text s t

abbrev agrees_number : Option ℕ → ℕ → Bool
agrees_number none n = true
agrees_number (some m) n = m == n

abbrev agrees_with : AssertedCorrelation → AuditCorrelation → Bool
agrees_with asserted c =
    agrees asserted.reservation_id c.reservation_id
    && (agrees asserted.budget_id c.budget_id
        && (agrees asserted.owner_id c.owner_id
            && (agrees asserted.agent_id c.agent_id
                && (agrees asserted.wallet_id c.wallet_id
                    && (agrees asserted.intent_id c.intent_id
                        && (agrees asserted.operation_id c.operation_id
                            && (agrees asserted.policy_id c.policy_id
                                && agrees_number asserted.policy_version c.policy_version)))))))

-- The condition of `assertAuditCorrelation`
unfoldable pub is_asserted : AuditContext → AuditCorrelation → Bool
is_asserted audit c = elim (audit.asserted_correlation) [ none ↦ true | some a ↦ agrees_with a c ]

-- `assertAuditCorrelation`
abbrev pub assert_audit_correlation : AuditContext → AuditCorrelation → Query (Unit {0})
assert_audit_correlation audit c = require (is_asserted audit c) audit_correlation_mismatch

abbrev pub same_scope : ControlScopeType → ControlScopeType → Bool
same_scope ControlScopeType.system ControlScopeType.system = true
same_scope ControlScopeType.owner ControlScopeType.owner = true
same_scope ControlScopeType.agent ControlScopeType.agent = true
same_scope ControlScopeType.policy ControlScopeType.policy = true
same_scope _ _ = false

abbrev pub is_fence : ControlScopeType → Text → ControlFence → Bool
is_fence scope id f = same_scope f.scope_type scope && same_text f.scope_id id

-- One turn of the loop over the scopes.
abbrev pub fence : ControlScopeType → Text → Query ControlFence
fence scope id = select (λ db. find (is_fence scope id) db.fences) control_fence_inactive

abbrev pub is_active_fence : ControlFence → Bool
is_active_fence f = elim (f.state) [ ControlState.active ↦ true | _ ↦ false ]

abbrev pub is_revoked_policy : PolicyRow → Bool
is_revoked_policy p = elim (p.status) [ PolicyStatus.revoked ↦ true | _ ↦ false ]

-- `lockReservationControlFences`
unfoldable pub lock_reservation_control_fences : Text → Query (Unit {0})
lock_reservation_control_fences operation_id = do
  o ← select (λ db. find (is_operation operation_id) db.operations) reservation_not_found
  a ← select (λ db. find (λ x. same_text x.agent_id o.agent_id) db.agents) reservation_not_found
  p ← select (λ db. find (λ x. same_text x.policy_id o.policy_id) db.policies) reservation_not_found
  system ← fence ControlScopeType.system (units "system")
  owner ← fence ControlScopeType.owner a.owner_id
  agent ← fence ControlScopeType.agent o.agent_id
  policy ← fence ControlScopeType.policy o.policy_id
  require
      (is_active_fence system
        && (is_active_fence owner
            && (is_active_fence agent && (is_active_fence policy && not (is_revoked_policy p)))))
      control_fence_inactive

abbrev pub is_evidence : Text → BroadcastEvidenceRow → Bool
is_evidence id e = same_text e.reservation_id id

-- `getBroadcastEvidence`
unfoldable pub get_broadcast_evidence : Text → Query BroadcastEvidenceRow
get_broadcast_evidence id =
    select (λ db. find (is_evidence id) db.evidence) invalid_broadcast_evidence

-- The WHERE clause of `assertCanonicalAuthorizationEvidence` for one authorization; the keys of
-- the joined tables are unique.
unfoldable pub is_canonical_authorization :
    Db → Reservation → List LifecycleState → AuthorizationRow → Bool
is_canonical_authorization db r states ae =
    same_text ae.reservation_id r.reservation_id
    && (same_text ae.operation_id r.operation_id
        && (any (λ o. is_operation ae.operation_id o && any (state_eq o.current_state) states)
              db.operations
            && (not (any (λ i. same_text i.authorization_id ae.authorization_id) db.invalidations)
                && (any
                      (λ e.
                        same_text e.operation_id ae.operation_id
                        && (same_text e.envelope_id ae.envelope_id
                            && (e.revision == ae.envelope_revision
                                && same_text e.envelope_hash ae.envelope_hash)))
                      db.envelopes
                    && (any
                          (λ d.
                            same_text d.operation_id ae.operation_id
                            && (same_text d.decision_id ae.policy_decision_id
                                && (same_text d.decision_hash ae.policy_decision_hash
                                    && (same_text d.policy_id ae.policy_id
                                        && d.policy_version == ae.policy_version))))
                          db.decisions
                        && not (
                            any
                              (λ latest.
                                same_text latest.operation_id ae.operation_id
                                && ltb ae.envelope_revision latest.revision)
                              db.envelopes))))))

-- `assertCanonicalAuthorizationEvidence`
unfoldable pub assert_canonical_authorization_evidence :
    Reservation → List LifecycleState → Query (Unit {0})
assert_canonical_authorization_evidence r states = do
  rows ← gets (λ db. count (is_canonical_authorization db r states) db.authorizations)
  require (rows == 1) invalid_reservation_transition
