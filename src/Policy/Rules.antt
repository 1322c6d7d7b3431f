-- ===== src/Policy/Rules.antt =====
-- packages/policy-engine/src/index.ts: `evaluateRules`, one rule after another.
use crip_wallet.Base.{
  ℕ, String, Bool, true, false, not, ◌&&◌, List, [], ◌∷◌, ◌++◌, any, Option, none, some, ltb, leb,
  if◌then◌else◌,
}
use crip_wallet.Schemas.Money.{Text}
use crip_wallet.Schemas.Common.{same_text, includes_text}
use crip_wallet.Schemas.Grade.{EnforcementGrade, meets_minimum_enforcement_grade}
use crip_wallet.Schemas.Intent.{Intent, read_state, transfer, CommonIntent, Transfer}
use crip_wallet.Schemas.PolicyContract.{
  PolicyMode, read_only, PolicyStatus, active, Action, wallet_read_state, asset_transfer, Policy,
}
use crip_wallet.Policy.Atomic.{is_atomic_at_most, subtract_atomic}

-- `PolicyEvaluationContext`
pub record Context : Type 0 where
  pub evaluated_at : ℕ
  pub total_spent_atomic : Text
  pub budget_grade : EnforcementGrade
  pub recipient_grade : EnforcementGrade

-- `PolicyDecisionRule["result"]`
pub data RuleResult : Type 0 where
  passed failed indeterminate : RuleResult

-- `PolicyDecisionRule`
pub record DecisionRule : Type 0 where
  pub rule : String
  pub result : RuleResult
  pub limit_atomic : Option Text
  pub requested_atomic : Option Text

abbrev pub pass : String → DecisionRule
pass name = record { rule = name; result = passed; limit_atomic = none; requested_atomic = none }

abbrev pub fail : String → DecisionRule
fail name = record { rule = name; result = failed; limit_atomic = none; requested_atomic = none }

abbrev pub fail_amount : String → Text → Text → DecisionRule
fail_amount name limit requested = record {
  rule = name;
  result = failed;
  limit_atomic = some limit;
  requested_atomic = some requested;
}

abbrev pub indeterminate_rule : String → DecisionRule
indeterminate_rule name = record {
  rule = name;
  result = indeterminate;
  limit_atomic = none;
  requested_atomic = none;
}

-- `isWithinWindow`
abbrev pub is_within_window : ℕ → ℕ → ℕ → Bool
is_within_window evaluated_at not_before expires_at =
    leb not_before evaluated_at && ltb evaluated_at expires_at

abbrev pub is_active : PolicyStatus → Bool
is_active active = true
is_active _ = false

abbrev pub is_read_only : PolicyMode → Bool
is_read_only read_only = true
is_read_only _ = false

abbrev pub same_action : Action → Action → Bool
same_action wallet_read_state wallet_read_state = true
same_action asset_transfer asset_transfer = true
same_action _ _ = false

abbrev pub check : Bool → String → DecisionRule
check condition name = if condition then pass name else fail name

-- The rules that every intent is held to, in the source's order, those of a transfer left out.
unfoldable pub subject_rules : Policy → CommonIntent → Context → List DecisionRule
subject_rules policy c context =
    check (is_active policy.status) "policy.status"
    ∷ check (same_text c.agent_id policy.agent_id) "subject.agent"
    ∷ check (same_text c.wallet_id policy.wallet_id) "subject.wallet"
    ∷ check (is_within_window context.evaluated_at policy.not_before policy.expires_at)
        "validity.policy"
    ∷ check (is_within_window context.evaluated_at c.not_before c.expires_at) "validity.intent"
    ∷ check (includes_text policy.chains c.chain_id) "chain.allowlist"
    ∷ []

unfoldable pub grade_rules : Policy → Context → List DecisionRule
grade_rules policy context =
    check (meets_minimum_enforcement_grade context.budget_grade policy.minimum_budget_grade)
      "enforcement.budget"
    ∷ check (meets_minimum_enforcement_grade context.recipient_grade policy.minimum_recipient_grade)
        "enforcement.recipient"
    ∷ []

-- From `asset.allowlist` to `network_fee.maximum`, for an intent that transfers.
unfoldable pub transfer_rules : Policy → CommonIntent → Transfer → Context → List DecisionRule
transfer_rules policy c t context =
    check
      (any (λ a. same_text a.chain_id c.chain_id && same_text a.address t.asset_address)
        policy.assets)
      "asset.allowlist"
    ∷ check (includes_text policy.recipients t.recipient) "recipient.allowlist"
    ∷ check (any (same_action asset_transfer) policy.actions) "action.allowlist"
    ∷ check (not (is_read_only policy.mode)) "mode"
    ∷ (if is_atomic_at_most t.amount_atomic policy.per_transaction_atomic
        then pass "budget.per_transaction"
        else fail_amount "budget.per_transaction" policy.per_transaction_atomic t.amount_atomic)
    ∷ (if same_text t.asset_address policy.total_asset_address
          && is_atomic_at_most t.amount_atomic
              (subtract_atomic policy.total_atomic context.total_spent_atomic)
        then pass "budget.total"
        else fail_amount "budget.total" policy.total_atomic t.amount_atomic)
    ∷ (if is_atomic_at_most t.maximum_network_fee policy.maximum_per_transaction_fee
        then pass "network_fee.maximum"
        else fail_amount "network_fee.maximum" policy.maximum_per_transaction_fee
            t.maximum_network_fee)
    ∷ []

-- The same stretch for an intent that only reads: `!transfer` passes all but the action.
unfoldable pub read_rules : Policy → List DecisionRule
read_rules policy =
    pass "asset.allowlist"
    ∷ pass "recipient.allowlist"
    ∷ check (any (same_action wallet_read_state) policy.actions) "action.allowlist"
    ∷ pass "mode"
    ∷ pass "budget.per_transaction"
    ∷ pass "budget.total"
    ∷ pass "network_fee.maximum"
    ∷ []

-- `evaluateRules`
unfoldable pub evaluate_rules : Policy → Intent → Context → List DecisionRule
evaluate_rules policy (read_state c) context =
    subject_rules policy c context ++ (read_rules policy ++ grade_rules policy context)
evaluate_rules policy (transfer c t) context =
    subject_rules policy c context
    ++ (transfer_rules policy c t context ++ grade_rules policy context)
