-- ===== src/Policy/Engine.antt =====
-- packages/policy-engine/src/index.ts: `evaluatePolicy` and the decisions that it makes.
pub mod Rules
pub mod Verdicts
pub mod Tests
use crip_wallet.Base.{
  ℕ, Bool, true, false, ◌&&◌, List, [], ◌∷◌, any, Option, none, some, if◌then◌else◌,
}
use crip_wallet.Schemas.Money.{Text, units, atomic_unit}
use crip_wallet.Schemas.Grade.{EnforcementGrade, control_plane}
use crip_wallet.Schemas.Intent.{Intent, read_state, transfer, canonical_intent}
use crip_wallet.Schemas.PolicyContract.{Policy, PolicyMode, review_required, policy_schema}
use crip_wallet.Policy.Rules.{
  Context, RuleResult, passed, DecisionRule, indeterminate_rule, evaluate_rules,
}

-- A value of type `unknown`, as a schema finds it: without the fields and types of the contract,
-- or with them. Of a malformed context the code still reads `evaluatedAt`, if that is canonical.
pub data RawPolicy : Type 0 where
  malformed : RawPolicy
  shaped : Policy → RawPolicy

pub data RawIntent : Type 0 where
  malformed : RawIntent
  shaped : Intent → RawIntent

pub data RawContext : Type 0 where
  malformed : Option ℕ → RawContext
  shaped : Context → RawContext

-- `policySchema.safeParse`
unfoldable pub parse_policy : RawPolicy → Option Policy
parse_policy RawPolicy.malformed = none
parse_policy (RawPolicy.shaped p) = if policy_schema p then some p else none

-- `canonicalIntentSchema.safeParse`
unfoldable pub parse_intent : RawIntent → Option Intent
parse_intent RawIntent.malformed = none
parse_intent (RawIntent.shaped i) = if canonical_intent i then some i else none

-- `policyEvaluationContextSchema.safeParse`
unfoldable pub parse_context : RawContext → Option Context
parse_context (RawContext.malformed t) = none
parse_context (RawContext.shaped c) = if atomic_unit c.total_spent_atomic then some c else none

-- `PolicyDecision["decision"]`
pub data Verdict : Type 0 where
  allow_read allow_autonomous require_approval deny indeterminate_verdict : Verdict

pub record Payload : Type 0 where
  pub decision : Verdict
  pub policy_id : Text
  pub policy_version : ℕ
  pub evaluated_at : ℕ
  pub rules : List DecisionRule
  pub budget_grade : EnforcementGrade
  pub recipient_grade : EnforcementGrade

-- `PolicyDecision`
pub record Decision : Type 0 where
  pub payload : Payload
  pub open payload use *
  pub decision_hash : Text

-- `validEvaluatedAt`, with `FALLBACK_EVALUATED_AT` the beginning of 1970.
unfoldable pub valid_evaluated_at : RawContext → ℕ
valid_evaluated_at (RawContext.malformed none) = 0
valid_evaluated_at (RawContext.malformed (some t)) = t
valid_evaluated_at (RawContext.shaped c) = c.evaluated_at

-- `hasFailure`
unfoldable pub has_failure : List DecisionRule → Bool
has_failure rules = any (λ r. elim r.result [ passed ↦ false | _ ↦ true ]) rules

-- The decision of rules without a failure.
unfoldable pub allowed : Policy → Intent → Verdict
allowed policy (read_state c) = allow_read
allowed policy (transfer c t) = elim policy.mode [
  | review_required ↦ require_approval
  | _ ↦ allow_autonomous
]

-- The hash of the canonical JSON, by a library: a parameter.
module _ (hash_decision : Payload → Text) where
  -- `makeDecision`
  unfoldable pub make_decision : Payload → Decision
  make_decision base = record { payload = base; decision_hash = hash_decision base }

  -- `fallbackPolicyMetadata` and `failClosed`
  unfoldable pub fail_closed : RawPolicy → RawContext → Decision
  unfolding make_decision
  fail_closed policy context = elim (parse_policy policy) [
    | none ↦ make_decision (record {
      decision = deny;
      policy_id = units "policy_invalid";
      policy_version = 1;
      evaluated_at = valid_evaluated_at context;
      rules = indeterminate_rule "input.contract" ∷ [];
      budget_grade = control_plane;
      recipient_grade = control_plane;
    })
    | some p ↦ make_decision (record {
      decision = deny;
      policy_id = p.policy_id;
      policy_version = p.version;
      evaluated_at = valid_evaluated_at context;
      rules = indeterminate_rule "input.contract" ∷ [];
      budget_grade = p.minimum_budget_grade;
      recipient_grade = p.minimum_recipient_grade;
    })
  ]

  -- `evaluatePolicy` after its inputs have parsed
  unfoldable pub decide : Policy → Intent → Context → Decision
  unfolding make_decision
  decide policy intent context =
      let rules = evaluate_rules policy intent context in
      make_decision (record {
        decision = if has_failure rules then deny else allowed policy intent;
        policy_id = policy.policy_id;
        policy_version = policy.version;
        evaluated_at = context.evaluated_at;
        rules = rules;
        budget_grade = policy.minimum_budget_grade;
        recipient_grade = policy.minimum_recipient_grade;
      })

  -- `evaluatePolicy`
  unfoldable pub evaluate_policy : RawPolicy → RawIntent → RawContext → Decision
  evaluate_policy policy intent context = elim (parse_policy policy) [
    | none ↦ fail_closed policy context
    | some p ↦ elim (parse_intent intent) [
      | none ↦ fail_closed policy context
      | some i ↦ elim (parse_context context) [
        | none ↦ fail_closed policy context
        | some c ↦ decide p i c
      ]
    ]
  ]
