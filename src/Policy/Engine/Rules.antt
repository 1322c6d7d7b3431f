-- ===== src/Policy/Engine/Rules.antt =====
-- When no rule of packages/policy-engine/src/index.ts fails, as facts about the inputs.
use crip_wallet.Base.{
  ℕ, String, ◌+◌, ◌≤◌, ◌<◌, ◌≡◌, ◌≢◌, ◌↔◌, refl, Bool, true, false, not, ◌&&◌, ◌||◌, List, [], ◌∷◌,
  ◌++◌, Any, any_iff, arith, leb_iff, if◌then◌else◌,
}
use crip_wallet.Schemas.Money.{Text, canonical_atomic}
use crip_wallet.Schemas.Money.Decimal.{value}
use crip_wallet.Schemas.Money.Bounds.{atomic_unit_iff, positive_atomic_unit_sound}
use crip_wallet.Schemas.Common.{same_text, same_text_iff}
use crip_wallet.Schemas.Grade.{
  EnforcementGrade, enforcement_strength, meets_minimum_enforcement_grade,
}
use crip_wallet.Schemas.Intent.{CommonIntent, Transfer, transfer, canonical_intent, transfer_shape}
use crip_wallet.Schemas.PolicyContract.{
  Policy, PolicyStatus, active, PolicyMode, read_only, Action, asset_transfer, AssetAllowance,
  policy_schema,
}
use crip_wallet.Policy.Atomic.{is_atomic_at_most, subtract_atomic}
use crip_wallet.Policy.Atomic.Laws.{is_atomic_at_most_iff, subtract_atomic_lem}
use crip_wallet.Policy.Rules.{
  Context, DecisionRule, pass, check, fail_amount, is_within_window, is_active, is_read_only,
  same_action, subject_rules, grade_rules, transfer_rules,
}
use crip_wallet.Policy.Engine.{has_failure}

has_failure-append :
    (xs ys : List DecisionRule) → has_failure (xs ++ ys) ≡ (has_failure xs || has_failure ys)
unfolding has_failure
has_failure-append [] ys = refl
has_failure-append (x ∷ xs) ys = ground (arith, has_failure-append xs ys)

pub no_failure-append :
    (xs ys : List DecisionRule)
    → (has_failure (xs ++ ys) ≡ false) ↔ ((has_failure xs ≡ false) × (has_failure ys ≡ false))
no_failure-append xs ys = ground (arith, has_failure-append xs ys)

pub no_failure-check :
    (b : Bool) (name : String) (rules : List DecisionRule)
    → (has_failure (check b name ∷ rules) ≡ false) ↔ ((b ≡ true) × (has_failure rules ≡ false))
unfolding has_failure
no_failure-check true name rules = ground arith
no_failure-check false name rules = ground arith

no_failure-amount :
    (b : Bool) (name : String) (limit requested : Text) (rules : List DecisionRule)
    → (has_failure ((if b then pass name else fail_amount name limit requested) ∷ rules) ≡ false)
      ↔ ((b ≡ true) × (has_failure rules ≡ false))
unfolding has_failure
no_failure-amount true name limit requested rules = ground arith
no_failure-amount false name limit requested rules = ground arith

pub nil_passes : has_failure [] ≡ false
unfolding has_failure
nil_passes = refl

is_active_iff : (s : PolicyStatus) → (is_active s ≡ true) ↔ (s ≡ active)
is_active_iff s = ground arith

window_iff :
    (now low high : ℕ) → (is_within_window now low high ≡ true) ↔ ((low ≤ now) × (now < high))
window_iff now low high = ground arith

grade_iff :
    (a r : EnforcementGrade)
    → (meets_minimum_enforcement_grade a r ≡ true)
      ↔ (enforcement_strength a ≤ enforcement_strength r)
unfolding meets_minimum_enforcement_grade
grade_iff a r = leb_iff (enforcement_strength a) (enforcement_strength r)

module _ (policy : Policy) (c : CommonIntent) (context : Context) where
  pub record SubjectAllowed : Type 0 where
    pub status : policy.status ≡ active
    pub agent : c.agent_id ≡ policy.agent_id
    pub wallet : c.wallet_id ≡ policy.wallet_id
    pub policy_begun : policy.not_before ≤ context.evaluated_at
    pub policy_open : context.evaluated_at < policy.expires_at
    pub intent_begun : c.not_before ≤ context.evaluated_at
    pub intent_open : context.evaluated_at < c.expires_at
    pub chain : Any (λ x. c.chain_id ≡ x) policy.chains
    pub budget_grade :
        enforcement_strength context.budget_grade ≤ enforcement_strength policy.minimum_budget_grade
    pub recipient_grade :
        enforcement_strength context.recipient_grade
        ≤ enforcement_strength policy.minimum_recipient_grade

  pub subject_iff :
      ((has_failure (subject_rules policy c context) ≡ false)
        × (has_failure (grade_rules policy context) ≡ false))
      ↔ SubjectAllowed
  unfolding subject_rules grade_rules
  subject_iff = (
    λ h.
        let (status, h1) = (no_failure-check _ _ _).0 h.0 in
        let (agent, h2) = (no_failure-check _ _ _).0 h1 in
        let (wallet, h3) = (no_failure-check _ _ _).0 h2 in
        let (policy_window, h4) = (no_failure-check _ _ _).0 h3 in
        let (intent_window, h5) = (no_failure-check _ _ _).0 h4 in
        let (chain, h6) = (no_failure-check _ _ _).0 h5 in
        let (budget, g1) = (no_failure-check _ _ _).0 h.1 in
        let (recipient, g2) = (no_failure-check _ _ _).0 g1 in
        record {
          status = (is_active_iff _).0 status;
          agent = (same_text_iff _ _).0 agent;
          wallet = (same_text_iff _ _).0 wallet;
          policy_begun = ((window_iff _ _ _).0 policy_window).0;
          policy_open = ((window_iff _ _ _).0 policy_window).1;
          intent_begun = ((window_iff _ _ _).0 intent_window).0;
          intent_open = ((window_iff _ _ _).0 intent_window).1;
          chain = (any_iff _ _ policy.chains (same_text_iff _)).0 chain;
          budget_grade = (grade_iff _ _).0 budget;
          recipient_grade = (grade_iff _ _).0 recipient;
        },
    λ s. (
      (no_failure-check _ _ _).1 (
        (is_active_iff _).1 s.status,
        (no_failure-check _ _ _).1 (
          (same_text_iff _ _).1 s.agent,
          (no_failure-check _ _ _).1 (
            (same_text_iff _ _).1 s.wallet,
            (no_failure-check _ _ _).1 (
              (window_iff _ _ _).1 (s.policy_begun, s.policy_open),
              (no_failure-check _ _ _).1 (
                (window_iff _ _ _).1 (s.intent_begun, s.intent_open),
                (no_failure-check _ _ _).1
                    ((any_iff _ _ policy.chains (same_text_iff _)).1 s.chain, nil_passes),
              ),
            ),
          ),
        ),
      ),
      (no_failure-check _ _ _).1 (
        (grade_iff _ _).1 s.budget_grade,
        (no_failure-check _ _ _).1 ((grade_iff _ _).1 s.recipient_grade, nil_passes),
      ),
    ),
  )

pub amounts_of_policy :
    (p : Policy)
    → policy_schema p ≡ true
    → (canonical_atomic p.total_atomic ≡ true)
      × (canonical_atomic p.per_transaction_atomic ≡ true)
      × (canonical_atomic p.maximum_per_transaction_fee ≡ true)
unfolding policy_schema
amounts_of_policy p h = (
  ((atomic_unit_iff _).0 (positive_atomic_unit_sound p.total_atomic (ground arith)).0).0,
  ((atomic_unit_iff _).0 (positive_atomic_unit_sound p.per_transaction_atomic (ground arith)).0).0,
  ((atomic_unit_iff p.maximum_per_transaction_fee).0 (ground arith)).0,
)

pub amounts_of_transfer :
    (c : CommonIntent) (t : Transfer)
    → canonical_intent (transfer c t) ≡ true
    → (canonical_atomic t.amount_atomic ≡ true)
      × (1 ≤ value t.amount_atomic)
      × (canonical_atomic t.maximum_network_fee ≡ true)
unfolding canonical_intent transfer_shape
amounts_of_transfer c t h =
    let (fits, positive) = positive_atomic_unit_sound t.amount_atomic (ground arith) in
    (
      ((atomic_unit_iff _).0 fits).0,
      positive,
      ((atomic_unit_iff t.maximum_network_fee).0 (ground arith)).0,
    )

asset_iff :
    (a : AssetAllowance) (chain address : Text)
    → ((same_text a.chain_id chain && same_text a.address address) ≡ true)
      ↔ ((a.chain_id ≡ chain) × (a.address ≡ address))
asset_iff a chain address =
    ground (arith, same_text_iff a.chain_id chain, same_text_iff a.address address)

pub action_iff : (a b : Action) → (same_action a b ≡ true) ↔ (a ≡ b)
action_iff a b = ground arith

mode_iff : (m : PolicyMode) → (not (is_read_only m) ≡ true) ↔ (m ≢ read_only)
mode_iff m = ground arith

budget_iff :
    (amount total spent : Text)
    → canonical_atomic amount ≡ true
    → canonical_atomic total ≡ true
    → canonical_atomic spent ≡ true
    → 1 ≤ value amount
    → (is_atomic_at_most amount (subtract_atomic total spent) ≡ true)
      ↔ (value spent + value amount ≤ value total)
budget_iff amount total spent p q r h =
    let (canonical, difference) = subtract_atomic_lem total spent q r in
    let test = is_atomic_at_most_iff amount (subtract_atomic total spent) p canonical in
    (λ e. omega (arith, test.0 e, difference), λ e. test.1 (omega (arith, difference)))

and_iff :
    {P Q : Type 0} (a b : Bool) → (a ≡ true) ↔ P → (b ≡ true) ↔ Q → ((a && b) ≡ true) ↔ (P × Q)
and_iff true b f g = (λ h. (f.0 refl, g.0 h), λ h. g.1 h.1)
and_iff false b f g = (λ h. cc, λ h. f.1 h.0)

module _ (policy : Policy) (c : CommonIntent) (t : Transfer) (context : Context) where
  pub record TransferAllowed : Type 0 where
    pub asset : Any (λ a. (a.chain_id ≡ c.chain_id) × (a.address ≡ t.asset_address)) policy.assets
    pub recipient : Any (λ x. t.recipient ≡ x) policy.recipients
    pub action : Any (λ a. asset_transfer ≡ a) policy.actions
    pub mode : policy.mode ≢ read_only
    pub per_transaction : value t.amount_atomic ≤ value policy.per_transaction_atomic
    pub budget_asset : t.asset_address ≡ policy.total_asset_address
    pub total : value context.total_spent_atomic + value t.amount_atomic ≤ value policy.total_atomic
    pub fee : value t.maximum_network_fee ≤ value policy.maximum_per_transaction_fee

  pub transfer_iff :
      policy_schema policy ≡ true
      → canonical_intent (transfer c t) ≡ true
      → canonical_atomic context.total_spent_atomic ≡ true
      → (has_failure (transfer_rules policy c t context) ≡ false) ↔ TransferAllowed
  unfolding transfer_rules
  transfer_iff p i s =
      let (total, per, max_fee) = amounts_of_policy policy p in
      let (amount, positive, fee) = amounts_of_transfer c t i in
      let test_asset = any_iff _ _ policy.assets (λ a. asset_iff a c.chain_id t.asset_address) in
      let test_recipient = any_iff _ _ policy.recipients (same_text_iff t.recipient) in
      let test_action = any_iff _ _ policy.actions (action_iff asset_transfer) in
      let test_per =
        is_atomic_at_most_iff t.amount_atomic policy.per_transaction_atomic amount per in
      let test_total = and_iff _ _ (same_text_iff t.asset_address policy.total_asset_address) (
        budget_iff t.amount_atomic policy.total_atomic context.total_spent_atomic amount total s
          positive) in
      let test_fee =
        is_atomic_at_most_iff t.maximum_network_fee policy.maximum_per_transaction_fee fee
          max_fee in
      (
        λ h.
            let (a, h1) = (no_failure-check _ _ _).0 h in
            let (r, h2) = (no_failure-check _ _ _).0 h1 in
            let (n, h3) = (no_failure-check _ _ _).0 h2 in
            let (m, h4) = (no_failure-check _ _ _).0 h3 in
            let (x, h5) = (no_failure-amount _ _ _ _ _).0 h4 in
            let (y, h6) = (no_failure-amount _ _ _ _ _).0 h5 in
            let (z, h7) = (no_failure-amount _ _ _ _ _).0 h6 in
            record {
              asset = test_asset.0 a;
              recipient = test_recipient.0 r;
              action = test_action.0 n;
              mode = (mode_iff _).0 m;
              per_transaction = test_per.0 x;
              budget_asset = (test_total.0 y).0;
              total = (test_total.0 y).1;
              fee = test_fee.0 z;
            },
        λ k. (no_failure-check _ _ _).1 (
          test_asset.1 k.asset,
          (no_failure-check _ _ _).1 (
            test_recipient.1 k.recipient,
            (no_failure-check _ _ _).1 (
              test_action.1 k.action,
              (no_failure-check _ _ _).1 (
                (mode_iff _).1 k.mode,
                (no_failure-amount _ _ _ _ _).1 (
                  test_per.1 k.per_transaction,
                  (no_failure-amount _ _ _ _ _).1 (
                    test_total.1 (k.budget_asset, k.total),
                    (no_failure-amount _ _ _ _ _).1 (test_fee.1 k.fee, nil_passes),
                  ),
                ),
              ),
            ),
          ),
        ),
      )
