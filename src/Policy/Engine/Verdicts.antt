-- ===== src/Policy/Engine/Verdicts.antt =====
-- What the decisions of packages/policy-engine/src/index.ts certify.
use crip_wallet.Base.{
  ◌≡◌, ◌≢◌, ◌↔◌, ◌⊎◌, refl, sym, subst, inl, inr, true, false, List, [], ◌∷◌, ◌++◌, Any, any_iff,
  none, some, arith, Option-cases,
}
use crip_wallet.Schemas.Money.{Text, atomic_unit}
use crip_wallet.Schemas.Money.Bounds.{atomic_unit_iff}
use crip_wallet.Schemas.Intent.{
  CommonIntent, Transfer, Intent, read_state, transfer, canonical_intent,
}
use crip_wallet.Schemas.PolicyContract.{
  PolicyMode, review_required, read_only, autonomous_within_policy, Policy, wallet_read_state,
  policy_schema,
}
use crip_wallet.Policy.Rules.{
  Context, DecisionRule, indeterminate_rule, subject_rules, grade_rules, transfer_rules, read_rules,
  evaluate_rules,
}
use crip_wallet.Policy.Engine.{
  RawPolicy, RawIntent, RawContext, parse_policy, parse_intent, parse_context, deny,
  indeterminate_verdict, allow_read, require_approval, allow_autonomous, Verdict, Payload,
  has_failure, allowed, fail_closed, decide, evaluate_policy,
}
use crip_wallet.Policy.Engine.Rules.{
  no_failure-append, SubjectAllowed, subject_iff, TransferAllowed, transfer_iff, action_iff,
}

-- The decisions on an intent under a policy that do not deny it
pub data Granted (p : Policy) : Intent → Verdict → Type 0 where
  reading : (c : CommonIntent) → Granted p (read_state c) allow_read
  reviewed :
      (c : CommonIntent) (t : Transfer)
      → p.mode ≡ review_required
      → Granted p (transfer c t) require_approval
  autonomous :
      (c : CommonIntent) (t : Transfer)
      → p.mode ≢ review_required
      → Granted p (transfer c t) allow_autonomous

mode-Granted :
    (p : Policy) (c : CommonIntent) (t : Transfer) (mode : PolicyMode)
    → p.mode ≡ mode
    → Granted p
        (transfer c t)
        (elim mode [ review_required ↦ require_approval | _ ↦ allow_autonomous ])
mode-Granted p c t review_required e = reviewed c t e
mode-Granted p c t read_only e = autonomous c t (λ d. cc)
mode-Granted p c t autonomous_within_policy e = autonomous c t (λ d. cc)

allowed-Granted : (p : Policy) (i : Intent) → Granted p i (allowed p i)
unfolding allowed
allowed-Granted p (read_state c) = reading c
allowed-Granted p (transfer c t) = mode-Granted p c t p.mode refl

allowed-ne-deny :
    (p : Policy) (i : Intent) → (allowed p i ≢ deny) × (allowed p i ≢ indeterminate_verdict)
unfolding allowed
allowed-ne-deny p (read_state c) = (λ e. cc, λ e. cc)
allowed-ne-deny p (transfer c t) = ground arith

rules_iff :
    (p : Policy) (c : CommonIntent) (context : Context) (middle : List DecisionRule) {P : Type 0}
    → (has_failure middle ≡ false) ↔ P
    → (has_failure (subject_rules p c context ++ (middle ++ grade_rules p context)) ≡ false)
      ↔ (SubjectAllowed p c context × P)
rules_iff p c context middle m = (
  λ h.
      let (first, rest) = (no_failure-append _ _).0 h in
      let (between, last) = (no_failure-append _ _).0 rest in
      ((subject_iff p c context).0 (first, last), m.0 between),
  λ k.
      let (first, last) = (subject_iff p c context).1 k.0 in
      (no_failure-append _ _).1 (first, (no_failure-append _ _).1 (m.1 k.1, last)),
)

read_iff :
    (p : Policy) → (has_failure (read_rules p) ≡ false) ↔ Any (λ a. wallet_read_state ≡ a) p.actions
unfolding read_rules has_failure
read_iff p =
    let test = any_iff _ _ p.actions (action_iff wallet_read_state) in
    (λ h. test.0 (ground arith), λ m. ground (arith, test.1 m))

module _ (hash_decision : Payload → Text) where
  decide-deny_iff :
      (p : Policy) (i : Intent) (c : Context)
      → ((decide hash_decision p i c).decision ≢ deny)
        ↔ (has_failure (evaluate_rules p i c) ≡ false)
  unfolding decide
  decide-deny_iff p i c = ground (arith, allowed-ne-deny p i)

  evaluate-decide :
      (p : Policy) (i : Intent) (c : Context)
      → policy_schema p ≡ true
      → canonical_intent i ≡ true
      → atomic_unit c.total_spent_atomic ≡ true
      → evaluate_policy hash_decision
          (RawPolicy.shaped p)
          (RawIntent.shaped i)
          (RawContext.shaped c)
        ≡ decide hash_decision p i c
  unfolding evaluate_policy parse_policy parse_intent parse_context
  evaluate-decide p i c hp hi hc = rw (hp, hi, hc, evaluate_policy)

  -- For a policy, a transfer intent and a context that satisfy their schemas, the engine's
  -- decision is not DENY exactly when the policy is active, its agent and wallet are the
  -- intent's, both validity windows contain the evaluation time, the chain, the asset on that
  -- chain, the recipient and the action are on the policy's lists, the mode is not read-only,
  -- the amount is at most the limit per transaction, the asset is the budgeted one and what was
  -- spent plus the amount is at most the total budget, the network fee is at most its limit (all
  -- as numbers), and both enforcement grades are at least as strong as required.
  pub evaluate_transfer_iff :
      (p : Policy) (c : CommonIntent) (t : Transfer) (context : Context)
      → policy_schema p ≡ true
      → canonical_intent (transfer c t) ≡ true
      → atomic_unit context.total_spent_atomic ≡ true
      → ((evaluate_policy hash_decision
            (RawPolicy.shaped p)
            (RawIntent.shaped (transfer c t))
            (RawContext.shaped context)).decision
          ≢ deny)
        ↔ (SubjectAllowed p c context × TransferAllowed p c t context)
  unfolding evaluate_rules
  evaluate_transfer_iff p c t context hp hi hc =
      let spent = ((atomic_unit_iff _).0 hc).0 in
      let rules =
        rules_iff p c context (transfer_rules p c t context)
          (transfer_iff p c t context hp hi spent) in
      let decision = decide-deny_iff p (transfer c t) context in
      rw (evaluate-decide p (transfer c t) context hp hi hc)
        (λ n. rules.0 (decision.0 n), λ k. decision.1 (rules.1 k))

  -- For a policy, a reading intent and a context that satisfy their schemas, the decision is not
  -- DENY exactly when the conditions on the policy, the subject, the windows, the chain and the
  -- grades hold and the policy lists the action.
  pub evaluate_read_iff :
      (p : Policy) (c : CommonIntent) (context : Context)
      → policy_schema p ≡ true
      → canonical_intent (read_state c) ≡ true
      → atomic_unit context.total_spent_atomic ≡ true
      → ((evaluate_policy hash_decision
            (RawPolicy.shaped p)
            (RawIntent.shaped (read_state c))
            (RawContext.shaped context)).decision
          ≢ deny)
        ↔ (SubjectAllowed p c context × Any (λ a. wallet_read_state ≡ a) p.actions)
  unfolding evaluate_rules
  evaluate_read_iff p c context hp hi hc =
      let rules = rules_iff p c context (read_rules p) (read_iff p) in
      let decision = decide-deny_iff p (read_state c) context in
      rw (evaluate-decide p (read_state c) context hp hi hc)
        (λ n. rules.0 (decision.0 n), λ k. decision.1 (rules.1 k))

  fail_closed_denies :
      (rp : RawPolicy) (rc : RawContext)
      → ((fail_closed hash_decision rp rc).decision ≡ deny)
        × ((fail_closed hash_decision rp rc).rules ≡ indeterminate_rule "input.contract" ∷ [])
  unfolding fail_closed
  fail_closed_denies rp rc = elim (Option-cases (parse_policy rp)) [
    | inl e ↦ rw (e, fail_closed) (refl, refl)
    | inr (p, e) ↦ rw (e, fail_closed) (refl, refl)
  ]

  closed :
      (rp : RawPolicy) (rc : RawContext) {P Q : Type 0}
      → let d = fail_closed hash_decision rp rc in
        (d.decision ≢ indeterminate_verdict)
        × (P → (d.decision ≡ deny) × (d.rules ≡ indeterminate_rule "input.contract" ∷ []))
        × (d.decision ≢ deny → Q)
  closed rp rc = let (e, r) = fail_closed_denies rp rc in (λ q. cc, λ m. (e, r), λ n. absurd (n e))

  decide_cases :
      (p : Policy) (i : Intent) (c : Context)
      → ((decide hash_decision p i c).decision ≡ deny)
        ⊎ ((decide hash_decision p i c).decision ≡ allowed p i)
  unfolding decide
  decide_cases p i c = ground arith

  decide-Granted :
      (p : Policy) (i : Intent) (c : Context)
      → (decide hash_decision p i c).decision ≢ deny
      → Granted p i (decide hash_decision p i c).decision
  decide-Granted p i c n = elim (decide_cases p i c) [
    | inl e ↦ absurd (n e)
    | inr e ↦ subst (Granted p i) (sym e) (allowed-Granted p i)
  ]

  -- Whatever the inputs: the decision is never INDETERMINATE; if one of them does not parse it
  -- is DENY with the single indeterminate rule "input.contract"; and if it is not DENY, all of
  -- them have parsed and it is ALLOW_READ for a reading intent, REQUIRE_APPROVAL for a transfer
  -- under a policy in the mode review-required, and ALLOW_AUTONOMOUS for a transfer under any
  -- other mode.
  pub evaluate_fails_closed :
      (rp : RawPolicy) (ri : RawIntent) (rc : RawContext)
      → let d = evaluate_policy hash_decision rp ri rc in
        (d.decision ≢ indeterminate_verdict)
        × ((parse_policy rp ≡ none) ⊎ (parse_intent ri ≡ none) ⊎ (parse_context rc ≡ none)
            → (d.decision ≡ deny) × (d.rules ≡ indeterminate_rule "input.contract" ∷ []))
        × (d.decision ≢ deny
            → (p : Policy) × (i : Intent) × (c : Context) × (parse_policy rp ≡ some p)
              × (parse_intent ri ≡ some i)
              × (parse_context rc ≡ some c)
              × Granted p i d.decision)
  unfolding evaluate_policy
  evaluate_fails_closed rp ri rc = elim (Option-cases (parse_policy rp)) [
    | inl e ↦ rw (e, evaluate_policy) (closed rp rc)
    | inr (p, e) ↦ elim (Option-cases (parse_intent ri)) [
      | inl f ↦ rw (e, f, evaluate_policy) (closed rp rc)
      | inr (i, f) ↦ elim (Option-cases (parse_context rc)) [
        | inl g ↦ rw (e, f, g, evaluate_policy) (closed rp rc)
        | inr (c, g) ↦
            rw (e, f, g, evaluate_policy)
              (
                λ q. ground (arith, decide_cases p i c, allowed-ne-deny p i),
                λ m. absurd (ground arith),
                λ n. (p, i, c, refl, refl, refl, decide-Granted p i c n),
              )
      ]
    ]
  ]
