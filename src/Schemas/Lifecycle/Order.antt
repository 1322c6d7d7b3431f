-- ===== src/Schemas/Lifecycle/Order.antt =====
-- The order that the transition table of packages/schemas/src/lifecycle.ts imposes on histories.
use crip_wallet.Base.{
  ℕ, ◌+◌, ◌*◌, ◌≤◌, ◌≡◌, refl, sym, ap, subst, ◌∙◌, ◌↔◌, ◌⊎◌, inl, inr, Bool, true, false, Option,
  none, some, List, [], ◌∷◌, any, all, All, length, arith, ◌==◌, leb, if◌then◌else◌, ==_iff, map,
  Bool-cases, ◌||◌, ◌&&◌,
}
use native.Mathlib.Decide.{dec_le}
use crip_wallet.Base.Ensures.{ok, err}
use crip_wallet.Schemas.Lifecycle.{
  LifecycleState, state_index, state_eq, state_names, Unknown, parse_state, transitions, includes,
  is_valid_lifecycle_transition, transition_lifecycle_state, not_canonical,
}
use crip_wallet.Schemas.Lifecycle.LifecycleState.{
  draft, validated, policy_prechecked, constructed, decoded, verified, simulated, policy_finalized,
  budget_reserved, envelope_finalized, awaiting_approval, authorized, signing, signed, broadcast,
  pending_confirmation, confirmed, reconciled, signing_failed, broadcast_failed, reverted, disputed,
  revalidation_required,
}

abbrev all_states : List LifecycleState
all_states = map (λ e. e.1) state_names

with_index : ℕ → List LifecycleState → Option LifecycleState
with_index n [] = none
with_index n (s ∷ rest) = if state_index s == n then some s else with_index n rest

with_index-state_index : (s : LifecycleState) → with_index (state_index s) all_states ≡ some s
unfolding with_index state_index
with_index-state_index draft = refl
with_index-state_index _ = refl

state_index_injective : (s t : LifecycleState) → state_index s ≡ state_index t → s ≡ t
state_index_injective s t e =
    let same : ◌≡◌ {A = Option LifecycleState} (some s) (some t) =
      sym (with_index-state_index s)
      ∙ ap (λ n. with_index n all_states) e
      ∙ with_index-state_index t in
    cc same

pub state_eq_iff : (s t : LifecycleState) → (state_eq s t ≡ true) ↔ (s ≡ t)
unfolding state_eq
state_eq_iff s t =
    (λ h. state_index_injective s t ((==_iff _ _).0 h), λ e. (==_iff _ _).1 (ap state_index e))

-- What holds of a whole row of the table holds of each entry that `includes` finds in it.
all-any :
    (p : LifecycleState → Bool) (t : LifecycleState) (row : List LifecycleState)
    → all p row ≡ true
    → any (state_eq t) row ≡ true
    → p t ≡ true
all-any p t [] h k = cc
all-any p t (s ∷ row) h k = elim (Bool-cases (state_eq t s)) [
  | inl e ↦ subst (λ u. p u ≡ true) (sym ((state_eq_iff t s).0 e)) (ground arith)
  | inr e ↦ all-any p t row (ground arith) (ground arith)
]

module _ (p : LifecycleState → LifecycleState → Bool)
    (rows : (s : LifecycleState) → all (p s) (transitions s) ≡ true) where
  includes-row : (s t : LifecycleState) → includes s t ≡ true → p s t ≡ true
  unfolding includes
  includes-row s t h = all-any (p s) t (transitions s) (rows s) h

-- A history from DRAFT along the table, with the states visited, the latest first.
pub data History : LifecycleState → List LifecycleState → Type 0 where
  start : History draft (draft ∷ [])
  next :
      {s t : LifecycleState} {visited : List LifecycleState}
      → History s visited
      → includes s t ≡ true
      → History t (t ∷ visited)

abbrev pub was_visited : LifecycleState → List LifecycleState → Bool
was_visited s visited = any (state_eq s) visited

-- How many of the gates before signing a state certifies: 11 when signing has begun.
stage : LifecycleState → ℕ
stage validated = 1
stage policy_prechecked = 2
stage constructed = 3
stage decoded = 4
stage verified = 5
stage simulated = 6
stage policy_finalized = 7
stage budget_reserved = 8
stage envelope_finalized = 9
stage awaiting_approval = 9
stage authorized = 10
stage signing = 11
stage signed = 11
stage broadcast = 11
stage pending_confirmation = 11
stage confirmed = 11
stage reconciled = 11
stage signing_failed = 11
stage broadcast_failed = 11
stage reverted = 11
stage disputed = 11
stage _ = 0

-- The state of each gate.
gate : ℕ → LifecycleState
gate n =
    if n == 1
    then validated
    else if n == 2
    then policy_prechecked
    else if n == 3
    then constructed
    else if n == 4
    then decoded
    else if n == 5
    then verified
    else if n == 6
    then simulated
    else if n == 7
    then policy_finalized
    else if n == 8
    then budget_reserved
    else if n == 9
    then envelope_finalized
    else authorized

-- A transition passes at most one gate, and a state passes a gate only by being it.
passes : LifecycleState → LifecycleState → Bool
passes s t =
    leb (stage t) (stage s)
    || (leb (stage t) (stage s + 1) && (stage t == 11 || state_eq t (gate (stage t))))

passes_row : (s : LifecycleState) → all (passes s) (transitions s) ≡ true
unfolding passes stage gate transitions state_eq state_index
passes_row draft = refl
passes_row _ = refl

passes_step : (s t : LifecycleState) → includes s t ≡ true → passes s t ≡ true
passes_step = includes-row passes passes_row

passes_cases :
    (s t : LifecycleState)
    → includes s t ≡ true
    → (stage t ≤ stage s) ⊎ ((stage t ≤ stage s + 1) × ((stage t ≡ 11) ⊎ (gate (stage t) ≡ t)))
unfolding passes
passes_cases s t h = ground (arith, passes_step s t h, state_eq_iff t (gate (stage t)))

visited-next :
    (g t : LifecycleState) (visited : List LifecycleState)
    → (was_visited g visited ≡ true) ⊎ (g ≡ t)
    → was_visited g (t ∷ visited) ≡ true
visited-next g t visited h = ground (arith, state_eq_iff g t)

pass_gate :
    (n : ℕ) (s t : LifecycleState) {P : Type 0}
    → (stage t ≤ stage s) ⊎ ((stage t ≤ stage s + 1) × ((stage t ≡ 11) ⊎ (gate (stage t) ≡ t)))
    → n ≤ 10
    → n ≤ stage t
    → (n ≤ stage s → P)
    → P ⊎ (gate n ≡ t)
pass_gate n s t (inl h) q k earlier = inl (earlier (omega arith))
pass_gate n s t (inr (h, c)) q k earlier = elim (dec_le n (stage s)) [
  | yes before ↦ inl (earlier before)
  | no after ↦
      let now : n ≡ stage t = omega arith in
      elim c [ inl past ↦ absurd (omega arith) | inr here ↦ inr (ap gate now ∙ here) ]
]

gate_visited :
    {s : LifecycleState} {visited : List LifecycleState} (n : ℕ)
    → History s visited
    → 1 ≤ n
    → n ≤ 10
    → n ≤ stage s
    → was_visited (gate n) visited ≡ true
unfolding stage
gate_visited n start p q h = absurd (omega arith)
gate_visited n (next {s} {t} {visited} r e) p q h =
    visited-next (gate n) t visited
      (pass_gate n s t (passes_cases s t e) q h (λ k. gate_visited n r p q k))

-- The states in which a signature has been requested: SIGNING and all that follow it.
abbrev pub is_executing : LifecycleState → Bool
is_executing signing = true
is_executing signed = true
is_executing broadcast = true
is_executing pending_confirmation = true
is_executing confirmed = true
is_executing reconciled = true
is_executing signing_failed = true
is_executing broadcast_failed = true
is_executing reverted = true
is_executing disputed = true
is_executing _ = false

is_executing-stage : (s : LifecycleState) → is_executing s ≡ true → stage s ≡ 11
unfolding stage
is_executing-stage signing h = refl
is_executing-stage _ h = ground arith

abbrev pub gates : List LifecycleState
gates =
    validated ∷ policy_prechecked ∷ constructed ∷ decoded ∷ verified ∷ simulated ∷ policy_finalized
    ∷ budget_reserved ∷ envelope_finalized ∷ authorized ∷ []

-- Every history along the table that starts in DRAFT and has reached SIGNING or any later state
-- has visited each of VALIDATED, POLICY_PRECHECKED, CONSTRUCTED, DECODED, VERIFIED, SIMULATED,
-- POLICY_FINALIZED, BUDGET_RESERVED, ENVELOPE_FINALIZED and AUTHORIZED.
pub executing_passes_gates :
    {s : LifecycleState} {visited : List LifecycleState}
    → History s visited
    → is_executing s ≡ true
    → All (λ g. was_visited g visited ≡ true) gates
unfolding gate
executing_passes_gates {s} {visited} r h = (
  at 1 (omega arith) (omega arith),
  (
    at 2 (omega arith) (omega arith),
    (
      at 3 (omega arith) (omega arith),
      (
        at 4 (omega arith) (omega arith),
        (
          at 5 (omega arith) (omega arith),
          (
            at 6 (omega arith) (omega arith),
            (
              at 7 (omega arith) (omega arith),
              (
                at 8 (omega arith) (omega arith),
                (at 9 (omega arith) (omega arith), (at 10 (omega arith) (omega arith), tt)),
              ),
            ),
          ),
        ),
      ),
    ),
  ),
)
  where
    at : (n : ℕ) → 1 ≤ n → n ≤ 10 → was_visited (gate n) visited ≡ true
    at n p q = gate_visited n r p q (omega (arith, is_executing-stage s h))

-- The longest way from a state to the end, not counting a return through revalidation.
rank : LifecycleState → ℕ
rank draft = 18
rank validated = 17
rank policy_prechecked = 16
rank constructed = 15
rank decoded = 14
rank verified = 13
rank simulated = 12
rank policy_finalized = 11
rank budget_reserved = 10
rank envelope_finalized = 9
rank awaiting_approval = 8
rank authorized = 7
rank signing = 6
rank signed = 5
rank broadcast = 4
rank pending_confirmation = 3
rank confirmed = 2
rank broadcast_failed = 2
rank reverted = 2
rank disputed = 1
rank revalidation_required = 1
rank _ = 0

descends : LifecycleState → LifecycleState → Bool
descends s t = leb (rank t + 1) (rank s + (if state_eq s revalidation_required then 17 else 0))

descends_row : (s : LifecycleState) → all (descends s) (transitions s) ≡ true
unfolding descends rank transitions state_eq state_index
descends_row draft = refl
descends_row _ = refl

-- How often a history has been sent back to revalidation.
abbrev pub revalidations : List LifecycleState → ℕ
revalidations [] = 0
revalidations (s ∷ visited) =
    (if state_eq s revalidation_required then 1 else 0) + revalidations visited

descends_step :
    (s t : LifecycleState)
    → includes s t ≡ true
    → rank t + 1 ≤ rank s + (if state_eq s revalidation_required then 17 else 0)
unfolding descends
descends_step s t e = ground (arith, includes-row descends descends_row s t e)

start_rank : 1 + rank draft + (if state_eq draft revalidation_required then 17 else 0) ≤ 19
unfolding rank state_eq state_index
start_rank = omega arith

History-rank :
    {s : LifecycleState} {visited : List LifecycleState}
    → History s visited
    → length visited + rank s + (if state_eq s revalidation_required then 17 else 0)
      ≤ 19 + 17 * revalidations visited
History-rank start = ground (arith, start_rank)
History-rank (next {s} {t} {visited} r e) = ground (arith, descends_step s t e, History-rank r)

-- A history along the table that has been sent to REVALIDATION_REQUIRED k times has visited at
-- most 19 + 17 k states: the lifecycle cannot run on without a revalidation.
pub History-bounded :
    {s : LifecycleState} {visited : List LifecycleState}
    → History s visited
    → length visited ≤ 19 + 17 * revalidations visited
History-bounded r = omega (arith, History-rank r)

-- The code's transition function succeeds exactly when the validity test passes, and then its
-- result is the requested state; otherwise it reports a non-canonical value exactly when one of
-- the two does not parse.
pub transition_iff :
    (from to : Unknown)
    → ((t : LifecycleState)
        → (transition_lifecycle_state from to ≡ ok t)
          ↔ ((is_valid_lifecycle_transition from to ≡ true) × (parse_state to ≡ some t)))
      × ((transition_lifecycle_state from to ≡ err not_canonical)
          ↔ ((parse_state from ≡ none) ⊎ (parse_state to ≡ none)))
unfolding transition_lifecycle_state is_valid_lifecycle_transition
transition_iff from to =
    ((λ t. (λ h. ground arith, λ h. ground arith)), (λ h. ground arith, λ h. ground arith))
