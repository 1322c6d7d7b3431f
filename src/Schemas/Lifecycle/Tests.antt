-- ===== src/Schemas/Lifecycle/Tests.antt =====
-- Tests of packages/schemas/src/lifecycle.ts and instances of its theorems.
use crip_wallet.Base.{
  ◌+◌, ◌*◌, ◌≤◌, ◌≡◌, refl, true, false, List, [], ◌∷◌, All, length, none, some, ◌↔◌, ◌⊎◌,
}
use crip_wallet.Base.Ensures.{ok, err}
use crip_wallet.Schemas.Lifecycle.{
  LifecycleState, text, other, parse_state, includes, is_valid_lifecycle_transition, not_canonical,
  invalid_transition, transition_lifecycle_state,
}
use crip_wallet.Schemas.Lifecycle.LifecycleState.{
  draft, validated, policy_prechecked, constructed, decoded, verified, simulated, policy_finalized,
  budget_reserved, envelope_finalized, authorized, signing,
}
use crip_wallet.Schemas.Lifecycle.Order.{
  History, start, next, was_visited, gates, executing_passes_gates, revalidations, History-bounded,
  transition_iff,
}

lifecycle_tests :
    (transition_lifecycle_state (text "DRAFT") (text "VALIDATED") ≡ ok validated)
    × (transition_lifecycle_state (text "DRAFT") (text "SIGNED")
        ≡ err (invalid_transition draft LifecycleState.signed))
    × (transition_lifecycle_state (text "draft") (text "VALIDATED") ≡ err not_canonical)
    × (is_valid_lifecycle_transition other (text "DRAFT") ≡ false)
unfolding transition_lifecycle_state is_valid_lifecycle_transition parse_state includes
lifecycle_tests = (refl, refl, refl, refl)

abbrev signing_history : List LifecycleState
signing_history =
    signing ∷ authorized ∷ envelope_finalized ∷ budget_reserved ∷ policy_finalized ∷ simulated
    ∷ verified ∷ decoded ∷ constructed ∷ policy_prechecked ∷ validated ∷ draft ∷ []

signing_is_reached : History signing signing_history
unfolding includes
signing_is_reached =
    next
      (next
        (next
          (next
            (next (next (next (next (next (next (next start refl) refl) refl) refl) refl) refl)
              refl)
            refl)
          refl)
        refl)
      refl

executing_passes_gates_example : All (λ g. was_visited g signing_history ≡ true) gates
executing_passes_gates_example = executing_passes_gates signing_is_reached refl

History-bounded_example : length signing_history ≤ 19 + 17 * revalidations signing_history
History-bounded_example = History-bounded signing_is_reached

transition_iff_example :
    ((t : LifecycleState)
      → (transition_lifecycle_state (text "DRAFT") (text "VALIDATED") ≡ ok t) ↔ (
          (is_valid_lifecycle_transition (text "DRAFT") (text "VALIDATED") ≡ true)
          × (parse_state (text "VALIDATED") ≡ some t)))
    × ((transition_lifecycle_state (text "DRAFT") (text "VALIDATED") ≡ err not_canonical)
        ↔ ((parse_state (text "DRAFT") ≡ none) ⊎ (parse_state (text "VALIDATED") ≡ none)))
transition_iff_example = transition_iff (text "DRAFT") (text "VALIDATED")
