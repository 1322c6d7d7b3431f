-- ===== src/Schemas/Lifecycle.antt =====
-- packages/schemas/src/lifecycle.ts: the operation lifecycle and its transition table.
pub mod Order
pub mod Tests
use crip_wallet.Base.{ℕ, String, Bool, List, [], ◌∷◌, Option, none, some, any, ◌==◌, ◌&&◌}
use crip_wallet.Base.{if◌then◌else◌, str_eq, true, false}
use crip_wallet.Base.Ensures.{Result, ok, err}

-- `LIFECYCLE_STATES`
pub data LifecycleState : Type 0 where
  draft validated policy_prechecked constructed decoded : LifecycleState
  verified simulated policy_finalized budget_reserved envelope_finalized : LifecycleState
  awaiting_approval authorized signing signed broadcast : LifecycleState
  pending_confirmation confirmed reconciled rejected denied : LifecycleState
  expired simulation_failed signing_failed broadcast_failed reverted : LifecycleState
  cancelled disputed revoked revalidation_required : LifecycleState

-- The position in `LIFECYCLE_STATES`, by which `includes` compares two states.
unfoldable pub state_index : LifecycleState → ℕ
state_index draft = 0
state_index validated = 1
state_index policy_prechecked = 2
state_index constructed = 3
state_index decoded = 4
state_index verified = 5
state_index simulated = 6
state_index policy_finalized = 7
state_index budget_reserved = 8
state_index envelope_finalized = 9
state_index awaiting_approval = 10
state_index authorized = 11
state_index signing = 12
state_index signed = 13
state_index broadcast = 14
state_index pending_confirmation = 15
state_index confirmed = 16
state_index reconciled = 17
state_index rejected = 18
state_index denied = 19
state_index expired = 20
state_index simulation_failed = 21
state_index signing_failed = 22
state_index broadcast_failed = 23
state_index reverted = 24
state_index cancelled = 25
state_index disputed = 26
state_index revoked = 27
state_index revalidation_required = 28

unfoldable pub state_eq : LifecycleState → LifecycleState → Bool
unfolding state_index
state_eq s t = state_index s == state_index t

abbrev pub state_names : List (String × LifecycleState)
state_names =
    ("DRAFT", draft)
    ∷ ("VALIDATED", validated)
    ∷ ("POLICY_PRECHECKED", policy_prechecked)
    ∷ ("CONSTRUCTED", constructed)
    ∷ ("DECODED", decoded)
    ∷ ("VERIFIED", verified)
    ∷ ("SIMULATED", simulated)
    ∷ ("POLICY_FINALIZED", policy_finalized)
    ∷ ("BUDGET_RESERVED", budget_reserved)
    ∷ ("ENVELOPE_FINALIZED", envelope_finalized)
    ∷ ("AWAITING_APPROVAL", awaiting_approval)
    ∷ ("AUTHORIZED", authorized)
    ∷ ("SIGNING", signing)
    ∷ ("SIGNED", signed)
    ∷ ("BROADCAST", broadcast)
    ∷ ("PENDING_CONFIRMATION", pending_confirmation)
    ∷ ("CONFIRMED", confirmed)
    ∷ ("RECONCILED", reconciled)
    ∷ ("REJECTED", rejected)
    ∷ ("DENIED", denied)
    ∷ ("EXPIRED", expired)
    ∷ ("SIMULATION_FAILED", simulation_failed)
    ∷ ("SIGNING_FAILED", signing_failed)
    ∷ ("BROADCAST_FAILED", broadcast_failed)
    ∷ ("REVERTED", reverted)
    ∷ ("CANCELLED", cancelled)
    ∷ ("DISPUTED", disputed)
    ∷ ("REVOKED", revoked)
    ∷ ("REVALIDATION_REQUIRED", revalidation_required)
    ∷ []

find_state : String → List (String × LifecycleState) → Option LifecycleState
find_state text [] = none
find_state text ((name, s) ∷ rest) = if str_eq text name then some s else find_state text rest

-- A value of type `unknown`: a string, or anything else.
pub data Unknown : Type 0 where
  text : String → Unknown
  other : Unknown

-- `lifecycleStateSchema.safeParse`
unfoldable pub parse_state : Unknown → Option LifecycleState
unfolding find_state
parse_state (text t) = find_state t state_names
parse_state other = none

-- `transitionTable`
unfoldable pub transitions : LifecycleState → List LifecycleState
transitions draft = validated ∷ rejected ∷ denied ∷ expired ∷ revoked ∷ []
transitions validated = policy_prechecked ∷ rejected ∷ denied ∷ expired ∷ revoked ∷ []
transitions policy_prechecked = constructed ∷ rejected ∷ denied ∷ expired ∷ revoked ∷ []
transitions constructed = decoded ∷ rejected ∷ denied ∷ expired ∷ revoked ∷ []
transitions decoded = verified ∷ rejected ∷ denied ∷ expired ∷ revoked ∷ []
transitions verified = simulated ∷ rejected ∷ denied ∷ expired ∷ revoked ∷ []
transitions simulated =
    policy_finalized ∷ simulation_failed ∷ rejected ∷ denied ∷ expired ∷ revoked ∷ []
transitions policy_finalized =
    budget_reserved ∷ revalidation_required ∷ rejected ∷ denied ∷ expired ∷ revoked ∷ []
transitions budget_reserved = envelope_finalized ∷ revalidation_required ∷ expired ∷ revoked ∷ []
transitions envelope_finalized =
    awaiting_approval ∷ authorized ∷ revalidation_required ∷ expired ∷ revoked ∷ []
transitions awaiting_approval =
    authorized ∷ revalidation_required ∷ expired ∷ cancelled ∷ rejected ∷ revoked ∷ []
transitions authorized = signing ∷ revalidation_required ∷ expired ∷ cancelled ∷ revoked ∷ []
transitions signing = signed ∷ signing_failed ∷ revoked ∷ disputed ∷ []
transitions signed = broadcast ∷ broadcast_failed ∷ disputed ∷ revoked ∷ []
transitions broadcast = pending_confirmation ∷ broadcast_failed ∷ disputed ∷ []
transitions pending_confirmation = confirmed ∷ reverted ∷ disputed ∷ broadcast_failed ∷ []
transitions confirmed = reconciled ∷ disputed ∷ []
transitions reconciled = []
transitions rejected = []
transitions denied = []
transitions expired = []
transitions simulation_failed = []
transitions signing_failed = []
transitions broadcast_failed = disputed ∷ []
transitions reverted = reconciled ∷ disputed ∷ []
transitions cancelled = []
transitions disputed = reconciled ∷ []
transitions revoked = []
transitions revalidation_required = validated ∷ expired ∷ denied ∷ revoked ∷ []

-- `LIFECYCLE_TRANSITIONS[from].includes(to)`
unfoldable pub includes : LifecycleState → LifecycleState → Bool
unfolding state_eq transitions
includes from to = any (state_eq to) (transitions from)

-- `isValidLifecycleTransition`
unfoldable pub is_valid_lifecycle_transition : Unknown → Unknown → Bool
is_valid_lifecycle_transition from to = elim (parse_state from) [
  | none ↦ false
  | some f ↦ elim (parse_state to) [ none ↦ false | some t ↦ includes f t ]
]

pub data LifecycleError : Type 0 where
  not_canonical : LifecycleError
  invalid_transition : LifecycleState → LifecycleState → LifecycleError

-- `transitionLifecycleState`
unfoldable pub transition_lifecycle_state : Unknown → Unknown → Result LifecycleError LifecycleState
transition_lifecycle_state from to = elim (parse_state from) [
  | none ↦ err not_canonical
  | some f ↦ elim (parse_state to) [
    | none ↦ err not_canonical
    | some t ↦ if includes f t then ok t else err (invalid_transition f t)
  ]
]
