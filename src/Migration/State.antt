-- ===== src/Migration/State.antt =====
-- internal/migration/state.go: the legal edges between migration states, and the move of a row
-- along one. `Transition` mutates the row, so the row comes back beside the error.
pub mod Graph
pub mod Laws
use baobab_iam.Base.{
  Bool, true, false, not, ◌&&◌, ◌||◌, List, [], ◌∷◌, Option, none, some, String, str_eq, next_int64,
  if◌then◌else◌,
}
use baobab_iam.Result.{Result, ok, err}
use baobab_iam.Migration.Errors.{Error, illegal_transition, unresolved_orphan, email_alone}
use baobab_iam.Migration.Types.{
  Row, MigrationState, discovered, validated, ready, provisioning, provisioned, credential_pending,
  credential_ready, verification_pending, verified, cutover_ready, cutover, legacy_retired, blocked,
  failed_retryable, failed_manual_review, rolled_back, quarantined, is_state, is_class,
  orphan_candidate,
}
use baobab_iam.Migration.Validate.{validate_structural}

-- `allowedTransitions`; `none` for a state that the map has no entry for.
unfoldable pub allowed_transitions : MigrationState → Option (List MigrationState)
allowed_transitions discovered =
    some (validated ∷ blocked ∷ failed_manual_review ∷ quarantined ∷ [])
allowed_transitions validated = some (ready ∷ blocked ∷ failed_manual_review ∷ quarantined ∷ [])
allowed_transitions ready =
    some (provisioning ∷ blocked ∷ failed_retryable ∷ failed_manual_review ∷ quarantined ∷ [])
allowed_transitions provisioning =
    some (provisioned ∷ failed_retryable ∷ failed_manual_review ∷ rolled_back ∷ quarantined ∷ [])
allowed_transitions provisioned = some (
    credential_pending ∷ credential_ready ∷ failed_retryable ∷ failed_manual_review ∷ rolled_back
    ∷ quarantined ∷ [])
allowed_transitions credential_pending =
    some (credential_ready ∷ failed_retryable ∷ failed_manual_review ∷ quarantined ∷ [])
allowed_transitions credential_ready =
    some (verification_pending ∷ failed_retryable ∷ failed_manual_review ∷ quarantined ∷ [])
allowed_transitions verification_pending =
    some (verified ∷ failed_retryable ∷ failed_manual_review ∷ quarantined ∷ [])
allowed_transitions verified = some (cutover_ready ∷ failed_manual_review ∷ quarantined ∷ [])
allowed_transitions cutover_ready =
    some (cutover ∷ failed_manual_review ∷ rolled_back ∷ quarantined ∷ [])
allowed_transitions cutover = some (legacy_retired ∷ rolled_back ∷ quarantined ∷ [])
allowed_transitions legacy_retired = some []
allowed_transitions blocked = some (validated ∷ ready ∷ failed_manual_review ∷ quarantined ∷ [])
allowed_transitions failed_retryable = some (
    ready ∷ provisioning ∷ credential_pending ∷ verification_pending ∷ failed_manual_review
    ∷ quarantined ∷ rolled_back ∷ [])
allowed_transitions failed_manual_review = some (ready ∷ quarantined ∷ rolled_back ∷ [])
allowed_transitions rolled_back = some (ready ∷ quarantined ∷ [])
allowed_transitions quarantined = some (failed_manual_review ∷ [])
allowed_transitions (MigrationState.unlisted _) = none

unfoldable pub has_state : List MigrationState → MigrationState → Bool
has_state [] to = false
has_state (s ∷ rest) to = is_state s to || has_state rest to

-- `CanTransition`
unfoldable pub can_transition : MigrationState → MigrationState → Bool
unfolding allowed_transitions has_state
can_transition from to = elim (allowed_transitions from) [
  | none ↦ false
  | some next ↦ has_state next to
]

-- The states that an unresolved orphan may enter.
unfoldable pub is_parking : MigrationState → Bool
is_parking blocked = true
is_parking failed_manual_review = true
is_parking quarantined = true
is_parking _ = false

-- The states whose entry counts as an attempt.
unfoldable pub is_mutation_stage : MigrationState → Bool
is_mutation_stage provisioning = true
is_mutation_stage credential_pending = true
is_mutation_stage verification_pending = true
is_mutation_stage cutover = true
is_mutation_stage _ = false

unfoldable pub count_attempt : MigrationState → Row → Row
unfolding is_mutation_stage
count_attempt to r =
    if is_mutation_stage to then record r { attempt_count = next_int64 r.attempt_count } else r

-- `Record.Transition`
unfoldable pub transition : MigrationState → Row → Result Error (Unit {0}) × Row
transition to r =
    if not (can_transition r.migration_state to)
    then (err illegal_transition, r)
    else if (is_class r.identity_class orphan_candidate || str_eq r.canonical_identity_id "")
        && not (is_parking to)
    then (err unresolved_orphan, r)
    else let moved = record r { migration_state = to } in
      let counted = count_attempt to moved in
      elim (validate_structural moved) [
        | ok _ ↦ (validate_structural counted, counted)
        | err e ↦ (err e, r)
      ]

-- `ResolveCanonicalByEmailAlone`
unfoldable pub resolve_canonical_by_email_alone : String → Result Error String
resolve_canonical_by_email_alone email = err email_alone
