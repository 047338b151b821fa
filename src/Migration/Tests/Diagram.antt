-- ===== src/Migration/Tests/Diagram.antt =====
-- internal/migration/state.go on concrete states and rows.
use baobab_iam.Base.{ℤ, true, ◌≡◌, refl, ◌⊎◌, inl, ◌↔◌}
use baobab_iam.Result.{ok, err}
use baobab_iam.Migration.Errors.{Error}
use baobab_iam.Migration.Types.{
  MigrationState, discovered, validated, ready, provisioning, provisioned, credential_ready,
  verification_pending, verified, cutover_ready, cutover, legacy_retired, quarantined, state_valid,
  target_optional, MigrationState-discrete,
}
use baobab_iam.Migration.Validate.{validate_structural}
use baobab_iam.Migration.State.{transition, can_transition, is_parking}
use baobab_iam.Migration.State.Laws.{IsResolved, IsCounted, transition_iff, transition_effect}
use baobab_iam.Migration.State.Graph.{
  Trail, start, move, Visits, cutover_needs_verification, legacy_retired_final,
}
use baobab_iam.Migration.Tests.{person}

transition_iff_example : ((transition validated person).0 ≡ ok tt) ↔ (
    (can_transition discovered validated ≡ true)
    × (IsResolved person ⊎ (is_parking validated ≡ true))
    × (validate_structural (record person { migration_state = validated }) ≡ ok tt))
transition_iff_example = transition_iff validated person

transition_effect_example :
    ((transition validated person).0 ≡ ok tt)
      × ((n : ℤ) × IsCounted validated person.attempt_count n
          × ((transition validated person).1
              ≡ record person { migration_state = validated; attempt_count = n }))
    ⊎ ((e : Error) × ((transition validated person).0 ≡ err e)
        × ((transition validated person).1 ≡ person))
transition_effect_example = transition_effect validated person

legacy_retired_final_example : Trail quarantined legacy_retired × (legacy_retired ≡ legacy_retired)
unfolding state_valid
legacy_retired_final_example = legacy_retired_final quarantined legacy_retired refl start

abbrev step :
    {s t : MigrationState}
    → Trail s t
    → (u : MigrationState) → can_transition t u ≡ true
    → Trail s u
step p u e = move p e

abbrev whole_trail : Trail discovered cutover
unfolding can_transition MigrationState-discrete
whole_trail =
    let made =
      step (step (step (step start validated refl) ready refl) provisioning refl) provisioned
        refl in
    let checked =
      step (step (step made credential_ready refl) verification_pending refl) verified refl in
    step (step checked cutover_ready refl) cutover refl

cutover_needs_verification_example :
    Visits cutover_ready whole_trail
    × Visits verified whole_trail
    × Visits verification_pending whole_trail
unfolding target_optional whole_trail
cutover_needs_verification_example = cutover_needs_verification refl whole_trail (inl refl)
