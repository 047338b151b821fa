-- ===== src/Migration/State/Laws.antt =====
-- internal/migration/state.go: `Transition` on every branch.
use baobab_iam.Base.{
  zero, suc, ◌+◌, ℤ, pos, negsuc, max_int64, next_int64, true, false, ◌==◌, ◌≡◌, ◌≢◌, ◌↔◌, ◌⊎◌,
  refl, ◌∙◌, inl, inr, arith, Bool-cases, eq_iff,
}
use baobab_iam.Result.{ok, err}
use baobab_iam.Migration.Errors.{Error}
use baobab_iam.Migration.Types.{
  Row, MigrationState, provisioning, credential_pending, verification_pending, cutover,
  orphan_candidate,
}
use baobab_iam.Migration.Validate.{validate_structural}
use baobab_iam.Migration.State.{
  can_transition, transition, count_attempt, is_mutation_stage, is_parking,
}

-- The checks do not read the attempt count.
validate-count_attempt :
    (to : MigrationState) (r : Row)
    → validate_structural (count_attempt to r) ≡ validate_structural r
unfolding count_attempt validate_structural
validate-count_attempt to r = elim (Bool-cases (is_mutation_stage to)) [
  | inl e ↦ rw e
  | inr e ↦ rw e
]

-- A row is resolved if it has a canonical identity and is not an orphan candidate.
abbrev pub IsResolved : Row → Type 0
IsResolved r = (r.identity_class ≢ orphan_candidate) × (r.canonical_identity_id ≢ "")

-- `Transition` succeeds exactly on a legal edge, to a row that passes the structural checks in the
-- new state, where the row is resolved or the new state is one of the parking states.
pub transition_iff :
    (to : MigrationState) (r : Row)
    → ((transition to r).0 ≡ ok tt) ↔ (
        (can_transition r.migration_state to ≡ true)
        × (IsResolved r ⊎ (is_parking to ≡ true))
        × (validate_structural (record r { migration_state = to }) ≡ ok tt))
unfolding transition
transition_iff to r = ground (
  arith,
  eq_iff r.canonical_identity_id "",
  validate-count_attempt to (record r { migration_state = to }),
)

-- The states of which the entry is an attempt.
abbrev pub IsAttempt : MigrationState → Type 0
IsAttempt provisioning = Unit
IsAttempt credential_pending = Unit
IsAttempt verification_pending = Unit
IsAttempt cutover = Unit
IsAttempt _ = ⊥

-- One more, as a 64-bit integer: the greatest is followed by the least.
abbrev pub IsOneMore : ℤ → ℤ → Type 0
IsOneMore (pos m) (pos n) = (m ≢ max_int64) × (n ≡ m + 1)
IsOneMore (pos m) (negsuc n) = (m ≡ max_int64) × (n ≡ max_int64)
IsOneMore (negsuc m) (pos n) = (m ≡ 0) × (n ≡ 0)
IsOneMore (negsuc m) (negsuc n) = m ≡ n + 1

-- The attempt count before and after the entry of a state.
abbrev pub IsCounted : MigrationState → ℤ → ℤ → Type 0
IsCounted to before after =
    (IsAttempt to × IsOneMore before after) ⊎ ((¬ IsAttempt to) × (after ≡ before))

next_int64-IsOneMore : (a : ℤ) → IsOneMore a (next_int64 a)
unfolding next_int64
next_int64-IsOneMore (pos n) = elim (Bool-cases (n == max_int64)) [
  | inl e ↦ rw e (ground (arith, e), refl)
  | inr e ↦ rw e (ground (arith, e), refl)
]
next_int64-IsOneMore (negsuc zero) = (refl, refl)
next_int64-IsOneMore (negsuc (suc n)) = omega arith

is_mutation_stage-cases :
    (to : MigrationState)
    → (IsAttempt to × (is_mutation_stage to ≡ true))
      ⊎ ((¬ IsAttempt to) × (is_mutation_stage to ≡ false))
unfolding is_mutation_stage
is_mutation_stage-cases provisioning = inl (tt, refl)
is_mutation_stage-cases credential_pending = inl (tt, refl)
is_mutation_stage-cases verification_pending = inl (tt, refl)
is_mutation_stage-cases cutover = inl (tt, refl)
is_mutation_stage-cases _ = inr ((λ h. h), refl)

count_attempt-IsCounted :
    (to : MigrationState) (r : Row)
    → (n : ℤ) × IsCounted to r.attempt_count n
      × (count_attempt to r ≡ record r { attempt_count = n })
unfolding count_attempt
count_attempt-IsCounted to r = elim (is_mutation_stage-cases to) [
  | inl (stage, e) ↦
      rw e (next_int64 r.attempt_count, inl (stage, next_int64-IsOneMore r.attempt_count), refl)
  | inr (none, e) ↦ rw e (r.attempt_count, inr (none, refl), refl)
]

pub transition-count_attempt :
    (to : MigrationState) (r : Row)
    → ((transition to r).0 ≡ ok tt)
        × ((transition to r).1 ≡ count_attempt to (record r { migration_state = to }))
      ⊎ ((e : Error) × ((transition to r).0 ≡ err e) × ((transition to r).1 ≡ r))
unfolding transition
transition-count_attempt to r =
    ground (arith, validate-count_attempt to (record r { migration_state = to }))

-- On an error the row is as it was. On success its state is the new one; its attempt count is one more,
-- as a 64-bit integer, if that is PROVISIONING, CREDENTIAL_PENDING, VERIFICATION_PENDING or CUTOVER,
-- and as it was if not; and all else is as it was.
pub transition_effect :
    (to : MigrationState) (r : Row)
    → ((transition to r).0 ≡ ok tt)
        × ((n : ℤ) × IsCounted to r.attempt_count n
            × ((transition to r).1 ≡ record r { migration_state = to; attempt_count = n }))
      ⊎ ((e : Error) × ((transition to r).0 ≡ err e) × ((transition to r).1 ≡ r))
transition_effect to r = elim (transition-count_attempt to r) [
  | inl (done, moved) ↦
      let (n, counted, same) = count_attempt-IsCounted to (record r { migration_state = to }) in
      inl (done, (n, counted, moved ∙ same))
  | inr failed ↦ inr failed
]
