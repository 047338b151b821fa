-- ===== src/Migration/Stages/Verification.antt =====
-- internal/migration/verification.go: the verification stage.
use baobab_iam.Base.{String, Bool, true, false}
use baobab_iam.Action.{Action, pure, raise, ◌>>=◌}
use baobab_iam.Migration.Errors.{Error, verification_stage_state, mark_verified_state}
use baobab_iam.Migration.Types.{
  Row, MigrationState, credential_ready, verification_pending, verified, cutover_ready, cutover,
  legacy_retired,
}
use baobab_iam.Migration.Service.{Service, apply_transition}

-- `VerificationResult`
pub record VerificationResult : Type 0 where
  pub row : Row
  pub outcome : String
  pub already_verified : Bool

module _ {S : Type 0} (svc : Service S) where
  abbrev pub moved_to : String → MigrationState → String → Action Error S VerificationResult
  moved_to id to outcome = do
    out ← apply_transition svc id to
    pure (record { row = out; outcome = outcome; already_verified = false })

  abbrev pub unmoved : Row → String → Bool → Action Error S VerificationResult
  unmoved r outcome already =
      pure (record { row = r; outcome = outcome; already_verified = already })

  abbrev pub verify_from : MigrationState → String → Row → Action Error S VerificationResult
  verify_from verified id r = unmoved r "already_verified" true
  verify_from cutover_ready id r = unmoved r "already_verified" true
  verify_from cutover id r = unmoved r "already_verified" true
  verify_from legacy_retired id r = unmoved r "already_verified" true
  verify_from verification_pending id r = unmoved r "verification_pending" false
  verify_from credential_ready id r = moved_to id verification_pending "verification_pending"
  verify_from _ id r = raise verification_stage_state

  -- `VerificationStage.Apply`
  unfoldable pub apply_verification : String → Action Error S VerificationResult
  apply_verification id = do r ← svc.store.get id; verify_from r.migration_state id r

  abbrev pub mark_verified_from : MigrationState → String → Row → Action Error S VerificationResult
  mark_verified_from verified id r = unmoved r "already_verified" true
  mark_verified_from cutover_ready id r = unmoved r "already_verified" true
  mark_verified_from cutover id r = unmoved r "already_verified" true
  mark_verified_from legacy_retired id r = unmoved r "already_verified" true
  mark_verified_from verification_pending id r = moved_to id verified "verified"
  mark_verified_from _ id r = raise mark_verified_state

  -- `VerificationStage.MarkVerified`
  unfoldable pub mark_verified : String → Action Error S VerificationResult
  mark_verified id = do r ← svc.store.get id; mark_verified_from r.migration_state id r
