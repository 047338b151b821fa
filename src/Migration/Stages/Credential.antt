-- ===== src/Migration/Stages/Credential.antt =====
-- internal/migration/credential.go: the credential stage. It takes a row to CREDENTIAL_PENDING or
-- CREDENTIAL_READY by its strategy, and accepts no credential material.
use baobab_iam.Base.{String, Bool, true, false, not, if◌then◌else◌}
use baobab_iam.Result.{Result, err, refuse_if}
use baobab_iam.Action.{Action, pure, raise, lift, ◌>>=◌, ◌>>◌}
use baobab_iam.Migration.Errors.{
  Error, invalid_strategy, credential_stage_state, mark_ready_state, credential_material,
}
use baobab_iam.Migration.Types.{
  Row, MigrationState, provisioned, credential_pending, credential_ready, verification_pending,
  verified, cutover_ready, cutover, legacy_retired, CredentialStrategy, direct_import,
  no_credential_required, strategy_valid, is_strategy,
}
use baobab_iam.Migration.Service.{Service, apply_transition}

-- `CredentialResult`
pub record CredentialResult : Type 0 where
  pub row : Row
  pub outcome : String
  pub already_ready : Bool

module _ {S : Type 0} (svc : Service S) where
  -- A move, with its outcome.
  abbrev pub moved_to : String → MigrationState → String → Action Error S CredentialResult
  moved_to id to outcome = do
    out ← apply_transition svc id to
    pure (record { row = out; outcome = outcome; already_ready = false })

  abbrev pub unmoved : Row → String → Bool → Action Error S CredentialResult
  unmoved r outcome already = pure (record { row = r; outcome = outcome; already_ready = already })

  abbrev pub pending_from : MigrationState → String → Row → String → Action Error S CredentialResult
  pending_from credential_pending id r outcome = unmoved r outcome false
  pending_from _ id r outcome = moved_to id credential_pending outcome

  -- `toPending`
  unfoldable pub to_pending : String → Row → String → Action Error S CredentialResult
  to_pending id r outcome = pending_from r.migration_state id r outcome

  abbrev pub ready_from : MigrationState → String → Row → String → Action Error S CredentialResult
  ready_from provisioned id r outcome = moved_to id credential_ready outcome
  ready_from credential_pending id r outcome = moved_to id credential_ready outcome
  ready_from _ id r outcome = unmoved r outcome true

  -- `toReady`
  unfoldable pub to_ready : String → Row → String → Action Error S CredentialResult
  to_ready id r outcome = ready_from r.migration_state id r outcome

  -- The switch on the strategy.
  abbrev pub by_strategy : CredentialStrategy → String → Row → Action Error S CredentialResult
  by_strategy no_credential_required id r = to_ready id r "no_credential_required"
  by_strategy direct_import id r = to_pending id r "direct_import_pending_provider_side"
  by_strategy (CredentialStrategy.unlisted s) id r = raise invalid_strategy
  by_strategy _ id r = to_pending id r "awaiting_external_credential_action"

  -- The switch on the state.
  abbrev pub apply_from : MigrationState → String → Row → Action Error S CredentialResult
  apply_from credential_ready id r = unmoved r "already_credential_ready" true
  apply_from verification_pending id r = unmoved r "already_credential_ready" true
  apply_from verified id r = unmoved r "already_credential_ready" true
  apply_from cutover_ready id r = unmoved r "already_credential_ready" true
  apply_from cutover id r = unmoved r "already_credential_ready" true
  apply_from legacy_retired id r = unmoved r "already_credential_ready" true
  apply_from provisioned id r = by_strategy r.credential_strategy id r
  apply_from credential_pending id r = by_strategy r.credential_strategy id r
  apply_from _ id r = raise credential_stage_state

  -- `CredentialStage.Apply`
  unfoldable pub apply_credential : String → Action Error S CredentialResult
  apply_credential id = do
    r ← svc.store.get id
    lift (refuse_if (not (strategy_valid r.credential_strategy)) invalid_strategy)
    apply_from r.migration_state id r

  abbrev pub mark_ready_from : MigrationState → String → Row → Action Error S CredentialResult
  mark_ready_from credential_ready id r = unmoved r "already_credential_ready" true
  mark_ready_from verification_pending id r = unmoved r "already_credential_ready" true
  mark_ready_from verified id r = unmoved r "already_credential_ready" true
  mark_ready_from cutover_ready id r = unmoved r "already_credential_ready" true
  mark_ready_from cutover id r = unmoved r "already_credential_ready" true
  mark_ready_from legacy_retired id r = unmoved r "already_credential_ready" true
  mark_ready_from credential_pending id r =
      moved_to id credential_ready "marked_ready_external_proof"
  mark_ready_from provisioned id r =
      if is_strategy r.credential_strategy no_credential_required
      then to_ready id r "no_credential_required"
      else raise mark_ready_state
  mark_ready_from _ id r = raise mark_ready_state

  -- `CredentialStage.MarkReady`
  unfoldable pub mark_ready : String → Action Error S CredentialResult
  mark_ready id = do r ← svc.store.get id; mark_ready_from r.migration_state id r

-- `RejectCredentialMaterial`
unfoldable pub reject_credential_material : String → String → Result Error (Unit {0})
reject_credential_material id material_kind = err credential_material
