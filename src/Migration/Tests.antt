-- ===== src/Migration/Tests.antt =====
-- internal/migration on concrete rows: a ledger in memory that holds one person.
mod Diagram
mod Operations
mod Bridge
mod Batch
mod Requests
mod Credential
use baobab_iam.Base.{
  pos, String, true, Option, none, some, List, [], ◌∷◌, ◌≡◌, refl, ◌⊎◌, inl, ◌↔◌, ◌≢◌, arith,
  str_eq, is_space, trim_space, trim_left, trim_right, if◌then◌else◌,
}
use mathlib.Core.Path.{subst}
use baobab_iam.Result.{ok, err}
use baobab_iam.Action.{Action}
use baobab_iam.Action.Along.{Along}
use baobab_iam.Provider.Specs.{
  Object, Value, ProviderIdentity, ProviderIdentityStatus, IdentityProvisioningSpec,
}
use baobab_iam.Migration.Errors.{Error, not_found}
use baobab_iam.Migration.Types
use baobab_iam.Migration.Types.{
  Row, ProviderBinding, MigrationState, human, orphan_candidate, discovered, validated, ready,
  provisioning, provisioned, credential_ready, verification_pending, verified, cutover_ready,
  cutover, legacy_retired, quarantined, class_valid, strategy_valid, state_valid, target_optional,
  IdentityClass-discrete, MigrationState-discrete,
}
use baobab_iam.Migration.Validate.{
  validate_structural, check_forbidden_ledger_strings, has_any, contains_ascii, occurs, begins_with,
  lower_ascii,
}
use baobab_iam.Migration.State.{transition, can_transition, count_attempt, is_parking}
use baobab_iam.Migration.State.Laws.{IsResolved, transition_iff, transition_effect}
use baobab_iam.Migration.State.Graph.{
  Trail, start, move, Visits, cutover_needs_verification, quarantine_everywhere,
  legacy_retired_final,
}
use baobab_iam.Migration.Service.{Service, register, apply_transition, set_target_binding, trimmed}
use baobab_iam.Migration.Service.Effect.{
  Ends, Advanced, Bound, apply_transition-Ends, set_target_binding-Ends,
}
use baobab_iam.Migration.Store.{IsLawful}
use baobab_iam.Migration.Store.Memory.{Memory, memory_store, lookup, put, get, delete}
use baobab_iam.Migration.Store.Memory.Laws.{memory_store-IsLawful, IsKeyed, put_lem, delete_lem}
use baobab_iam.Migration.Ledger.History.{Descends}
use baobab_iam.Migration.Ledger.History.Identity.{Follows}
use baobab_iam.Migration.Ledger.History.Policy.{IsBeforeCutover, IsParked}
use baobab_iam.Migration.Ledger.Refines.{IsReached, service_refines}
use baobab_iam.Migration.Bridge.Targets.{ProvisionBridge, WorkloadCredentialProfile}
use baobab_iam.Migration.Bridge.Advance.{advance_loop}
use baobab_iam.Migration.Bridge.Advance.Enough.{advance_loop_enough}
use baobab_iam.Migration.Bridge.Provision.{provision}
use baobab_iam.Migration.Bridge.Provision.Provider.{Quiet, Quiet-order, LeavesLedger}
use baobab_iam.Migration.Bridge.Provision.Whole.{provision_refines}
use baobab_iam.Migration.Stages.Credential.{apply_credential, mark_ready}
use baobab_iam.Migration.Stages.Verification.{apply_verification, mark_verified}
use baobab_iam.Migration.Stages.Refines.{stages_refine}
use baobab_iam.Migration.Calls.{
  Call, call_apply_transition, call_provision, call_apply_credential, call_mark_ready,
  call_apply_verification, call_mark_verified, run,
}
use baobab_iam.Migration.Calls.Laws.{rows_kept, no_cutover, orphans-IsParked}

abbrev pub person : Row
person = record {
  revision = pos 0;
  migration_id = "mig-1";
  migration_batch_id = "batch-1";
  canonical_identity_id = "canon-1";
  source = record { provider = "keycloak"; issuer = "https://old"; subject = "s-1" };
  target = record { provider = ""; issuer = ""; subject = "" };
  identity_class = human;
  credential_strategy = Types.first_login_migration;
  migration_state = discovered;
  verification_state = "";
  cutover_state = "";
  source_snapshot_reference = "";
  attempt_count = pos 0;
  last_error_code = "";
  created_at = 1;
  started_at = none;
  verified_at = none;
  cutover_at = none;
  retired_at = none;
}

abbrev pub new_target : ProviderBinding
new_target = record { provider = "ory"; issuer = "https://new"; subject = " new-1 " }

abbrev pub svc : Service Memory
svc = record { store = memory_store; policy = none; now = λ m. 5 }

abbrev pub ledger : Memory
ledger = ("mig-1", person) ∷ []

pub ledger-IsKeyed : IsKeyed ledger
unfolding validate_structural check_forbidden_ledger_strings has_any contains_ascii occurs
    begins_with lower_ascii trim_space trim_left trim_right is_space class_valid strategy_valid
    state_valid target_optional
ledger-IsKeyed = (refl, refl, tt)

abbrev pub memory_laws : IsLawful memory_store
memory_laws = memory_store-IsLawful

pub held : memory_laws.view ledger "mig-1" ≡ some person
unfolding lookup
held = refl
