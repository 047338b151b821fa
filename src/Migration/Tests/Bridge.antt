-- ===== src/Migration/Tests/Bridge.antt =====
-- internal/migration: the bridge with a provider that answers, and sequences of calls.
use baobab_iam.Base.{
  pos, String, false, Option, none, some, List, [], ◌∷◌, ◌≡◌, ◌≢◌, refl, inl, next_int64, is_space,
  trim_space, trim_left, trim_right,
}
use mathlib.Core.Path.{subst}
use baobab_iam.Result.{ok}
use baobab_iam.Action.{Action}
use baobab_iam.Action.Along.{Along}
use baobab_iam.Provider.Specs.{
  Object, Value, ProviderIdentity, ProviderIdentityStatus, IdentityProvisioningSpec,
}
use baobab_iam.Migration.Errors.{Error}
use baobab_iam.Migration.Bridge.Provision.Retry.{IsStuck, no_retry}
use baobab_iam.Migration.Types.{
  failed_retryable, Row, ProviderBinding, orphan_candidate, provisioned, cutover_ready, cutover,
  class_valid, strategy_valid, state_valid, target_optional, IdentityClass-discrete,
  MigrationState-discrete,
}
use baobab_iam.Migration.Validate.{
  validate_structural, check_forbidden_ledger_strings, has_any, contains_ascii, occurs, begins_with,
  lower_ascii,
}
use baobab_iam.Migration.State.{
  is_mutation_stage, transition, can_transition, count_attempt, is_parking,
}
use baobab_iam.Migration.Service.{
  phase_c_policy_gate, stamp, apply_transition, set_target_binding, trimmed,
}
use baobab_iam.Migration.Store.Memory.{insert, Memory, lookup, put, get}
use baobab_iam.Migration.Store.Memory.Laws.{memory_store-IsLawful, IsKeyed}
use baobab_iam.Migration.Ledger.History.{Descends}
use baobab_iam.Migration.Ledger.History.Identity.{Follows}
use baobab_iam.Migration.Ledger.History.Policy.{IsBeforeCutover, IsParked}
use baobab_iam.Migration.Ledger.Refines.{IsReached}
use baobab_iam.Migration.Bridge.Targets.{
  provision_target, provision_human, binding_of, target_provider_name, ProvisionBridge,
  WorkloadCredentialProfile,
}
use baobab_iam.Migration.Bridge.Advance.{advance_to, state_order, next_happy, advance_loop}
use baobab_iam.Migration.Bridge.Provision.{
  ProvisionResult, execute, check_class, is_past_provisioning, provision,
}
use baobab_iam.Migration.Bridge.Provision.Provider.{Quiet, Quiet-order, LeavesLedger}
use baobab_iam.Migration.Bridge.Provision.Outcome.{Succeeded, provision_succeeds}
use baobab_iam.Migration.Bridge.Provision.Whole.{provision_refines}
use baobab_iam.Migration.Calls.{
  Call, call_apply_transition, call_provision, call_apply_credential, call_mark_ready,
  call_apply_verification, call_mark_verified, run,
}
use baobab_iam.Migration.Calls.Laws.{rows_kept, no_cutover, orphans-IsParked}
use baobab_iam.Provider.Validate.{value_at, has_key, forbid_keys, validate_identity_spec}
use baobab_iam.Migration.Bridge.Traits.{validate_human_traits, only_known_traits, only_name_fields}
use baobab_iam.Migration.Tests.{person, svc, ledger, ledger-IsKeyed, memory_laws, held}

abbrev make_identity : IdentityProvisioningSpec → Action Error Memory (Option ProviderIdentity)
make_identity spec m = (
  ok (
      some (record {
        provider = "ory";
        issuer = "https://new";
        subject = "new-1";
        status = ProviderIdentityStatus.active;
      })),
  m,
)

abbrev traits_of : ProviderBinding → String → Action Error Memory Object
traits_of source reference m = (ok (("email", Value.text "a@b") ∷ []), m)

abbrev bridge : ProvisionBridge Memory
bridge = record {
  service = svc;
  human_provisioner = some make_identity;
  human_traits = some traits_of;
  workload_provisioner = none;
  federated_provisioner = none;
  target_issuer = "https://new";
  target_provider = "ory";
  default_workload_profile = WorkloadCredentialProfile.unlisted "";
  client_secret_allow_list = [];
  client_secret_scopes_by_logical_id = [];
  federated_trust = record {
    assertion_issuer = "";
    assertion_subject_for = none;
    assertion_jwk = [];
    trust_ttl = pos 0;
    scopes_by_logical_id = [];
    audiences_by_logical_id = [];
  };
  wall_clock = λ m. 5;
  check_clock = λ m. 6;
}

abbrev parse : String → Option String
parse s = some s

leaves : LeavesLedger bridge memory_store-IsLawful
leaves = record {
  quiet_human = λ f e spec.
      let p : make_identity ≡ f = cc in
      subst (λ g. Along (Quiet bridge memory_store-IsLawful) (g spec)) p
        (record { at = λ s. (Quiet-order bridge memory_store-IsLawful).same s });
  quiet_traits = λ f e source reference.
      let p : traits_of ≡ f = cc in
      subst (λ g. Along (Quiet bridge memory_store-IsLawful) (g source reference)) p
        (record { at = λ s. (Quiet-order bridge memory_store-IsLawful).same s });
  quiet_workload = λ f e spec. cc;
  quiet_federated = λ f e spec. cc;
}

provision_refines_example :
    IsReached svc memory_laws ledger (provision bridge parse "mig-1" ledger).1
provision_refines_example =
    provision_refines bridge memory_laws leaves parse "mig-1" ledger ledger-IsKeyed

abbrev whole_path : List Call
whole_path =
    call_provision "mig-1"
    ∷ call_apply_credential "mig-1"
    ∷ call_mark_ready "mig-1"
    ∷ call_apply_verification "mig-1"
    ∷ call_mark_verified "mig-1"
    ∷ call_apply_transition "mig-1" cutover_ready
    ∷ call_apply_transition "mig-1" cutover
    ∷ []

rows_kept_example : Descends Follows person (memory_laws.view (run bridge parse whole_path ledger))
rows_kept_example =
    rows_kept bridge memory_laws leaves parse whole_path ledger person ledger-IsKeyed held

no_cutover_example :
    (r' : Row) × (memory_laws.view (run bridge parse whole_path ledger) "mig-1" ≡ some r')
    × IsBeforeCutover r'
no_cutover_example =
    no_cutover bridge memory_laws leaves parse whole_path ledger person refl ledger-IsKeyed held
      ((λ e. cc), (λ e. cc))

abbrev orphan : Row
orphan = record person { identity_class = orphan_candidate; canonical_identity_id = "" }

abbrev orphan_ledger : Memory
orphan_ledger = ("mig-1", orphan) ∷ []

orphan_ledger-IsKeyed : IsKeyed orphan_ledger
unfolding validate_structural check_forbidden_ledger_strings has_any contains_ascii occurs
    begins_with lower_ascii trim_space trim_left trim_right is_space class_valid strategy_valid
    state_valid target_optional IdentityClass-discrete
orphan_ledger-IsKeyed = (refl, refl, tt)

orphan_held : memory_laws.view orphan_ledger "mig-1" ≡ some orphan
unfolding lookup
orphan_held = refl

orphans-IsParked_example :
    (r' : Row) × (memory_laws.view (run bridge parse whole_path orphan_ledger) "mig-1" ≡ some r')
    × (r'.identity_class ≡ orphan_candidate)
    × IsParked r'.migration_state
orphans-IsParked_example =
    orphans-IsParked bridge memory_laws leaves parse whole_path orphan_ledger orphan
      orphan_ledger-IsKeyed orphan_held refl (inl refl)

-- The row that the bridge makes of the person.
abbrev made : Row
made = record person {
  migration_state = provisioned;
  target = record { provider = "ory"; issuer = "https://new"; subject = "new-1" };
  started_at = some 5;
  attempt_count = pos 1;
}

abbrev made_result : ProvisionResult
made_result = record {
  row = made;
  provider_subject = "new-1";
  workload_profile = WorkloadCredentialProfile.unlisted "";
  already_provisioned = false;
}

provision_run : (provision bridge parse "mig-1" ledger).0 ≡ ok made_result
unfolding provision execute check_class is_past_provisioning provision_target provision_human
    binding_of target_provider_name advance_to advance_loop state_order next_happy
    phase_c_policy_gate stamp apply_transition set_target_binding trimmed transition can_transition
    count_attempt is_mutation_stage is_parking insert lookup put get value_at has_key forbid_keys
    validate_identity_spec validate_human_traits only_known_traits only_name_fields
    validate_structural check_forbidden_ledger_strings has_any contains_ascii occurs begins_with
    lower_ascii trim_space trim_left trim_right is_space class_valid strategy_valid state_valid
    target_optional MigrationState-discrete IdentityClass-discrete next_int64
provision_run = refl

provision_succeeds_example :
    Succeeded bridge memory_laws leaves parse "mig-1" made_result
      (memory_laws.view ledger)
      (memory_laws.view (provision bridge parse "mig-1" ledger).1)
provision_succeeds_example =
    provision_succeeds bridge memory_laws leaves parse "mig-1" made_result ledger ledger-IsKeyed
      provision_run

abbrev failed : Row
failed = record person { migration_state = failed_retryable }

abbrev failed_ledger : Memory
failed_ledger = ("mig-1", failed) ∷ []

failed_ledger-IsKeyed : IsKeyed failed_ledger
unfolding validate_structural check_forbidden_ledger_strings has_any contains_ascii occurs
    begins_with lower_ascii trim_space trim_left trim_right is_space class_valid strategy_valid
    state_valid target_optional IdentityClass-discrete
failed_ledger-IsKeyed = (refl, refl, tt)

failed_held : memory_laws.view failed_ledger "mig-1" ≡ some failed
unfolding lookup
failed_held = refl

failed-IsStuck : IsStuck failed_retryable
unfolding state_order is_past_provisioning
failed-IsStuck = (refl, refl)

no_retry_example : (provision bridge parse "mig-1" failed_ledger).0 ≢ ok made_result
no_retry_example =
    no_retry bridge memory_laws leaves parse "mig-1" failed made_result failed_ledger
      failed_ledger-IsKeyed failed_held failed-IsStuck
