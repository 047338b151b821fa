-- ===== src/Migration/Tests/Requests.antt =====
-- internal/migration/bridge.go: two providers that differ on bad requests.
use baobab_iam.Base.{String, Option, none, some, [], ◌∷◌, ◌≡◌, refl, pos, if◌then◌else◌}
use baobab_iam.Result.{ok, err}
use baobab_iam.Action.{Action}
use baobab_iam.Provider.Specs.{
  WorkloadProvisioningSpec, ProviderWorkload, Object, Value, ProviderIdentity,
  ProviderIdentityStatus, IdentityProvisioningSpec, FederatedWorkloadTrust,
  FederatedWorkloadTrustSpec,
}
use baobab_iam.Provider.Validate.{has_key}
use baobab_iam.Migration.Errors.{Error, external}
use baobab_iam.Migration.Types.{Row, ProviderBinding, service_integration}
use baobab_iam.Migration.Store.Memory.{Memory}
use baobab_iam.Migration.Bridge.Targets.{
  ProvisionBridge, WorkloadCredentialProfile, provision_federated_workload, provision_human,
  provision_workload, is_listed,
}
use baobab_iam.Migration.Bridge.Targets.Laws.{
  secret_only_if_allowed, only_public_trusts, only_clean_identities,
}
use baobab_iam.Migration.Tests.{svc, person, ledger}

abbrev traits_of : ProviderBinding → String → Action Error Memory Object
traits_of source reference m = (ok (("email", Value.text "a@b") ∷ []), m)

abbrev bridge : ProvisionBridge Memory
bridge = record {
  service = svc;
  human_provisioner = none;
  human_traits = some traits_of;
  workload_provisioner = none;
  federated_provisioner = none;
  target_issuer = "https://new";
  target_provider = "ory";
  default_workload_profile = WorkloadCredentialProfile.federated_workload_token;
  client_secret_allow_list = [];
  client_secret_scopes_by_logical_id = [];
  federated_trust = record {
    assertion_issuer = "https://cluster";
    assertion_subject_for = none;
    assertion_jwk = ("kid", Value.text "k1") ∷ [];
    trust_ttl = pos 0;
    scopes_by_logical_id = ("orders", "read" ∷ []) ∷ [];
    audiences_by_logical_id = ("orders", "api" ∷ []) ∷ [];
  };
  wall_clock = λ m. 5;
  check_clock = λ m. 6;
}

abbrev make_trust : FederatedWorkloadTrustSpec → Action Error Memory (Option FederatedWorkloadTrust)
make_trust spec m = (
  ok (
      some (record {
        provider = "ory";
        logical_client_id = "orders";
        provider_client_id = "c-1";
        issuer = "https://new";
      })),
  m,
)

-- The same, but for requests with a private exponent.
abbrev wary_trust : FederatedWorkloadTrustSpec → Action Error Memory (Option FederatedWorkloadTrust)
wary_trust spec m =
    if has_key "d" spec.assertion_jwk then (err (external "private key"), m) else make_trust spec m

only_public_trusts_example :
    provision_federated_workload bridge make_trust person "orders" ledger
    ≡ provision_federated_workload bridge wary_trust person "orders" ledger
only_public_trusts_example =
    only_public_trusts bridge make_trust wary_trust person "orders" ledger
      λ spec good. rw good.no_private_key.0

abbrev make_identity : IdentityProvisioningSpec → Action Error Memory (Option ProviderIdentity)
make_identity spec m = (
  ok (
      some (record {
        provider = "ory";
        issuer = "https://new";
        subject = "new-1";
        status = ProviderIdentityStatus.active;
      })),
  m,
)

-- The same, but for requests that name a tenant.
abbrev wary_identity : IdentityProvisioningSpec → Action Error Memory (Option ProviderIdentity)
wary_identity spec m =
    if has_key "tenant" spec.traits then (err (external "tenant"), m) else make_identity spec m

abbrev parse : String → Option String
parse s = some s

only_clean_identities_example :
    provision_human (record bridge { human_provisioner = some make_identity }) parse person ledger
    ≡ provision_human (record bridge { human_provisioner = some wary_identity }) parse person ledger
only_clean_identities_example =
    only_clean_identities bridge make_identity wary_identity parse person ledger
      λ spec t filled clean. rw clean.0

-- A provider of clients with a secret that always fails.
abbrev failing_clients : WorkloadProvisioningSpec → Action Error Memory (Option ProviderWorkload)
failing_clients spec m = (err (external "no client"), m)

-- A service that is not on the allow-list.
abbrev orders : Row
orders = record person {
  identity_class = service_integration;
  source = record { provider = "keycloak"; issuer = "https://old"; subject = "orders" };
}

secret_only_if_allowed_example :
    provision_workload (record bridge { workload_provisioner = none }) orders ledger
    ≡ provision_workload
        (record bridge { workload_provisioner = some failing_clients })
        orders
        ledger
unfolding is_listed
secret_only_if_allowed_example =
    secret_only_if_allowed bridge none (some failing_clients) orders ledger refl
