-- ===== src/Migration/Bridge/Targets.antt =====
-- internal/migration/bridge.go: the bridge, and the calls of the provider that make the target of a
-- row: a human identity, a client with a secret, or a federated trust.
pub mod Laws
use Prim.Native.String.{◌++◌ as concat}
use baobab_iam.Base.{
  ℕ, zero, suc, not, ◌+◌, ℤ, pos, negsuc, String, Bool, true, false, ◌||◌, Option, none, some, List,
  [], ◌∷◌, str_eq, is_empty, is_blank, if◌then◌else◌,
}
use baobab_iam.Result.{Result, ok, err, refuse_if}
use baobab_iam.Action.{Action, pure, raise, lift, gets, ◌>>=◌, ◌>>◌}
use baobab_iam.Migration.Errors.{
  Error, provisioner_missing, traits_source_missing, empty_subject, profile_not_allowed,
  scopes_missing, audiences_missing, issuer_missing, key_missing, unsupported_class, from_provider,
  source_required,
}
use baobab_iam.Migration.Types.{
  Row, ProviderBinding, human, privileged_human, federated_human, test_or_nonproduction, workload,
  service_integration, IdentityClass,
}
use baobab_iam.Migration.Service.{Service}
use baobab_iam.Migration.Bridge.Traits.{validate_human_traits}
use baobab_iam.Provider.Errors.{ProviderError}
use baobab_iam.Provider.Specs.{
  Object, ProviderIdentity, ProviderWorkload, FederatedWorkloadTrust, IdentityProvisioningSpec,
  WorkloadProvisioningSpec, FederatedWorkloadTrustSpec, provisioned, WorkloadAuthenticationMethod,
}
use baobab_iam.Provider.Validate.{
  is_nil, validate_identity_spec, validate_workload_spec, validate_federated_spec,
}

-- `WorkloadCredentialProfile`; `unlisted ""` is the empty profile.
pub data WorkloadCredentialProfile : Type 0 where
  federated_workload_token client_secret : WorkloadCredentialProfile
  unlisted : String → WorkloadCredentialProfile

-- `FederatedTrustTemplate`; times are in nanoseconds.
pub record FederatedTrustTemplate : Type 0 where
  pub assertion_issuer : String
  pub assertion_subject_for : Option (String → String)
  pub assertion_jwk : Object
  pub trust_ttl : ℤ
  pub scopes_by_logical_id : List (String × List String)
  pub audiences_by_logical_id : List (String × List String)

-- `ProvisionBridge`
pub record ProvisionBridge (S : Type 0) : Type 0 where
  pub service : Service S
  pub human_provisioner :
      Option (IdentityProvisioningSpec → Action Error S (Option ProviderIdentity))
  pub human_traits : Option (ProviderBinding → String → Action Error S Object)
  pub workload_provisioner :
      Option (WorkloadProvisioningSpec → Action Error S (Option ProviderWorkload))
  pub federated_provisioner :
      Option (FederatedWorkloadTrustSpec → Action Error S (Option FederatedWorkloadTrust))
  pub target_issuer : String
  pub target_provider : String
  pub default_workload_profile : WorkloadCredentialProfile
  pub client_secret_allow_list : List String
  pub client_secret_scopes_by_logical_id : List (String × List String)
  pub federated_trust : FederatedTrustTemplate
  pub wall_clock : S → ℕ
  -- `time.Now` as the check on a federated request reads it, after the bridge has.
  pub check_clock : S → ℕ

-- A Go value, error pair with a nil pointer.
abbrev pub must_have : {A : Type 0} → Option A → Error → Result Error A
must_have none e = err e
must_have (some a) e = ok a

abbrev pub checked : Result ProviderError (Unit {0}) → Result Error (Unit {0})
checked (ok u) = ok u
checked (err e) = err (from_provider e)

abbrev pub or_else : String → String → String
or_else a b = if is_empty a then b else a

-- A lookup in a `map[string][]string`; a missing key gives the nil slice.
unfoldable pub listed_for : String → List (String × List String) → List String
listed_for k [] = []
listed_for k ((j, v) ∷ m) = if str_eq k j then v else listed_for k m

unfoldable pub is_listed : String → List String → Bool
is_listed k [] = false
is_listed k (j ∷ m) = str_eq k j || is_listed k m

abbrev pub subject_for : Option (String → String) → String → String
subject_for none id = concat "system:serviceaccount:baobab:" id
subject_for (some f) id = f id

-- The default trust lifetime is 24 hours.
abbrev pub ttl_or_default : ℤ → ℕ
ttl_or_default (pos zero) = 86400000000000
ttl_or_default (pos (suc n)) = suc n
ttl_or_default (negsuc n) = 86400000000000

module _ {S : Type 0} (b : ProvisionBridge S) where
  -- `targetProviderName`
  unfoldable pub target_provider_name : String → String
  target_provider_name from_provisioner = or_else from_provisioner (or_else b.target_provider "ory")

  -- The binding of a provider's answer.
  unfoldable pub binding_of : String → String → String → ProviderBinding
  unfolding target_provider_name
  binding_of provider issuer subject = record {
    provider = target_provider_name provider;
    issuer = or_else issuer b.target_issuer;
    subject = subject;
  }

  abbrev pub human_spec : Row → Object → IdentityProvisioningSpec
  human_spec r traits = record {
    traits = traits;
    migration_id = r.migration_id;
    metadata =
        ("gate", "IAM-M5")
        ∷ ("migration_id", r.migration_id)
        ∷ ("source_issuer", r.source.issuer)
        ∷ ("source_subject", r.source.subject)
        ∷ ("canonical_identity_id", r.canonical_identity_id)
        ∷ ("email_role", "kratos_schema_identifier_only")
        ∷ [];
  }

  -- `provisionHuman`
  unfoldable pub provision_human : (String → Option String) → Row → Action Error S ProviderBinding
  provision_human parse_address r = do
    provision_identity ← lift (must_have b.human_provisioner provisioner_missing)
    load_human_traits ← lift (must_have b.human_traits traits_source_missing)
    traits ← load_human_traits r.source r.source_snapshot_reference
    lift (validate_human_traits parse_address traits)
    let spec = human_spec r traits
    lift (checked (validate_identity_spec spec))
    answer ← provision_identity spec
    ident ← lift (must_have answer empty_subject)
    lift (refuse_if (is_empty ident.subject) empty_subject)
    pure (binding_of ident.provider ident.issuer ident.subject)

  abbrev pub secret_spec : Row → String → List String → WorkloadProvisioningSpec
  secret_spec r logical_id scopes = record {
    logical_client_id = logical_id;
    display_name = logical_id;
    allowed_scopes = scopes;
    audiences = [];
    access_token_ttl_seconds = pos 0;
    require_new = false;
    auth_method = WorkloadAuthenticationMethod.client_secret;
    lifecycle_status = provisioned;
    metadata =
        ("gate", "IAM-M5")
        ∷ ("migration_id", r.migration_id)
        ∷ ("source_issuer", r.source.issuer)
        ∷ ("baobab_credential_type", "client_secret")
        ∷ ("m4_path", "M4-C")
        ∷ [];
  }

  -- `provisionWorkloadClientSecret`
  unfoldable pub provision_workload_client_secret : Row → String → Action Error S ProviderBinding
  provision_workload_client_secret r logical_id = do
    provision_workload ← lift (must_have b.workload_provisioner provisioner_missing)
    let scopes = listed_for logical_id b.client_secret_scopes_by_logical_id
    lift (refuse_if (is_nil scopes) scopes_missing)
    let spec = secret_spec r logical_id scopes
    lift (checked (validate_workload_spec spec))
    answer ← provision_workload spec
    w ← lift (must_have answer empty_subject)
    lift (refuse_if (is_empty w.provider_client_id) empty_subject)
    pure (binding_of w.provider w.issuer w.provider_client_id)

  abbrev pub federated_spec :
      Row → String → List String → List String → ℕ → FederatedWorkloadTrustSpec
  federated_spec r logical_id scopes audiences now = record {
    logical_client_id = logical_id;
    display_name = logical_id;
    allowed_scopes = scopes;
    intended_audiences = audiences;
    lifecycle_status = provisioned;
    assertion_issuer = b.federated_trust.assertion_issuer;
    assertion_subject = subject_for b.federated_trust.assertion_subject_for logical_id;
    assertion_jwk = b.federated_trust.assertion_jwk;
    trust_expires_at = now + ttl_or_default b.federated_trust.trust_ttl;
    metadata =
        ("gate", "IAM-M5")
        ∷ ("migration_id", r.migration_id)
        ∷ ("source_issuer", r.source.issuer)
        ∷ ("baobab_credential_type", "federated_workload_token")
        ∷ ("m4_path", "M4-F")
        ∷ [];
  }

  -- `provisionFederatedWorkload`, given the provisioner that the caller has found to be there.
  unfoldable pub provision_federated_workload :
      (FederatedWorkloadTrustSpec → Action Error S (Option FederatedWorkloadTrust))
      → Row
      → String
      → Action Error S ProviderBinding
  provision_federated_workload provision_federated r logical_id = do
    lift (refuse_if (is_blank b.federated_trust.assertion_issuer) issuer_missing)
    lift (refuse_if (is_nil b.federated_trust.assertion_jwk) key_missing)
    let scopes = listed_for logical_id b.federated_trust.scopes_by_logical_id
    lift (refuse_if (is_nil scopes) scopes_missing)
    let audiences = listed_for logical_id b.federated_trust.audiences_by_logical_id
    lift (refuse_if (is_nil audiences) audiences_missing)
    now ← gets b.wall_clock
    let spec = federated_spec r logical_id scopes audiences now
    later ← gets b.check_clock
    lift (checked (validate_federated_spec later spec))
    answer ← provision_federated spec
    trust ← lift (must_have answer empty_subject)
    let client_id = or_else trust.provider_client_id trust.logical_client_id
    lift (refuse_if (is_empty client_id) empty_subject)
    pure (binding_of trust.provider trust.issuer client_id)

  abbrev pub is_federated : WorkloadCredentialProfile → Bool
  is_federated federated_workload_token = true
  is_federated client_secret = false
  is_federated (WorkloadCredentialProfile.unlisted s) = is_empty s

  -- The path of a workload that is not on the allow-list.
  abbrev pub provision_by_default :
      Row → String → Action Error S (ProviderBinding × WorkloadCredentialProfile)
  provision_by_default r logical_id = do
    lift (refuse_if (not (is_federated b.default_workload_profile)) profile_not_allowed)
    provision_federated ← lift (must_have b.federated_provisioner provisioner_missing)
    binding ← provision_federated_workload provision_federated r logical_id
    pure (binding, federated_workload_token)

  abbrev pub provision_allowed :
      Row → String → Action Error S (ProviderBinding × WorkloadCredentialProfile)
  provision_allowed r logical_id = do
    binding ← provision_workload_client_secret r logical_id
    pure (binding, client_secret)

  -- `provisionWorkload`
  unfoldable pub provision_workload :
      Row → Action Error S (ProviderBinding × WorkloadCredentialProfile)
  provision_workload r = do
    lift (refuse_if (is_empty r.source.subject) source_required)
    if is_listed r.source.subject b.client_secret_allow_list
        then provision_allowed r r.source.subject
        else provision_by_default r r.source.subject

  abbrev pub provision_person :
      (String → Option String) → Row → Action Error S (ProviderBinding × WorkloadCredentialProfile)
  provision_person parse_address r = do
    binding ← provision_human parse_address r
    pure (binding, WorkloadCredentialProfile.unlisted "")

  abbrev pub by_class :
      (String → Option String)
      → IdentityClass
      → Row
      → Action Error S (ProviderBinding × WorkloadCredentialProfile)
  by_class parse_address human r = provision_person parse_address r
  by_class parse_address privileged_human r = provision_person parse_address r
  by_class parse_address federated_human r = provision_person parse_address r
  by_class parse_address test_or_nonproduction r = provision_person parse_address r
  by_class parse_address workload r = provision_workload r
  by_class parse_address service_integration r = provision_workload r
  by_class parse_address _ r = raise unsupported_class

  -- `provisionTarget`
  unfoldable pub provision_target :
      (String → Option String) → Row → Action Error S (ProviderBinding × WorkloadCredentialProfile)
  provision_target parse_address r = by_class parse_address r.identity_class r
