-- ===== src/Provider/Tests.antt =====
-- internal/provider on concrete requests.
use baobab_iam.Base.{String, List, [], ◌∷◌, ◌≡◌, refl, trim_space, trim_left, trim_right, is_space}
use baobab_iam.Result.{ok}
use baobab_iam.Provider.Specs.{
  Value, FederatedWorkloadTrustSpec, IdentityProvisioningSpec, WorkloadLifecycleStatus,
}
use baobab_iam.Provider.Scopes.{
  seen_before, canonical_scope, normalize_from, normalize_allowed_scopes,
}
use baobab_iam.Provider.Scopes.Laws.{IsNormal, is_asked, normalize_allowed_scopes_lem}
use baobab_iam.Provider.Validate.{
  validate_federated_spec, validate_identity_spec, require_non_empty_trimmed,
  require_canonical_enum, validate_for_provision, validate_status, status_text, value_at, has_key,
  forbid_keys,
}

abbrev requested : List String
requested = " context-resolve" ∷ "read" ∷ "" ∷ "context:resolve" ∷ []

normalized_run : normalize_allowed_scopes requested ≡ ("context:resolve" ∷ "read" ∷ [])
unfolding normalize_allowed_scopes normalize_from seen_before canonical_scope trim_space trim_left
    trim_right is_space
normalized_run = refl

normalize_allowed_scopes_lem_example :
    IsNormal [] (normalize_allowed_scopes requested)
    × ((c : String) → seen_before c (normalize_allowed_scopes requested) ≡ is_asked c requested)
normalize_allowed_scopes_lem_example = normalize_allowed_scopes_lem requested

abbrev trust : FederatedWorkloadTrustSpec
trust = record {
  logical_client_id = "orders";
  display_name = "orders";
  allowed_scopes = "read" ∷ [];
  intended_audiences = "api" ∷ [];
  lifecycle_status = WorkloadLifecycleStatus.provisioned;
  assertion_issuer = "https://cluster";
  assertion_subject = "orders";
  assertion_jwk = ("kid", Value.text "k1") ∷ ("n", Value.text "x") ∷ [];
  trust_expires_at = 10;
  metadata = [];
}

trust_accepted : validate_federated_spec 5 trust ≡ ok tt
unfolding validate_federated_spec normalize_allowed_scopes normalize_from seen_before
    canonical_scope trim_space trim_left trim_right is_space require_non_empty_trimmed
    require_canonical_enum validate_for_provision validate_status status_text value_at has_key
    forbid_keys
trust_accepted = refl

abbrev identity : IdentityProvisioningSpec
identity = record {
  traits = ("email", Value.text "a@b") ∷ [];
  migration_id = "mig-1";
  metadata = [];
}

identity_accepted : validate_identity_spec identity ≡ ok tt
unfolding validate_identity_spec has_key forbid_keys
identity_accepted = refl
