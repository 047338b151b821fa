-- ===== src/Provider/Validate.antt =====
-- internal/provider/validate.go and provider.go: the checks on requests to a provider.
pub mod Laws
use baobab_iam.Base.{
  ℕ, ℤ, pos, negsuc, String, Bool, true, false, not, ◌&&◌, ◌||◌, Option, none, some, List, [], ◌∷◌,
  ltb, ◌==◌, str_eq, is_blank, is_empty, trim_space, if◌then◌else◌,
}
use baobab_iam.Result.{Result, ok, err, ◌>>◌, refuse_if}
use baobab_iam.Provider.Errors.{
  ProviderError, required, not_canonical, ttl_out_of_range, use_federated_spec,
  auth_method_required, unknown_auth_method, require_new_needs_secret, unknown_lifecycle_status,
  lifecycle_not_for_provision, scopes_required, key_required, kid_required, audiences_required,
  private_key_material, trust_expired, traits_required, business_field,
}
use baobab_iam.Provider.Specs.{
  Value, text, Object, ExternalSubject, WorkloadAuthenticationMethod, client_secret,
  private_key_jwt, federated_jwt_bearer, WorkloadLifecycleStatus, provisioned, active, suspended,
  revoked, retired, WorkloadProvisioningSpec, FederatedWorkloadTrustSpec, IdentityProvisioningSpec,
}
use baobab_iam.Provider.Scopes.{normalize_allowed_scopes}

abbrev pub Check : Type 0
Check = Result ProviderError (Unit {0})

-- `requireNonEmptyTrimmed`
unfoldable pub require_non_empty_trimmed : String → String → Check
require_non_empty_trimmed label value = refuse_if (is_blank value) (required label)

-- `requireCanonicalEnum`
unfoldable pub require_canonical_enum : String → String → Check
require_canonical_enum label value =
    refuse_if (not (str_eq value (trim_space value))) (not_canonical label)

-- `ExternalSubject.Validate`
unfoldable pub validate_external_subject : ExternalSubject → Check
validate_external_subject s = do
  require_non_empty_trimmed "issuer" s.issuer
  require_non_empty_trimmed "subject" s.subject

unfoldable pub status_text : WorkloadLifecycleStatus → String
status_text provisioned = "PROVISIONED"
status_text active = "ACTIVE"
status_text suspended = "SUSPENDED"
status_text revoked = "REVOKED"
status_text retired = "RETIRED"
status_text (WorkloadLifecycleStatus.unlisted s) = s

abbrev known_status : WorkloadLifecycleStatus → Check
known_status (WorkloadLifecycleStatus.unlisted _) = err unknown_lifecycle_status
known_status _ = ok tt

-- `WorkloadLifecycleStatus.Validate`
unfoldable pub validate_status : WorkloadLifecycleStatus → Check
validate_status s =
    if is_empty (status_text s)
    then ok tt
    else do require_canonical_enum "WorkloadLifecycleStatus" (status_text s); known_status s

abbrev provisionable_status : WorkloadLifecycleStatus → Check
provisionable_status provisioned = ok tt
provisionable_status (WorkloadLifecycleStatus.unlisted s) =
    if is_empty s then ok tt else err lifecycle_not_for_provision
provisionable_status _ = err lifecycle_not_for_provision

-- `WorkloadLifecycleStatus.ValidateForProvision`
unfoldable pub validate_for_provision : WorkloadLifecycleStatus → Check
validate_for_provision s = do validate_status s; provisionable_status s

unfoldable pub auth_method_text : WorkloadAuthenticationMethod → String
auth_method_text client_secret = "client_secret"
auth_method_text private_key_jwt = "private_key_jwt"
auth_method_text federated_jwt_bearer = "federated_jwt_bearer"
auth_method_text (WorkloadAuthenticationMethod.unlisted s) = s

abbrev admitted_method : WorkloadAuthenticationMethod → Check
admitted_method client_secret = ok tt
admitted_method private_key_jwt = ok tt
admitted_method federated_jwt_bearer = err use_federated_spec
admitted_method (WorkloadAuthenticationMethod.unlisted s) =
    if is_empty s then err auth_method_required else err unknown_auth_method

abbrev is_client_secret : WorkloadAuthenticationMethod → Bool
is_client_secret client_secret = true
is_client_secret _ = false

abbrev pub is_nil : {A : Type 0} → List A → Bool
is_nil [] = true
is_nil (x ∷ xs) = false

-- `n < 0 || n > 300`
abbrev ttl_refused : ℤ → Bool
ttl_refused (pos n) = ltb 300 n
ttl_refused (negsuc n) = true

-- `WorkloadProvisioningSpec.Validate`
unfoldable pub validate_workload_spec : WorkloadProvisioningSpec → Check
validate_workload_spec s = do
  require_non_empty_trimmed "LogicalClientID" s.logical_client_id
  refuse_if (ttl_refused s.access_token_ttl_seconds) ttl_out_of_range
  require_canonical_enum "AuthMethod" (auth_method_text s.auth_method)
  admitted_method s.auth_method
  refuse_if (s.require_new && not (is_client_secret s.auth_method)) require_new_needs_secret
  validate_for_provision s.lifecycle_status
  refuse_if (is_nil (normalize_allowed_scopes s.allowed_scopes)) scopes_required

-- A lookup in a `map[string]any`.
unfoldable pub value_at : String → Object → Option Value
value_at k [] = none
value_at k ((j, v) ∷ o) = if str_eq k j then some v else value_at k o

unfoldable pub has_key : String → Object → Bool
has_key k [] = false
has_key k ((j, v) ∷ o) = str_eq k j || has_key k o

-- The loop over a list of forbidden keys.
unfoldable pub forbid_keys : (String → ProviderError) → List String → Object → Check
forbid_keys message [] o = ok tt
forbid_keys message (k ∷ rest) o = do
  refuse_if (has_key k o) (message k)
  forbid_keys message rest o

abbrev pub private_key_fields : List String
private_key_fields = "d" ∷ "p" ∷ "q" ∷ "dp" ∷ "dq" ∷ "qi" ∷ "oth" ∷ "k" ∷ []

-- `kid, _ := jwk["kid"].(string)`: empty if there is none, or it is no text.
abbrev pub text_or_empty : Option Value → String
text_or_empty (some (text s)) = s
text_or_empty _ = ""

-- `FederatedWorkloadTrustSpec.Validate`; `now` is the reading of the clock.
unfoldable pub validate_federated_spec : ℕ → FederatedWorkloadTrustSpec → Check
validate_federated_spec now s = do
  require_non_empty_trimmed "LogicalClientID" s.logical_client_id
  require_non_empty_trimmed "AssertionIssuer" s.assertion_issuer
  require_non_empty_trimmed "AssertionSubject" s.assertion_subject
  refuse_if (is_nil s.assertion_jwk) key_required
  refuse_if (is_blank (text_or_empty (value_at "kid" s.assertion_jwk))) kid_required
  forbid_keys private_key_material private_key_fields s.assertion_jwk
  refuse_if (s.trust_expires_at == 0 || not (ltb now s.trust_expires_at)) trust_expired
  validate_for_provision s.lifecycle_status
  refuse_if (is_nil (normalize_allowed_scopes s.allowed_scopes)) scopes_required
  refuse_if (is_nil s.intended_audiences) audiences_required

abbrev pub business_fields : List String
business_fields =
    "tenant" ∷ "legal_entity" ∷ "legalEntity" ∷ "capability" ∷ "market" ∷ "buyer_purchase_limit"
    ∷ "erp_role" ∷ "supplier_approval" ∷ []

-- `IdentityProvisioningSpec.Validate`
unfoldable pub validate_identity_spec : IdentityProvisioningSpec → Check
validate_identity_spec s = do
  refuse_if (is_nil s.traits) traits_required
  forbid_keys business_field business_fields s.traits
