-- ===== src/Provider/Specs.antt =====
-- internal/provider/provider.go: the provider-neutral requests and answers. A Go map is an association
-- list. A value of type `any` is told apart as far as the code looks into it.
use baobab_iam.Base.{ℕ, ℤ, String, Bool, List, Option}

-- `any`: a text, an object of which the fields are a text or something else, or another value.
pub data Value : Type 0 where
  text : String → Value
  object : List (String × Option String) → Value
  other : Value

-- `map[string]any`
abbrev pub Object : Type 0
Object = List (String × Value)

-- `map[string]string`
abbrev pub Metadata : Type 0
Metadata = List (String × String)

pub record ExternalSubject : Type 0 where
  pub issuer : String
  pub subject : String

pub data ProviderIdentityStatus : Type 0 where
  active disabled unknown : ProviderIdentityStatus
  unlisted : String → ProviderIdentityStatus

-- `ProviderIdentity`, but for its times and its attributes, which no caller here reads.
pub record ProviderIdentity : Type 0 where
  pub provider : String
  pub issuer : String
  pub subject : String
  pub status : ProviderIdentityStatus

pub data WorkloadAuthenticationMethod : Type 0 where
  client_secret private_key_jwt federated_jwt_bearer : WorkloadAuthenticationMethod
  unlisted : String → WorkloadAuthenticationMethod

pub data WorkloadLifecycleStatus : Type 0 where
  provisioned active suspended revoked retired : WorkloadLifecycleStatus
  unlisted : String → WorkloadLifecycleStatus

pub record WorkloadProvisioningSpec : Type 0 where
  pub logical_client_id : String
  pub display_name : String
  pub allowed_scopes : List String
  pub audiences : List String
  pub access_token_ttl_seconds : ℤ
  pub require_new : Bool
  pub auth_method : WorkloadAuthenticationMethod
  pub lifecycle_status : WorkloadLifecycleStatus
  pub metadata : Metadata

pub record FederatedWorkloadTrustSpec : Type 0 where
  pub logical_client_id : String
  pub display_name : String
  pub allowed_scopes : List String
  pub intended_audiences : List String
  pub lifecycle_status : WorkloadLifecycleStatus
  pub assertion_issuer : String
  pub assertion_subject : String
  pub assertion_jwk : Object
  pub trust_expires_at : ℕ
  pub metadata : Metadata

-- `IdentityProvisioningSpec`; the bridge never sets its imported credentials.
pub record IdentityProvisioningSpec : Type 0 where
  pub traits : Object
  pub migration_id : String
  pub metadata : Metadata

-- `FederatedWorkloadTrust`, the fields that the bridge reads.
pub record FederatedWorkloadTrust : Type 0 where
  pub provider : String
  pub logical_client_id : String
  pub provider_client_id : String
  pub issuer : String

-- `ProviderWorkload`, the fields that the bridge reads, and the secret that it must not store.
pub record ProviderWorkload : Type 0 where
  pub provider : String
  pub provider_client_id : String
  pub issuer : String
  pub client_secret : String
