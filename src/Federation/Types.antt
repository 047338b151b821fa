-- ===== src/Federation/Types.antt =====
-- internal/federation/models.go and the errors of ports.go. A time is the nanoseconds since Go's zero
-- time, and a pointer that may be nil is an `Option`.
use native.Mathlib.Decide.{ℕ_discrete}
use baobab_iam.Base.{ℕ, String, List, Option, String-discrete}

-- The package's errors, and those of what lies behind its ports.
pub data FederationError : Type 0 where
  unsupported unverified denied unavailable invalid : FederationError
  adapter : String → FederationError

-- `Binding`
pub record ProviderTrustBinding : Type 0 where
  pub provider_id : String
  pub engine_instance_id : String
  pub configuration_reference : String
  pub trust_material_reference : String

-- `Trust`
pub record Trust : Type 0 where
  pub id : String
  pub protocol : String
  pub upstream_issuer : String
  pub organisation_ids : List String
  pub estate_ids : List String
  pub provider_binding : ProviderTrustBinding
  pub status : String
  pub assurance_policy_reference : String
  pub attribute_mapping_reference : String
  pub provisioning_policy_reference : String
  pub revision : ℕ
  pub created_at : ℕ
  pub updated_at : ℕ
  pub activation_evidence_reference : String
  pub activated_at : Option ℕ
  pub revoked_at : Option ℕ

-- `Resolution`
pub record Resolution : Type 0 where
  pub status : String
  pub principal_id : String
  pub external_identity_id : String
  pub mapping_reference : String
  pub mapping_basis : String
  pub resolved_at : Option ℕ

-- `ExternalPrincipal`
pub record ExternalPrincipal : Type 0 where
  pub authentication_event_id : String
  pub trust_id : String
  pub provider_id : String
  pub engine_instance_id : String
  pub protocol : String
  pub issuer : String
  pub subject : String
  pub actor_type : String
  pub observed_at : ℕ
  pub expires_at : ℕ
  pub resolution : Resolution

-- `OIDCAssurance`; `amr` is nil where the evidence has none.
pub record OidcAssurance : Type 0 where
  pub actor_type : String
  pub acr : String
  pub amr : Option (List String)
  pub authenticated_at : ℕ
  pub step_up_at : Option ℕ
  pub issuer : String
  pub client_id : String

-- `SAMLAssurance`
pub record SamlAssurance : Type 0 where
  pub authn_context_class_ref : String
  pub authenticated_at : ℕ
  pub session_expires_at : ℕ

-- `UpstreamEvidence`
pub record UpstreamEvidence : Type 0 where
  pub oidc : Option OidcAssurance
  pub saml : Option SamlAssurance

-- `Assurance`
pub record Assurance : Type 0 where
  pub authentication_event_id : String
  pub trust_id : String
  pub provider_id : String
  pub engine_instance_id : String
  pub protocol : String
  pub issuer : String
  pub subject : String
  pub upstream_evidence : UpstreamEvidence
  pub mapping_status : String
  pub level : String
  pub assurance_policy_reference : String
  pub mapping_evidence_reference : String
  pub evaluated_at : ℕ
  pub expires_at : ℕ

-- `Bundle`
pub record Bundle : Type 0 where
  pub trust : Trust
  pub external_principal : ExternalPrincipal
  pub assurance : Assurance

unfoldable pub Trust-discrete : Discrete Trust
unfolding String-discrete ℕ_discrete
Trust-discrete = hlevel (String-discrete, ℕ_discrete)
