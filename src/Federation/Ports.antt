-- ===== src/Federation/Ports.antt =====
-- internal/federation/ports.go: the records that the authorities exchange, and the authorities, over
-- the state of what is outside.
use native.Mathlib.Decide.{ℕ_discrete}
use baobab_iam.Base.{ℕ, String, Bool, String-discrete}
use baobab_iam.Action.{Action}
use baobab_iam.Federation.Types.{
  FederationError, ProviderTrustBinding, Trust, ExternalPrincipal, Assurance,
}

-- `Scope`
pub record Scope : Type 0 where
  pub organisation_id : String
  pub estate_id : String

-- `TrustSnapshot`
pub record TrustSnapshot : Type 0 where
  pub trust : Trust
  pub approved_revision : ℕ
  pub snapshot_id : String
  pub valid_until : ℕ

-- `ReferenceExpectation`
pub record ReferenceExpectation : Type 0 where
  pub id : String
  pub kind : String
  pub trust_id : String
  pub snapshot_id : String
  pub trust_revision : ℕ
  pub provider_id : String
  pub engine_instance_id : String
  pub scope : Scope
  pub event_id : String
  pub issuer : String
  pub subject : String
  pub level : String
  pub evidence_digest : String
  pub principal_id : String
  pub external_identity_id : String

-- `ApprovedReference`
pub record ApprovedReference : Type 0 where
  pub expectation : ReferenceExpectation
  pub status : String
  pub non_secret : Bool
  pub valid_from : ℕ
  pub expires_at : ℕ

-- `PlatformSnapshot`
pub record PlatformSnapshot : Type 0 where
  pub provider_id : String
  pub engine_instance_id : String
  pub scope : Scope
  pub provider_status : String
  pub instance_status : String
  pub binding_status : String
  pub runtime_capability : String
  pub support_status : String
  pub artifact_digest : String
  pub deployed_artifact_digest : String
  pub profile_revision : ℕ
  pub evidence_expires_at : ℕ

-- `CanonicalIdentity`
pub record CanonicalIdentity : Type 0 where
  pub issuer : String
  pub subject : String
  pub principal_id : String
  pub external_identity_id : String
  pub mapping_reference : String
  pub principal_status : String
  pub external_identity_status : String
  pub actor_type : String
  pub mapping_basis : String
  pub valid_until : ℕ

-- `Authorities`: `GovernanceAuthority` (its two methods), `PlatformAuthority`, `EventVerifier` and
-- `CanonicalAuthority`.
pub record Authorities (S : Type 0) : Type 0 where
  pub trust : String → Action FederationError S TrustSnapshot
  pub reference : ReferenceExpectation → Action FederationError S ApprovedReference
  pub federation_binding :
      ProviderTrustBinding → Scope → String → Action FederationError S PlatformSnapshot
  pub verify : String → TrustSnapshot → Action FederationError S (ExternalPrincipal × Assurance)
  pub resolve : String → String → Action FederationError S CanonicalIdentity

-- Go's `==` on the two.
unfoldable pub Scope-discrete : Discrete Scope
unfolding String-discrete
Scope-discrete = hlevel String-discrete

unfoldable pub ReferenceExpectation-discrete : Discrete ReferenceExpectation
unfolding String-discrete Scope-discrete ℕ_discrete
ReferenceExpectation-discrete = hlevel (String-discrete, Scope-discrete, ℕ_discrete)
