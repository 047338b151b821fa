-- ===== src/Federation/Conditions.antt =====
-- internal/federation/consume.go: the policy and the conditions of `Consume`, and what it expects of a
-- reference.
use baobab_iam.Base.{
  ℕ, ◌+◌, ◌-◌, ℤ, pos, negsuc, String, Bool, not, ◌&&◌, ◌||◌, Option, none, some, ltb, ◌==◌, str_eq,
  is_empty, contains, if◌then◌else◌,
}
use baobab_iam.Resource.Gate.{sub_time, longer}
use baobab_iam.Federation.Types.{
  Trust, Trust-discrete, ExternalPrincipal, UpstreamEvidence, Assurance,
}
use baobab_iam.Federation.Ports.{
  Scope, Scope-discrete, TrustSnapshot, ReferenceExpectation, PlatformSnapshot, CanonicalIdentity,
}
use baobab_iam.Federation.Grammar.{is_uuid, valid_ref, valid_binding, is_digest}
use baobab_iam.Federation.Validate.{fresh}
use baobab_iam.Federation.Ledger.Decide.{is_yes}

-- `Policy`; a duration is a 64-bit integer of nanoseconds.
pub record Policy : Type 0 where
  pub scope : Scope
  pub max_event_lifetime : ℤ
  pub max_authentication_age : ℤ
  pub max_decision_lifetime : ℤ

-- `t.Add(d)`
unfoldable pub add_time : ℕ → ℤ → ℕ
add_time t (pos n) = t + n
add_time t (negsuc n) = t - (n + 1)

-- `minimum` of two times.
unfoldable pub earlier : ℕ → ℕ → ℕ
earlier a b = if ltb b a then b else a

abbrev pub facet_of : String → String
facet_of protocol = if str_eq protocol "SAML2" then "SAML_FEDERATION" else "OIDC_FEDERATION"

-- The time of the authentication: that of a step-up, if there was one.
abbrev stepped_up : ℕ → Option ℕ → ℕ
stepped_up t none = t
stepped_up t (some u) = u

-- `assurance.UpstreamEvidence...AuthenticatedAt`; there is evidence, since the bundle is valid.
unfoldable pub authenticated_at : UpstreamEvidence → ℕ
authenticated_at e = elim e.oidc [
  | some o ↦ stepped_up o.authenticated_at o.step_up_at
  | none ↦ elim e.saml [ some s ↦ s.authenticated_at | none ↦ 0 ]
]

-- The conditions on the snapshot of the trust.
unfoldable pub snapshot_refused : String → ℕ → TrustSnapshot → Bool
snapshot_refused id now s =
    not (str_eq s.trust.id id)
    || is_empty s.snapshot_id
    || not (s.approved_revision == s.trust.revision)
    || s.trust.revision == 0
    || ltb now s.trust.updated_at
    || not (ltb now s.valid_until)

unfoldable pub out_of_scope : Scope → Trust → Bool
out_of_scope scope t =
    not (contains t.organisation_ids scope.organisation_id)
    || not (contains t.estate_ids scope.estate_id)
    || not (valid_binding t.provider_binding)

-- The two groups of conditions on the platform.
unfoldable pub platform_denied : Scope → Trust → PlatformSnapshot → Bool
platform_denied scope t p =
    not (str_eq p.provider_id t.provider_binding.provider_id)
    || not (str_eq p.engine_instance_id t.provider_binding.engine_instance_id)
    || not (is_yes (Scope-discrete p.scope scope))
    || not (str_eq p.provider_status "ACTIVE")
    || not (str_eq p.instance_status "ACTIVE")
    || not (str_eq p.binding_status "ACTIVE")

unfoldable pub platform_unverified : String → ℕ → PlatformSnapshot → Bool
platform_unverified facet now p =
    not (str_eq p.support_status "VERIFIED")
    || not (str_eq p.runtime_capability facet)
    || p.profile_revision == 0
    || not (is_digest p.artifact_digest)
    || not (str_eq p.artifact_digest p.deployed_artifact_digest)
    || not (ltb now p.evidence_expires_at)

unfoldable pub event_denied : Policy → ℕ → ExternalPrincipal → Assurance → Bool
event_denied policy now p a =
    not (fresh p.observed_at p.expires_at now)
    || not (fresh a.evaluated_at a.expires_at now)
    || longer (sub_time p.expires_at p.observed_at) policy.max_event_lifetime

unfoldable pub canonical_refused : ExternalPrincipal → ℕ → CanonicalIdentity → Bool
canonical_refused p now c =
    not (str_eq c.issuer p.issuer)
    || not (str_eq c.subject p.subject)
    || not (str_eq c.mapping_basis "ISSUER_SUBJECT")
    || not (str_eq c.principal_status "ACTIVE")
    || not (str_eq c.external_identity_status "ACTIVE")
    || not (str_eq c.actor_type "human")
    || not (is_uuid c.principal_id)
    || not (is_uuid c.external_identity_id)
    || not (valid_ref c.mapping_reference)
    || not (ltb now c.valid_until)

-- Evidence that claims to be resolved must agree with the canonical identity.
unfoldable pub resolved_otherwise : ExternalPrincipal → CanonicalIdentity → Bool
resolved_otherwise p c =
    str_eq p.resolution.status "RESOLVED"
    && (not (str_eq p.resolution.principal_id c.principal_id)
        || not (str_eq p.resolution.external_identity_id c.external_identity_id)
        || not (str_eq p.resolution.mapping_reference c.mapping_reference))

-- The trust, read again at the end, is not the one that was used. Go's `reflect.DeepEqual` tells more
-- trusts apart, as it looks at the time zones of the times as well.
unfoldable pub has_changed : TrustSnapshot → TrustSnapshot → Bool
has_changed s latest =
    not (str_eq latest.trust.id s.trust.id)
    || not (str_eq latest.trust.status "ACTIVE")
    || not (latest.trust.revision == s.trust.revision)
    || not (latest.approved_revision == s.approved_revision)
    || not (str_eq latest.snapshot_id s.snapshot_id)
    || not (is_yes (Trust-discrete latest.trust s.trust))

-- `base`
unfoldable pub base : TrustSnapshot → Scope → ReferenceExpectation
base s scope = record {
  id = "";
  kind = "";
  trust_id = s.trust.id;
  snapshot_id = s.snapshot_id;
  trust_revision = s.trust.revision;
  provider_id = s.trust.provider_binding.provider_id;
  engine_instance_id = s.trust.provider_binding.engine_instance_id;
  scope = scope;
  event_id = "";
  issuer = "";
  subject = "";
  level = "";
  evidence_digest = "";
  principal_id = "";
  external_identity_id = "";
}

-- The expectations of the approved mapping of the assurance, and of the canonical identity.
unfoldable pub mapping_decision :
    (UpstreamEvidence → String)
    → TrustSnapshot
    → Scope
    → String
    → ExternalPrincipal
    → Assurance
    → ReferenceExpectation
unfolding base
mapping_decision digest s scope event_id p a = record (base s scope) {
  id = a.mapping_evidence_reference;
  kind = "assurance_mapping_decision";
  event_id = event_id;
  issuer = p.issuer;
  subject = p.subject;
  level = a.level;
  evidence_digest = digest a.upstream_evidence;
}

unfoldable pub identity_mapping :
    TrustSnapshot → Scope → ExternalPrincipal → CanonicalIdentity → ReferenceExpectation
unfolding base
identity_mapping s scope p c = record (base s scope) {
  id = c.mapping_reference;
  kind = "canonical_identity_mapping";
  issuer = p.issuer;
  subject = p.subject;
  principal_id = c.principal_id;
  external_identity_id = c.external_identity_id;
}
