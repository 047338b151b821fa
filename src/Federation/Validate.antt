-- ===== src/Federation/Validate.antt =====
-- internal/federation/validate.go: `ValidateTrust` and `ValidateBundle`. What `url.Parse` returns is a
-- parameter.
use Prim.Native.String.{len}
use baobab_iam.Base.{
  ℕ, String, Bool, true, false, not, ◌&&◌, ◌||◌, List, [], ◌∷◌, Option, none, some, ltb, ◌==◌,
  str_eq, is_empty, contains, contains_any, length, if◌then◌else◌,
}
use baobab_iam.Result.{Result, ◌>>◌, refuse_if}
use baobab_iam.Provider.Validate.{is_nil}
use baobab_iam.Resource.Types.{Url}
use baobab_iam.Federation.Types.{
  FederationError, invalid, Trust, Resolution, ExternalPrincipal, OidcAssurance, SamlAssurance,
  Assurance, Bundle,
}
use baobab_iam.Federation.Ports.{Scope}
use baobab_iam.Federation.Grammar.{is_uuid, valid_ref, exact, valid_binding, valid_scope}

abbrev pub Check : Type 0
Check = Result FederationError (Unit {0})

-- The loop of `uniqueScope`, with the ids that it has passed.
unfoldable pub each_scope : (String → Scope) → List String → List String → Bool
each_scope as_scope seen [] = true
each_scope as_scope seen (id ∷ rest) =
    let go_on = each_scope as_scope (id ∷ seen) rest in
    if contains seen id || not (valid_scope (as_scope id)) then false else go_on

abbrev as_estate : String → Scope
as_estate id = record { organisation_id = "org"; estate_id = id }

abbrev as_organisation : String → Scope
as_organisation id = record { organisation_id = id; estate_id = "estate" }

-- `uniqueScope`
unfoldable pub unique_scope : List String → Bool → Bool
unfolding each_scope
unique_scope ids estate =
    if is_nil ids || ltb 64 (length ids)
    then false
    else each_scope (if estate then as_estate else as_organisation) [] ids

abbrev pub protocols : List String
protocols = "OIDC" ∷ "SAML2" ∷ []

abbrev pub statuses : List String
statuses =
    "REQUESTED" ∷ "CONFIGURING" ∷ "VERIFYING" ∷ "ACTIVE" ∷ "SUSPENDED" ∷ "ROTATING" ∷ "REVOKED" ∷ []

-- The conditions on the issuer: those on every one, and those of OIDC.
abbrev issuer_refused : String → String → Option Url → Bool
issuer_refused protocol issuer none = true
issuer_refused protocol issuer (some u) =
    is_empty u.scheme
    || ltb 2048 (len issuer)
    || contains_any issuer " \t\r\n"
    || (str_eq protocol "OIDC"
        && (not (str_eq u.scheme "https")
            || is_empty u.hostname
            || u.has_user
            || not (is_empty u.raw_query)
            || u.force_query
            || not (is_empty u.fragment)))

-- A time outside `from` and `to`, if it is there.
abbrev pub outside : ℕ → ℕ → Option ℕ → Bool
outside from to none = false
outside from to (some t) = ltb t from || ltb to t

abbrev pub is_there : {A : Type 0} → Option A → Bool
is_there none = false
is_there (some a) = true

-- `t.RevokedAt.Before(*t.ActivatedAt)`, where both are there.
abbrev pub before_activation : Option ℕ → Option ℕ → Bool
before_activation (some revoked) (some activated) = ltb revoked activated
before_activation _ _ = false

unfoldable pub identity_refused : Trust → Bool
unfolding unique_scope
identity_refused t =
    not (is_uuid t.id)
    || not (valid_binding t.provider_binding)
    || t.revision == 0
    || not (unique_scope t.organisation_ids false)
    || not (unique_scope t.estate_ids true)
    || not (valid_ref t.assurance_policy_reference)
    || not (valid_ref t.attribute_mapping_reference)
    || not (valid_ref t.provisioning_policy_reference)

-- The conditions on the times and on what a status needs.
unfoldable pub lifecycle_refused : Trust → Bool
lifecycle_refused t =
    t.created_at == 0
    || ltb t.updated_at t.created_at
    || outside t.created_at t.updated_at t.activated_at
    || (str_eq t.status "ACTIVE"
        && (not (is_there t.activated_at) || not (valid_ref t.activation_evidence_reference)))
    || (not (is_empty t.activation_evidence_reference)
        && not (valid_ref t.activation_evidence_reference))
    || (if str_eq t.status "REVOKED"
        then not (is_there t.revoked_at)
          || outside t.created_at t.updated_at t.revoked_at
          || before_activation t.revoked_at t.activated_at
        else is_there t.revoked_at)

module _ (parse : String → Option Url) where
  -- `ValidateTrust`
  unfoldable pub validate_trust : Trust → Check
  unfolding identity_refused lifecycle_refused
  validate_trust t = do
    refuse_if (identity_refused t) invalid
    refuse_if (issuer_refused t.protocol t.upstream_issuer (parse t.upstream_issuer)) invalid
    refuse_if (not (contains protocols t.protocol)) invalid
    refuse_if (not (contains statuses t.status)) invalid
    refuse_if (lifecycle_refused t) invalid

-- `fresh`
unfoldable pub fresh : ℕ → ℕ → ℕ → Bool
fresh from until now = not (from == 0) && not (until == 0) && not (ltb now from) && ltb now until

unfoldable pub principal_refused : Trust → ExternalPrincipal → Bool
principal_refused t p =
    not (is_uuid p.authentication_event_id)
    || not (str_eq p.trust_id t.id)
    || not (str_eq p.protocol t.protocol)
    || not (str_eq p.issuer t.upstream_issuer)
    || not (exact p.subject)
    || not (str_eq p.actor_type "human")
    || not (str_eq p.provider_id t.provider_binding.provider_id)
    || not (str_eq p.engine_instance_id t.provider_binding.engine_instance_id)
    || p.observed_at == 0
    || not (ltb p.observed_at p.expires_at)

unfoldable pub assurance_refused : Trust → ExternalPrincipal → Assurance → Bool
assurance_refused t p a =
    not (str_eq a.authentication_event_id p.authentication_event_id)
    || not (str_eq a.trust_id p.trust_id)
    || not (str_eq a.provider_id p.provider_id)
    || not (str_eq a.engine_instance_id p.engine_instance_id)
    || not (str_eq a.protocol p.protocol)
    || not (str_eq a.issuer p.issuer)
    || not (str_eq a.subject p.subject)
    || not (str_eq a.assurance_policy_reference t.assurance_policy_reference)
    || ltb a.evaluated_at p.observed_at
    || not (ltb a.evaluated_at a.expires_at)
    || ltb p.expires_at a.expires_at

-- `r.ResolvedAt == nil || r.ResolvedAt.Before(p.ObservedAt) || !r.ResolvedAt.Before(p.ExpiresAt)`
abbrev resolved_badly : ExternalPrincipal → Option ℕ → Bool
resolved_badly p none = true
resolved_badly p (some t) = ltb t p.observed_at || not (ltb t p.expires_at)

unfoldable pub resolution_refused : ExternalPrincipal → Resolution → Bool
resolution_refused p r =
    if str_eq r.status "UNRESOLVED"
    then not (is_empty r.principal_id)
      || not (is_empty r.external_identity_id)
      || not (is_empty r.mapping_reference)
      || not (is_empty r.mapping_basis)
      || is_there r.resolved_at
    else if str_eq r.status "RESOLVED"
    then not (is_uuid r.principal_id)
      || not (is_uuid r.external_identity_id)
      || not (valid_ref r.mapping_reference)
      || not (str_eq r.mapping_basis "ISSUER_SUBJECT")
      || resolved_badly p r.resolved_at
    else true

abbrev pub levels : List String
levels = "BAOBAB-A1" ∷ "BAOBAB-A2" ∷ "BAOBAB-A3" ∷ []

unfoldable pub mapping_refused : Assurance → Bool
mapping_refused a =
    if str_eq a.mapping_status "UNKNOWN"
    then not (is_empty a.level) || not (is_empty a.mapping_evidence_reference)
    else if str_eq a.mapping_status "MAPPED"
    then not (contains levels a.level) || not (valid_ref a.mapping_evidence_reference)
    else true

abbrev all_exact : List String → Bool
all_exact [] = true
all_exact (m ∷ rest) = exact m && all_exact rest

-- `e.AMR != nil && len(e.AMR) == 0`, and the loop over the methods.
abbrev amr_refused : Option (List String) → Bool
amr_refused none = false
amr_refused (some methods) = is_nil methods || not (all_exact methods)

abbrev oidc_refused : ExternalPrincipal → Assurance → OidcAssurance → Bool
oidc_refused p a e =
    not (str_eq e.actor_type "human")
    || not (str_eq e.issuer p.issuer)
    || not (exact e.acr)
    || not (exact e.client_id)
    || e.authenticated_at == 0
    || ltb p.observed_at e.authenticated_at
    || outside e.authenticated_at a.evaluated_at e.step_up_at
    || amr_refused e.amr

abbrev saml_refused : ExternalPrincipal → Assurance → SamlAssurance → Bool
saml_refused p a e =
    not (exact e.authn_context_class_ref)
    || e.authenticated_at == 0
    || ltb p.observed_at e.authenticated_at
    || ltb e.session_expires_at a.expires_at

-- The evidence is that of the protocol alone.
unfoldable pub evidence_refused :
    Bool → ExternalPrincipal → Assurance → Option OidcAssurance → Option SamlAssurance → Bool
evidence_refused true p a (some e) none = oidc_refused p a e
evidence_refused true p a (some e) (some s) = true
evidence_refused true p a none s = true
evidence_refused false p a none (some e) = saml_refused p a e
evidence_refused false p a none none = true
evidence_refused false p a (some o) s = true

module _ (parse : String → Option Url) where
  -- `ValidateBundle`
  unfoldable pub validate_bundle : Bundle → Check
  unfolding validate_trust principal_refused assurance_refused resolution_refused mapping_refused
      evidence_refused
  validate_bundle b =
      let t = b.trust in
      let p = b.external_principal in
      let a = b.assurance in
      do
        validate_trust parse t
        refuse_if (principal_refused t p) invalid
        refuse_if (assurance_refused t p a) invalid
        refuse_if (resolution_refused p p.resolution) invalid
        refuse_if (mapping_refused a) invalid
        refuse_if
            (evidence_refused (str_eq t.protocol "OIDC") p a a.upstream_evidence.oidc
              a.upstream_evidence.saml)
            invalid
