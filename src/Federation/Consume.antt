-- ===== src/Federation/Consume.antt =====
-- internal/federation/consume.go: `Consume`, which lets a federated identity in. The hash of the
-- evidence and `url.Parse` are parameters.
pub mod Checks
pub mod Conclude
pub mod Identity
pub mod Laws
pub mod Whole
use baobab_iam.Base.{
  ℕ, ◌+◌, ◌-◌, ℤ, pos, negsuc, String, Bool, true, false, not, ◌&&◌, ◌||◌, List, [], ◌∷◌, Option,
  none, some, ltb, ◌==◌, str_eq, is_empty, contains, if◌then◌else◌,
}
use baobab_iam.Result.{Result, ok, err}
use baobab_iam.Action.{Action, pure, lift, gets, attempt, ◌>>=◌, ◌>>◌}
use baobab_iam.Resource.Types.{Url}
use baobab_iam.Resource.Gate.{sub_time, longer}
use baobab_iam.Federation.Types.{
  FederationError, unverified, denied, unavailable, invalid, Trust, Trust-discrete,
  ExternalPrincipal, OidcAssurance, SamlAssurance, UpstreamEvidence, Assurance, Bundle,
}
use baobab_iam.Federation.Ports.{
  Scope, Scope-discrete, TrustSnapshot, ReferenceExpectation, ApprovedReference, PlatformSnapshot,
  CanonicalIdentity, Authorities,
}
use baobab_iam.Federation.Conditions.{
  Policy, add_time, earlier, facet_of, authenticated_at, snapshot_refused, out_of_scope,
  platform_denied, platform_unverified, event_denied, canonical_refused, resolved_otherwise,
  has_changed, base, mapping_decision, identity_mapping,
}
use baobab_iam.Federation.Grammar.{is_uuid, valid_ref, valid_binding, is_digest}
use baobab_iam.Federation.Validate.{validate_bundle, fresh}
use baobab_iam.Federation.Ledger.Tx.{by_authority}
use baobab_iam.Federation.Ledger.Transition.{is_ok}
use baobab_iam.Federation.Ledger.Decide.{is_yes, trust_references, receipt_refused}

-- `Consumer`, with the clock, the context's error, the hash of the evidence and `url.Parse`.
pub record Consumer (S : Type 0) : Type 0 where
  pub authorities : Authorities S
  pub policy : Policy
  pub now : S → ℕ
  pub cancelled : S → Bool
  pub evidence_digest : UpstreamEvidence → String
  pub parse : String → Option Url

-- `Decision`
pub record Decision : Type 0 where
  pub principal_id : String
  pub external_identity_id : String
  pub authentication_event_id : String
  pub assurance_level : String
  pub expires_at : ℕ

-- `if bad { return deny(e) }`
abbrev pub deny_if : {S : Type 0} → Bool → FederationError → Action FederationError S (Unit {0})
deny_if bad e = lift (if bad then err e else ok tt)

-- `return deny(authorityError(e))` on an error of a port.
unfoldable pub asked : {S A : Type 0} → Action FederationError S A → Action FederationError S A
asked m s = (by_authority (m s).0, (m s).1)

module _ {S : Type 0} (c : Consumer S) where
  -- `check`: the bound on the decision after an approved reference.
  unfoldable pub check : ℕ → ReferenceExpectation → ℕ → Action FederationError S ℕ
  unfolding asked receipt_refused earlier
  check now want expires = do
    deny_if (not (valid_ref want.id)) invalid
    receipt ← asked (c.authorities.reference want)
    deny_if (receipt_refused want receipt now) unverified
    pure (earlier expires receipt.expires_at)

  -- The loop over the references of the trust.
  unfoldable pub check_all :
      ℕ → ReferenceExpectation → List (String × String) → ℕ → Action FederationError S ℕ
  unfolding check
  check_all now want [] expires = pure expires
  check_all now want ((id, kind) ∷ rest) expires = do
    sooner ← check now (record want { id = id; kind = kind }) expires
    check_all now want rest sooner

  -- The end of `Consume`: the trust is read again, and the clock.
  unfoldable pub conclude :
      String
      → String
      → ℕ
      → TrustSnapshot
      → CanonicalIdentity
      → Assurance
      → ℕ
      → Action FederationError S Decision
  unfolding asked has_changed earlier
  conclude trust_id event_id started s identity a expires = do
    latest ← asked (c.authorities.trust trust_id)
    deny_if (has_changed s latest) denied
    now ← gets c.now
    deny_if (ltb now started) denied
    over ← gets c.cancelled
    deny_if (over || now == 0 || not (ltb now expires) || not (ltb now latest.valid_until)) denied
    pure record {
      principal_id = identity.principal_id;
      external_identity_id = identity.external_identity_id;
      authentication_event_id = event_id;
      assurance_level = a.level;
      expires_at = earlier expires latest.valid_until;
    }

  -- The identity that an event is mapped to.
  unfoldable pub use_identity :
      String
      → String
      → ℕ
      → TrustSnapshot
      → ExternalPrincipal
      → Assurance
      → ℕ
      → CanonicalIdentity
      → Action FederationError S Decision
  unfolding check conclude canonical_refused identity_mapping resolved_otherwise earlier
  use_identity trust_id event_id now s p a mapped identity = do
    deny_if (canonical_refused p now identity) unverified
    known ← check now (identity_mapping s c.policy.scope p identity) mapped
    deny_if (resolved_otherwise p identity) denied
    conclude trust_id event_id now s identity a
        (earlier (earlier (earlier known identity.valid_until) p.expires_at) a.expires_at)

  abbrev pub event_invalid : String → TrustSnapshot → ExternalPrincipal → Assurance → Bool
  event_invalid event_id s p a =
      not (str_eq p.authentication_event_id event_id)
      || not (
          is_ok (
            validate_bundle c.parse
              record { trust = s.trust; external_principal = p; assurance = a }))

  abbrev pub too_old : ℕ → Assurance → Bool
  too_old now a =
      longer (sub_time now (authenticated_at a.upstream_evidence)) c.policy.max_authentication_age

  -- The event that the verifier returned.
  unfoldable pub use_event :
      String
      → String
      → ℕ
      → TrustSnapshot
      → ℕ
      → ExternalPrincipal
      → Assurance
      → Action FederationError S Decision
  unfolding asked check use_identity event_denied authenticated_at mapping_decision earlier add_time
  use_event trust_id event_id now s expires p a = do
    deny_if (event_invalid event_id s p a) invalid
    deny_if (event_denied c.policy now p a) denied
    deny_if (too_old now a) denied
    deny_if (not (str_eq a.mapping_status "MAPPED")) unverified
    mapped ← check now (mapping_decision c.evidence_digest s c.policy.scope event_id p a) (
        earlier expires
          (add_time (authenticated_at a.upstream_evidence) c.policy.max_authentication_age))
    identity ← asked (c.authorities.resolve p.issuer p.subject)
    use_identity trust_id event_id now s p a mapped identity

  unfoldable pub consume_event :
      String → String → ℕ → TrustSnapshot → ℕ → Action FederationError S Decision
  unfolding asked use_event
  consume_event trust_id event_id now s expires = do
    (p, a) ← asked (c.authorities.verify event_id s)
    use_event trust_id event_id now s expires p a

  -- The references of a trust, its platform, and the event.
  unfoldable pub use_trust : String → String → ℕ → TrustSnapshot → Action FederationError S Decision
  unfolding asked check_all consume_event platform_denied platform_unverified base earlier add_time
  use_trust trust_id event_id now s = do
    approved ←
        check_all now (base s c.policy.scope) (trust_references s.trust)
          (earlier s.valid_until (add_time now c.policy.max_decision_lifetime))
    platform ← asked (
        c.authorities.federation_binding s.trust.provider_binding c.policy.scope
          (facet_of s.trust.protocol))
    deny_if (platform_denied c.policy.scope s.trust platform) denied
    deny_if (platform_unverified (facet_of s.trust.protocol) now platform) unverified
    consume_event trust_id event_id now s (earlier approved platform.evidence_expires_at)

  -- `Consume`
  unfoldable pub consume : String → String → Action FederationError S Decision
  unfolding asked use_trust snapshot_refused out_of_scope
  consume trust_id event_id = do
    deny_if (not (is_uuid trust_id) || not (is_uuid event_id)) invalid
    over ← gets c.cancelled
    deny_if over unavailable
    now ← gets c.now
    deny_if (now == 0) invalid
    s ← asked (c.authorities.trust trust_id)
    deny_if (snapshot_refused trust_id now s) unverified
    deny_if (not (str_eq s.trust.status "ACTIVE")) denied
    deny_if (out_of_scope c.policy.scope s.trust) denied
    use_trust trust_id event_id now s
