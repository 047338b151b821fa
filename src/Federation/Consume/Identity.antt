-- ===== src/Federation/Consume/Identity.antt =====
-- internal/federation/consume.go: what is established of the canonical identity.
use baobab_iam.Base.{
  ℕ, ◌≤◌, String, false, ◌≡◌, ◌≢◌, ◌⊎◌, inl, inr, Bool-cases, ap, arith, eq_iff, str_eq,
}
use baobab_iam.Result.{Result, ok}
use baobab_iam.Action.Done.{bind-ok}
use baobab_iam.Federation.Types.{FederationError, unverified, denied, ExternalPrincipal, Assurance}
use baobab_iam.Federation.Ports.{
  TrustSnapshot, ReferenceExpectation, ApprovedReference, CanonicalIdentity,
}
use baobab_iam.Federation.Conditions.{
  earlier, canonical_refused, resolved_otherwise, base, identity_mapping,
}
use baobab_iam.Federation.Consume.{Consumer, Decision, deny_if, check, use_identity}
use baobab_iam.Federation.Consume.Checks.{
  deny_done, earlier-≤, IsApproved, shorter, check-IsApproved,
}
use baobab_iam.Federation.Consume.Conclude.{IsConcluded, conclude-IsConcluded}

module _ {S : Type 0} (c : Consumer S) where
  -- The canonical identity behind an event.
  pub record IsIdentityUsed (trust_id event_id : String) (now : ℕ) (s : TrustSnapshot)
      (p : ExternalPrincipal) (a : Assurance) (expires : ℕ) (i : CanonicalIdentity) (d : Decision)
      (u t : S) : Type 0 where
    pub in_service :
        (i.principal_status ≡ "ACTIVE")
        × (i.external_identity_status ≡ "ACTIVE")
        × (i.actor_type ≡ "human")
        × (i.issuer ≡ p.issuer)
        × (i.subject ≡ p.subject)
    pub read_at : S
    pub known : IsApproved c now (identity_mapping s c.policy.scope p i) d.expires_at u read_at
    pub for_identity :
        (known.receipt.expectation.trust_id ≡ s.trust.id)
        × (known.receipt.expectation.scope ≡ c.policy.scope)
        × (known.receipt.expectation.subject ≡ p.subject)
        × (known.receipt.expectation.principal_id ≡ i.principal_id)
        × (known.receipt.expectation.external_identity_id ≡ i.external_identity_id)
    pub agrees :
        (p.resolution.status ≢ "RESOLVED")
        ⊎ ((p.resolution.principal_id ≡ i.principal_id)
            × (p.resolution.external_identity_id ≡ i.external_identity_id))
    pub bounded :
        (d.expires_at ≤ expires)
        × (d.expires_at ≤ i.valid_until)
        × (d.expires_at ≤ p.expires_at)
        × (d.expires_at ≤ a.expires_at)
    pub end : ℕ
    pub concluded : IsConcluded c trust_id event_id s i a end d read_at t

  identity_lem :
      (p : ExternalPrincipal) (now : ℕ) (i : CanonicalIdentity)
      → canonical_refused p now i ≡ false
      → (i.principal_status ≡ "ACTIVE")
        × (i.external_identity_status ≡ "ACTIVE")
        × (i.actor_type ≡ "human")
        × (i.issuer ≡ p.issuer)
        × (i.subject ≡ p.subject)
  unfolding canonical_refused
  identity_lem p now i h = (
    (eq_iff i.principal_status "ACTIVE").0 (ground (arith, h)),
    (eq_iff i.external_identity_status "ACTIVE").0 (ground (arith, h)),
    (eq_iff i.actor_type "human").0 (ground (arith, h)),
    (eq_iff i.issuer p.issuer).0 (ground (arith, h)),
    (eq_iff i.subject p.subject).0 (ground (arith, h)),
  )

  within :
      (x known a b e : ℕ)
      → x ≤ earlier (earlier (earlier known a) b) e
      → (x ≤ known) × (x ≤ a) × (x ≤ b) × (x ≤ e)
  within x known a b e h =
      let (p, q) = earlier-≤ (earlier (earlier known a) b) e in
      let (r, s) = earlier-≤ (earlier known a) b in
      let (u, v) = earlier-≤ known a in
      (
        omega (arith, h, p, r, u),
        omega (arith, h, p, r, v),
        omega (arith, h, p, s),
        omega (arith, h, q),
      )

  identity_mapping_lem :
      (s : TrustSnapshot) (p : ExternalPrincipal) (i : CanonicalIdentity) (r : ApprovedReference)
      → r.expectation ≡ identity_mapping s c.policy.scope p i
      → (r.expectation.trust_id ≡ s.trust.id)
        × (r.expectation.scope ≡ c.policy.scope)
        × (r.expectation.subject ≡ p.subject)
        × (r.expectation.principal_id ≡ i.principal_id)
        × (r.expectation.external_identity_id ≡ i.external_identity_id)
  unfolding identity_mapping base
  identity_mapping_lem s p i r e = (
    ap (λ (w : ReferenceExpectation). w.trust_id) e,
    ap (λ (w : ReferenceExpectation). w.scope) e,
    ap (λ (w : ReferenceExpectation). w.subject) e,
    ap (λ (w : ReferenceExpectation). w.principal_id) e,
    ap (λ (w : ReferenceExpectation). w.external_identity_id) e,
  )

  resolved_lem :
      (p : ExternalPrincipal) (i : CanonicalIdentity)
      → resolved_otherwise p i ≡ false
      → (p.resolution.status ≢ "RESOLVED")
        ⊎ ((p.resolution.principal_id ≡ i.principal_id)
            × (p.resolution.external_identity_id ≡ i.external_identity_id))
  unfolding resolved_otherwise
  resolved_lem p i h = elim (Bool-cases (str_eq p.resolution.status "RESOLVED")) [
    | inl e ↦ inr (
      (eq_iff p.resolution.principal_id i.principal_id).0 (ground (arith, h, e)),
      (eq_iff p.resolution.external_identity_id i.external_identity_id).0 (ground (arith, h, e)),
    )
    | inr e ↦ inl λ q. let yes = (eq_iff p.resolution.status "RESOLVED").1 q in cc
  ]

  pub use_identity-IsIdentityUsed :
      (trust_id event_id : String) (now : ℕ) (s : TrustSnapshot) (p : ExternalPrincipal)
      (a : Assurance) (expires : ℕ) (i : CanonicalIdentity) (d : Decision) (u t : S)
      → use_identity c trust_id event_id now s p a expires i u ≡ (ok d, t)
      → IsIdentityUsed trust_id event_id now s p a expires i d u t
  unfolding use_identity
  use_identity-IsIdentityUsed trust_id event_id now s p a expires i d u t h =
      let (x, g, h1) = bind-ok (deny_if (canonical_refused p now i) unverified) _ d u t h in
      let want = identity_mapping s c.policy.scope p i in
      let k = check c now want expires in
      let (known, q, h2) = bind-ok k _ d u t h1 in
      let v = (k u).1 in
      let (y, agreed, h3) = bind-ok (deny_if (resolved_otherwise p i) denied) _ d v t h2 in
      let end = earlier (earlier (earlier known i.valid_until) p.expires_at) a.expires_at in
      let concluded = conclude-IsConcluded c trust_id event_id now s i a end d v t h3 in
      let (approved, less) =
        check-IsApproved c now want expires known u v
          (ap (λ (r : Result FederationError ℕ). (r, v)) q) in
      let (l1, l2, l3, l4) =
        within d.expires_at known i.valid_until p.expires_at a.expires_at concluded.bounded.0 in
      let sooner = shorter c now want known d.expires_at u v l1 approved in
      record {
        in_service = identity_lem p now i (deny_done (canonical_refused p now i) unverified x u g);
        known = sooner;
        for_identity = identity_mapping_lem s p i sooner.receipt sooner.exactly;
        agrees = resolved_lem p i (deny_done (resolved_otherwise p i) denied y v agreed);
        bounded = (omega (arith, l1, less), l2, l3, l4);
        read_at = v;
        end = end;
        concluded = concluded;
      }
