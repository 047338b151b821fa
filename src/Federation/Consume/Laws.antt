-- ===== src/Federation/Consume/Laws.antt =====
-- internal/federation/consume.go: what is established of the event.
use baobab_iam.Base.{ℕ, ◌≤◌, String, true, false, not, refl, ◌≡◌, ap, arith, eq_iff, str_eq}
use baobab_iam.Result.{Result, ok, err}
use baobab_iam.Action.Done.{bind-ok}
use baobab_iam.Federation.Types.{
  FederationError, unverified, denied, invalid, ExternalPrincipal, Assurance,
}
use baobab_iam.Federation.Ports.{
  TrustSnapshot, ReferenceExpectation, ApprovedReference, CanonicalIdentity,
}
use baobab_iam.Federation.Validate.{validate_bundle, fresh}
use baobab_iam.Federation.Ledger.Transition.{is_ok}
use baobab_iam.Federation.Conditions.{
  add_time, earlier, authenticated_at, event_denied, mapping_decision,
}
use baobab_iam.Federation.Consume.{
  Consumer, Decision, deny_if, asked, check, event_invalid, too_old, use_event,
}
use baobab_iam.Federation.Consume.Checks.{
  deny_done, asked_done, earlier-≤, IsApproved, shorter, check-IsApproved,
}
use baobab_iam.Federation.Consume.Identity.{IsIdentityUsed, use_identity-IsIdentityUsed}

module _ {S : Type 0} (c : Consumer S) where
  -- The event, and what it is mapped to.
  pub record IsEventUsed (trust_id event_id : String) (now : ℕ) (s : TrustSnapshot) (expires : ℕ)
      (p : ExternalPrincipal) (a : Assurance) (d : Decision) (u t : S) : Type 0 where
    pub same_event : p.authentication_event_id ≡ event_id
    pub valid :
        validate_bundle c.parse record { trust = s.trust; external_principal = p; assurance = a }
        ≡ ok tt
    pub seen : (p.observed_at ≤ now) × (a.evaluated_at ≤ now)
    pub recent : too_old c now a ≡ false
    pub mapped : a.mapping_status ≡ "MAPPED"
    pub decided_at : S
    pub decision :
        IsApproved c now
          (mapping_decision c.evidence_digest s c.policy.scope event_id p a)
          d.expires_at
          u
          decided_at
    pub for_event :
        (decision.receipt.expectation.event_id ≡ event_id)
        × (decision.receipt.expectation.subject ≡ p.subject)
        × (decision.receipt.expectation.level ≡ a.level)
        × (decision.receipt.expectation.evidence_digest ≡ c.evidence_digest a.upstream_evidence)
    pub bounded :
        (d.expires_at ≤ expires)
        × (d.expires_at
            ≤ add_time (authenticated_at a.upstream_evidence) c.policy.max_authentication_age)
    pub identity : CanonicalIdentity
    pub resolved_at : S
    pub resolved : c.authorities.resolve p.issuer p.subject decided_at ≡ (ok identity, resolved_at)
    pub end : ℕ
    pub used : IsIdentityUsed c trust_id event_id now s p a end identity d resolved_at t

  mapping_decision_lem :
      (s : TrustSnapshot) (event_id : String) (p : ExternalPrincipal) (a : Assurance)
      (r : ApprovedReference)
      → r.expectation ≡ mapping_decision c.evidence_digest s c.policy.scope event_id p a
      → (r.expectation.event_id ≡ event_id)
        × (r.expectation.subject ≡ p.subject)
        × (r.expectation.level ≡ a.level)
        × (r.expectation.evidence_digest ≡ c.evidence_digest a.upstream_evidence)
  unfolding mapping_decision
  mapping_decision_lem s event_id p a r e = (
    ap (λ (w : ReferenceExpectation). w.event_id) e,
    ap (λ (w : ReferenceExpectation). w.subject) e,
    ap (λ (w : ReferenceExpectation). w.level) e,
    ap (λ (w : ReferenceExpectation). w.evidence_digest) e,
  )

  is_ok-lem : (r : Result FederationError (Unit {0})) → is_ok r ≡ true → r ≡ ok tt
  is_ok-lem (ok u) h = refl
  is_ok-lem (err e) h = cc

  event_invalid_lem :
      (event_id : String) (s : TrustSnapshot) (p : ExternalPrincipal) (a : Assurance)
      → event_invalid c event_id s p a ≡ false
      → (p.authentication_event_id ≡ event_id)
        × (validate_bundle c.parse record { trust = s.trust; external_principal = p; assurance = a }
            ≡ ok tt)
  event_invalid_lem event_id s p a h = (
    (eq_iff p.authentication_event_id event_id).0 (ground (arith, h)),
    is_ok-lem
        (validate_bundle c.parse record { trust = s.trust; external_principal = p; assurance = a })
        (ground (arith, h)),
  )

  event_denied_lem :
      (p : ExternalPrincipal) (a : Assurance) (now : ℕ)
      → event_denied c.policy now p a ≡ false
      → (p.observed_at ≤ now) × (a.evaluated_at ≤ now)
  unfolding event_denied fresh
  event_denied_lem p a now h = (ground (arith, h), ground (arith, h))

  pub use_event-IsEventUsed :
      (trust_id event_id : String) (now : ℕ) (s : TrustSnapshot) (expires : ℕ)
      (p : ExternalPrincipal) (a : Assurance) (d : Decision) (u t : S)
      → use_event c trust_id event_id now s expires p a u ≡ (ok d, t)
      → IsEventUsed trust_id event_id now s expires p a d u t
  unfolding use_event
  use_event-IsEventUsed trust_id event_id now s expires p a d u t h =
      let (x1, g1, h1) = bind-ok (deny_if (event_invalid c event_id s p a) invalid) _ d u t h in
      let (x2, g2, h2) = bind-ok (deny_if (event_denied c.policy now p a) denied) _ d u t h1 in
      let (x3, g3, h3) = bind-ok (deny_if (too_old c now a) denied) _ d u t h2 in
      let unmapped = not (str_eq a.mapping_status "MAPPED") in
      let (x4, g4, h4) = bind-ok (deny_if unmapped unverified) _ d u t h3 in
      let want = mapping_decision c.evidence_digest s c.policy.scope event_id p a in
      let at = add_time (authenticated_at a.upstream_evidence) c.policy.max_authentication_age in
      let k = check c now want (earlier expires at) in
      let (mapped, q, h5) = bind-ok k _ d u t h4 in
      let v = (k u).1 in
      let m = asked (c.authorities.resolve p.issuer p.subject) in
      let (i, found, h6) = bind-ok m _ d v t h5 in
      let used =
        use_identity-IsIdentityUsed c trust_id event_id now s p a mapped i d (m v).1 t h6 in
      let (approved, less) =
        check-IsApproved c now want (earlier expires at) mapped u v
          (ap (λ (r : Result FederationError ℕ). (r, v)) q) in
      let (l1, l2) = earlier-≤ expires at in
      let below = used.bounded.0 in
      let sooner = shorter c now want mapped d.expires_at u v below approved in
      let usable =
        event_invalid_lem event_id s p a
          (deny_done (event_invalid c event_id s p a) invalid x1 u g1) in
      let z = deny_done unmapped unverified x4 u g4 in
      record {
        same_event = usable.0;
        valid = usable.1;
        seen = event_denied_lem p a now (deny_done (event_denied c.policy now p a) denied x2 u g2);
        recent = deny_done (too_old c now a) denied x3 u g3;
        mapped = (eq_iff a.mapping_status "MAPPED").0 (ground (arith, z));
        decided_at = v;
        decision = sooner;
        for_event = mapping_decision_lem s event_id p a sooner.receipt sooner.exactly;
        bounded = (omega (arith, below, less, l1), omega (arith, below, less, l2));
        identity = i;
        resolved_at = (m v).1;
        resolved = asked_done (c.authorities.resolve p.issuer p.subject) v i found;
        end = mapped;
        used = used;
      }
