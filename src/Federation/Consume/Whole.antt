-- ===== src/Federation/Consume/Whole.antt =====
-- internal/federation/consume.go: `Consume` as a whole.
use baobab_iam.Base.{
  ℕ, ◌≤◌, ◌<◌, String, true, false, contains, not, ◌||◌, ◌≡◌, ap, arith, eq_iff, str_eq, ◌==◌,
}
use baobab_iam.Result.{Result, ok}
use baobab_iam.Action.Done.{bind-ok}
use baobab_iam.Federation.Types.{
  FederationError, Trust, unverified, denied, unavailable, invalid, ExternalPrincipal, Assurance,
}
use baobab_iam.Federation.Ports.{Scope-discrete, TrustSnapshot, PlatformSnapshot}
use baobab_iam.Federation.Grammar.{is_uuid}
use baobab_iam.Federation.Ledger.Decide.{trust_references}
use baobab_iam.Federation.Conditions.{
  add_time, earlier, facet_of, snapshot_refused, out_of_scope, platform_denied, platform_unverified,
  base,
}
use baobab_iam.Federation.Consume.{
  Consumer, Decision, deny_if, asked, check_all, consume_event, use_trust, consume,
}
use baobab_iam.Federation.Consume.Checks.{
  deny_done, asked_done, earlier-≤, is_yes-≡, AllApproved, all_shorter, check_all-AllApproved,
}
use baobab_iam.Federation.Consume.Laws.{IsEventUsed, use_event-IsEventUsed}

module _ {S : Type 0} (c : Consumer S) where
  -- A platform that is in service for the trust in the scope of the policy, as `facet` and at a time.
  pub record IsInService (facet : String) (now : ℕ) (trust : Trust) (p : PlatformSnapshot)
      : Type 0 where
    pub provider : p.provider_id ≡ trust.provider_binding.provider_id
    pub instance_id : p.engine_instance_id ≡ trust.provider_binding.engine_instance_id
    pub scope : p.scope ≡ c.policy.scope
    pub active :
        (p.provider_status ≡ "ACTIVE")
        × (p.instance_status ≡ "ACTIVE")
        × (p.binding_status ≡ "ACTIVE")
    pub verified : p.support_status ≡ "VERIFIED"
    pub capability : p.runtime_capability ≡ facet
    pub deployed : p.artifact_digest ≡ p.deployed_artifact_digest
    pub proven : now < p.evidence_expires_at

  platform-IsInService :
      (facet : String) (now : ℕ) (trust : Trust) (p : PlatformSnapshot)
      → platform_denied c.policy.scope trust p ≡ false
      → platform_unverified facet now p ≡ false
      → IsInService facet now trust p
  unfolding platform_denied platform_unverified
  platform-IsInService facet now trust p h k = record {
    provider = (eq_iff p.provider_id trust.provider_binding.provider_id).0 (ground (arith, h));
    instance_id =
        (eq_iff p.engine_instance_id trust.provider_binding.engine_instance_id).0
          (ground (arith, h));
    scope = is_yes-≡ (Scope-discrete p.scope c.policy.scope) (ground (arith, h));
    active = (
      (eq_iff p.provider_status "ACTIVE").0 (ground (arith, h)),
      (eq_iff p.instance_status "ACTIVE").0 (ground (arith, h)),
      (eq_iff p.binding_status "ACTIVE").0 (ground (arith, h)),
    );
    verified = (eq_iff p.support_status "VERIFIED").0 (ground (arith, k));
    capability = (eq_iff p.runtime_capability facet).0 (ground (arith, k));
    deployed = (eq_iff p.artifact_digest p.deployed_artifact_digest).0 (ground (arith, k));
    proven = ground (arith, k);
  }

  -- What the authorities have answered after a snapshot was accepted, each in the state in which the
  -- one before it has left the world: on the references of its trust, its platform and the event.
  pub record IsPlatformReady (trust_id event_id : String) (now : ℕ) (s : TrustSnapshot)
      (d : Decision) (u t : S) : Type 0 where
    pub approved_at : S
    pub approved :
        AllApproved c now
          (base s c.policy.scope)
          (trust_references s.trust)
          d.expires_at
          u
          approved_at
    pub platform : PlatformSnapshot
    pub served_at : S
    pub served :
        c.authorities.federation_binding s.trust.provider_binding c.policy.scope
          (facet_of s.trust.protocol)
          approved_at
        ≡ (ok platform, served_at)
    pub in_service : IsInService (facet_of s.trust.protocol) now s.trust platform
    pub bounded :
        (d.expires_at ≤ s.valid_until)
        × (d.expires_at ≤ add_time now c.policy.max_decision_lifetime)
        × (d.expires_at ≤ platform.evidence_expires_at)
    pub principal : ExternalPrincipal
    pub assurance : Assurance
    pub verified_at : S
    pub verified :
        c.authorities.verify event_id s served_at ≡ (ok (principal, assurance), verified_at)
    pub end : ℕ
    pub used : IsEventUsed c trust_id event_id now s end principal assurance d verified_at t

  use_trust-IsPlatformReady :
      (trust_id event_id : String) (now : ℕ) (s : TrustSnapshot) (d : Decision) (u t : S)
      → use_trust c trust_id event_id now s u ≡ (ok d, t)
      → IsPlatformReady trust_id event_id now s d u t
  unfolding use_trust consume_event
  use_trust-IsPlatformReady trust_id event_id now s d u t h =
      let first = earlier s.valid_until (add_time now c.policy.max_decision_lifetime) in
      let k = check_all c now (base s c.policy.scope) (trust_references s.trust) first in
      let (bound, q, h1) = bind-ok k _ d u t h in
      let v = (k u).1 in
      let ask =
        c.authorities.federation_binding s.trust.provider_binding c.policy.scope
          (facet_of s.trust.protocol) in
      let m = asked ask in
      let (p, served, h2) = bind-ok m _ d v t h1 in
      let w = (m v).1 in
      let bad = platform_denied c.policy.scope s.trust p in
      let (x, g, h3) = bind-ok (deny_if bad denied) _ d w t h2 in
      let old = platform_unverified (facet_of s.trust.protocol) now p in
      let (y, f, h4) = bind-ok (deny_if old unverified) _ d w t h3 in
      let end = earlier bound p.evidence_expires_at in
      let e = asked (c.authorities.verify event_id s) in
      let ((principal, assurance), verified, h5) = bind-ok e _ d w t h4 in
      let used =
        use_event-IsEventUsed c trust_id event_id now s end principal assurance d (e w).1 t h5 in
      let (all, less) =
        check_all-AllApproved c now (base s c.policy.scope) (trust_references s.trust) first bound u
          v (ap (λ (r : Result FederationError ℕ). (r, v)) q) in
      let (l1, l2) = earlier-≤ s.valid_until (add_time now c.policy.max_decision_lifetime) in
      let (l3, l4) = earlier-≤ bound p.evidence_expires_at in
      let below = used.bounded.0 in
      record {
        approved_at = v;
        approved =
            all_shorter c now (base s c.policy.scope) (trust_references s.trust) bound d.expires_at
              u v (omega (arith, below, l3)) all;
        platform = p;
        served_at = w;
        served = asked_done ask v p served;
        in_service =
            platform-IsInService (facet_of s.trust.protocol) now s.trust p
              (deny_done bad denied x w g) (deny_done old unverified y w f);
        bounded = (
          omega (arith, below, l3, less, l1),
          omega (arith, below, l3, less, l2),
          omega (arith, below, l4),
        );
        principal = principal;
        assurance = assurance;
        verified_at = (e w).1;
        verified = asked_done (c.authorities.verify event_id s) w (principal, assurance) verified;
        end = end;
        used = used;
      }

  -- The trust of a decision, and what else it stands on.
  pub record IsConsumed (trust_id event_id : String) (s : S) (d : Decision) (t : S) : Type 0 where
    pub snapshot : TrustSnapshot
    pub read_at : S
    pub trusted : c.authorities.trust trust_id s ≡ (ok snapshot, read_at)
    pub same_id : snapshot.trust.id ≡ trust_id
    pub approved : snapshot.approved_revision ≡ snapshot.trust.revision
    pub active : snapshot.trust.status ≡ "ACTIVE"
    pub in_scope :
        (contains snapshot.trust.organisation_ids c.policy.scope.organisation_id ≡ true)
        × (contains snapshot.trust.estate_ids c.policy.scope.estate_id ≡ true)
    pub ready : IsPlatformReady trust_id event_id (c.now s) snapshot d read_at t

  snapshot_lem :
      (trust_id : String) (now : ℕ) (s : TrustSnapshot)
      → snapshot_refused trust_id now s ≡ false
      → (s.trust.id ≡ trust_id) × (s.approved_revision ≡ s.trust.revision)
  unfolding snapshot_refused
  snapshot_lem trust_id now s h =
      ((eq_iff s.trust.id trust_id).0 (ground (arith, h)), ground (arith, h))

  scope_lem :
      (t : Trust)
      → out_of_scope c.policy.scope t ≡ false
      → (contains t.organisation_ids c.policy.scope.organisation_id ≡ true)
        × (contains t.estate_ids c.policy.scope.estate_id ≡ true)
  unfolding out_of_scope
  scope_lem t h = (ground (arith, h), ground (arith, h))

  -- A federated identity is let in only when the authorities, asked one after the other from the first
  -- state to the last, have answered so: the trust is the one asked for, ACTIVE, at its approved
  -- revision and in the scope of the policy; each of its references is approved for it; its platform is
  -- ACTIVE in that scope and VERIFIED, as deployed; the event is the one asked for, valid and not too old;
  -- its mapping is approved for its evidence and level; the canonical identity is ACTIVE and human, its
  -- mapping is approved for it too, and an event that is already resolved is resolved to it; and the
  -- trust that was read again, as the last answer, is the same. The decision names that identity, event
  -- and level, is not over when it is returned, and ends no later than any of these, nor than the
  -- policy's greatest lifetime of a decision and age of an authentication allow.
  pub consume_lem :
      (trust_id event_id : String) (d : Decision) (s t : S)
      → consume c trust_id event_id s ≡ (ok d, t)
      → IsConsumed trust_id event_id s d t
  unfolding consume
  consume_lem trust_id event_id d s t h =
      let (_, _, h1) =
        bind-ok (deny_if (not (is_uuid trust_id) || not (is_uuid event_id)) invalid) _ d s t h in
      let (_, _, h2) = bind-ok (deny_if (c.cancelled s) unavailable) _ d s t h1 in
      let (_, _, h3) = bind-ok (deny_if (c.now s == 0) invalid) _ d s t h2 in
      let m = asked (c.authorities.trust trust_id) in
      let (snapshot, read, h4) = bind-ok m _ d s t h3 in
      let u = (m s).1 in
      let (w, known, h5) =
        bind-ok (deny_if (snapshot_refused trust_id (c.now s) snapshot) unverified) _ d u t h4 in
      let inactive = not (str_eq snapshot.trust.status "ACTIVE") in
      let (x, g, h6) = bind-ok (deny_if inactive denied) _ d u t h5 in
      let (y, f, h7) =
        bind-ok (deny_if (out_of_scope c.policy.scope snapshot.trust) denied) _ d u t h6 in
      let ready = use_trust-IsPlatformReady trust_id event_id (c.now s) snapshot d u t h7 in
      let fit =
        snapshot_lem trust_id (c.now s) snapshot
          (deny_done (snapshot_refused trust_id (c.now s) snapshot) unverified w u known) in
      let z = deny_done inactive denied x u g in
      record {
        snapshot = snapshot;
        read_at = u;
        trusted = asked_done (c.authorities.trust trust_id) s snapshot read;
        same_id = fit.0;
        approved = fit.1;
        active = (eq_iff snapshot.trust.status "ACTIVE").0 (ground (arith, z));
        in_scope =
            scope_lem snapshot.trust
              (deny_done (out_of_scope c.policy.scope snapshot.trust) denied y u f);
        ready = ready;
      }
