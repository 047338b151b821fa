-- ===== src/Federation/Consume/Conclude.antt =====
-- internal/federation/consume.go: what is established when `Consume` has read the trust again.
use mathlib.Core.Path.{subst}
use baobab_iam.Base.{
  ℕ, ◌≤◌, ◌<◌, String, Bool, false, not, ◌||◌, ◌≡◌, sym, ap, arith, eq_iff, ltb, ◌==◌,
}
use baobab_iam.Result.{ok}
use baobab_iam.Action.Done.{bind-ok}
use baobab_iam.Federation.Types.{Trust-discrete, denied, Assurance}
use baobab_iam.Federation.Ports.{TrustSnapshot, CanonicalIdentity}
use baobab_iam.Federation.Conditions.{earlier, has_changed}
use baobab_iam.Federation.Consume.{Consumer, Decision, deny_if, asked, conclude}
use baobab_iam.Federation.Consume.Checks.{pure_done, deny_done, asked_done, earlier-≤, is_yes-≡}

-- The decision that `Consume` returns.
abbrev made : CanonicalIdentity → String → Assurance → ℕ → Decision
made identity event_id a expires = record {
  principal_id = identity.principal_id;
  external_identity_id = identity.external_identity_id;
  authentication_event_id = event_id;
  assurance_level = a.level;
  expires_at = expires;
}

module _ {S : Type 0} (c : Consumer S) where
  -- The end of a consumption: the trust was read again as it was, and the decision has not run out.
  pub record IsConcluded (trust_id event_id : String) (s : TrustSnapshot)
      (identity : CanonicalIdentity) (a : Assurance) (expires : ℕ) (d : Decision) (u t : S)
      : Type 0 where
    pub latest : TrustSnapshot
    pub read_again : c.authorities.trust trust_id u ≡ (ok latest, t)
    pub unchanged :
        (latest.trust ≡ s.trust)
        × (latest.snapshot_id ≡ s.snapshot_id)
        × (latest.approved_revision ≡ s.approved_revision)
    pub principal : d.principal_id ≡ identity.principal_id
    pub external_identity : d.external_identity_id ≡ identity.external_identity_id
    pub event : d.authentication_event_id ≡ event_id
    pub level : d.assurance_level ≡ a.level
    pub bounded : (d.expires_at ≤ expires) × (d.expires_at ≤ latest.valid_until)
    pub in_time : c.now t < d.expires_at

  not_before :
      (x now a b : ℕ) (over : Bool)
      → (over || now == 0 || not (ltb now a) || not (ltb now b)) ≡ false
      → earlier a b ≡ x
      → now < x
  unfolding earlier
  not_before x now a b over h e = ground (arith, h, e)

  has_changed_lem :
      (s latest : TrustSnapshot)
      → has_changed s latest ≡ false
      → (latest.trust ≡ s.trust)
        × (latest.snapshot_id ≡ s.snapshot_id)
        × (latest.approved_revision ≡ s.approved_revision)
  unfolding has_changed
  has_changed_lem s latest h = (
    is_yes-≡ (Trust-discrete latest.trust s.trust) (ground (arith, h)),
    (eq_iff latest.snapshot_id s.snapshot_id).0 (ground (arith, h)),
    ground (arith, h),
  )

  pub conclude-IsConcluded :
      (trust_id event_id : String) (started : ℕ) (s : TrustSnapshot) (identity : CanonicalIdentity)
      (a : Assurance) (expires : ℕ) (d : Decision) (u t : S)
      → conclude c trust_id event_id started s identity a expires u ≡ (ok d, t)
      → IsConcluded trust_id event_id s identity a expires d u t
  unfolding conclude
  conclude-IsConcluded trust_id event_id started s identity a expires d u t h =
      let m = asked (c.authorities.trust trust_id) in
      let (latest, read, h1) = bind-ok m _ d u t h in
      let v = (m u).1 in
      let (x, same, h2) = bind-ok (deny_if (has_changed s latest) denied) _ d v t h1 in
      let (_, _, h3) = bind-ok (deny_if (ltb (c.now v) started) denied) _ d v t h2 in
      let late =
        c.cancelled v
        || c.now v == 0
        || not (ltb (c.now v) expires)
        || not (ltb (c.now v) latest.valid_until) in
      let (y, fine, h4) = bind-ok (deny_if late denied) _ d v t h3 in
      let (same_decision, at) =
        pure_done (made identity event_id a (earlier expires latest.valid_until)) d v t h4 in
      let ends : earlier expires latest.valid_until ≡ d.expires_at =
        ap (λ (r : Decision). r.expires_at) same_decision in
      let (l1, l2) = earlier-≤ expires latest.valid_until in
      record {
        latest = latest;
        read_again =
            subst (λ (w : S). c.authorities.trust trust_id u ≡ (ok latest, w)) at
              (asked_done (c.authorities.trust trust_id) u latest read);
        unchanged = has_changed_lem s latest (deny_done (has_changed s latest) denied x v same);
        principal = sym (ap (λ (r : Decision). r.principal_id) same_decision);
        level = sym (ap (λ (r : Decision). r.assurance_level) same_decision);
        external_identity = sym (ap (λ (r : Decision). r.external_identity_id) same_decision);
        event = sym (ap (λ (r : Decision). r.authentication_event_id) same_decision);
        bounded = (omega (arith, l1, ends), omega (arith, l2, ends));
        in_time =
            subst (λ (w : S). c.now w < d.expires_at) at
              (not_before d.expires_at (c.now v) expires latest.valid_until (c.cancelled v)
                (deny_done late denied y v fine) ends);
      }
