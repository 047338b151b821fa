-- ===== src/Resource/Gate/Laws.antt =====
-- pkg/workloadresource/gate.go: what has been established when `Authorize` allows an operation.
use mathlib.Core.List.{Nodup, Perm, Subset, Mem}
use baobab_iam.Base.{
  ℕ, pos, String, true, false, ◌||◌, [], ◌∷◌, ◌≡◌, refl, sym, ap, ◌∙◌, ◌<◌, ◌≤◌, arith, eq_iff,
  Mem-of_contains, Bool-cases, inl, inr,
}
use baobab_iam.Result.{Result, ok, err, Result-cases, refuse_if, refuse_done}
use baobab_iam.Action.{lift}
use baobab_iam.Action.Done.{bind-ok}
use baobab_iam.Resource.Sets.Laws.{same_members_iff, contains_all_iff}
use baobab_iam.Resource.Types.{GateError, denied, SignedClaims, LiveStatus, Operation, Gate}
use baobab_iam.Resource.Gate.{
  sub_time, longer, is_stale, current, call_refused, claims_refused, signed_claims, veto, authorize,
}

module _ {S : Type 0} (g : Gate S) where
  -- The issuer's status, read at a state, is that of the signed claims, and has not run out.
  pub record IsLive (raw : String) (signed : SignedClaims) (s : S) (status : LiveStatus)
      : Type 0 where
    pub read : (g.issuer raw s).0 ≡ ok status
    pub active : status.active ≡ true
    pub same_issuer : status.issuer ≡ signed.issuer
    pub same_subject : status.subject ≡ signed.subject
    pub same_client : status.client_id ≡ signed.client_id
    pub same_audience : Perm status.audience signed.audience
    pub same_scopes : Perm status.scopes signed.scopes
    pub same_end : status.expires_at ≡ signed.expires_at
    pub not_over : g.now (g.issuer raw s).1 < signed.expires_at

  is_fresh :
      (raw : String) (signed : SignedClaims) (s : S) (status : LiveStatus)
      → (g.issuer raw s).0 ≡ ok status
      → is_stale g signed (g.issuer raw s).1 (ok status) ≡ false
      → IsLive raw signed s status
  is_fresh raw signed s status r h =
      let e : status.expires_at ≡ signed.expires_at = ground arith in
      record {
        read = r;
        active = ground arith;
        same_issuer = (eq_iff status.issuer signed.issuer).0 (ground arith);
        same_subject = (eq_iff status.subject signed.subject).0 (ground arith);
        same_client = (eq_iff status.client_id signed.client_id).0 (ground arith);
        same_audience = ((same_members_iff status.audience signed.audience).0 (ground arith)).1;
        same_scopes = ((same_members_iff status.scopes signed.scopes).0 (ground arith)).1;
        same_end = e;
        not_over = ground arith;
      }

  current-IsLive :
      (raw : String) (signed : SignedClaims) (s t : S)
      → current g raw signed s ≡ (ok tt, t)
      → (status : LiveStatus) × IsLive raw signed s status × (t ≡ (g.issuer raw s).1)
  unfolding current
  current-IsLive raw signed s t h = elim (Result-cases (g.issuer raw s).0) [
    | inr (e, q) ↦ absurd (let z = rw q at h in cc)
    | inl (status, q) ↦
        let z = rw q at h in
        let test = is_stale g signed (g.issuer raw s).1 (ok status) in
        let a : refuse_if test denied ≡ ok tt = ap (λ (p : Result GateError Unit × S). p.0) z in
        (
          status,
          is_fresh raw signed s status q (refuse_done test denied a),
          ap (λ (p : Result GateError Unit × S). p.1) (sym h),
        )
  ]

  -- The signed claims that the gate accepts at a time.
  pub record IsAccepted (now : ℕ) (signed : SignedClaims) : Type 0 where
    pub issuer : signed.issuer ≡ g.p.issuer
    pub workload : signed.actor_type ≡ "workload"
    pub client : Mem signed.client_id g.p.allowed_clients
    pub audience : Perm signed.audience (g.p.audience ∷ [])
    pub scopes : Nodup signed.scopes × Subset g.p.required_scopes signed.scopes
    pub issued : (signed.issued_at ≤ now) × (signed.not_before ≤ now) × (now < signed.expires_at)
    pub age : longer (sub_time signed.expires_at signed.issued_at) g.p.max_token_age ≡ false
    pub order : signed.issued_at < signed.expires_at

  sub_time_order : (t u : ℕ) → longer (sub_time t u) (pos 0) ≡ true → u < t
  unfolding sub_time longer
  sub_time_order t u h = ground arith

  claims_refused-IsAccepted :
      (now : ℕ) (signed : SignedClaims)
      → claims_refused g now signed ≡ false
      → IsAccepted now signed
  unfolding claims_refused
  claims_refused-IsAccepted now signed h = record {
    issuer = (eq_iff signed.issuer g.p.issuer).0 (ground arith);
    workload = (eq_iff signed.actor_type "workload").0 (ground arith);
    client = Mem-of_contains g.p.allowed_clients signed.client_id (ground arith);
    audience = ((same_members_iff signed.audience (g.p.audience ∷ [])).0 (ground arith)).1;
    scopes = (contains_all_iff signed.scopes g.p.required_scopes).0 (ground arith);
    issued = (ground arith, ground arith, ground arith);
    age = ground arith;
    order = sub_time_order signed.expires_at signed.issued_at (ground arith);
  }

  signed_claims_lem :
      (r : Result GateError SignedClaims) (s : S) (signed : SignedClaims)
      → signed_claims g r s ≡ ok signed
      → (r ≡ ok signed) × (claims_refused g (g.now s) signed ≡ false)
  signed_claims_lem (err e) s signed h = cc
  signed_claims_lem (ok c) s signed h =
      elim (Bool-cases (g.cancelled s || claims_refused g (g.now s) c)) [
        | inl b ↦ absurd (let z = rw b at h in cc)
        | inr b ↦
            let z = rw b at h in
            let same : c ≡ signed = cc in
            (z, ap (claims_refused g (g.now s)) (sym same) ∙ ground (arith, b))
      ]

  veto_lem : (r : Result GateError (Unit {0})) (s : S) → veto g r s ≡ ok tt → r ≡ ok tt
  veto_lem (err e) s h = cc
  veto_lem (ok u) s h = refl

  -- What was asked of the verifier, the issuer and the authority, one after the other, and how they
  -- answered.
  pub record IsAuthorized (bearer : String) (operation : Operation) (s t : S)
      (signed : SignedClaims) : Type 0 where
    pub verified : (g.verified bearer s).0 ≡ ok signed
    pub accepted : IsAccepted (g.now (g.verified bearer s).1) signed
    pub status : LiveStatus
    pub before : IsLive bearer signed (g.verified bearer s).1 status
    pub asked : S
    pub at_asked : asked ≡ (g.issuer bearer (g.verified bearer s).1).1
    pub allowed : (g.authority bearer signed operation asked).0 ≡ ok tt
    pub status_again : LiveStatus
    pub after : IsLive bearer signed (g.authority bearer signed operation asked).1 status_again
    pub ends : t ≡ (g.issuer bearer (g.authority bearer signed operation asked).1).1

  -- An operation is allowed only on a token that the verifier has authenticated and whose claims the
  -- profile accepts at that time, when the issuer's live status agreed with the claims before the
  -- authority was asked, the authority then allowed the operation for those claims, and the status,
  -- read again after that, still agreed.
  pub authorize_lem :
      (bearer : String) (operation : Operation) (s t : S)
      → authorize g bearer operation s ≡ (ok tt, t)
      → (signed : SignedClaims) × IsAuthorized bearer operation s t signed
  unfolding authorize
  authorize_lem bearer operation s t h =
      let s1 = (g.verified bearer s).1 in
      let (_, a, b) =
        bind-ok (lift (refuse_if (call_refused g bearer operation s) denied)) _ tt s t h in
      let (signed, c, d) =
        bind-ok (lift (signed_claims g (g.verified bearer s).0 s1)) _ tt s1 t b in
      let (_, e, f) = bind-ok (current g bearer signed) _ tt s1 t d in
      let s2 = (current g bearer signed s1).1 in
      let s3 = (g.authority bearer signed operation s2).1 in
      let (_, k, l) =
        bind-ok (lift (veto g (g.authority bearer signed operation s2).0 s3))
          (λ (u : Unit {0}). current g bearer signed) tt s3 t f in
      let (status, live, at) =
        current-IsLive bearer signed s1 s2 (ap (λ (r : Result GateError (Unit {0})). (r, s2)) e) in
      let (again, live', end) = current-IsLive bearer signed s3 t l in
      let (answered, accepted) = signed_claims_lem (g.verified bearer s).0 s1 signed c in
      (
        signed,
        record {
          verified = answered;
          accepted = claims_refused-IsAccepted (g.now s1) signed accepted;
          status = status;
          before = live;
          asked = s2;
          at_asked = at;
          allowed = veto_lem (g.authority bearer signed operation s2).0 s3 k;
          status_again = again;
          after = live';
          ends = end;
        },
      )
