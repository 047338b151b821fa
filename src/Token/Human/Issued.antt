-- ===== src/Token/Human/Issued.antt =====
-- internal/tokenprofile/human.go: for whom human tokens are issued, and on whose decision.
use mathlib.Core.List.{Nodup, Perm}
use mathlib.Core.Path.{subst}
use baobab_iam.Base.{
  ℕ, String, true, false, not, ◌&&◌, ◌||◌, List, [], ◌∷◌, Option, none, some, ◌≡◌, refl, sym, ap,
  ◌∙◌, arith, eq_iff, str_eq, contains, ltb, length,
}
use baobab_iam.Result.{ok, refuse_if, refuse_done, check_then}
use baobab_iam.Provider.Validate.{is_nil}
use baobab_iam.Token.Errors.{
  seal_key_required, human_issuance_denied, human_grant_mismatch, human_subject_required,
  audience_without_scopes, human_scope_mismatch, consent_not_governed, human_audience_mismatch,
  assurance_missing,
}
use baobab_iam.Token.Types.{
  HumanTokenProfile, Workload, Config, HumanEvidence, HumanClaims, HumanConsentSeal,
}
use baobab_iam.Token.Sets.{same_set}
use baobab_iam.Token.Sets.Laws.{same_set_iff}
use baobab_iam.Token.Hold.{tms_proposal_hold, tms_grant_hold}
use baobab_iam.Token.Profile.{workload_of}
use baobab_iam.Token.Human.Profile.{oidc_scopes}
use baobab_iam.Token.Human.Seal.{
  min_consent_seal_key_bytes, equal_texts, seal_human_consent, verify_human_consent,
}
use baobab_iam.Token.Human.Binding.{seal_binds}
use baobab_iam.Token.Human.Scopes.{pick_scopes-IsPicked}
use baobab_iam.Token.Human.Laws.{
  IsActiveClient, active_profile-IsActiveClient, IsEarned, earned, result_then,
}
use baobab_iam.Token.Human.{
  pick_scopes, human_audience, active_profile, is_code_exchange, effective_scopes, hold_evidence,
  wrong_grant, wrong_subject, claims_for, human_claims, check_amr, amr_claim, issued_acr,
  is_not_positive,
}

equal_texts-≡ : (xs ys : List String) → equal_texts xs ys ≡ true → xs ≡ ys
unfolding equal_texts
equal_texts-≡ [] [] h = refl
equal_texts-≡ [] (y ∷ ys) h = cc
equal_texts-≡ (x ∷ xs) [] h = cc
equal_texts-≡ (x ∷ xs) (y ∷ ys) h =
    let a = (eq_iff x y).0 (ground (arith, h)) in
    let b = equal_texts-≡ xs ys (ground (arith, h)) in cc

module _ (mac : List ℕ → String → String) (key : List ℕ) where
  -- An accepted seal is there, and states the audience that it was held against.
  verify-audience :
      (o : Option HumanConsentSeal) (id client subject : String) (scopes audience : List String)
      → verify_human_consent mac key o id client subject scopes audience ≡ true
      → (s : HumanConsentSeal) × (o ≡ some s) × (s.audience ≡ audience)
  unfolding verify_human_consent
  verify-audience none id client subject scopes audience h = cc
  verify-audience (some s) id client subject scopes audience h =
      (s, refl, equal_texts-≡ s.audience audience (ground (arith, h)))

  -- The scopes of a human token under a profile, its audience, and the sealed decision.
  pub record IsHumanIssued (p : Workload) (e : HumanEvidence) (r : HumanClaims)
      (h : HumanTokenProfile) (s : HumanConsentSeal) : Type 0 where
    pub not_itself : str_eq e.subject e.client_id ≡ false
    pub distinct : Nodup (effective_scopes e)
    pub within :
        (v : String)
        → contains (effective_scopes e) v ≡ true
        → (contains h.scopes v || contains oidc_scopes v) ≡ true
    pub consent : e.consent ≡ some s
    pub accepted :
        verify_human_consent mac key
          (some s)
          e.consent_request_id
          e.client_id
          e.subject
          (effective_scopes e)
          s.audience
        ≡ true
    pub audiences_earned :
        (a : String)
        → contains s.audience a ≡ true
        → (contains h.audiences a ≡ true) × IsEarned p h (effective_scopes e) a
    pub as_granted : is_code_exchange e ≡ false → Perm e.granted_audiences s.audience
    pub names : (r.azp ≡ e.client_id) × (r.acr ≡ e.acr) × (r.auth_time ≡ e.auth_time)

  claims_for_lem :
      (p : Workload) (h : HumanTokenProfile) (e : HumanEvidence) (r : HumanClaims)
      → claims_for mac p h e key ≡ ok r
      → (s : HumanConsentSeal) × IsHumanIssued p e r h s
  unfolding claims_for
  claims_for_lem p h e r f =
      let (_, g) = check_then (refuse_if (wrong_grant e) human_grant_mismatch) _ r f in
      let (subject, i) = check_then (refuse_if (wrong_subject e) human_subject_required) _ r g in
      let (_, j) =
        check_then
          (refuse_if (is_code_exchange e && not (is_nil e.granted_audiences))
            audience_without_scopes)
          _ r i in
      let (granted, picks, k) =
        result_then (pick_scopes human_scope_mismatch h.scopes oidc_scopes [] (effective_scopes e))
          _ r j in
      let (_, l) = check_then (refuse_if (is_nil granted) human_scope_mismatch) _ r k in
      let audience = human_audience p granted h.audiences in
      let accepted =
        verify_human_consent mac key e.consent e.consent_request_id e.client_id e.subject
          (effective_scopes e) audience in
      let (seal, m) = check_then (refuse_if (not accepted) consent_not_governed) _ r l in
      let differs = not (is_code_exchange e) && not (same_set e.granted_audiences audience) in
      let (match, n) = check_then (refuse_if differs human_audience_mismatch) _ r m in
      let (_, o) =
        check_then
          (refuse_if (not (contains issued_acr e.acr) || is_not_positive e.auth_time)
            assurance_missing)
          _ r n in
      let (_, z) =
        check_then (check_amr [] e.amr)
          (ok record {
            actor_type = "human";
            azp = e.client_id;
            acr = e.acr;
            auth_time = e.auth_time;
            amr = amr_claim e.amr;
          })
          r o in
      let v = refuse_done (not accepted) consent_not_governed seal in
      let w = refuse_done differs human_audience_mismatch match in
      let x = refuse_done (wrong_subject e) human_subject_required subject in
      let (s, stated, same) =
        verify-audience e.consent e.consent_request_id e.client_id e.subject (effective_scopes e)
          audience (ground (arith, v)) in
      let picked =
        pick_scopes-IsPicked human_scope_mismatch h.scopes oidc_scopes [] (effective_scopes e)
          granted picks in
      (
        s,
        record {
          not_itself = ground (arith, x);
          distinct = picked.distinct;
          within = picked.within;
          consent = stated;
          accepted = rw same (rw (sym stated) (ground (arith, v)));
          audiences_earned = λ y t.
              earned p h oidc_scopes (effective_scopes e) granted y picked
                (ap (λ (u : List String). contains u y) (sym same) ∙ t);
          as_granted = λ u.
              subst (Perm e.granted_audiences) (sym same)
                ((same_set_iff e.granted_audiences audience).0 (ground (arith, w, u))).1;
          names = (cc, cc, cc);
        },
      )

  -- Human tokens are issued only for an ACTIVE client of this environment with a human token profile,
  -- never for the client as its own subject. The scopes, those asked for on a code exchange and else
  -- those granted, are distinct, each of the profile or of OpenID. The audience is the one that an
  -- accepted seal states and, but on a code exchange, the one granted: each is one of the profile,
  -- issued for a scope that the token has. The claims name the client and the evidence of the login.
  pub human_claims_lem :
      (c : Config) (e : HumanEvidence) (r : HumanClaims)
      → human_claims mac c e key ≡ ok r
      → (h : HumanTokenProfile) × (s : HumanConsentSeal) × IsActiveClient c e.client_id h
        × IsHumanIssued (workload_of c e.client_id) e r h s
  unfolding human_claims
  human_claims_lem c e r q =
      let p = workload_of c e.client_id in
      let (_, a) =
        check_then (refuse_if (ltb (length key) min_consent_seal_key_bytes) seal_key_required) _ r
          q in
      let (_, b) = check_then (tms_proposal_hold e.client_id p) _ r a in
      let (_, d) = check_then (tms_grant_hold (hold_evidence e)) _ r b in
      let (h, client, f) =
        result_then (active_profile human_issuance_denied c e.client_id p p.human_token_profile) _ r
          d in
      let (s, issued) = claims_for_lem p h e r f in
      (
        h,
        s,
        active_profile-IsActiveClient human_issuance_denied c e.client_id p h p.human_token_profile
            refl refl client,
        issued,
      )

  -- Under a keyed hash that no two texts share, human tokens are issued only on a decision that
  -- governed consent sealed: if the seal in the evidence was made for a decision, then the decision
  -- was for this consent request, client and subject, and for these scopes, up to their order.
  pub human_claims-sealed :
      (c : Config) (e : HumanEvidence) (r : HumanClaims) (s : HumanConsentSeal)
      (id client subject : String) (scopes audience : List String)
      → ((m m' : String) → mac key m ≡ mac key m' → m ≡ m')
      → e.consent ≡ some s
      → seal_human_consent mac key id client subject scopes audience ≡ ok s
      → human_claims mac c e key ≡ ok r
      → (id ≡ e.consent_request_id)
        × (client ≡ e.client_id)
        × (subject ≡ e.subject)
        × Perm scopes (effective_scopes e)
  human_claims-sealed c e r s id client subject scopes audience inj stated made q =
      let (h, t, _, issued) = human_claims_lem c e r q in
      let same : some s ≡ some t = sym stated ∙ issued.consent in
      let same_seal : s ≡ t = cc in
      let (a, b, d, f, _) =
        seal_binds mac key id client subject scopes audience e.consent_request_id e.client_id
          e.subject (effective_scopes e) t.audience t inj (made ∙ ap ok same_seal)
          issued.accepted in
      (a, b, d, f)
