-- ===== src/Token/Request/Laws.antt =====
-- internal/tokenprofile/request.go and response.go: an admitted request and the response bound to it.
use mathlib.Core.List
use mathlib.Core.List.{Nodup, Perm, Subset}
use mathlib.Core.Path.{subst}
use baobab_iam.Base.{String, true, false, [], ◌∷◌, some, ◌≡◌, refl, arith, eq_iff}
use baobab_iam.Result.{Result, ok, err, ◌>>◌, refuse_if, refuse_done, check_then}
use baobab_iam.Provider.Validate.{is_nil}
use baobab_iam.Token.Errors.{TokenError, registration_denied, scopes_required, intent_differs}
use baobab_iam.Token.Types.{
  Config, Evidence, WorkloadClaims, WorkloadTokenRequest, WorkloadTokenResponse,
}
use baobab_iam.Token.Sets.{same_set}
use baobab_iam.Token.Sets.Laws.{same_set_iff}
use baobab_iam.Token.Human.Profile.{or_empty}
use baobab_iam.Token.Profile.{workload_of, validate_config, claims}
use baobab_iam.Token.Profile.Laws.{claims_lem, claims-split}
use baobab_iam.Token.Request.{
  WorkloadDefaults, scopes_or_defaults, validate_request, admit_request, validate_response,
  bind_request, is_denied, differs, filled,
}

-- The request that was admitted, against the registration and the evidence.
pub record IsAdmitted (c : Config) (request : WorkloadTokenRequest) (defaults : WorkloadDefaults)
    (e : Evidence) (admitted : WorkloadTokenRequest) : Type 0 where
  pub valid : validate_config c ≡ ok tt
  pub canonical : validate_request admitted ≡ ok tt
  pub fills :
      admitted ≡ record request { scopes = scopes_or_defaults defaults request request.scopes }
  pub active : (workload_of c admitted.workload_id).status ≡ "ACTIVE"
  pub authenticated : e.client_id ≡ admitted.workload_id
  pub some_scope : is_nil (or_empty admitted.scopes) ≡ false
  pub granted_scopes : Nodup e.granted_scopes × Perm e.granted_scopes (or_empty admitted.scopes)
  pub within : Subset (or_empty admitted.scopes) (workload_of c admitted.workload_id).scopes
  pub for_audience : Perm e.granted_audiences (admitted.audience ∷ [])
  pub claimed : (r : WorkloadClaims) × (claims c e ≡ ok r)

claims_then :
    {A : Type 0} (m : Result TokenError WorkloadClaims) (n : Result TokenError A) (a : A)
    → m >> n ≡ ok a
    → ((r : WorkloadClaims) × (m ≡ ok r)) × (n ≡ ok a)
claims_then (ok r) n a h = ((r, refl), h)
claims_then (err e) n a h = cc

-- A request is admitted only for an ACTIVE registration, and with the scopes that it names, or with
-- the defaults if it names none. They are canonical, those that were granted, and within the
-- registration; the audience is the one that was granted; and the evidence passes `Claims`.
pub admit_request_lem :
    (c : Config) (request : WorkloadTokenRequest) (defaults : WorkloadDefaults) (e : Evidence)
    (admitted : WorkloadTokenRequest)
    → admit_request c request defaults e ≡ ok admitted
    → IsAdmitted c request defaults e admitted
unfolding admit_request
admit_request_lem c request defaults e admitted h =
    let (valid, h1) = check_then (validate_config c) _ admitted h in
    let (_, h2) = check_then (validate_request request) _ admitted h1 in
    let (registration, h3) =
      check_then (refuse_if (is_denied c request e) registration_denied) _ admitted h2 in
    let (full, h4) =
      check_then (refuse_if (is_nil (or_empty (filled defaults request).scopes)) scopes_required) _
        admitted h3 in
    let (canonical, h5) = check_then (validate_request (filled defaults request)) _ admitted h4 in
    let (intent, h6) =
      check_then (refuse_if (differs (filled defaults request) e) intent_differs) _ admitted h5 in
    let ((r, claimed), h7) = claims_then (claims c e) (ok (filled defaults request)) admitted h6 in
    let a = refuse_done (is_denied c request e) registration_denied registration in
    let b = refuse_done (differs (filled defaults request) e) intent_differs intent in
    let f : filled defaults request ≡ admitted = cc in
    let client = (eq_iff e.client_id request.workload_id).0 (ground (arith, a)) in
    let issued = claims_lem c e r claimed in
    let granted : same_set e.granted_scopes (or_empty (filled defaults request).scopes) ≡ true =
      ground (arith, b) in
    let (distinct, perm) =
      (same_set_iff e.granted_scopes (or_empty (filled defaults request).scopes)).0 granted in
    subst (IsAdmitted c request defaults e) f (record {
      valid = valid;
      canonical = canonical;
      fills = refl;
      active = (eq_iff (workload_of c request.workload_id).status "ACTIVE").0 (ground (arith, a));
      authenticated = client;
      some_scope = refuse_done _ scopes_required full;
      granted_scopes = (distinct, perm);
      within = λ v m.
          subst (λ (k : String). List.Mem v (workload_of c k).scopes) client
            (issued.scopes_within v (List.Perm.subset (List.Perm.symm perm) v m));
      for_audience =
          ((same_set_iff e.granted_audiences (request.audience ∷ [])).0 (ground (arith, b))).1;
      claimed = (r, claimed);
    })

-- The response that carries the scope claim of an admitted request binds to that request: if the
-- request was admitted on some evidence, the evidence passed `Claims`, and a valid response states the
-- scope of those claims, then `BindRequest` accepts the response.
pub bind_request-admit_request :
    (c : Config) (request : WorkloadTokenRequest) (defaults : WorkloadDefaults) (e : Evidence)
    (admitted : WorkloadTokenRequest) (k : WorkloadClaims) (r : WorkloadTokenResponse)
    → admit_request c request defaults e ≡ ok admitted
    → claims c e ≡ ok k
    → validate_response r ≡ ok tt
    → r.scope ≡ some k.scope
    → bind_request r admitted ≡ ok tt
unfolding bind_request
bind_request-admit_request c request defaults e admitted k r h q v s =
    let a = admit_request_lem c request defaults e admitted h in
    let back = claims-split c e k q in
    let same = (same_set_iff e.granted_scopes (or_empty admitted.scopes)).1 a.granted_scopes in
    rw (v, a.canonical, s, a.some_scope, back, same) refl
