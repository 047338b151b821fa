-- ===== src/Token/Human.antt =====
-- internal/tokenprofile/human.go: `HumanConsent` and `HumanClaims`.
pub mod Profile
pub mod Seal
pub mod Binding
pub mod Scopes
pub mod Laws
pub mod Issued
use baobab_iam.Base.{
  ℕ, ℤ, pos, negsuc, String, Bool, true, false, not, ◌&&◌, ◌||◌, List, [], ◌∷◌, Option, none, some,
  str_eq, is_empty, trim_space, contains, ltb, ◌==◌, length, is_negative, if◌then◌else◌,
}
use baobab_iam.Result.{Result, ok, err, ◌>>=◌, ◌>>◌, refuse_if}
use baobab_iam.Provider.Validate.{is_nil}
use baobab_iam.Token.Errors.{
  TokenError, consent_denied, openid_required, consent_scope_mismatch, profile_scope_required,
  seal_key_required, human_issuance_denied, human_grant_mismatch, human_subject_required,
  audience_without_scopes, human_scope_mismatch, consent_not_governed, human_audience_mismatch,
  assurance_missing, assurance_malformed,
}
use baobab_iam.Token.Types.{
  HumanTokenProfile, Workload, Config, Evidence, HumanEvidence, HumanClaims,
}
use baobab_iam.Token.Canonical.{Check}
use baobab_iam.Token.Sets.{same_set}
use baobab_iam.Token.Hold.{tms_proposal_hold, tms_grant_hold}
use baobab_iam.Token.Profile.{workload_of, is_registered}
use baobab_iam.Token.Human.Profile.{oidc_scopes, scope_audiences}
use baobab_iam.Token.Human.Seal.{min_consent_seal_key_bytes, verify_human_consent}

abbrev pub consent_scopes : List String
consent_scopes = "openid" ∷ "profile" ∷ "email" ∷ []

abbrev pub issued_acr : List String
issued_acr = "aal1" ∷ "aal2" ∷ []

abbrev issued_amr : List String
issued_amr = "pwd" ∷ "otp" ∷ "hwk" ∷ "mfa" ∷ []

-- The loop that picks the profile scopes out of the scopes asked for; `beside` are those that may
-- stand beside them. Any other scope, or one that comes twice, is refused.
unfoldable pub pick_scopes :
    TokenError
    → List String
    → List String
    → List String
    → List String
    → Result TokenError (List String)
pick_scopes e profile beside seen [] = ok []
pick_scopes e profile beside seen (scope ∷ rest) =
    let more = pick_scopes e profile beside (scope ∷ seen) rest in
    if contains seen scope
    then err e
    else if contains profile scope
    then more >>= (λ granted. ok (scope ∷ granted))
    else if contains beside scope
    then more
    else err e

-- `slices.Contains(p.HumanScopeAudiences[scope], audience)` for one of the scopes.
unfoldable pub is_issued_for : Workload → String → List String → Bool
unfolding scope_audiences
is_issued_for p audience [] = false
is_issued_for p audience (scope ∷ rest) =
    contains (scope_audiences p scope) audience || is_issued_for p audience rest

-- `humanAudience`: the loop over the audiences of the profile.
unfoldable pub human_audience : Workload → List String → List String → List String
unfolding is_issued_for
human_audience p scopes [] = []
human_audience p scopes (audience ∷ rest) =
    let others = human_audience p scopes rest in
    if is_issued_for p audience scopes then audience ∷ others else others

-- `!ok || p.Status != "ACTIVE" || p.HumanTokenProfile == nil || ...`, and else the profile.
abbrev pub active_profile :
    TokenError
    → Config
    → String
    → Workload
    → Option HumanTokenProfile
    → Result TokenError HumanTokenProfile
active_profile e c id p none = err e
active_profile e c id p (some h) =
    if not (is_registered c id)
      || not (str_eq p.status "ACTIVE")
      || is_empty p.environment
      || not (str_eq p.environment c.environment)
    then err e
    else ok h

-- `HumanConsent`
unfoldable pub human_consent : Config → String → List String → Result TokenError (List String)
unfolding workload_of is_registered pick_scopes human_audience
human_consent c client_id requested =
    let p = workload_of c client_id in
    do
      tms_proposal_hold client_id p
      profile ← active_profile consent_denied c client_id p p.human_token_profile
      refuse_if (not (contains requested "openid")) openid_required
      granted ← pick_scopes consent_scope_mismatch profile.scopes consent_scopes [] requested
      refuse_if (is_nil granted) profile_scope_required
      ok (human_audience p granted profile.audiences)

-- `e.AuthTime <= 0`
abbrev pub is_not_positive : ℤ → Bool
is_not_positive (pos n) = n == 0
is_not_positive (negsuc n) = true

-- The loop over `e.AMR`.
unfoldable pub check_amr : List String → List String → Check
check_amr seen [] = ok tt
check_amr seen (method ∷ rest) = do
  refuse_if (not (contains issued_amr method) || contains seen method) assurance_malformed
  check_amr (method ∷ seen) rest

abbrev pub amr_claim : List String → Option (List String)
amr_claim [] = none
amr_claim (m ∷ rest) = some (m ∷ rest)

-- On a code exchange the provider has not yet granted scopes.
unfoldable pub is_code_exchange : HumanEvidence → Bool
is_code_exchange e = is_nil e.granted_scopes && str_eq e.grant "authorization_code"

unfoldable pub effective_scopes : HumanEvidence → List String
unfolding is_code_exchange
effective_scopes e = if is_code_exchange e then e.requested_scopes else e.granted_scopes

-- The evidence that `tmsGrantHold` is shown.
abbrev pub hold_evidence : HumanEvidence → Evidence
hold_evidence e = record {
  client_id = e.client_id;
  subject = "";
  grant = "";
  assertion_issuer = "";
  assertion_subject = "";
  requested_scopes = e.requested_scopes;
  granted_scopes = e.granted_scopes;
  granted_audiences = e.granted_audiences;
}

abbrev pub wrong_grant : HumanEvidence → Bool
wrong_grant e = not (str_eq e.grant "authorization_code") && not (str_eq e.grant "refresh_token")

abbrev pub wrong_subject : HumanEvidence → Bool
wrong_subject e =
    is_empty e.subject
    || not (str_eq (trim_space e.subject) e.subject)
    || str_eq e.subject e.client_id

-- The claims, once the client has its profile.
unfoldable pub claims_for :
    (List ℕ → String → String)
    → Workload
    → HumanTokenProfile
    → HumanEvidence
    → List ℕ
    → Result TokenError HumanClaims
unfolding pick_scopes human_audience check_amr effective_scopes
claims_for mac p profile e key = do
  refuse_if (wrong_grant e) human_grant_mismatch
  refuse_if (wrong_subject e) human_subject_required
  refuse_if (is_code_exchange e && not (is_nil e.granted_audiences)) audience_without_scopes
  resource ← pick_scopes human_scope_mismatch profile.scopes oidc_scopes [] (effective_scopes e)
  refuse_if (is_nil resource) human_scope_mismatch
  refuse_if
      (not (
        verify_human_consent mac key e.consent e.consent_request_id e.client_id e.subject
          (effective_scopes e) (human_audience p resource profile.audiences)))
      consent_not_governed
  refuse_if
      (not (is_code_exchange e)
        && not (same_set e.granted_audiences (human_audience p resource profile.audiences)))
      human_audience_mismatch
  refuse_if (not (contains issued_acr e.acr) || is_not_positive e.auth_time) assurance_missing
  check_amr [] e.amr
  ok record {
    actor_type = "human";
    azp = e.client_id;
    acr = e.acr;
    auth_time = e.auth_time;
    amr = amr_claim e.amr;
  }

-- `HumanClaims`; `mac` is the keyed hash of the seal.
unfoldable pub human_claims :
    (List ℕ → String → String) → Config → HumanEvidence → List ℕ → Result TokenError HumanClaims
unfolding workload_of is_registered claims_for
human_claims mac c e key =
    let p = workload_of c e.client_id in
    do
      refuse_if (ltb (length key) min_consent_seal_key_bytes) seal_key_required
      tms_proposal_hold e.client_id p
      tms_grant_hold (hold_evidence e)
      profile ← active_profile human_issuance_denied c e.client_id p p.human_token_profile
      claims_for mac p profile e key
