-- ===== src/Token/Request.antt =====
-- internal/tokenprofile/request.go and response.go: the canonical token request and response.
pub mod Laws
use Prim.Native.String.{len, count}
use baobab_iam.Base.{
  ℕ, ℤ, pos, negsuc, String, Bool, true, false, not, ◌&&◌, ◌||◌, List, [], ◌∷◌, Option, none, some,
  str_eq, is_empty, contains, find_key, split, ltb, length, if◌then◌else◌,
}
use baobab_iam.Result.{Result, ok, err, ◌>>=◌, ◌>>◌, refuse_if}
use baobab_iam.Provider.Validate.{is_nil}
use baobab_iam.Token.Errors.{
  TokenError, invalid_request, invalid_scopes, registration_denied, scopes_required, intent_differs,
  invalid_response, explicit_scopes_required, response_scope_mismatch,
}
use baobab_iam.Token.Types.{Config, Evidence, WorkloadTokenRequest, WorkloadTokenResponse}
use baobab_iam.Token.Canonical.{Check, is_workload_key, is_scope_key}
use baobab_iam.Token.Sets.{same_set}
use baobab_iam.Token.Profile.{workload_of, is_registered, validate_config, claims, space}
use baobab_iam.Token.Human.Profile.{or_empty}

-- The loop over the scopes of a request, with those that it has passed.
unfoldable pub check_scopes : List String → List String → Check
check_scopes seen [] = ok tt
check_scopes seen (scope ∷ rest) = do
  refuse_if (ltb 63 (len scope) || not (is_scope_key scope) || contains seen scope) invalid_scopes
  check_scopes (scope ∷ seen) rest

-- `WorkloadTokenRequest.Validate`
unfoldable pub validate_request : WorkloadTokenRequest → Check
unfolding check_scopes
validate_request r = do
  refuse_if
      (ltb 63 (len r.workload_id)
        || not (is_workload_key r.workload_id)
        || ltb 63 (len r.audience)
        || not (is_workload_key r.audience)
        || ltb 32 (length (or_empty r.scopes)))
      invalid_request
  check_scopes [] (or_empty r.scopes)

-- `WorkloadDefaults`
abbrev pub WorkloadDefaults : Type 0
WorkloadDefaults = List (String × List (String × List String))

abbrev default_scopes : String → Option (List (String × List String)) → Option (List String)
default_scopes audience none = none
default_scopes audience (some m) = find_key audience m

-- Only a request without scopes gets the defaults.
unfoldable pub scopes_or_defaults :
    WorkloadDefaults → WorkloadTokenRequest → Option (List String) → Option (List String)
unfolding find_key
scopes_or_defaults defaults r (some scopes) = some scopes
scopes_or_defaults defaults r none = default_scopes r.audience (find_key r.workload_id defaults)

abbrev pub filled : WorkloadDefaults → WorkloadTokenRequest → WorkloadTokenRequest
filled defaults r = record r { scopes = scopes_or_defaults defaults r r.scopes }

-- `AdmitRequest`: the registration that it asks for, and the agreement with what was granted.
abbrev pub is_denied : Config → WorkloadTokenRequest → Evidence → Bool
is_denied c r e =
    not (is_registered c r.workload_id)
    || not (str_eq (workload_of c r.workload_id).status "ACTIVE")
    || not (str_eq e.client_id r.workload_id)
    || not (contains (workload_of c r.workload_id).audiences r.audience)

abbrev pub differs : WorkloadTokenRequest → Evidence → Bool
differs r e =
    not (same_set e.requested_scopes (or_empty r.scopes))
    || not (same_set e.granted_scopes (or_empty r.scopes))
    || not (same_set e.granted_audiences (r.audience ∷ []))

-- `AdmitRequest`
unfoldable pub admit_request :
    Config
    → WorkloadTokenRequest
    → WorkloadDefaults
    → Evidence
    → Result TokenError WorkloadTokenRequest
unfolding workload_of is_registered scopes_or_defaults
admit_request c request defaults evidence = do
  validate_config c
  validate_request request
  refuse_if (is_denied c request evidence) registration_denied
  refuse_if (is_nil (or_empty (filled defaults request).scopes)) scopes_required
  validate_request (filled defaults request)
  refuse_if (differs (filled defaults request) evidence) intent_differs
  claims c evidence
  ok (filled defaults request)

-- `r.ExpiresIn < 60 || r.ExpiresIn > 86400`
abbrev lifetime_refused : ℤ → Bool
lifetime_refused (pos n) = ltb n 60 || ltb 86400 n
lifetime_refused (negsuc n) = true

-- `r.Scope != nil && *r.Scope == ""`
abbrev scope_refused : Option String → Bool
scope_refused none = false
scope_refused (some s) = is_empty s

-- `WorkloadTokenResponse.Validate`
unfoldable pub validate_response : WorkloadTokenResponse → Check
validate_response r =
    refuse_if
      (ltb (count r.access_token) 20
        || not (str_eq r.token_type "Bearer")
        || lifetime_refused r.expires_in
        || scope_refused r.scope)
      invalid_response

abbrev bind_scope : Option String → List String → Check
bind_scope none scopes = err explicit_scopes_required
bind_scope (some s) scopes = do
  refuse_if (is_nil scopes) explicit_scopes_required
  refuse_if (not (same_set (split space s) scopes)) response_scope_mismatch

-- `BindRequest`
unfoldable pub bind_request : WorkloadTokenResponse → WorkloadTokenRequest → Check
unfolding validate_response validate_request
bind_request r admitted = do
  validate_response r
  validate_request admitted
  bind_scope r.scope (or_empty admitted.scopes)
