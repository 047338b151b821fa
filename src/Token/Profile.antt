-- ===== src/Token/Profile.antt =====
-- internal/tokenprofile/profile.go: `Config.Validate` and `Config.Claims`.
pub mod Laws
pub mod Valid
use Prim.Native.Char.{char}
use baobab_iam.Base.{
  String, Bool, true, false, not, ◌&&◌, ◌||◌, List, [], ◌∷◌, Option, none, some, str_eq, is_empty,
  trim_space, contains, find_key, join, if◌then◌else◌,
}
use baobab_iam.Result.{Result, ok, err, ◌>>◌, refuse_if, for_each}
use baobab_iam.Provider.Validate.{is_nil}
use baobab_iam.Token.Errors.{
  TokenError, exact_projection_required, unknown_environment, invalid_workload_profile,
  unsupported_credential, unknown_lifecycle, noncanonical_value, invalid_binding,
  foreign_environment, handoff_without_profile, audiences_without_profile, issuance_denied,
  credential_mismatch, binding_mismatch, scope_mismatch, audience_mismatch, not_for_trade_alone,
}
use baobab_iam.Token.Types.{
  HumanTokenProfile, Workload, zero_workload, Binding, Config, Evidence, WorkloadClaims,
}
use baobab_iam.Token.Canonical.{Check, is_commit, each_canonical}
use baobab_iam.Token.Sets.{subset, same_set}
use baobab_iam.Token.Hold.{tms_proposal_hold, tms_grant_hold}
use baobab_iam.Token.Native.{
  buyer_handoff_scope, is_some, validate_native_commitment_submitter,
  native_commitment_token_scoped,
}
use baobab_iam.Token.Human.Profile.{validate_human_profile}

abbrev pub federated_grant : String
federated_grant = "urn:ietf:params:oauth:grant-type:jwt-bearer"

abbrev pub environments : List String
environments = "development" ∷ "staging" ∷ "production" ∷ []

abbrev pub lifecycles : List String
lifecycles = "ACTIVE" ∷ "PROVISIONED" ∷ "SUSPENDED" ∷ "REVOKED" ∷ "RETIRED" ∷ []

-- The branches on `p.HumanTokenProfile`.
abbrev pub validate_human_part : String → Workload → Option HumanTokenProfile → Check
validate_human_part id p (some h) = validate_human_profile h p
validate_human_part id p none = do
  refuse_if (contains p.scopes buyer_handoff_scope) (handoff_without_profile id)
  refuse_if (is_some p.human_scope_audiences) (audiences_without_profile id)

-- The pass of `Validate` over one workload.
unfoldable pub validate_workload : Config → (String × Workload) → Check
validate_workload c (id, p) = do
  tms_proposal_hold id p
  refuse_if (not (str_eq p.environment c.environment)) (foreign_environment id)
  refuse_if
      (is_empty id || not (str_eq (trim_space id) id) || is_nil p.scopes || is_nil p.audiences)
      invalid_workload_profile
  refuse_if
      (not (str_eq p.credential_type "client_credentials")
        && not (str_eq p.credential_type "federated_workload_token"))
      unsupported_credential
  refuse_if (not (contains lifecycles p.status)) unknown_lifecycle
  each_canonical noncanonical_value [] p.scopes
  each_canonical noncanonical_value [] p.audiences
  validate_human_part id p p.human_token_profile
  validate_native_commitment_submitter id p

unfoldable pub binding_eq : Binding → Binding → Bool
binding_eq a b = str_eq a.issuer b.issuer && str_eq a.subject b.subject

unfoldable pub binding_seen : List Binding → Binding → Bool
unfolding binding_eq
binding_seen [] b = false
binding_seen (x ∷ seen) b = binding_eq b x || binding_seen seen b

-- `p, ok := c.Workloads[id]`
unfoldable pub workload_or_zero : Option Workload → Workload
workload_or_zero none = zero_workload
workload_or_zero (some p) = p

unfoldable pub workload_of : Config → String → Workload
unfolding find_key workload_or_zero
workload_of c id = workload_or_zero (find_key id c.workloads)

unfoldable pub is_registered : Config → String → Bool
unfolding find_key
is_registered c id = is_some (find_key id c.workloads)

abbrev pub is_bad_binding : Config → List Binding → String → Binding → Bool
is_bad_binding c seen id binding =
    not (is_registered c id)
    || not (str_eq (workload_of c id).credential_type "federated_workload_token")
    || is_empty binding.issuer
    || is_empty binding.subject
    || binding_seen seen binding

-- The loop over the bindings, with those that it has passed.
unfoldable pub validate_bindings : Config → List Binding → List (String × Binding) → Check
unfolding binding_seen workload_of is_registered
validate_bindings c seen [] = ok tt
validate_bindings c seen ((id, binding) ∷ rest) = do
  refuse_if (is_bad_binding c seen id binding) invalid_binding
  validate_bindings c (binding ∷ seen) rest

-- `Config.Validate`
unfoldable pub validate_config : Config → Check
unfolding validate_workload validate_bindings
validate_config c = do
  refuse_if (not (is_commit c.shared_commit) || is_nil c.workloads) exact_projection_required
  refuse_if (not (contains environments c.environment)) unknown_environment
  for_each c.workloads (validate_workload c)
  validate_bindings c [] c.bindings

-- The evidence of a federated workload against its binding.
abbrev matches_binding : Evidence → Option Binding → Bool
matches_binding e none = false
matches_binding e (some b) =
    str_eq e.grant federated_grant
    && str_eq e.subject b.subject
    && str_eq e.assertion_subject b.subject
    && str_eq e.assertion_issuer b.issuer

-- The switch on the credential type.
abbrev check_credential : Config → Workload → Evidence → Check
check_credential c p e =
    if str_eq p.credential_type "client_credentials"
    then refuse_if (not (str_eq e.grant "client_credentials") || not (str_eq e.subject e.client_id))
        credential_mismatch
    else if str_eq p.credential_type "federated_workload_token"
    then refuse_if (not (matches_binding e (find_key e.client_id c.bindings))) binding_mismatch
    else err unsupported_credential

-- The conditions of `Claims`, each of which refuses the token.
abbrev pub is_out_of_service : Config → Evidence → Bool
is_out_of_service c e =
    not (is_registered c e.client_id)
    || (not (str_eq (workload_of c e.client_id).status "ACTIVE")
        && not (str_eq (workload_of c e.client_id).status "PROVISIONED"))

abbrev pub is_abroad : Config → Workload → Bool
is_abroad c p = is_empty p.environment || not (str_eq p.environment c.environment)

abbrev pub scopes_refused : Workload → Evidence → Bool
scopes_refused p e =
    is_nil e.requested_scopes
    || not (subset e.requested_scopes p.scopes)
    || not (same_set e.granted_scopes e.requested_scopes)

abbrev pub audiences_refused : Workload → Evidence → Bool
audiences_refused p e = is_nil e.granted_audiences || not (subset e.granted_audiences p.audiences)

-- The checks of `Claims` before it returns.
unfoldable pub check_evidence : Config → Evidence → Check
unfolding workload_of is_registered find_key
check_evidence c e =
    let p = workload_of c e.client_id in
    do
      tms_proposal_hold e.client_id p
      tms_grant_hold e
      refuse_if (is_out_of_service c e) issuance_denied
      refuse_if (is_abroad c p) issuance_denied
      check_credential c p e
      refuse_if (scopes_refused p e) scope_mismatch
      refuse_if (audiences_refused p e) audience_mismatch
      refuse_if (not (native_commitment_token_scoped e)) not_for_trade_alone

abbrev pub space : Prim.Native.Char.Char
space = char 32 tt

-- `Config.Claims`
unfoldable pub claims : Config → Evidence → Result TokenError WorkloadClaims
unfolding check_evidence
claims c e =
    check_evidence c e
    >> ok record { actor_type = "workload"; azp = e.client_id; scope = join space e.granted_scopes }
