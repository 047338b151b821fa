-- ===== src/Token/Tests/Workloads.antt =====
-- Runs of internal/tokenprofile for a workload, to which its theorems apply.
use mathlib.Core.List.{Nodup, Perm}
use baobab_iam.Base.{
  String, true, List, [], ◌∷◌, ◌≡◌, refl, ◌↔◌, trim_left, trim_right, trim_space, is_space,
  contains, find_key, has_prefix, has_code, contains_any, all_codes, join, split,
}
use baobab_iam.Result.{ok, for_each, Every}
use baobab_iam.Token.Canonical.{
  is_key_code, is_hex_code, is_commit, is_workload_key, is_workload_client_id, is_scope_key,
  is_token_code, single_issuance_token, is_noncanonical, each_canonical,
}
use baobab_iam.Token.Sets.{subset_from, subset, same_set}
use baobab_iam.Token.Sets.Laws.{same_set_iff}
use baobab_iam.Token.Hold.{
  reserved_tms_client, reserved_tms_audience, tms_proposal_hold, tms_grant_hold,
}
use baobab_iam.Token.Native.{validate_native_commitment_submitter, native_commitment_token_scoped}
use baobab_iam.Token.Human.Profile.{scope_audiences, reach_all, reached_by, validate_human_profile}
use baobab_iam.Token.Profile.{
  validate_workload, workload_or_zero, workload_of, is_registered, validate_bindings,
  validate_config, check_evidence, claims, space,
}
use baobab_iam.Token.Profile.Laws.{IsIssued, claims_lem, claims-split}
use baobab_iam.Token.Profile.Valid.{IsSound, AreBound, validate_config_lem}
use baobab_iam.Token.Request.{
  check_scopes, validate_request, scopes_or_defaults, admit_request, validate_response,
  bind_request,
}
use baobab_iam.Token.Request.Laws.{IsAdmitted, admit_request_lem, bind_request-admit_request}
use baobab_iam.Token.Tests.{config, evidence, issued, request, response}

claims_run : claims config evidence ≡ ok issued
unfolding claims check_evidence workload_of workload_or_zero is_registered find_key
    tms_proposal_hold tms_grant_hold reserved_tms_client reserved_tms_audience single_issuance_token
    all_codes is_token_code for_each has_prefix contains subset subset_from same_set
    native_commitment_token_scoped join
claims_run = refl

valid_run : validate_config config ≡ ok tt
unfolding validate_config is_commit is_hex_code all_codes for_each contains validate_workload
    validate_bindings tms_proposal_hold reserved_tms_client reserved_tms_audience
    single_issuance_token is_token_code has_prefix trim_space trim_left trim_right is_space
    each_canonical is_noncanonical contains_any has_code validate_human_profile subset subset_from
    scope_audiences reached_by reach_all find_key validate_native_commitment_submitter
    is_workload_client_id is_workload_key is_key_code
valid_run = refl

admitted_run : admit_request config request [] evidence ≡ ok request
unfolding admit_request validate_request check_scopes is_workload_key is_key_code is_scope_key split
    all_codes contains find_key workload_of workload_or_zero is_registered scopes_or_defaults
    same_set subset subset_from
admitted_run = rw (valid_run, claims_run) refl

response_run : validate_response response ≡ ok tt
unfolding validate_response
response_run = refl

abbrev there : List String
there = "a" ∷ "b" ∷ []

abbrev back : List String
back = "b" ∷ "a" ∷ []

same_set_iff_example : (same_set there back ≡ true) ↔ (Nodup there × Perm there back)
same_set_iff_example = same_set_iff there back

claims_lem_example : IsIssued config evidence issued
claims_lem_example = claims_lem config evidence issued claims_run

claims-split_example : split space "cms:read cms:write" ≡ "cms:read" ∷ "cms:write" ∷ []
claims-split_example = claims-split config evidence issued claims_run

validate_config_lem_example : Every (IsSound config) config.workloads × AreBound config [] []
validate_config_lem_example = validate_config_lem config valid_run

admit_request_lem_example : IsAdmitted config request [] evidence request
admit_request_lem_example = admit_request_lem config request [] evidence request admitted_run

bind_request-admit_request_example : bind_request response request ≡ ok tt
bind_request-admit_request_example =
    bind_request-admit_request config request [] evidence request issued response admitted_run
      claims_run response_run refl
