-- ===== src/Token/Tests/Humans.antt =====
-- Runs of internal/tokenprofile for a human buyer, to which its theorems apply.
use Prim.Native.Char.{nul}
use mathlib.Core.List.{Perm}
use baobab_iam.Base.{
  ℕ, zero, suc, pos, String, List, [], ◌∷◌, some, ◌≡◌, refl, trim_left, trim_right, trim_space,
  is_space, contains, find_key, has_prefix, has_code, contains_any, all_codes, join,
}
use baobab_iam.Result.{ok, for_each}
use baobab_iam.Token.Types.{HumanTokenProfile, HumanEvidence, HumanConsentSeal, HumanClaims}
use baobab_iam.Token.Canonical.{is_token_code, single_issuance_token}
use baobab_iam.Token.Hold.{
  reserved_tms_client, reserved_tms_audience, tms_proposal_hold, tms_grant_hold,
}
use baobab_iam.Token.Human.Profile.{scope_audiences}
use baobab_iam.Token.Profile.{workload_or_zero, workload_of, is_registered}
use baobab_iam.Token.Human.Seal.{
  insert_sorted, sort_texts, is_bad_consent_value, consent_seal_message, equal_texts, sealed_parts,
  seal_human_consent, verify_human_consent,
}
use baobab_iam.Token.Human.{
  pick_scopes, is_issued_for, human_audience, human_consent, check_amr, is_code_exchange,
  effective_scopes, claims_for, human_claims,
}
use baobab_iam.Token.Human.Laws.{IsActiveClient, IsConsented, human_consent_lem}
use baobab_iam.Token.Human.Issued.{IsHumanIssued, human_claims_lem, human_claims-sealed}
use baobab_iam.Token.Tests.{config}

-- A keyed hash that no two texts share.
abbrev mac : List ℕ → String → String
mac key m = m

abbrev repeat : ℕ → List ℕ
repeat zero = []
repeat (suc n) = 7 ∷ repeat n

abbrev key : List ℕ
key = repeat 32

abbrev asked : List String
asked = "trade:order" ∷ "openid" ∷ []

abbrev trade : List String
trade = "baobab-trade" ∷ []

abbrev seal : HumanConsentSeal
seal = record {
  audience = trade;
  seal = join nul (sealed_parts "consent-1" "portal" "anna" ("openid" ∷ "trade:order" ∷ []) trade);
}

abbrev evidence : HumanEvidence
evidence = record {
  client_id = "portal";
  subject = "anna";
  grant = "authorization_code";
  consent_request_id = "consent-1";
  consent = some seal;
  requested_scopes = asked;
  granted_scopes = [];
  granted_audiences = [];
  acr = "aal1";
  amr = "pwd" ∷ [];
  auth_time = pos 100;
}

abbrev issued : HumanClaims
issued = record {
  actor_type = "human";
  azp = "portal";
  acr = "aal1";
  auth_time = pos 100;
  amr = some ("pwd" ∷ []);
}

consent_run : human_consent config "portal" asked ≡ ok trade
unfolding human_consent workload_of workload_or_zero is_registered find_key tms_proposal_hold
    reserved_tms_client reserved_tms_audience single_issuance_token all_codes is_token_code for_each
    has_prefix contains pick_scopes human_audience is_issued_for scope_audiences
consent_run = refl

sealed_run : seal_human_consent mac key "consent-1" "portal" "anna" asked trade ≡ ok seal
unfolding seal_human_consent consent_seal_message sort_texts insert_sorted for_each
    is_bad_consent_value trim_space trim_left trim_right is_space contains_any has_code
sealed_run = refl

claims_run : human_claims mac config evidence key ≡ ok issued
unfolding human_claims claims_for workload_of workload_or_zero is_registered find_key
    tms_proposal_hold tms_grant_hold reserved_tms_client reserved_tms_audience single_issuance_token
    all_codes is_token_code for_each has_prefix contains pick_scopes human_audience is_issued_for
    scope_audiences is_code_exchange effective_scopes trim_space trim_left trim_right is_space
    verify_human_consent equal_texts consent_seal_message sort_texts insert_sorted
    is_bad_consent_value contains_any has_code check_amr join
claims_run = refl

human_consent_lem_example : (h : HumanTokenProfile) × IsConsented config "portal" asked trade h
human_consent_lem_example = human_consent_lem config "portal" asked trade consent_run

human_claims_lem_example :
    (h : HumanTokenProfile) × (s : HumanConsentSeal) × IsActiveClient config "portal" h
    × IsHumanIssued mac key (workload_of config "portal") evidence issued h s
human_claims_lem_example = human_claims_lem mac key config evidence issued claims_run

human_claims-sealed_example :
    ("consent-1" ≡ evidence.consent_request_id)
    × ("portal" ≡ evidence.client_id)
    × ("anna" ≡ evidence.subject)
    × Perm asked (effective_scopes evidence)
human_claims-sealed_example =
    human_claims-sealed mac key config evidence issued seal "consent-1" "portal" "anna" asked trade
      (λ m m' p. p) refl sealed_run claims_run
