-- ===== src/Token/Hold.antt =====
-- internal/tokenprofile/tms_provisional.go: what is reserved for TMS is issued to nobody.
use baobab_iam.Base.{String, Bool, not, ◌||◌, List, Option, none, some, str_eq, has_prefix}
use baobab_iam.Result.{ok, ◌>>◌, refuse_if, for_each}
use baobab_iam.Token.Errors.{
  noncanonical_token, reserved_audience, reserved_scope, reserved_client, reserved_requester,
}
use baobab_iam.Token.Types.{HumanTokenProfile, Workload, Evidence}
use baobab_iam.Token.Canonical.{Check, single_issuance_token}

-- `reservedTMSClient`
unfoldable pub reserved_tms_client : String → Bool
reserved_tms_client id =
    str_eq id "baobab-tms" || has_prefix id "baobab-tms-" || has_prefix id "baobab-dev-tms-"

-- `reservedTMSAudience`
unfoldable pub reserved_tms_audience : String → Bool
reserved_tms_audience audience = str_eq audience "baobab-tms" || has_prefix audience "baobab-tms-"

-- `strings.HasPrefix(scope, "tms:")`
abbrev pub reserved_tms_scope : String → Bool
reserved_tms_scope scope = has_prefix scope "tms:"

-- The checks on one value, in the order in which the code makes them.
abbrev pub single : String → Check
single value = refuse_if (not (single_issuance_token value)) noncanonical_token

abbrev pub open_audience : String → Check
open_audience a = do single a; refuse_if (reserved_tms_audience a) reserved_audience

abbrev pub open_scope : String → Check
open_scope s = do single s; refuse_if (reserved_tms_scope s) reserved_scope

-- The pass over one entry of the human scope mapping.
abbrev open_mapping : (String × List String) → Check
open_mapping (scope, audiences) = do
  single scope
  for_each audiences open_audience
  refuse_if (reserved_tms_scope scope) reserved_scope

abbrev open_mappings : Option (List (String × List String)) → Check
open_mappings none = ok tt
open_mappings (some m) = for_each m open_mapping

abbrev open_profile : Option HumanTokenProfile → Check
open_profile none = ok tt
open_profile (some h) = do for_each h.audiences open_audience; for_each h.scopes open_scope

-- `tmsProposalHold`
unfoldable pub tms_proposal_hold : String → Workload → Check
unfolding reserved_tms_client reserved_tms_audience
tms_proposal_hold id p = do
  for_each p.scopes single
  for_each p.audiences single
  refuse_if (reserved_tms_client id) (reserved_client id)
  for_each p.audiences (λ a. refuse_if (reserved_tms_audience a) reserved_audience)
  for_each p.scopes (λ s. refuse_if (reserved_tms_scope s) reserved_scope)
  open_mappings p.human_scope_audiences
  open_profile p.human_token_profile

-- `tmsGrantHold`
unfoldable pub tms_grant_hold : Evidence → Check
unfolding reserved_tms_client
tms_grant_hold e = do
  refuse_if (reserved_tms_client e.client_id) reserved_requester
  for_each e.granted_audiences open_audience
  for_each e.requested_scopes open_scope
  for_each e.granted_scopes open_scope
