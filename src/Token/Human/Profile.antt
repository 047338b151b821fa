-- ===== src/Token/Human/Profile.antt =====
-- internal/tokenprofile/human.go: `HumanTokenProfile.validate`.
use baobab_iam.Base.{
  String, not, ◌||◌, List, [], ◌∷◌, Option, none, some, str_eq, contains, find_key, length, ◌==◌,
  if◌then◌else◌,
}
use baobab_iam.Result.{◌>>◌, refuse_if, for_each}
use baobab_iam.Provider.Validate.{is_nil}
use baobab_iam.Token.Errors.{
  wrong_purpose, not_confidential, no_handoff_scope, empty_profile, noncanonical_profile,
  control_plane_audience, not_a_resource_scope, no_registry_audience, audience_outside_profile,
  unreached_audience,
}
use baobab_iam.Token.Types.{HumanTokenProfile, Workload}
use baobab_iam.Token.Canonical.{Check, each_canonical}
use baobab_iam.Token.Sets.{subset}
use baobab_iam.Token.Native.{buyer_handoff_scope}

abbrev pub oidc_scopes : List String
oidc_scopes = "openid" ∷ "profile" ∷ "email" ∷ "offline_access" ∷ []

-- A map that may be nil, read as the empty one.
abbrev pub entries : Option (List (String × List String)) → List (String × List String)
entries none = []
entries (some m) = m

-- `workload.HumanScopeAudiences[scope]`, nil for a missing key.
abbrev pub or_empty : Option (List String) → List String
or_empty none = []
or_empty (some xs) = xs

unfoldable pub scope_audiences : Workload → String → List String
unfolding find_key
scope_audiences p scope = or_empty (find_key scope (entries p.human_scope_audiences))

-- The keys of `reached` after some more of them.
unfoldable pub reach_all : List String → List String → List String
reach_all reached [] = reached
reach_all reached (a ∷ rest) =
    let again = reach_all reached rest in
    let new = reach_all (a ∷ reached) rest in if contains reached a then again else new

unfoldable pub reached_by : Workload → List String → List String → List String
unfolding reach_all scope_audiences
reached_by p reached [] = reached
reached_by p reached (scope ∷ rest) =
    reached_by p (reach_all reached (scope_audiences p scope)) rest

-- `len(values) == 0`, and the loop over the values.
abbrev profile_values : List String → Check
profile_values values = do
  refuse_if (is_nil values) empty_profile
  each_canonical noncanonical_profile [] values

-- `HumanTokenProfile.validate`
unfoldable pub validate_human_profile : HumanTokenProfile → Workload → Check
unfolding scope_audiences reached_by
validate_human_profile p w = do
  refuse_if (not (str_eq p.purpose "ESTATE_BFF_BUYER")) wrong_purpose
  refuse_if (not (str_eq w.credential_type "client_credentials")) not_confidential
  refuse_if (not (contains w.scopes buyer_handoff_scope)) no_handoff_scope
  profile_values p.audiences
  profile_values p.scopes
  refuse_if (contains p.audiences "baobab-control-plane") control_plane_audience
  for_each p.scopes
      (λ s. refuse_if (contains oidc_scopes s || str_eq s buyer_handoff_scope) not_a_resource_scope)
  refuse_if (not (length (entries w.human_scope_audiences) == length p.scopes)) no_registry_audience
  for_each p.scopes (λ s.
      refuse_if (is_nil (scope_audiences w s) || not (subset (scope_audiences w s) p.audiences))
        (audience_outside_profile s))
  refuse_if (not (length (reached_by w [] p.scopes) == length p.audiences)) unreached_audience
