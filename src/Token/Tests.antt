-- ===== src/Token/Tests.antt =====
-- A registry with two workloads, and the evidence of a workload token and of a human token.
mod Workloads
mod Humans
use baobab_iam.Base.{ℕ, pos, String, List, [], ◌∷◌, Option, none, some, ◌++◌}
use baobab_iam.Token.Types.{
  HumanTokenProfile, Workload, Config, Evidence, HumanEvidence, HumanConsentSeal, WorkloadClaims,
  WorkloadTokenRequest, WorkloadTokenResponse,
}

abbrev pub reporter : Workload
reporter = record {
  environment = "staging";
  credential_type = "client_credentials";
  status = "ACTIVE";
  scopes = "cms:read" ∷ "cms:write" ∷ [];
  audiences = "cms" ∷ [];
  human_token_profile = none;
  human_scope_audiences = none;
}

abbrev pub buyers : HumanTokenProfile
buyers = record {
  purpose = "ESTATE_BFF_BUYER";
  audiences = "baobab-trade" ∷ [];
  scopes = "trade:order" ∷ [];
}

abbrev pub portal : Workload
portal = record {
  environment = "staging";
  credential_type = "client_credentials";
  status = "ACTIVE";
  scopes = "trade:buyer-handoff" ∷ [];
  audiences = "baobab-trade" ∷ [];
  human_token_profile = some buyers;
  human_scope_audiences = some (("trade:order", "baobab-trade" ∷ []) ∷ []);
}

abbrev pub config : Config
config = record {
  shared_commit = "0123456789abcdef0123456789abcdef01234567";
  environment = "staging";
  workloads = ("reporter", reporter) ∷ ("portal", portal) ∷ [];
  bindings = [];
}

abbrev pub evidence : Evidence
evidence = record {
  client_id = "reporter";
  subject = "reporter";
  grant = "client_credentials";
  assertion_issuer = "";
  assertion_subject = "";
  requested_scopes = "cms:write" ∷ "cms:read" ∷ [];
  granted_scopes = "cms:read" ∷ "cms:write" ∷ [];
  granted_audiences = "cms" ∷ [];
}

abbrev pub issued : WorkloadClaims
issued = record { actor_type = "workload"; azp = "reporter"; scope = "cms:read cms:write" }

abbrev pub request : WorkloadTokenRequest
request = record {
  workload_id = "reporter";
  audience = "cms";
  scopes = some ("cms:read" ∷ "cms:write" ∷ []);
}

abbrev pub response : WorkloadTokenResponse
response = record {
  access_token = "0123456789abcdef0123456789";
  token_type = "Bearer";
  expires_in = pos 600;
  scope = some "cms:read cms:write";
}
