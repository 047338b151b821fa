-- ===== src/Token/Types.antt =====
-- internal/tokenprofile: the projected registry, the evidence of the provider and the claims issued. A
-- Go map is an association list, and a pointer or a map that may be nil is an `Option`.
use baobab_iam.Base.{ℤ, String, List, [], Option, none}

-- `HumanTokenProfile`
pub record HumanTokenProfile : Type 0 where
  pub purpose : String
  pub audiences : List String
  pub scopes : List String

-- `Workload`
pub record Workload : Type 0 where
  pub environment : String
  pub credential_type : String
  pub status : String
  pub scopes : List String
  pub audiences : List String
  pub human_token_profile : Option HumanTokenProfile
  pub human_scope_audiences : Option (List (String × List String))

-- `Workload{}`, which a lookup of a missing key returns.
abbrev pub zero_workload : Workload
zero_workload = record {
  environment = "";
  credential_type = "";
  status = "";
  scopes = [];
  audiences = [];
  human_token_profile = none;
  human_scope_audiences = none;
}

-- `Binding`
pub record Binding : Type 0 where
  pub issuer : String
  pub subject : String

-- `Config`
pub record Config : Type 0 where
  pub shared_commit : String
  pub environment : String
  pub workloads : List (String × Workload)
  pub bindings : List (String × Binding)

-- `Evidence`
pub record Evidence : Type 0 where
  pub client_id : String
  pub subject : String
  pub grant : String
  pub assertion_issuer : String
  pub assertion_subject : String
  pub requested_scopes : List String
  pub granted_scopes : List String
  pub granted_audiences : List String

-- The claims that `Claims` returns.
pub record WorkloadClaims : Type 0 where
  pub actor_type : String
  pub azp : String
  pub scope : String

-- `HumanConsentSeal`
pub record HumanConsentSeal : Type 0 where
  pub audience : List String
  pub seal : String

-- `HumanEvidence`
pub record HumanEvidence : Type 0 where
  pub client_id : String
  pub subject : String
  pub grant : String
  pub consent_request_id : String
  pub consent : Option HumanConsentSeal
  pub requested_scopes : List String
  pub granted_scopes : List String
  pub granted_audiences : List String
  pub acr : String
  pub amr : List String
  pub auth_time : ℤ

-- The claims that `HumanClaims` returns; `amr` is absent where the evidence has none.
pub record HumanClaims : Type 0 where
  pub actor_type : String
  pub azp : String
  pub acr : String
  pub auth_time : ℤ
  pub amr : Option (List String)

-- `WorkloadTokenRequest`; `scopes` is nil where the request has none.
pub record WorkloadTokenRequest : Type 0 where
  pub workload_id : String
  pub audience : String
  pub scopes : Option (List String)

-- `WorkloadTokenResponse`
pub record WorkloadTokenResponse : Type 0 where
  pub access_token : String
  pub token_type : String
  pub expires_in : ℤ
  pub scope : Option String
