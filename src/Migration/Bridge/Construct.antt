-- ===== src/Migration/Bridge/Construct.antt =====
-- internal/migration/bridge.go: how a bridge is made. The setters return the bridge that they change.
use baobab_iam.Base.{
  ℕ, pos, String, ◌&&◌, Option, none, List, [], ◌∷◌, is_blank, is_empty, if◌then◌else◌,
}
use Prim.Native.Char.{Char, code}
use baobab_iam.Base.{◌==◌}
use baobab_iam.Result.{Result, ok, ◌>>◌, refuse_if}
use baobab_iam.Action.{Action}
use baobab_iam.Migration.Errors.{Error, issuer_missing}
use baobab_iam.Migration.Service.{Service}
use baobab_iam.Provider.Specs.{
  ProviderIdentity, ProviderWorkload, FederatedWorkloadTrust, IdentityProvisioningSpec,
  WorkloadProvisioningSpec, FederatedWorkloadTrustSpec,
}
use baobab_iam.Migration.Bridge.Targets.{
  ProvisionBridge, FederatedTrustTemplate, federated_workload_token,
}

abbrev slash_cons : Char → String → String
slash_cons c rest = if is_empty rest && code c == 47 then String.[] else String.◌∷◌ c rest

-- `strings.TrimRight(s, "/")`
unfoldable pub trim_slashes : String → String
trim_slashes String.[] = String.[]
trim_slashes (String.◌∷◌ c s) = slash_cons c (trim_slashes s)

-- The zero value of the template.
abbrev pub no_template : FederatedTrustTemplate
no_template = record {
  assertion_issuer = "";
  assertion_subject_for = none;
  assertion_jwk = [];
  trust_ttl = pos 0;
  scopes_by_logical_id = [];
  audiences_by_logical_id = [];
}

module _ {S : Type 0} where
  -- `NewProvisionBridge`; `wall_clock` and `check_clock` stand for `time.Now`.
  unfoldable pub new_provision_bridge :
      (S → ℕ)
      → (S → ℕ)
      → Service S
      → String
      → Option (IdentityProvisioningSpec → Action Error S (Option ProviderIdentity))
      → Option (WorkloadProvisioningSpec → Action Error S (Option ProviderWorkload))
      → Result Error (ProvisionBridge S)
  new_provision_bridge wall_clock check_clock svc target_issuer human workload = do
    refuse_if (is_blank target_issuer) issuer_missing
    ok (record {
      service = svc;
      human_provisioner = human;
      human_traits = none;
      workload_provisioner = workload;
      federated_provisioner = none;
      target_issuer = trim_slashes target_issuer;
      target_provider = "ory";
      default_workload_profile = federated_workload_token;
      client_secret_allow_list = [];
      client_secret_scopes_by_logical_id = [];
      federated_trust = no_template;
      wall_clock = wall_clock;
      check_clock = check_clock;
    })

  -- `WithFederated`
  unfoldable pub with_federated :
      Option (FederatedWorkloadTrustSpec → Action Error S (Option FederatedWorkloadTrust))
      → FederatedTrustTemplate
      → ProvisionBridge S
      → ProvisionBridge S
  with_federated fed trust b = record b { federated_provisioner = fed; federated_trust = trust }

  -- `AllowClientSecret`; a new entry in front hides an older one of the same key.
  unfoldable pub allow_client_secret : String → List String → ProvisionBridge S → ProvisionBridge S
  allow_client_secret id scopes b = record b {
    client_secret_allow_list = id ∷ b.client_secret_allow_list;
    client_secret_scopes_by_logical_id = (id, scopes) ∷ b.client_secret_scopes_by_logical_id;
  }
