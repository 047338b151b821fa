-- ===== src/Migration/Bridge/Targets/Laws.antt =====
-- internal/migration/bridge.go: which requests reach the provider. That a provider is never called
-- with a bad request is stated as: two providers that agree on the good ones cannot be told apart.
use baobab_iam.Base.{String, false, Option, some, ◌≡◌, refl, is_blank, is_empty}
use baobab_iam.Result.{Result, ok, err, refuse_if}
use baobab_iam.Action.{Action, resume}
use baobab_iam.Migration.Errors.{
  Error, source_required, issuer_missing, key_missing, scopes_missing, audiences_missing,
  traits_source_missing,
}
use baobab_iam.Migration.Types.{Row}
use baobab_iam.Provider.Errors.{ProviderError}
use baobab_iam.Provider.Specs.{
  ProviderIdentity, FederatedWorkloadTrust, IdentityProvisioningSpec, FederatedWorkloadTrustSpec,
  ProviderWorkload, WorkloadProvisioningSpec,
}
use baobab_iam.Provider.Validate.{
  is_nil, business_fields, validate_federated_spec, validate_identity_spec,
}
use baobab_iam.Provider.Validate.Laws.{
  IsPublicTrust, HasNone, validate_federated_spec_lem, validate_identity_spec_lem,
}
use baobab_iam.Migration.Bridge.Traits.{validate_human_traits}
use baobab_iam.Migration.Bridge.Targets.{
  ProvisionBridge, checked, listed_for, federated_spec, provision_federated_workload, human_spec,
  provision_human, must_have, binding_of, provision_workload, is_listed, target_provider_name,
}

checked_lem : (c : Result ProviderError (Unit {0})) (u : Unit {0}) → checked c ≡ ok u → c ≡ ok tt
checked_lem (ok v) u h = refl
checked_lem (err e) u h = cc

-- Continuations that agree wherever the check has passed.
lift_agree :
    {A B S : Type 0} (c : Result Error A) (f g : A → Action Error S B) (s : S)
    → ((a : A) → c ≡ ok a → f a s ≡ g a s)
    → resume c f s ≡ resume c g s
lift_agree (ok a) f g s h = h a refl
lift_agree (err e) f g s h = refl

module _ {S : Type 0} (b : ProvisionBridge S) where
  -- A provider of federated trusts is called at most with a request that holds no private key material,
  -- has not run out by the clock of the check and has a scope and an audience: two providers that
  -- agree on such requests give the same run.
  pub only_public_trusts :
      (f g : FederatedWorkloadTrustSpec → Action Error S (Option FederatedWorkloadTrust)) (r : Row)
      (id : String) (s : S)
      → ((spec : FederatedWorkloadTrustSpec)
          → IsPublicTrust (b.check_clock s) spec
          → f spec s ≡ g spec s)
      → provision_federated_workload b f r id s ≡ provision_federated_workload b g r id s
  unfolding provision_federated_workload
  only_public_trusts f g r id s agree =
      let scopes = listed_for id b.federated_trust.scopes_by_logical_id in
      let audiences = listed_for id b.federated_trust.audiences_by_logical_id in
      let spec = federated_spec b r id scopes audiences (b.wall_clock s) in
      lift_agree (refuse_if (is_blank b.federated_trust.assertion_issuer) issuer_missing) _ _ s
        λ _ _.
          lift_agree (refuse_if (is_nil b.federated_trust.assertion_jwk) key_missing) _ _ s λ _ _.
            lift_agree (refuse_if (is_nil scopes) scopes_missing) _ _ s λ _ _.
              lift_agree (refuse_if (is_nil audiences) audiences_missing) _ _ s λ _ _.
                lift_agree (checked (validate_federated_spec (b.check_clock s) spec)) _ _ s
                  λ u valid.
                    let good =
                      validate_federated_spec_lem (b.check_clock s) spec (checked_lem _ u valid) in
                    rw (agree spec good)

  -- A provider of identities is called at most with a request that has traits and no business field
  -- among them: two providers that agree on such requests give the same run.
  pub only_clean_identities :
      (f g : IdentityProvisioningSpec → Action Error S (Option ProviderIdentity))
      (parse_address : String → Option String) (r : Row) (s : S)
      → ((spec : IdentityProvisioningSpec) (t : S)
          → is_nil spec.traits ≡ false
          → HasNone business_fields spec.traits
          → f spec t ≡ g spec t)
      → provision_human (record b { human_provisioner = some f }) parse_address r s
        ≡ provision_human (record b { human_provisioner = some g }) parse_address r s
  unfolding provision_human binding_of
  only_clean_identities f g parse_address r s agree =
      lift_agree (must_have b.human_traits traits_source_missing) _ _ s λ load _.
        let p = load r.source r.source_snapshot_reference s in
        lift_agree p.0 _ _ p.1 λ traits _.
          lift_agree (validate_human_traits parse_address traits) _ _ p.1 λ _ _.
            let spec = human_spec b r traits in
            lift_agree (checked (validate_identity_spec spec)) _ _ p.1 λ u valid.
              let (some_traits, clean) = validate_identity_spec_lem spec (checked_lem _ u valid) in
              rw (agree spec p.1 some_traits clean)

  -- A workload that is not on the allow-list is never given a client with a secret: the provider of
  -- such clients is not called, so that it makes no difference which one it is.
  pub secret_only_if_allowed :
      (f g : Option (WorkloadProvisioningSpec → Action Error S (Option ProviderWorkload))) (r : Row)
      (s : S)
      → is_listed r.source.subject b.client_secret_allow_list ≡ false
      → provision_workload (record b { workload_provisioner = f }) r s
        ≡ provision_workload (record b { workload_provisioner = g }) r s
  unfolding provision_workload provision_federated_workload binding_of target_provider_name
  secret_only_if_allowed f g r s refused =
      lift_agree (refuse_if (is_empty r.source.subject) source_required) _ _ s λ _ _. rw refused
