-- ===== src/Migration/Bridge/Provision/Provider.antt =====
-- internal/migration/bridge.go: what making a target does to the ledger.
use baobab_iam.Base.{
  String, Bool, true, false, not, Option, none, some, ◌≡◌, refl, sym, ◌∙◌, Bool-cases, inl, inr,
  is_empty, is_blank,
}
use mathlib.Core.Path.{subst}
use baobab_iam.Result.{Result, ok, err, refuse_if}
use baobab_iam.Action.{Action, resume}
use baobab_iam.Action.Along.{IsPreorder, Along}
use baobab_iam.Migration.Errors.{
  Error, provisioner_missing, traits_source_missing, empty_subject, scopes_missing,
  audiences_missing, issuer_missing, key_missing, profile_not_allowed, source_required,
}
use baobab_iam.Migration.Types.{Row, ProviderBinding}
use baobab_iam.Migration.Store.{IsLawful}
use baobab_iam.Migration.Service.{effective_policy}
use baobab_iam.Migration.Ledger.{Reach, here}
use baobab_iam.Migration.Ledger.Refines.{ServiceEvolves}
use baobab_iam.Provider.Specs.{
  Object, ProviderIdentity, ProviderWorkload, FederatedWorkloadTrust, IdentityProvisioningSpec,
  WorkloadProvisioningSpec, FederatedWorkloadTrustSpec,
}
use baobab_iam.Provider.Validate.{
  is_nil, validate_identity_spec, validate_workload_spec, validate_federated_spec,
}
use baobab_iam.Migration.Bridge.Traits.{validate_human_traits}
use baobab_iam.Migration.Bridge.Targets.{
  ProvisionBridge, must_have, checked, listed_for, is_listed, or_else, is_federated, human_spec,
  secret_spec, federated_spec, provision_human, provision_workload_client_secret,
  provision_federated_workload, provision_workload,
}

module _ {S : Type 0} (b : ProvisionBridge S) (laws : IsLawful b.service.store) where
  open laws use {view, IsWell}

  -- The store is as well formed as before, with the same content.
  pub record Quiet (s s' : S) : Type 0 where
    pub quiet : IsWell s → IsWell s' × (view s' ≡ view s)

  -- The interfaces that the bridge calls write nothing to the ledger.
  pub record LeavesLedger : Type 0 where
    pub quiet_human :
        (f : IdentityProvisioningSpec → Action Error S (Option ProviderIdentity))
        → b.human_provisioner ≡ some f
        → (spec : IdentityProvisioningSpec) → Along Quiet (f spec)
    pub quiet_traits :
        (f : ProviderBinding → String → Action Error S Object)
        → b.human_traits ≡ some f
        → (source : ProviderBinding) (reference : String) → Along Quiet (f source reference)
    pub quiet_workload :
        (f : WorkloadProvisioningSpec → Action Error S (Option ProviderWorkload))
        → b.workload_provisioner ≡ some f
        → (spec : WorkloadProvisioningSpec) → Along Quiet (f spec)
    pub quiet_federated :
        (f : FederatedWorkloadTrustSpec → Action Error S (Option FederatedWorkloadTrust))
        → b.federated_provisioner ≡ some f
        → (spec : FederatedWorkloadTrustSpec) → Along Quiet (f spec)

  pub Quiet-order : IsPreorder Quiet
  Quiet-order = record {
    same = λ s. record { quiet = λ h. (h, refl) };
    trans = λ s t u p q. record {
      quiet = λ h. let a = p.quiet h in let c = q.quiet a.0 in (c.0, c.1 ∙ a.1);
    };
  }

  pub Quiet-Evolves : (s t : S) → Quiet s t → ServiceEvolves b.service laws s t
  Quiet-Evolves s t q = record {
    evolve = λ h.
        let a = q.quiet h in
        (a.0, subst (Reach (effective_policy b.service.policy) (view s)) (sym a.1) here);
  }

  lift-Quiet :
      {A B : Type 0} (c : Result Error A) (f : A → Action Error S B) (s : S)
      → ((a : A) → c ≡ ok a → Quiet s (f a s).1)
      → Quiet s (resume c f s).1
  lift-Quiet (ok a) f s h = h a refl
  lift-Quiet (err e) f s h = Quiet-order.same s

  pub call-Quiet :
      {A B : Type 0} (p : Result Error A × S) (f : A → Action Error S B) (s : S)
      → Quiet s p.1
      → ((a : A) → Quiet p.1 (f a p.1).1)
      → Quiet s (resume p.0 f p.1).1
  call-Quiet p f s hp hf = Quiet-order.trans s p.1 _ hp (lift-Quiet p.0 f p.1 λ a e. hf a)

  must_have_lem :
      {A : Type 0} (o : Option A) (e : Error) (a : A) → must_have o e ≡ ok a → o ≡ some a
  must_have_lem none e a h = cc
  must_have_lem (some x) e a h = cc

  must_be-Quiet :
      {B : Type 0} (wrong : Bool) (e : Error) (f : Unit {0} → Action Error S B) (s : S)
      → Quiet s (f tt s).1
      → Quiet s (resume (refuse_if wrong e) f s).1
  must_be-Quiet true e f s h = Quiet-order.same s
  must_be-Quiet false e f s h = h

  must_have-Quiet :
      {A B : Type 0} (o : Option A) (e : Error) (f : A → Action Error S B) (s : S)
      → ((a : A) → o ≡ some a → Quiet s (f a s).1)
      → Quiet s (resume (must_have o e) f s).1
  must_have-Quiet none e f s h = Quiet-order.same s
  must_have-Quiet (some a) e f s h = h a refl

  module _ (leaves : LeavesLedger) (parse_address : String → Option String) where
    pub human-Quiet : (r : Row) (s : S) → Quiet s (provision_human b parse_address r s).1
    unfolding provision_human
    human-Quiet r s = must_have-Quiet b.human_provisioner provisioner_missing _ s λ f ef.
        must_have-Quiet b.human_traits traits_source_missing _ s λ g eg.
          call-Quiet (g r.source r.source_snapshot_reference s) _ s
            ((leaves.quiet_traits g eg r.source r.source_snapshot_reference).at s)
            λ traits.
              let t = (g r.source r.source_snapshot_reference s).1 in
              lift-Quiet (validate_human_traits parse_address traits) _ t λ u e₁.
                lift-Quiet (checked (validate_identity_spec (human_spec b r traits))) _ t λ v e₂.
                  call-Quiet (f (human_spec b r traits) t) _ t
                    ((leaves.quiet_human f ef (human_spec b r traits)).at t)
                    λ answer.
                      let w = (f (human_spec b r traits) t).1 in
                      must_have-Quiet answer empty_subject _ w λ ident e₃.
                        must_be-Quiet (is_empty ident.subject) empty_subject _ w
                          (Quiet-order.same w)

    secret_Quiet :
        (r : Row) (id : String) (s : S) → Quiet s (provision_workload_client_secret b r id s).1
    unfolding provision_workload_client_secret
    secret_Quiet r id s = must_have-Quiet b.workload_provisioner provisioner_missing _ s λ f ef.
        let scopes = listed_for id b.client_secret_scopes_by_logical_id in
        let spec = secret_spec b r id scopes in
        must_be-Quiet (is_nil scopes) scopes_missing _ s (
          lift-Quiet (checked (validate_workload_spec spec)) _ s λ v e₂.
            call-Quiet (f spec s) _ s ((leaves.quiet_workload f ef spec).at s) λ answer.
              must_have-Quiet answer empty_subject _ (f spec s).1 λ w e₃.
                must_be-Quiet (is_empty w.provider_client_id) empty_subject _ (f spec s).1
                  (Quiet-order.same (f spec s).1))

    federated_Quiet :
        (f : FederatedWorkloadTrustSpec → Action Error S (Option FederatedWorkloadTrust))
        → b.federated_provisioner ≡ some f
        → (r : Row) (id : String) (s : S) → Quiet s (provision_federated_workload b f r id s).1
    unfolding provision_federated_workload
    federated_Quiet f ef r id s =
        let scopes = listed_for id b.federated_trust.scopes_by_logical_id in
        let audiences = listed_for id b.federated_trust.audiences_by_logical_id in
        let now = b.wall_clock s in
        let spec = federated_spec b r id scopes audiences now in
        must_be-Quiet (is_blank b.federated_trust.assertion_issuer) issuer_missing _ s (
          must_be-Quiet (is_nil b.federated_trust.assertion_jwk) key_missing _ s (
            must_be-Quiet (is_nil scopes) scopes_missing _ s (
              must_be-Quiet (is_nil audiences) audiences_missing _ s (
                lift-Quiet (checked (validate_federated_spec (b.check_clock s) spec)) _ s λ v e₂.
                  call-Quiet (f spec s) _ s ((leaves.quiet_federated f ef spec).at s) λ answer.
                    must_have-Quiet answer empty_subject _ (f spec s).1 λ trust e₃.
                      must_be-Quiet
                        (is_empty (or_else trust.provider_client_id trust.logical_client_id))
                        empty_subject _ (f spec s).1 (Quiet-order.same (f spec s).1)))))

    pub workload-Quiet : (r : Row) (s : S) → Quiet s (provision_workload b r s).1
    unfolding provision_workload
    workload-Quiet r s =
        let id = r.source.subject in
        must_be-Quiet (is_empty id) source_required _ s
          (elim (Bool-cases (is_listed id b.client_secret_allow_list)) [
            | inl listed ↦ rw listed (
                call-Quiet (provision_workload_client_secret b r id s) _ s (secret_Quiet r id s)
                  λ binding. Quiet-order.same _)
            | inr other ↦ rw other (
                must_be-Quiet (not (is_federated b b.default_workload_profile)) profile_not_allowed
                  _ s
                  (must_have-Quiet b.federated_provisioner provisioner_missing _ s λ f ef.
                    call-Quiet (provision_federated_workload b f r id s) _ s
                      (federated_Quiet f ef r id s) λ binding. Quiet-order.same _))
          ])
