-- ===== src/Migration/Bridge/Provision/Whole.antt =====
-- internal/migration/bridge.go: a whole run of the bridge, as steps of the ledger.
use baobab_iam.Base.{String, Option}
use baobab_iam.Result.{Result, ok, err}
use baobab_iam.Action.Along.{Along}
use baobab_iam.Migration.Errors.{Error}
use baobab_iam.Migration.Types.{
  Row, IdentityClass, ProviderBinding, validated, ready, provisioning, provisioned, human,
  privileged_human, federated_human, test_or_nonproduction, workload, service_integration,
}
use baobab_iam.Migration.Store.{IsLawful}
use baobab_iam.Migration.Service.{apply_transition, set_target_binding}
use baobab_iam.Migration.Ledger.Refines.{
  get-Evolves, lift-resume-Evolves, ServiceEvolves, apply_transition-Evolves, IsReached,
  set_target_binding-Evolves,
}
use baobab_iam.Migration.Bridge.Targets.{
  ProvisionBridge, WorkloadCredentialProfile, provision_human, provision_target, provision_person,
  by_class,
}
use baobab_iam.Migration.Bridge.Advance.{advance_to}
use baobab_iam.Migration.Bridge.Provision.{check_class, is_done, attach, finish, execute, provision}
use baobab_iam.Migration.Bridge.Provision.Refines.{
  then_Evolves, if_Evolves, order, advance_to-Evolves, fail-Evolves,
}
use baobab_iam.Migration.Bridge.Provision.Provider.{
  Quiet, Quiet-order, Quiet-Evolves, call-Quiet, LeavesLedger, human-Quiet, workload-Quiet,
}

module _ {S : Type 0} (b : ProvisionBridge S) (laws : IsLawful b.service.store)
    (leaves : LeavesLedger b laws) (parse_address : String → Option String) where
  person-Quiet : (r : Row) (s : S) → Quiet b laws s (provision_person b parse_address r s).1
  person-Quiet r s =
      call-Quiet b laws (provision_human b parse_address r s) _ s
        (human-Quiet b laws leaves parse_address r s) λ binding. (Quiet-order b laws).same _

  class-Quiet :
      (class : IdentityClass) (r : Row) (s : S)
      → Quiet b laws s (by_class b parse_address class r s).1
  class-Quiet human r s = person-Quiet r s
  class-Quiet privileged_human r s = person-Quiet r s
  class-Quiet federated_human r s = person-Quiet r s
  class-Quiet test_or_nonproduction r s = person-Quiet r s
  class-Quiet workload r s = workload-Quiet b laws leaves parse_address r s
  class-Quiet service_integration r s = workload-Quiet b laws leaves parse_address r s
  class-Quiet _ r s = (Quiet-order b laws).same s

  pub target-Quiet : (r : Row) (s : S) → Quiet b laws s (provision_target b parse_address r s).1
  unfolding provision_target
  target-Quiet r s = class-Quiet r.identity_class r s

  abbrev R : S → S → Type 0
  R = ServiceEvolves b.service laws

  same : (s : S) → R s s
  same s = (order b.service laws).same s

  finish-Evolves :
      (id : String) (answer : ProviderBinding × WorkloadCredentialProfile)
      (bound : Result Error Row) (s : S)
      → R s (finish b parse_address id answer bound s).1
  finish-Evolves id (target, profile) (err e) s = (fail-Evolves b.service laws id _).at s
  finish-Evolves id (target, profile) (ok r) s =
      then_Evolves b.service laws (apply_transition b.service id provisioned s) _ s
        ((apply_transition-Evolves b.service laws id provisioned).at s) λ out t. same t

  attach-Evolves :
      (id : String) (answer : Result Error (ProviderBinding × WorkloadCredentialProfile)) (s : S)
      → R s (attach b parse_address id answer s).1
  attach-Evolves id (err e) s = (fail-Evolves b.service laws id _).at s
  attach-Evolves id (ok answer) s =
      let p = set_target_binding b.service id answer.0 s in
      (order b.service laws).trans s p.1 _
        ((set_target_binding-Evolves b.service laws id answer.0).at s)
        (finish-Evolves id answer p.0 p.1)

  execute-Evolves : (id : String) (s : S) → R s (execute b parse_address id s).1
  unfolding execute
  execute-Evolves id s =
      then_Evolves b.service laws (advance_to b.service id validated s) _ s
        ((advance_to-Evolves b.service laws id validated).at s)
        λ _ t.
          then_Evolves b.service laws (advance_to b.service id ready t) _ t
            ((advance_to-Evolves b.service laws id ready).at t)
            λ _ u.
              then_Evolves b.service laws (advance_to b.service id provisioning u) _ u
                ((advance_to-Evolves b.service laws id provisioning).at u)
                λ _ v.
                  then_Evolves b.service laws (b.service.store.get id v) _ v
                    ((get-Evolves laws _ id).at v)
                    λ r w.
                      let p = provision_target b parse_address r w in
                      (order b.service laws).trans w p.1 _
                        (Quiet-Evolves b laws w p.1 (target-Quiet r w)) (attach-Evolves id p.0 p.1)

  pub provision-Evolves : (id : String) → Along R (provision b parse_address id)
  unfolding provision
  provision-Evolves id = record {
    at = λ s.
        then_Evolves b.service laws (b.service.store.get id s) _ s ((get-Evolves laws _ id).at s)
          λ r t. lift-resume-Evolves laws _ (check_class r.identity_class) _ t λ _ admitted.
            if_Evolves b.service laws (is_done r.migration_state) _ (execute b parse_address id) t
              (same t) (execute-Evolves id t);
  }

  -- From a well-formed store `Provision` leads to a well-formed store along ledger steps under the
  -- policy of the service, also where it fails half way, as long as the provider and the source of
  -- traits write nothing to the ledger.
  pub provision_refines :
      (id : String) (s : S)
      → laws.IsWell s
      → IsReached b.service laws s (provision b parse_address id s).1
  provision_refines id s h = ((provision-Evolves id).at s).evolve h
