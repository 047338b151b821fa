-- ===== src/Migration/Tests/Operations.antt =====
-- internal/migration: the operations on a ledger with one person.
use baobab_iam.Base.{arith}
use baobab_iam.Migration.Types.{validated, provisioning}
use baobab_iam.Migration.Service.{register, apply_transition, set_target_binding, trimmed}
use baobab_iam.Migration.Service.Effect.{
  Ends, Advanced, Bound, apply_transition-Ends, set_target_binding-Ends,
}
use baobab_iam.Migration.Ledger.Refines.{IsReached, service_refines}
use baobab_iam.Migration.Bridge.Advance.{advance_loop}
use baobab_iam.Migration.Bridge.Advance.Enough.{Runs, advance_loop_enough}
use baobab_iam.Migration.Stages.Credential.{apply_credential, mark_ready}
use baobab_iam.Migration.Stages.Verification.{apply_verification, mark_verified}
use baobab_iam.Migration.Stages.Refines.{stages_refine}
use baobab_iam.Migration.Tests.{person, new_target, svc, ledger, ledger-IsKeyed, memory_laws}

service_refines_example :
    IsReached svc memory_laws ledger (register svc person ledger).1
    × IsReached svc memory_laws ledger (set_target_binding svc "mig-1" new_target ledger).1
service_refines_example =
    service_refines svc memory_laws person "mig-1" new_target ledger ledger-IsKeyed

stages_refine_example :
    IsReached svc memory_laws ledger (apply_credential svc "mig-1" ledger).1
    × IsReached svc memory_laws ledger (mark_ready svc "mig-1" ledger).1
    × IsReached svc memory_laws ledger (apply_verification svc "mig-1" ledger).1
    × IsReached svc memory_laws ledger (mark_verified svc "mig-1" ledger).1
stages_refine_example = stages_refine svc memory_laws "mig-1" ledger ledger-IsKeyed

apply_transition-Ends_example :
    Ends svc memory_laws
      (Advanced svc memory_laws "mig-1" validated (memory_laws.view ledger))
      (memory_laws.view ledger)
      (apply_transition svc "mig-1" validated ledger)
apply_transition-Ends_example =
    apply_transition-Ends svc memory_laws "mig-1" validated ledger ledger-IsKeyed

set_target_binding-Ends_example :
    Ends svc memory_laws
      (Bound svc memory_laws "mig-1" (trimmed new_target) (memory_laws.view ledger))
      (memory_laws.view ledger)
      (set_target_binding svc "mig-1" new_target ledger)
set_target_binding-Ends_example =
    set_target_binding-Ends svc memory_laws "mig-1" new_target ledger ledger-IsKeyed

advance_loop_enough_example :
    Runs svc "mig-1" provisioning
      (advance_loop svc 9 "mig-1" provisioning person ledger)
      person
      ledger
advance_loop_enough_example =
    advance_loop_enough svc memory_laws 9 "mig-1" provisioning person ledger (omega arith)
      ledger-IsKeyed
