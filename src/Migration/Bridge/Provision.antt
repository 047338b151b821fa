-- ===== src/Migration/Bridge/Provision.antt =====
-- internal/migration/bridge.go: `Provision`, one row from DISCOVERED to PROVISIONED.
pub mod Refines
pub mod Provider
pub mod Whole
pub mod Outcome
pub mod Retry
use baobab_iam.Base.{String, Bool, true, false, not, ◌&&◌, Option, if◌then◌else◌}
use baobab_iam.Result.{Result, ok, err}
use baobab_iam.Action.{Action, pure, raise, lift, attempt, ◌>>=◌, ◌>>◌}
use baobab_iam.Migration.Errors.{Error, refused_class, because}
use baobab_iam.Migration.Types.{
  Row, IdentityClass, MigrationState, ProviderBinding, orphan_candidate, break_glass, validated,
  ready, provisioning, provisioned, credential_pending, credential_ready, verification_pending,
  verified, cutover_ready, cutover, legacy_retired, target_optional, is_state,
}
use baobab_iam.Migration.Service.{Service, apply_transition, set_target_binding}
use baobab_iam.Migration.Bridge.Targets.{
  ProvisionBridge, WorkloadCredentialProfile, provision_target,
}
use baobab_iam.Migration.Bridge.Advance.{advance_to}
use baobab_iam.Migration.Bridge.Failing.{fail}

-- `ProvisionResult`
pub record ProvisionResult : Type 0 where
  pub row : Row
  pub provider_subject : String
  pub workload_profile : WorkloadCredentialProfile
  pub already_provisioned : Bool

-- The classes that are provisioned by hand only.
unfoldable pub check_class : IdentityClass → Result Error (Unit {0})
check_class orphan_candidate = err refused_class
check_class break_glass = err refused_class
check_class _ = ok tt

unfoldable pub is_past_provisioning : MigrationState → Bool
is_past_provisioning provisioned = true
is_past_provisioning credential_pending = true
is_past_provisioning credential_ready = true
is_past_provisioning verification_pending = true
is_past_provisioning verified = true
is_past_provisioning cutover_ready = true
is_past_provisioning cutover = true
is_past_provisioning legacy_retired = true
is_past_provisioning _ = false

-- The test for a row that has nothing left to do here.
abbrev pub is_done : MigrationState → Bool
is_done s = not (target_optional s) && not (is_state s provisioning) && is_past_provisioning s

-- The answer for a row that has nothing left to do.
abbrev pub returned : Row → ProvisionResult
returned r = record {
  row = r;
  provider_subject = r.target.subject;
  workload_profile = WorkloadCredentialProfile.unlisted "";
  already_provisioned = true;
}

module _ {S : Type 0} (b : ProvisionBridge S) (parse_address : String → Option String) where
  abbrev svc : Service S
  svc = b.service

  -- The last step, when the target has been attached.
  abbrev pub finish :
      String
      → ProviderBinding × WorkloadCredentialProfile
      → Result Error Row
      → Action Error S ProvisionResult
  finish id (target, profile) (err e) = do attempt (fail svc id "set_target_failed"); raise e
  finish id (target, profile) (ok _) = do
    out ← apply_transition svc id provisioned
    pure (record {
      row = out;
      provider_subject = target.subject;
      workload_profile = profile;
      already_provisioned = false;
    })

  -- What follows the provider's answer.
  abbrev pub attach :
      String
      → Result Error (ProviderBinding × WorkloadCredentialProfile)
      → Action Error S ProvisionResult
  attach id (err e) = do attempt (fail svc id "provision_failed"); raise (because e)
  attach id (ok answer) = do
    bound ← attempt (set_target_binding svc id answer.0)
    finish id answer bound

  -- The walk to PROVISIONING, the call of the provider and what follows it.
  unfoldable pub execute : String → Action Error S ProvisionResult
  execute id = do
    advance_to svc id validated
    advance_to svc id ready
    advance_to svc id provisioning
    r ← svc.store.get id
    answer ← attempt (provision_target b parse_address r)
    attach id answer

  -- `Provision`
  unfoldable pub provision : String → Action Error S ProvisionResult
  provision id = do
    r ← svc.store.get id
    lift (check_class r.identity_class)
    if is_done r.migration_state then pure (returned r) else execute id
