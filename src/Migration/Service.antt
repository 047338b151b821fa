-- ===== src/Migration/Service.antt =====
-- internal/migration/service.go and policy.go: the operations on the ledger by way of its store. The
-- state `S` of the store is also the world in which the clock is read.
pub mod Effect
use baobab_iam.Base.{
  ℕ, String, Bool, true, false, ◌||◌, Option, none, some, is_empty, is_blank, trim_space, ◌==◌,
  if◌then◌else◌,
}
use baobab_iam.Result.{Result, ok, err, refuse_if}
use baobab_iam.Action.{Action, lift, gets, attempt, ◌>>=◌, ◌>>◌}
use baobab_iam.Migration.Errors.{
  Error, is_not_found, already_exists, target_incomplete, policy_denied, because,
}
use baobab_iam.Migration.Types.{
  Row, MigrationState, ProviderBinding, is_state, discovered, provisioning, ready, verified,
  cutover, legacy_retired,
}
use baobab_iam.Migration.Validate.{validate_structural}
use baobab_iam.Migration.State.{transition}
use baobab_iam.Migration.Store.{RecordStore}

-- `PolicyGate`: the row's id, and the states before and after.
abbrev pub PolicyGate : Type 0
PolicyGate = String → MigrationState → MigrationState → Result Error (Unit {0})

-- `PhaseCPolicyGate`
unfoldable pub phase_c_policy_gate : PolicyGate
phase_c_policy_gate id from cutover = err policy_denied
phase_c_policy_gate id from legacy_retired = err policy_denied
phase_c_policy_gate id from _ = ok tt

-- `AllowAllPolicyGate`
unfoldable pub allow_all_policy_gate : PolicyGate
allow_all_policy_gate id from to = ok tt

-- `Service`; `now` is the reading of the clock in a state.
pub record Service (S : Type 0) : Type 0 where
  pub store : RecordStore S
  pub policy : Option PolicyGate
  pub now : S → ℕ

-- A nil policy is the one of Phase C.
abbrev pub effective_policy : Option PolicyGate → PolicyGate
effective_policy none = phase_c_policy_gate
effective_policy (some gate) = gate

abbrev or_now : Option ℕ → ℕ → Option ℕ
or_now none n = some n
or_now (some t) n = some t

-- `Service.stamp`
unfoldable pub stamp : ℕ → MigrationState → Row → Row
stamp n provisioning r = record r { started_at = or_now r.started_at n }
stamp n ready r = record r { started_at = or_now r.started_at n }
stamp n verified r = record r { verified_at = some n }
stamp n cutover r = record r { cutover_at = some n }
stamp n legacy_retired r = record r { retired_at = some n }
stamp n _ r = r

-- The answer of `Get` that lets a row be created.
abbrev pub must_be_absent : Result Error Row → Result Error (Unit {0})
must_be_absent (ok _) = err already_exists
must_be_absent (err e) = if is_not_found e then ok tt else err (because e)

-- The defaults that `Register` fills in.
unfoldable pub with_defaults : ℕ → Row → Row
with_defaults n r =
    let r' =
      if is_state r.migration_state (MigrationState.unlisted "")
      then record r { migration_state = discovered }
      else r in
    if r'.created_at == 0 then record r' { created_at = n } else r'

-- The result of `Transition`, which has moved the caller's copy of the row.
abbrev pub moved_row : Result Error (Unit {0}) × Row → Result Error Row
moved_row (ok _, r) = ok r
moved_row (err e, r) = err e

unfoldable pub trimmed : ProviderBinding → ProviderBinding
trimmed t = record {
  provider = trim_space t.provider;
  issuer = trim_space t.issuer;
  subject = trim_space t.subject;
}

abbrev pub must_be_complete : ProviderBinding → Result Error (Unit {0})
must_be_complete t =
    refuse_if (is_empty t.issuer || is_empty t.subject || is_empty t.provider) target_incomplete

module _ {S : Type 0} (svc : Service S) where
  -- `Service.Register`
  unfoldable pub register : Row → Action Error S Row
  register row = do
    n ← gets svc.now
    let r = with_defaults n row
    lift (validate_structural r)
    found ← attempt (svc.store.get r.migration_id)
    lift (must_be_absent found)
    svc.store.put r

  -- `Service.ApplyTransition`
  unfoldable pub apply_transition : String → MigrationState → Action Error S Row
  apply_transition id to = do
    r ← svc.store.get id
    lift (effective_policy svc.policy id r.migration_state to)
    moved ← lift (moved_row (transition to r))
    n ← gets svc.now
    svc.store.put (stamp n to moved)

  -- `Service.SetTargetBinding`
  unfoldable pub set_target_binding : String → ProviderBinding → Action Error S Row
  set_target_binding id raw = do
    let target = trimmed raw
    lift (must_be_complete target)
    r ← svc.store.get id
    lift (validate_structural (record r { target = target }))
    svc.store.put (record r { target = target })
