-- ===== src/Migration/Bridge/Failing.antt =====
-- internal/migration/bridge.go: `fail`, which records that an attempt has failed.
use baobab_iam.Base.{String, if◌then◌else◌}
use baobab_iam.Result.{Result, ok, err}
use baobab_iam.Action.{Action, pure, raise, attempt, ◌>>=◌, ◌>>◌}
use baobab_iam.Migration.Errors.{Error}
use baobab_iam.Migration.Types.{Row, MigrationState, failed_retryable, failed_manual_review}
use baobab_iam.Migration.State.{can_transition}
use baobab_iam.Migration.Service.{Service, apply_transition}

-- The state that a failed attempt leads to.
unfoldable pub failure_state : MigrationState → MigrationState
failure_state s =
    if can_transition s failed_retryable then failed_retryable else failed_manual_review

module _ {S : Type 0} (svc : Service S) where
  -- The second half of `fail`: the code is written on the row as it is now.
  abbrev record_code : String → String → Action Error S (Unit {0})
  record_code id code = do
    r ← svc.store.get id
    svc.store.put (record r { last_error_code = code })
    pure tt

  -- After `ApplyTransition`: if it failed, the code is written on the row that was read before.
  abbrev after_move : String → String → Row → Result Error Row → Action Error S (Unit {0})
  after_move id code r (ok _) = record_code id code
  after_move id code r (err e) = do
    attempt (svc.store.put (record r { last_error_code = code }))
    raise e

  -- `fail`
  unfoldable pub fail : String → String → Action Error S (Unit {0})
  fail id code = do
    r ← svc.store.get id
    let to = failure_state r.migration_state
    if can_transition r.migration_state to
        then (do moved ← attempt (apply_transition svc id to); after_move id code r moved)
        else record_code id code
