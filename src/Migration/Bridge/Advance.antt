-- ===== src/Migration/Bridge/Advance.antt =====
-- internal/migration/bridge.go: `advanceTo`, the loop along the happy path. `fuel` bounds its rounds;
-- it is 5, one more than the happy path has moves; `fuel_exhausted` stands for what Go has no word for.
pub mod Enough
use baobab_iam.Base.{ℕ, zero, suc, String, Bool, Option, none, some, ltb, leb, ◌||◌, if◌then◌else◌}
use baobab_iam.Action.{Action, pure, raise, ◌>>=◌}
use baobab_iam.Migration.Errors.{Error, cannot_advance, fuel_exhausted}
use baobab_iam.Migration.Types.{
  Row, MigrationState, discovered, validated, ready, provisioning, provisioned, is_state,
}
use baobab_iam.Migration.Service.{Service, apply_transition}

-- `stateOrder`
unfoldable pub state_order : MigrationState → ℕ
state_order discovered = 0
state_order validated = 1
state_order ready = 2
state_order provisioning = 3
state_order provisioned = 4
state_order _ = 100

-- `nextHappy`; `none` is the empty state.
unfoldable pub next_happy : MigrationState → Option MigrationState
next_happy discovered = some validated
next_happy validated = some ready
next_happy ready = some provisioning
next_happy provisioning = some provisioned
next_happy _ = none

module _ {S : Type 0} (svc : Service S) where
  -- `for stateOrder(r.MigrationState) < stateOrder(to) { … }`
  unfoldable pub advance_loop : ℕ → String → MigrationState → Row → Action Error S (Unit {0})
  advance_loop zero id to r =
      if ltb (state_order r.migration_state) (state_order to) then raise fuel_exhausted else pure tt
  advance_loop (suc fuel) id to r =
      let round =
        λ (t : MigrationState). do moved ← apply_transition svc id t; advance_loop fuel id to moved
      in if ltb (state_order r.migration_state) (state_order to)
        then elim (next_happy r.migration_state) [ none ↦ raise cannot_advance | some t ↦ round t ]
        else pure tt

  -- `advanceTo`
  unfoldable pub advance_to : String → MigrationState → Action Error S (Unit {0})
  advance_to id to = do
    r ← svc.store.get id
    if is_state r.migration_state to || leb (state_order to) (state_order r.migration_state)
        then pure tt
        else advance_loop 5 id to r
