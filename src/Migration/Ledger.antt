-- ===== src/Migration/Ledger.antt =====
-- What internal/migration promises of a ledger, over its abstract content: the steps that may be
-- taken, and the ledgers that any number of steps leads to. `gate` is the policy in force.
pub mod History
pub mod Refines
use baobab_iam.Base.{ℕ, ℤ, String, Bool, true, false, Option, none, some, ◌≡◌, refl, ◌≢◌, ◌⊎◌}
use baobab_iam.Result.{Result, ok, err}
use baobab_iam.Migration.Types.{Row, MigrationState, ProviderBinding}
use baobab_iam.Migration.Validate.{validate_structural}
use baobab_iam.Migration.State.{can_transition, count_attempt, is_parking}
use baobab_iam.Migration.State.Laws.{IsResolved}
use baobab_iam.Migration.Store.{View, Written}
use baobab_iam.Migration.Service.{PolicyGate}
use baobab_iam.Migration.Service.Effect.{advanced}

-- One change of the ledger: a row appears, moves along a legal edge that the policy allows, is given
-- its target, or is marked with an error code.
pub data Step (gate : PolicyGate) (v : View) : View → Type 0 where
  appear :
      {w : View} (r : Row)
      → v r.migration_id ≡ none
      → validate_structural r ≡ ok tt
      → Written v r w
      → Step gate v w
  advance :
      {w : View} (r r' : Row) (n : ℕ) (to : MigrationState)
      → v r.migration_id ≡ some r
      → can_transition r.migration_state to ≡ true
      → gate r.migration_id r.migration_state to ≡ ok tt
      → IsResolved r ⊎ (is_parking to ≡ true)
      → r' ≡ record (advanced n to r) { revision = r'.revision }
      → validate_structural r' ≡ ok tt
      → Written v r' w
      → Step gate v w
  bind_target :
      {w : View} (r r' : Row) (t : ProviderBinding)
      → v r.migration_id ≡ some r
      → r' ≡ record r { revision = r'.revision; target = t }
      → validate_structural r' ≡ ok tt
      → Written v r' w
      → Step gate v w
  mark :
      {w : View} (r r' : Row) (code : String)
      → v r.migration_id ≡ some r
      → r' ≡ record r { revision = r'.revision; last_error_code = code }
      → validate_structural r' ≡ ok tt
      → Written v r' w
      → Step gate v w

pub data Reach (gate : PolicyGate) (v : View) : View → Type 0 where
  here : Reach gate v v
  next : {w u : View} → Reach gate v w → Step gate w u → Reach gate v u

pub Reach-trans :
    {gate : PolicyGate} {v w u : View} → Reach gate v w → Reach gate w u → Reach gate v u
Reach-trans p here = p
Reach-trans p (next q st) = next (Reach-trans p q) st
