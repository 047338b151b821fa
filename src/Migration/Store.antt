-- ===== src/Migration/Store.antt =====
-- internal/migration/store.go: the persistence port. `Put` writes to the caller's row too (the
-- PostgreSQL store sets its revision), so it returns the row. `IsLawful` is what the clients of the
-- port rely on.
pub mod Memory
use baobab_iam.Base.{String, Option, none, some, List, ◌≡◌, true, str_eq, if◌then◌else◌}
use baobab_iam.Result.{ok, err}
use baobab_iam.Action.{Action}
use baobab_iam.Migration.Errors.{Error, is_not_found}
use baobab_iam.Migration.Types.{Row, MigrationState, IdentityClass}
use baobab_iam.Migration.Validate.{validate_structural}

-- `RecordStore`
pub record RecordStore (S : Type 0) : Type 0 where
  pub put : Row → Action Error S Row
  pub get : String → Action Error S Row
  pub list : Action Error S (List Row)
  pub list_by_state : MigrationState → Action Error S (List Row)
  pub list_by_class : IdentityClass → Action Error S (List Row)
  pub delete : String → Action Error S (Unit {0})

-- The content of a ledger: the row under each migration id.
abbrev pub View : Type 0
View = String → Option Row

-- `w` is `v` with the row `r` written under its id.
abbrev pub Written : View → Row → View → Type 0
Written v r w = (j : String) → w j ≡ (if str_eq j r.migration_id then some r else v j)

-- A stored row is kept under its own id and passes the structural checks.
abbrev pub IsStored : View → Type 0
IsStored v =
    (id : String) (r : Row)
    → v id ≡ some r
    → (r.migration_id ≡ id) × (validate_structural r ≡ ok tt)

-- The contract of a store: reads change nothing and are exact, a failed write changes nothing, and a
-- write that succeeds puts the row, but for its revision, under its id and touches no other.
pub record IsLawful {S : Type 0} (st : RecordStore S) : Type 1 where
  pub view : S → View
  pub IsWell : S → Type 0
  pub stored : (s : S) → IsWell s → IsStored (view s)
  pub get_well : (id : String) (s : S) → IsWell s → IsWell (st.get id s).1
  pub get_view : (id : String) (s : S) → IsWell s → view (st.get id s).1 ≡ view s
  pub get_ok :
      (id : String) (s : S) (r : Row) → IsWell s → (st.get id s).0 ≡ ok r → view s id ≡ some r
  pub get_missing :
      (id : String) (s : S) (e : Error)
      → IsWell s
      → (st.get id s).0 ≡ err e
      → is_not_found e ≡ true
      → view s id ≡ none
  pub put_well : (r : Row) (s : S) → IsWell s → IsWell (st.put r s).1
  pub put_err :
      (r : Row) (s : S) (e : Error)
      → IsWell s
      → (st.put r s).0 ≡ err e
      → view (st.put r s).1 ≡ view s
  pub put_row :
      (r : Row) (s : S) (r' : Row)
      → IsWell s
      → (st.put r s).0 ≡ ok r'
      → r' ≡ record r { revision = r'.revision }
  pub put_ok :
      (r : Row) (s : S) (r' : Row)
      → IsWell s
      → (st.put r s).0 ≡ ok r'
      → Written (view s) r' (view (st.put r s).1)
