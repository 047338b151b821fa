-- ===== src/Migration/Store/Memory.antt =====
-- internal/migration/memory.go: the store in memory, a Go map as an association list. Go ranges over
-- a map in no fixed order; `List` gives one such order.
use baobab_iam.Base.{
  String, Bool, true, false, Option, none, some, List, [], ◌∷◌, map, str_eq, if◌then◌else◌,
}
use baobab_iam.Result.{Result, ok, err}
use baobab_iam.Action.{Action, pure, lift, gets, ◌>>=◌, ◌>>◌}
use baobab_iam.Migration.Errors.{Error, not_found}
use baobab_iam.Migration.Types.{Row, MigrationState, IdentityClass, is_state, is_class}
use baobab_iam.Migration.Validate.{validate_structural}
use baobab_iam.Migration.Store.{RecordStore}
pub mod Laws

-- `MemoryStore.byID`
abbrev pub Memory : Type 0
Memory = List (String × Row)

-- `NewMemoryStore`
abbrev pub new_memory_store : Memory
new_memory_store = []

unfoldable pub lookup : String → Memory → Option Row
lookup k [] = none
lookup k ((j, r) ∷ m) = if str_eq k j then some r else lookup k m

-- `s.byID[k] = r`
unfoldable pub insert : String → Row → Memory → Memory
insert k r [] = (k, r) ∷ []
insert k r ((j, q) ∷ m) = if str_eq k j then (k, r) ∷ m else (j, q) ∷ insert k r m

-- `delete(s.byID, k)`
unfoldable pub remove : String → Memory → Memory
remove k [] = []
remove k ((j, q) ∷ m) = if str_eq k j then remove k m else (j, q) ∷ remove k m

abbrev or_not_found : Option Row → Result Error Row
or_not_found none = err not_found
or_not_found (some r) = ok r

unfoldable pub put : Row → Action Error Memory Row
put r = do lift (validate_structural r); λ m. (ok r, insert r.migration_id r m)

unfoldable pub get : String → Action Error Memory Row
get id m = (or_not_found (lookup id m), m)

abbrev rows : Memory → List Row
rows = map (λ e. e.1)

unfoldable pub list : Action Error Memory (List Row)
list = gets rows

unfoldable pub select : (Row → Bool) → List Row → List Row
select keep [] = []
select keep (r ∷ rs) = let rest = select keep rs in if keep r then r ∷ rest else rest

unfoldable pub list_by_state : MigrationState → Action Error Memory (List Row)
list_by_state state = do all ← list; pure (select (λ r. is_state r.migration_state state) all)

unfoldable pub list_by_class : IdentityClass → Action Error Memory (List Row)
list_by_class class = do all ← list; pure (select (λ r. is_class r.identity_class class) all)

unfoldable pub delete : String → Action Error Memory (Unit {0})
delete id m = (ok tt, remove id m)

-- `*MemoryStore` as a `RecordStore`
abbrev pub memory_store : RecordStore Memory
memory_store = record {
  put = put;
  get = get;
  list = list;
  list_by_state = list_by_state;
  list_by_class = list_by_class;
  delete = delete;
}
