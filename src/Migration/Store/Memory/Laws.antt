-- ===== src/Migration/Store/Memory/Laws.antt =====
-- internal/migration/memory.go: lemmas on the store in memory, and the contract for it.
use baobab_iam.Base.{
  String, none, some, [], ◌∷◌, ◌≡◌, refl, ◌⊎◌, ap, ◌∙◌, arith, str_eq, eq_iff, inl, inr,
  if◌then◌else◌,
}
use baobab_iam.Result.{ok, err, Result-cases}
use baobab_iam.Migration.Errors.{Error, not_found}
use baobab_iam.Migration.Types.{Row}
use baobab_iam.Migration.Validate.{validate_structural}
use baobab_iam.Migration.Store.{View, Written, IsStored, IsLawful}
use baobab_iam.Migration.Store.Memory.{
  Memory, lookup, insert, remove, put, get, delete, memory_store,
}

-- Every entry is kept under its row's id and holds a row that passes the checks.
abbrev pub IsKeyed : Memory → Type 0
IsKeyed [] = Unit
IsKeyed ((k, r) ∷ m) = (r.migration_id ≡ k) × (validate_structural r ≡ ok tt) × IsKeyed m

abbrev pub memory_view : Memory → View
memory_view m id = lookup id m

pub lookup-insert :
    (k j : String) (r : Row) (m : Memory)
    → lookup j (insert k r m) ≡ (if str_eq j k then some r else lookup j m)
unfolding lookup insert
lookup-insert k j r [] = refl
lookup-insert k j r ((i, q) ∷ m) =
    ground (arith, eq_iff k j, eq_iff k i, eq_iff j i, eq_iff j k, lookup-insert k j r m)

pub lookup-remove :
    (k j : String) (m : Memory) → lookup j (remove k m) ≡ (if str_eq j k then none else lookup j m)
unfolding lookup remove
lookup-remove k j [] = ground arith
lookup-remove k j ((i, q) ∷ m) =
    ground (arith, eq_iff k j, eq_iff k i, eq_iff j i, eq_iff j k, lookup-remove k j m)

insert-IsKeyed :
    (r : Row) (m : Memory)
    → validate_structural r ≡ ok tt
    → IsKeyed m
    → IsKeyed (insert r.migration_id r m)
unfolding insert
insert-IsKeyed r [] h k = (refl, h, tt)
insert-IsKeyed r ((i, q) ∷ m) h k = ground (arith, insert-IsKeyed r m h k.2)

pub IsKeyed-IsStored : (m : Memory) → IsKeyed m → IsStored (memory_view m)
unfolding lookup
IsKeyed-IsStored [] k id r e = cc
IsKeyed-IsStored ((i, q) ∷ m) k id r e = ground (arith, eq_iff id i, IsKeyed-IsStored m k.2 id r)

-- A successful `Put` writes the row under its id and nothing else; a failed one writes nothing.
pub put_lem :
    (r : Row) (m : Memory)
    → ((put r m).0 ≡ ok r)
        × (validate_structural r ≡ ok tt)
        × ((j : String)
            → lookup j (put r m).1 ≡ (if str_eq j r.migration_id then some r else lookup j m))
      ⊎ ((e : Error) × ((put r m).0 ≡ err e) × ((put r m).1 ≡ m))
unfolding put
put_lem r m = elim (Result-cases (validate_structural r)) [
  | inl (u, h) ↦ inl (rw h, h, rw h (λ j. lookup-insert r.migration_id j r m))
  | inr (e, h) ↦ inr (e, rw h, rw h)
]

-- A row that is deleted is not found, every other row stays, and deleting a missing one is no error.
pub delete_lem :
    (id j : String) (m : Memory)
    → ((delete id m).0 ≡ ok tt)
      × ((get j (delete id m).1).0 ≡ (if str_eq j id then err not_found else (get j m).0))
unfolding delete get
delete_lem id j m = (refl, rw (lookup-remove id j m) (ground arith))

pub put_ok_lem :
    (r : Row) (m : Memory) (r' : Row)
    → (put r m).0 ≡ ok r'
    → (r' ≡ r) × Written (memory_view m) r' (memory_view (put r m).1)
put_ok_lem r m r' e = elim (put_lem r m) [
  | inl (same, h, w) ↦ let p : r' ≡ r = cc in (p, λ j. w j ∙ rw p)
  | inr (x, failed, _) ↦ cc
]

pub put_err_lem : (r : Row) (m : Memory) (e : Error) → (put r m).0 ≡ err e → (put r m).1 ≡ m
put_err_lem r m e h = elim (put_lem r m) [ inl (same, _, _) ↦ cc | inr (x, _, kept) ↦ kept ]

pub put-IsKeyed : (r : Row) (m : Memory) → IsKeyed m → IsKeyed (put r m).1
unfolding put
put-IsKeyed r m k = elim (Result-cases (validate_structural r)) [
  | inl (u, h) ↦ rw h (insert-IsKeyed r m h k)
  | inr (e, h) ↦ rw h k
]

pub get_ok_lem :
    (id : String) (m : Memory) (r : Row) → (get id m).0 ≡ ok r → memory_view m id ≡ some r
unfolding get
get_ok_lem id m r h = ground arith

pub get_err_lem :
    (id : String) (m : Memory) (e : Error) → (get id m).0 ≡ err e → memory_view m id ≡ none
unfolding get
get_err_lem id m e h = ground arith

pub get_state : (id : String) (m : Memory) → (get id m).1 ≡ m
unfolding get
get_state id m = refl

-- The store in memory is lawful.
abbrev pub memory_store-IsLawful : IsLawful memory_store
memory_store-IsLawful = record {
  view = memory_view;
  IsWell = IsKeyed;
  stored = IsKeyed-IsStored;
  get_well = λ id m k. rw (get_state id m) k;
  get_view = λ id m k. rw (get_state id m);
  get_ok = λ id m r k h. get_ok_lem id m r h;
  get_missing = λ id m e k h n. get_err_lem id m e h;
  put_well = put-IsKeyed;
  put_err = λ r m e k h. ap memory_view (put_err_lem r m e h);
  put_row = λ r m r' k h. let p = (put_ok_lem r m r' h).0 in rw p;
  put_ok = λ r m r' k h. (put_ok_lem r m r' h).1;
}
