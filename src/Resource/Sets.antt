-- ===== src/Resource/Sets.antt =====
-- pkg/workloadresource/gate.go: `distinct`, `sameSet` and `containsAll`.
pub mod Laws
use baobab_iam.Base.{
  String, Bool, true, false, not, ◌&&◌, ◌||◌, List, [], ◌∷◌, length, contains, ◌==◌, if◌then◌else◌,
}

-- The loop of `distinct`, with the values that it has passed.
unfoldable pub distinct_from : List String → List String → Bool
distinct_from seen [] = true
distinct_from seen (value ∷ rest) =
    let go_on = distinct_from (value ∷ seen) rest in if contains seen value then false else go_on

unfoldable pub distinct : List String → Bool
unfolding distinct_from
distinct values = distinct_from [] values

-- The loop over the values that a list must contain.
unfoldable pub all_in : List String → List String → Bool
all_in actual [] = true
all_in actual (v ∷ rest) =
    let go_on = all_in actual rest in if not (contains actual v) then false else go_on

-- `sameSet`
unfoldable pub same_members : List String → List String → Bool
unfolding distinct all_in
same_members a b =
    if not (distinct a) || not (distinct b) || not (length a == length b) then false else all_in b a

-- `containsAll`
unfoldable pub contains_all : List String → List String → Bool
unfolding distinct all_in
contains_all actual needed = if not (distinct actual) then false else all_in actual needed
