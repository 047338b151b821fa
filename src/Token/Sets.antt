-- ===== src/Token/Sets.antt =====
-- internal/tokenprofile/profile.go: `subset` and `sameSet`, on lists of texts.
pub mod Laws
use baobab_iam.Base.{
  String, Bool, true, false, not, ◌&&◌, ◌||◌, List, [], ◌∷◌, length, contains, ◌==◌, if◌then◌else◌,
}

-- The loop of `subset`, with the values that it has passed.
unfoldable pub subset_from : List String → List String → List String → Bool
subset_from seen [] allowed = true
subset_from seen (value ∷ rest) allowed =
    let go_on = subset_from (value ∷ seen) rest allowed in
    if not (contains allowed value) || contains seen value then false else go_on

-- `subset`
unfoldable pub subset : List String → List String → Bool
unfolding subset_from
subset values allowed = subset_from [] values allowed

-- `sameSet`
unfoldable pub same_set : List String → List String → Bool
unfolding subset
same_set a b = (length a == length b) && subset a b
