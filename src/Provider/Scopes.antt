-- ===== src/Provider/Scopes.antt =====
-- internal/provider/validate.go: `NormalizeAllowedScopes`.
pub mod Laws
use baobab_iam.Base.{
  String, Bool, false, ◌||◌, List, [], ◌∷◌, str_eq, is_empty, trim_space, if◌then◌else◌,
}

-- A text is among those that were seen.
unfoldable pub seen_before : String → List String → Bool
seen_before s [] = false
seen_before s (t ∷ seen) = str_eq s t || seen_before s seen

-- The alias of early migration work is read as the canonical scope.
unfoldable pub canonical_scope : String → String
canonical_scope s = if str_eq s "context-resolve" then "context:resolve" else s

-- The loop over the scopes, with those that it has put out.
unfoldable pub normalize_from : List String → List String → List String
normalize_from seen [] = []
normalize_from seen (raw ∷ rest) =
    let s = trim_space raw in
    let c = canonical_scope s in
    let drop_it = normalize_from seen rest in
    let keep_it = c ∷ normalize_from (c ∷ seen) rest in
    if is_empty s then drop_it else if seen_before c seen then drop_it else keep_it

-- `NormalizeAllowedScopes`
unfoldable pub normalize_allowed_scopes : List String → List String
unfolding normalize_from
normalize_allowed_scopes scopes = normalize_from [] scopes
