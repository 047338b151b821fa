-- ===== src/Provider/Scopes/Laws.antt =====
-- internal/provider/validate.go: what `NormalizeAllowedScopes` returns.
use baobab_iam.Base.{
  String, Bool, false, not, ◌&&◌, ◌||◌, List, [], ◌∷◌, ◌≡◌, refl, ◌≢◌, inl, inr, arith, eq_iff,
  str_eq, is_empty, trim_space, Bool-cases,
}
use baobab_iam.Provider.Scopes.{
  seen_before, canonical_scope, normalize_from, normalize_allowed_scopes,
}

-- No scope is empty, the alias, or among those seen or those before it.
abbrev pub IsNormal : List String → List String → Type 0
IsNormal seen [] = Unit
IsNormal seen (s ∷ rest) =
    (is_empty s ≡ false)
    × (s ≢ "context-resolve")
    × (seen_before s seen ≡ false)
    × IsNormal (s ∷ seen) rest

-- A scope is asked for if it is what a request that is not blank stands for.
abbrev pub is_asked : String → List String → Bool
is_asked c [] = false
is_asked c (raw ∷ rest) =
    (not (is_empty (trim_space raw)) && str_eq c (canonical_scope (trim_space raw)))
    || is_asked c rest

canonical_scope_lem :
    (s : String)
    → is_empty s ≡ false
    → (is_empty (canonical_scope s) ≡ false) × (canonical_scope s ≢ "context-resolve")
unfolding canonical_scope
canonical_scope_lem s h = elim (Bool-cases (str_eq s "context-resolve")) [
  | inl e ↦ rw e (refl, λ p. cc)
  | inr e ↦ rw e (h, λ p. let q = (eq_iff s "context-resolve").1 p in cc)
]

normalize_from-IsNormal : (seen scopes : List String) → IsNormal seen (normalize_from seen scopes)
unfolding normalize_from
normalize_from-IsNormal seen [] = tt
normalize_from-IsNormal seen (raw ∷ rest) = elim (Bool-cases (is_empty (trim_space raw))) [
  | inl blank ↦ rw blank (normalize_from-IsNormal seen rest)
  | inr asked ↦ elim (Bool-cases (seen_before (canonical_scope (trim_space raw)) seen)) [
    | inl again ↦ rw (asked, again) (normalize_from-IsNormal seen rest)
    | inr first ↦
        rw (asked, first)
          (let (full, other) = canonical_scope_lem (trim_space raw) asked in
            (
              full,
              other,
              first,
              normalize_from-IsNormal (canonical_scope (trim_space raw) ∷ seen) rest,
            ))
  ]
]

seen_before-normalize_from :
    (c : String) (seen scopes : List String)
    → seen_before c (normalize_from seen scopes) ≡ (is_asked c scopes && not (seen_before c seen))
unfolding normalize_from seen_before
seen_before-normalize_from c seen [] = refl
seen_before-normalize_from c seen (raw ∷ rest) =
    let x = canonical_scope (trim_space raw) in
    ground (
      arith,
      eq_iff c x,
      seen_before-normalize_from c seen rest,
      seen_before-normalize_from c (x ∷ seen) rest,
    )

-- The scopes that `NormalizeAllowedScopes` returns are not empty, differ from each other and from the
-- alias, and are exactly those that the requested ones stand for.
pub normalize_allowed_scopes_lem :
    (scopes : List String)
    → IsNormal [] (normalize_allowed_scopes scopes)
      × ((c : String) → seen_before c (normalize_allowed_scopes scopes) ≡ is_asked c scopes)
unfolding normalize_allowed_scopes seen_before
normalize_allowed_scopes_lem scopes = (
  normalize_from-IsNormal [] scopes,
  λ c. let p = seen_before-normalize_from c [] scopes in ground (arith, p),
)
