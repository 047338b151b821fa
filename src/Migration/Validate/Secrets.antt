-- ===== src/Migration/Validate/Secrets.antt =====
-- internal/migration/types.go: the scan for markers of secret material.
use mathlib.Core.Path.{subst}
use baobab_iam.Base.{
  is_space, sym, ℕ, String, codes, Bool, true, false, List, [], ◌∷◌, ◌++◌, map, ◌≡◌, refl, ap, ◌∙◌,
  ◌≢◌, ◌⊎◌, inl, inr, arith, trim_space,
}
use baobab_iam.Result.{Result, ok, ◌>>◌, refuse_if}
use baobab_iam.Migration.Errors.{Error, sensitive_material}
use baobab_iam.Migration.Types.{Row}
use baobab_iam.Migration.Validate.Spelling.{Spells, is_plain, spelled_in_trimmed}
use baobab_iam.Migration.Validate.{
  lower_ascii, begins_with, occurs, contains_ascii, forbidden_ledger_substrings, has_any,
  check_forbidden_ledger_strings, validate_structural,
}

abbrev pub Among : {A : Type 0} → A → List A → Type 0
Among x [] = ⊥
Among x (y ∷ ys) = (x ≡ y) ⊎ Among x ys

begins_with-append : (needle post : List ℕ) → begins_with (needle ++ post) needle ≡ true
unfolding begins_with
begins_with-append [] post = refl
begins_with-append (c ∷ needle) post = let rest = begins_with-append needle post in ground arith

occurs-begin : (hay needle : List ℕ) → begins_with hay needle ≡ true → occurs hay needle ≡ true
unfolding occurs
occurs-begin [] needle h = h
occurs-begin (c ∷ hay) needle h = rw h

occurs-append : (pre needle post : List ℕ) → occurs (pre ++ (needle ++ post)) needle ≡ true
unfolding occurs
occurs-append [] needle post = occurs-begin (needle ++ post) needle (begins_with-append needle post)
occurs-append (c ∷ pre) needle post = let rest = occurs-append pre needle post in ground arith

contains_ascii-append :
    (pre : List ℕ) (d : ℕ) (needle post : List ℕ)
    → contains_ascii (pre ++ ((d ∷ needle) ++ post)) (d ∷ needle) ≡ true
unfolding contains_ascii
contains_ascii-append pre d needle post = occurs-append pre (d ∷ needle) post

has_any_lem :
    (lower : List ℕ) (bad : String) (all : List String)
    → Among bad all
    → has_any lower all ≡ false
    → contains_ascii lower (codes bad) ≡ false
unfolding has_any
has_any_lem lower bad [] m h = absurd m
has_any_lem lower bad (x ∷ all) (inl e) h = ground arith
has_any_lem lower bad (x ∷ all) (inr m) h = let rest = has_any_lem lower bad all m in ground arith

-- The text as the scan reads it.
abbrev scanned : String → List ℕ
scanned v = map lower_ascii (codes (trim_space v))

no_occurrence :
    (hay needle pre post : List ℕ)
    → needle ≢ []
    → contains_ascii hay needle ≡ false
    → hay ≢ (pre ++ (needle ++ post))
no_occurrence hay [] pre post full h e = full refl
no_occurrence hay (d ∷ needle) pre post full h e =
    let found = contains_ascii-append pre d needle post in
    let found' : contains_ascii hay (d ∷ needle) ≡ true =
      ap (λ x. contains_ascii x (d ∷ needle)) e ∙ found in
    cc

refuse_ok :
    (wrong : Bool) (e : Error) (d : Result Error (Unit {0}))
    → (refuse_if wrong e >> d) ≡ ok tt
    → (wrong ≡ false) × (d ≡ ok tt)
refuse_ok true e d h = cc
refuse_ok false e d h = (refl, h)

check_lem :
    (v : String) (all : List String)
    → Among v all
    → check_forbidden_ledger_strings all ≡ ok tt
    → has_any (scanned v) forbidden_ledger_substrings ≡ false
unfolding check_forbidden_ledger_strings
check_lem v [] m h = absurd m
check_lem v (x ∷ all) m h =
    let (clean, rest) =
      refuse_ok (has_any (scanned x) forbidden_ledger_substrings) sensitive_material
        (check_forbidden_ledger_strings all) h in
    elim m [
      | inl e ↦ ap (λ y. has_any (scanned y) forbidden_ledger_substrings) e ∙ clean
      | inr m' ↦ check_lem v all m' rest
    ]

-- A forbidden marker is a word in small letters without spaces.
pub record IsWord (bad : String) : Type 0 where
  pub first : ℕ
  pub more : List ℕ
  pub same : codes bad ≡ first ∷ more
  pub plain : is_plain (first ∷ more) ≡ true

forbidden-IsWord : (bad : String) → Among bad forbidden_ledger_substrings → IsWord bad
unfolding is_space lower_ascii
forbidden-IsWord bad (inl e) = record { first = _; more = _; same = ap codes e; plain = refl }
forbidden-IsWord bad (inr (inl e)) = record { first = _; more = _; same = ap codes e; plain = refl }
forbidden-IsWord bad (inr (inr (inl e))) = record {
  first = _;
  more = _;
  same = ap codes e;
  plain = refl;
}
forbidden-IsWord bad (inr (inr (inr (inl e)))) = record {
  first = _;
  more = _;
  same = ap codes e;
  plain = refl;
}
forbidden-IsWord bad (inr (inr (inr (inr (inl e))))) = record {
  first = _;
  more = _;
  same = ap codes e;
  plain = refl;
}
forbidden-IsWord bad (inr (inr (inr (inr (inr x))))) = absurd x

-- The texts of a row that are scanned.
abbrev pub scanned_texts : Row → List String
scanned_texts r = r.source_snapshot_reference ∷ r.last_error_code ∷ r.migration_id ∷ []

scanned_lem :
    (r : Row)
    → validate_structural r ≡ ok tt
    → check_forbidden_ledger_strings (scanned_texts r) ≡ ok tt
unfolding validate_structural
scanned_lem r h = ground arith

-- The markers that no row may have.
abbrev pub secret_markers : List String
secret_markers = "password=" ∷ "client_secret=" ∷ "totp_secret" ∷ "private_key" ∷ "-----begin" ∷ []

-- In a row that passes the checks, the snapshot reference, the error code and the id have at no place
-- one of the texts password=, client_secret=, totp_secret, private_key and -----begin, in ASCII letters
-- of either case.
pub no_secret_marker :
    (r : Row) (v bad : String) (pre piece post : List ℕ)
    → validate_structural r ≡ ok tt
    → Among v (scanned_texts r)
    → Among bad secret_markers
    → Spells piece (codes bad)
    → codes v ≢ (pre ++ (piece ++ post))
no_secret_marker r v bad pre piece post valid text marker spelled found =
    let w = forbidden-IsWord bad marker in
    let (front, back, inside) =
      spelled_in_trimmed v pre piece post w.first w.more
        (subst (λ (ds : List ℕ). Spells piece ds) w.same spelled) w.plain found in
    let clean =
      has_any_lem (scanned v) bad forbidden_ledger_substrings marker
        (check_lem v (scanned_texts r) text (scanned_lem r valid)) in
    no_occurrence (scanned v) (w.first ∷ w.more) front back (λ e. cc)
      (sym (ap (contains_ascii (scanned v)) w.same) ∙ clean) inside
