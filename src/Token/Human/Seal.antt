-- ===== src/Token/Human/Seal.antt =====
-- internal/tokenprofile/consent_seal.go: the seal on a consent decision. The keyed hash is a parameter;
-- a key is its bytes.
use Prim.Native.Char.{nul}
use Prim.Native.String.{compare as compare_texts, ◌++◌}
use Prim.Native.Nat.{Ordering}
use baobab_iam.Base.{
  ℕ, String, Bool, true, false, not, ◌&&◌, ◌||◌, List, [], ◌∷◌, Option, none, some, str_eq,
  is_empty, trim_space, contains_any, ltb, length, join, if◌then◌else◌,
}
use baobab_iam.Result.{Result, ok, err, ◌>>◌, refuse_if, for_each}
use baobab_iam.Provider.Validate.{is_nil}
use baobab_iam.Token.Errors.{TokenError, noncanonical_consent, incomplete_consent, cannot_seal}
use baobab_iam.Token.Types.{HumanConsentSeal}
use baobab_iam.Token.Canonical.{Check}
use baobab_iam.Token.Profile.{space}

abbrev pub min_consent_seal_key_bytes : ℕ
min_consent_seal_key_bytes = 32

abbrev pub leq_texts : String → String → Bool
leq_texts a b = elim (compare_texts a b) [ Ordering.gt ↦ false | _ ↦ true ]

-- `slices.Sort`
unfoldable pub insert_sorted : String → List String → List String
insert_sorted x [] = x ∷ []
insert_sorted x (y ∷ ys) =
    let later = insert_sorted x ys in if leq_texts x y then x ∷ (y ∷ ys) else y ∷ later

unfoldable pub sort_texts : List String → List String
unfolding insert_sorted
sort_texts [] = []
sort_texts (x ∷ xs) = insert_sorted x (sort_texts xs)

-- `" \t\r\n\x00"`
abbrev pub consent_separators : String
consent_separators = " \t\r\n" ++ String.◌∷◌ nul String.[]

unfoldable pub is_bad_consent_value : String → Bool
is_bad_consent_value value =
    is_empty value || not (str_eq (trim_space value) value) || contains_any value consent_separators

abbrev pub canonical_consent : String → Check
canonical_consent value = refuse_if (is_bad_consent_value value) noncanonical_consent

-- The parts of the sealed form, in their order.
abbrev pub sealed_parts : String → String → String → List String → List String → List String
sealed_parts id client subject sorted audience =
    "baobab-iam/human-consent/v1"
    ∷ id
    ∷ client
    ∷ subject
    ∷ join space sorted
    ∷ join space audience
    ∷ []

-- `consentSealMessage`
unfoldable pub consent_seal_message :
    String → String → String → List String → List String → Result TokenError String
unfolding sort_texts is_bad_consent_value
consent_seal_message id client subject scopes audience =
    let sorted = sort_texts scopes in
    do
      for_each (id ∷ client ∷ subject ∷ []) canonical_consent
      for_each sorted canonical_consent
      for_each audience canonical_consent
      refuse_if (is_nil sorted || is_nil audience) incomplete_consent
      ok (join nul (sealed_parts id client subject sorted audience))

-- `slices.Equal`
unfoldable pub equal_texts : List String → List String → Bool
equal_texts [] [] = true
equal_texts [] (y ∷ ys) = false
equal_texts (x ∷ xs) [] = false
equal_texts (x ∷ xs) (y ∷ ys) = str_eq x y && equal_texts xs ys

module _ (mac : List ℕ → String → String) where
  -- `SealHumanConsent`, where an error of the message or a short key is one error.
  abbrev seal_with :
      List ℕ → List String → Result TokenError String → Result TokenError HumanConsentSeal
  seal_with key audience (err e) = err cannot_seal
  seal_with key audience (ok message) =
      if ltb (length key) min_consent_seal_key_bytes
      then err cannot_seal
      else ok record { audience = audience; seal = mac key message }

  unfoldable pub seal_human_consent :
      List ℕ
      → String
      → String
      → String
      → List String
      → List String
      → Result TokenError HumanConsentSeal
  unfolding consent_seal_message
  seal_human_consent key id client subject scopes audience =
      seal_with key audience (consent_seal_message id client subject scopes audience)

  -- `hmac.Equal` of the seal with that of the message.
  abbrev matches_message : List ℕ → HumanConsentSeal → Result TokenError String → Bool
  matches_message key s (err e) = false
  matches_message key s (ok message) = str_eq s.seal (mac key message)

  -- `verifyHumanConsent`
  unfoldable pub verify_human_consent :
      List ℕ → Option HumanConsentSeal → String → String → String → List String → List String → Bool
  unfolding equal_texts consent_seal_message
  verify_human_consent key none id client subject scopes audience = false
  verify_human_consent key (some s) id client subject scopes audience =
      if ltb (length key) min_consent_seal_key_bytes || not (equal_texts s.audience audience)
      then false
      else matches_message key s (consent_seal_message id client subject scopes audience)
