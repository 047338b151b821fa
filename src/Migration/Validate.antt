-- ===== src/Migration/Validate.antt =====
-- internal/migration/types.go: the structural checks on a row, with the scan for secrets.
pub mod Spelling
pub mod Secrets
use baobab_iam.Base.{
  ℕ, String, codes, Bool, true, false, not, ◌&&◌, ◌||◌, List, [], ◌∷◌, map, ◌+◌, ◌==◌, leb,
  trim_space, is_blank, is_negative, if◌then◌else◌,
}
use baobab_iam.Result.{Result, ok, ◌>>◌, refuse_if}
use baobab_iam.Migration.Errors.{
  Error, migration_id_required, negative_revision, canonical_id_required, source_required,
  source_provider_required, target_required, invalid_class, invalid_strategy, invalid_state,
  sensitive_material,
}
use baobab_iam.Migration.Types.{
  Row, is_class, orphan_candidate, class_valid, strategy_valid, state_valid, target_optional,
}

-- `toLowerASCII`, a character at a time.
unfoldable pub lower_ascii : ℕ → ℕ
lower_ascii c = if leb b'A' c && leb c b'Z' then c + 32 else c

-- `hay[i:i+len(needle)] == needle` at the start of `hay`.
unfoldable pub begins_with : List ℕ → List ℕ → Bool
begins_with hay [] = true
begins_with [] (d ∷ needle) = false
begins_with (c ∷ hay) (d ∷ needle) = c == d && begins_with hay needle

unfoldable pub occurs : List ℕ → List ℕ → Bool
unfolding begins_with
occurs [] needle = begins_with [] needle
occurs (c ∷ hay) needle = begins_with (c ∷ hay) needle || occurs hay needle

-- `containsASCII`: an empty needle is never found.
unfoldable pub contains_ascii : List ℕ → List ℕ → Bool
unfolding occurs
contains_ascii hay [] = false
contains_ascii hay (d ∷ needle) = occurs hay (d ∷ needle)

-- `forbiddenLedgerSubstrings`
abbrev pub forbidden_ledger_substrings : List String
forbidden_ledger_substrings =
    "password=" ∷ "client_secret=" ∷ "totp_secret" ∷ "private_key" ∷ "-----begin" ∷ []

unfoldable pub has_any : List ℕ → List String → Bool
has_any lower [] = false
has_any lower (bad ∷ rest) = contains_ascii lower (codes bad) || has_any lower rest

-- `checkForbiddenLedgerStrings`
unfoldable pub check_forbidden_ledger_strings : List String → Result Error (Unit {0})
check_forbidden_ledger_strings [] = ok tt
check_forbidden_ledger_strings (v ∷ rest) = do
  refuse_if (has_any (map lower_ascii (codes (trim_space v))) forbidden_ledger_substrings)
      sensitive_material
  check_forbidden_ledger_strings rest

-- `Record.ValidateStructural`
unfoldable pub validate_structural : Row → Result Error (Unit {0})
validate_structural r = do
  refuse_if (is_blank r.migration_id) migration_id_required
  refuse_if (is_negative r.revision) negative_revision
  refuse_if (is_blank r.canonical_identity_id && not (is_class r.identity_class orphan_candidate))
      canonical_id_required
  refuse_if (is_blank r.source.issuer || is_blank r.source.subject) source_required
  refuse_if (is_blank r.source.provider) source_provider_required
  refuse_if
      (not (target_optional r.migration_state)
        && (is_blank r.target.issuer || is_blank r.target.subject))
      target_required
  refuse_if (not (class_valid r.identity_class)) invalid_class
  refuse_if (not (strategy_valid r.credential_strategy)) invalid_strategy
  refuse_if (not (state_valid r.migration_state)) invalid_state
  check_forbidden_ledger_strings
      (r.source_snapshot_reference ∷ r.last_error_code ∷ r.migration_id ∷ [])
