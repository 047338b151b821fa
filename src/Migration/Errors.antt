-- ===== src/Migration/Errors.antt =====
-- The errors of internal/migration: a constructor for each message. `because` is a message that
-- wraps a cause (`%w`), which `errors.Is` looks through; `external` is an error of code that the
-- package calls, and `fuel_exhausted` is no error of the program: it is what a loop on fuel
-- answers when that is used up.
use baobab_iam.Base.{String, Bool, true, false}
use baobab_iam.Provider.Errors.{ProviderError}

pub data Error : Type 0 where
  migration_id_required negative_revision canonical_id_required source_required : Error
  source_provider_required target_required invalid_class invalid_strategy : Error
  invalid_state sensitive_material illegal_transition unresolved_orphan : Error
  email_alone policy_denied not_found already_exists target_incomplete : Error
  no_canonical_mapping batch_id_required binding_incomplete source_drift : Error
  canonical_drift refused_class cannot_advance unsupported_class : Error
  provisioner_missing traits_source_missing invalid_traits empty_subject : Error
  profile_not_allowed scopes_missing audiences_missing issuer_missing : Error
  key_missing fuel_exhausted credential_stage_state mark_ready_state : Error
  verification_stage_state mark_verified_state credential_material : Error
  conflict immutable_ledger cutover_not_approved identifiers_unbounded : Error
  pagination_required containment_input not_a_human no_reversible_target : Error
  quarantine_not_permitted unknown_phase journal_unavailable : Error
  containment_drift witnesses_missing disable_unconfirmed : Error
  disable_readback_failed revocation_unconfirmed sessions_remain : Error
  denial_not_proven rollback_fenced rollback_readback_missing : Error
  external : String → Error
  from_provider : ProviderError → Error
  because : Error → Error

-- `errors.Is(err, ErrNotFound)`
unfoldable pub is_not_found : Error → Bool
is_not_found not_found = true
is_not_found (because e) = is_not_found e
is_not_found _ = false

-- `isNoCanonical`
unfoldable pub is_no_canonical : Error → Bool
is_no_canonical no_canonical_mapping = true
is_no_canonical (because e) = is_no_canonical e
is_no_canonical _ = false
