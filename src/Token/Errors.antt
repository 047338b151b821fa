-- ===== src/Token/Errors.antt =====
-- internal/tokenprofile: the errors. Messages that say the same of different fields are one error.
use baobab_iam.Base.{String}

pub data TokenError : Type 0 where
  exact_projection_required unknown_environment invalid_workload_profile : TokenError
  unsupported_credential unknown_lifecycle noncanonical_value invalid_binding : TokenError
  foreign_environment handoff_without_profile audiences_without_profile : String → TokenError
  noncanonical_token reserved_audience reserved_scope reserved_requester : TokenError
  reserved_client : String → TokenError
  human_commitment_scope not_a_client_id two_provenances no_trade_audience : String → TokenError
  issuance_denied credential_mismatch binding_mismatch scope_mismatch audience_mismatch : TokenError
  not_for_trade_alone wrong_purpose not_confidential no_handoff_scope empty_profile : TokenError
  noncanonical_profile control_plane_audience not_a_resource_scope no_registry_audience : TokenError
  unreached_audience consent_denied openid_required consent_scope_mismatch : TokenError
  audience_outside_profile : String → TokenError
  profile_scope_required seal_key_required human_issuance_denied human_grant_mismatch : TokenError
  human_subject_required audience_without_scopes human_scope_mismatch : TokenError
  consent_not_governed human_audience_mismatch assurance_missing assurance_malformed : TokenError
  noncanonical_consent incomplete_consent cannot_seal : TokenError
  invalid_request invalid_scopes registration_denied scopes_required intent_differs : TokenError
  invalid_response explicit_scopes_required response_scope_mismatch : TokenError
