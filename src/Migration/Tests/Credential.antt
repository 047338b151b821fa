-- ===== src/Migration/Tests/Credential.antt =====
-- internal/migration: a provisioned row in the credential stage, and the texts of a row.
use baobab_iam.Base.{
  arith, pos, false, some, [], ◌∷◌, ◌++◌, ◌≡◌, refl, ◌≢◌, inl, inr, codes, next_int64, is_space,
  trim_space, trim_left, trim_right,
}
use baobab_iam.Result.{ok}
use baobab_iam.Migration.Types.{
  verification_pending, verified, Row, provisioned, credential_pending, class_valid, strategy_valid,
  state_valid, target_optional, IdentityClass-discrete, MigrationState-discrete,
}
use baobab_iam.Migration.Validate.{
  validate_structural, check_forbidden_ledger_strings, has_any, contains_ascii, occurs, begins_with,
  lower_ascii,
}
use baobab_iam.Migration.Validate.Secrets.{no_secret_marker}
use baobab_iam.Migration.Validate.Spelling.{Spells}
use baobab_iam.Migration.State.{
  transition, can_transition, count_attempt, is_parking, is_mutation_stage,
}
use baobab_iam.Migration.Store.Memory.{Memory, lookup, put, get, insert}
use baobab_iam.Migration.Store.Memory.Laws.{IsKeyed}
use baobab_iam.Migration.Service.{apply_transition, phase_c_policy_gate, stamp}
use baobab_iam.Migration.Stages.Verification.{VerificationResult, mark_verified}
use baobab_iam.Migration.Stages.Verified.{Verified, mark_verified_succeeds}
use baobab_iam.Migration.Stages.Credential.{CredentialResult, apply_credential, to_pending}
use baobab_iam.Migration.Stages.Outcome.{Credentialed, apply_credential_succeeds}
use baobab_iam.Migration.Tests.{svc, person, memory_laws, ledger-IsKeyed}

abbrev provisioned_person : Row
provisioned_person = record person {
  migration_state = provisioned;
  target = record { provider = "ory"; issuer = "https://new"; subject = "new-1" };
}

abbrev provisioned_ledger : Memory
provisioned_ledger = ("mig-1", provisioned_person) ∷ []

provisioned_ledger-IsKeyed : IsKeyed provisioned_ledger
unfolding validate_structural check_forbidden_ledger_strings has_any contains_ascii occurs
    begins_with lower_ascii trim_space trim_left trim_right is_space class_valid strategy_valid
    state_valid target_optional IdentityClass-discrete
provisioned_ledger-IsKeyed = (refl, refl, tt)

abbrev pending_result : CredentialResult
pending_result = record {
  row = record provisioned_person { migration_state = credential_pending; attempt_count = pos 1 };
  outcome = "awaiting_external_credential_action";
  already_ready = false;
}

credential_run : (apply_credential svc "mig-1" provisioned_ledger).0 ≡ ok pending_result
unfolding apply_credential to_pending phase_c_policy_gate stamp apply_transition transition
    can_transition count_attempt is_mutation_stage is_parking insert lookup put get
    validate_structural check_forbidden_ledger_strings has_any contains_ascii occurs begins_with
    lower_ascii trim_space trim_left trim_right is_space class_valid strategy_valid state_valid
    target_optional MigrationState-discrete IdentityClass-discrete next_int64
credential_run = refl

apply_credential_succeeds_example :
    (r : Row) × (memory_laws.view provisioned_ledger "mig-1" ≡ some r)
    × Credentialed svc memory_laws "mig-1" r pending_result
        (memory_laws.view provisioned_ledger)
        (memory_laws.view (apply_credential svc "mig-1" provisioned_ledger).1)
apply_credential_succeeds_example =
    apply_credential_succeeds svc memory_laws "mig-1" pending_result provisioned_ledger
      provisioned_ledger-IsKeyed credential_run

totp_spelled : Spells (codes "TOTP_Secret") (codes "totp_secret")
totp_spelled = ground arith

-- No piece of the id spells "TOTP_Secret".
no_secret_marker_example : codes "mig-1" ≢ ([] ++ (codes "TOTP_Secret" ++ []))
no_secret_marker_example =
    no_secret_marker person "mig-1" "totp_secret" [] (codes "TOTP_Secret") [] (ledger-IsKeyed.1)
      (inr (inr (inl refl))) (inr (inr (inl refl))) totp_spelled

abbrev checked_person : Row
checked_person = record provisioned_person { migration_state = verification_pending }

abbrev checked_ledger : Memory
checked_ledger = ("mig-1", checked_person) ∷ []

checked_ledger-IsKeyed : IsKeyed checked_ledger
unfolding validate_structural check_forbidden_ledger_strings has_any contains_ascii occurs
    begins_with lower_ascii trim_space trim_left trim_right is_space class_valid strategy_valid
    state_valid target_optional IdentityClass-discrete
checked_ledger-IsKeyed = (refl, refl, tt)

abbrev verified_result : VerificationResult
verified_result = record {
  row = record checked_person { migration_state = verified; verified_at = some 5 };
  outcome = "verified";
  already_verified = false;
}

verified_run : (mark_verified svc "mig-1" checked_ledger).0 ≡ ok verified_result
unfolding mark_verified phase_c_policy_gate stamp apply_transition transition can_transition
    count_attempt is_mutation_stage is_parking insert lookup put get validate_structural
    check_forbidden_ledger_strings has_any contains_ascii occurs begins_with lower_ascii trim_space
    trim_left trim_right is_space class_valid strategy_valid state_valid target_optional
    MigrationState-discrete IdentityClass-discrete next_int64
verified_run = refl

mark_verified_succeeds_example :
    (r : Row) × (memory_laws.view checked_ledger "mig-1" ≡ some r)
    × Verified "mig-1" r verified_result
        (memory_laws.view checked_ledger)
        (memory_laws.view (mark_verified svc "mig-1" checked_ledger).1)
mark_verified_succeeds_example =
    mark_verified_succeeds svc memory_laws "mig-1" verified_result checked_ledger
      checked_ledger-IsKeyed verified_run
