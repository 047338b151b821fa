-- ===== src/Migration/Texts.antt =====
-- internal/migration/types.go: the texts of the constants, for code that reads an enumeration as text.
use baobab_iam.Base.{String, str_eq, if◌then◌else◌}
use baobab_iam.Migration.Types.{
  IdentityClass, human, workload, privileged_human, break_glass, federated_human,
  service_integration, test_or_nonproduction, orphan_candidate, CredentialStrategy, direct_import,
  first_login_migration, controlled_re_enrolment, federated_rebind, passkey_re_enrolment,
  mfa_re_enrolment, no_credential_required,
}

unfoldable pub class_text : IdentityClass → String
class_text human = "HUMAN"
class_text workload = "WORKLOAD"
class_text privileged_human = "PRIVILEGED_HUMAN"
class_text break_glass = "BREAK_GLASS"
class_text federated_human = "FEDERATED_HUMAN"
class_text service_integration = "SERVICE_INTEGRATION"
class_text test_or_nonproduction = "TEST_OR_NONPRODUCTION"
class_text orphan_candidate = "ORPHAN_CANDIDATE"
class_text (IdentityClass.unlisted s) = s

-- `IdentityClass(s)`
unfoldable pub class_of_text : String → IdentityClass
class_of_text s =
    if str_eq s "HUMAN"
    then human
    else if str_eq s "WORKLOAD"
    then workload
    else if str_eq s "PRIVILEGED_HUMAN"
    then privileged_human
    else if str_eq s "BREAK_GLASS"
    then break_glass
    else if str_eq s "FEDERATED_HUMAN"
    then federated_human
    else if str_eq s "SERVICE_INTEGRATION"
    then service_integration
    else if str_eq s "TEST_OR_NONPRODUCTION"
    then test_or_nonproduction
    else if str_eq s "ORPHAN_CANDIDATE"
    then orphan_candidate
    else IdentityClass.unlisted s

unfoldable pub strategy_text : CredentialStrategy → String
strategy_text direct_import = "DIRECT_IMPORT"
strategy_text first_login_migration = "FIRST_LOGIN_MIGRATION"
strategy_text controlled_re_enrolment = "CONTROLLED_RE_ENROLMENT"
strategy_text federated_rebind = "FEDERATED_REBIND"
strategy_text passkey_re_enrolment = "PASSKEY_RE_ENROLMENT"
strategy_text mfa_re_enrolment = "MFA_RE_ENROLMENT"
strategy_text no_credential_required = "NO_CREDENTIAL_REQUIRED"
strategy_text (CredentialStrategy.unlisted s) = s

-- `CredentialStrategy(s)`
unfoldable pub strategy_of_text : String → CredentialStrategy
strategy_of_text s =
    if str_eq s "DIRECT_IMPORT"
    then direct_import
    else if str_eq s "FIRST_LOGIN_MIGRATION"
    then first_login_migration
    else if str_eq s "CONTROLLED_RE_ENROLMENT"
    then controlled_re_enrolment
    else if str_eq s "FEDERATED_REBIND"
    then federated_rebind
    else if str_eq s "PASSKEY_RE_ENROLMENT"
    then passkey_re_enrolment
    else if str_eq s "MFA_RE_ENROLMENT"
    then mfa_re_enrolment
    else if str_eq s "NO_CREDENTIAL_REQUIRED"
    then no_credential_required
    else CredentialStrategy.unlisted s
