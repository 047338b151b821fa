-- ===== src/Migration/Types.antt =====
-- internal/migration/types.go: the enumerations and the ledger row. A Go enumeration is a string
-- type, so each has `unlisted` for the texts that are none of its constants. A `time.Time` is a
-- number of nanoseconds, 0 for the zero time; an optional one is an `Option`.
use baobab_iam.Base.{ℕ, String, String-discrete, Bool, true, false, Option, ℤ}

pub data IdentityClass : Type 0 where
  human workload privileged_human break_glass federated_human : IdentityClass
  service_integration test_or_nonproduction orphan_candidate : IdentityClass
  unlisted : String → IdentityClass

pub data CredentialStrategy : Type 0 where
  direct_import first_login_migration controlled_re_enrolment : CredentialStrategy
  federated_rebind passkey_re_enrolment mfa_re_enrolment : CredentialStrategy
  no_credential_required : CredentialStrategy
  unlisted : String → CredentialStrategy

pub data MigrationState : Type 0 where
  discovered validated ready provisioning provisioned credential_pending : MigrationState
  credential_ready verification_pending verified cutover_ready cutover : MigrationState
  legacy_retired blocked failed_retryable failed_manual_review rolled_back : MigrationState
  quarantined : MigrationState
  unlisted : String → MigrationState

unfoldable pub IdentityClass-discrete : Discrete IdentityClass
unfolding String-discrete
IdentityClass-discrete = hlevel String-discrete

unfoldable pub CredentialStrategy-discrete : Discrete CredentialStrategy
unfolding String-discrete
CredentialStrategy-discrete = hlevel String-discrete

unfoldable pub MigrationState-discrete : Discrete MigrationState
unfolding String-discrete
MigrationState-discrete = hlevel String-discrete

-- Go's `==` on these types.
abbrev pub is_class : IdentityClass → IdentityClass → Bool
is_class a b = elim (IdentityClass-discrete a b) [ yes _ ↦ true | no _ ↦ false ]

abbrev pub is_strategy : CredentialStrategy → CredentialStrategy → Bool
is_strategy a b = elim (CredentialStrategy-discrete a b) [ yes _ ↦ true | no _ ↦ false ]

abbrev pub is_state : MigrationState → MigrationState → Bool
is_state a b = elim (MigrationState-discrete a b) [ yes _ ↦ true | no _ ↦ false ]

-- `IdentityClass.Valid`
unfoldable pub class_valid : IdentityClass → Bool
class_valid (IdentityClass.unlisted _) = false
class_valid _ = true

-- `CredentialStrategy.Valid`
unfoldable pub strategy_valid : CredentialStrategy → Bool
strategy_valid (CredentialStrategy.unlisted _) = false
strategy_valid _ = true

-- `MigrationState.Valid`
unfoldable pub state_valid : MigrationState → Bool
state_valid (MigrationState.unlisted _) = false
state_valid _ = true

-- One side of the mapping, issuer and subject.
pub record ProviderBinding : Type 0 where
  pub provider : String
  pub issuer : String
  pub subject : String

unfoldable pub ProviderBinding-discrete : Discrete ProviderBinding
unfolding String-discrete
ProviderBinding-discrete = hlevel String-discrete

abbrev pub is_binding : ProviderBinding → ProviderBinding → Bool
is_binding a b = elim (ProviderBinding-discrete a b) [ yes _ ↦ true | no _ ↦ false ]

-- `Record`, a ledger row.
pub record Row : Type 0 where
  pub revision : ℤ
  pub migration_id : String
  pub migration_batch_id : String
  pub canonical_identity_id : String
  pub source : ProviderBinding
  pub target : ProviderBinding
  pub identity_class : IdentityClass
  pub credential_strategy : CredentialStrategy
  pub migration_state : MigrationState
  pub verification_state : String
  pub cutover_state : String
  pub source_snapshot_reference : String
  pub attempt_count : ℤ
  pub last_error_code : String
  pub created_at : ℕ
  pub started_at : Option ℕ
  pub verified_at : Option ℕ
  pub cutover_at : Option ℕ
  pub retired_at : Option ℕ

-- `targetOptional`
unfoldable pub target_optional : MigrationState → Bool
target_optional discovered = true
target_optional validated = true
target_optional ready = true
target_optional provisioning = true
target_optional blocked = true
target_optional failed_retryable = true
target_optional failed_manual_review = true
target_optional rolled_back = true
target_optional quarantined = true
target_optional _ = false
