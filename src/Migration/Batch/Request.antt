-- ===== src/Migration/Batch/Request.antt =====
-- internal/migration/batch.go: the request of a batch, its defaults and its result.
use Prim.Native.String.{◌++◌ as concat}
use baobab_iam.Base.{ℕ, String, not, List, [], ◌∷◌, is_blank, is_empty, trim_space, if◌then◌else◌}
use baobab_iam.Result.{Result, ok, ◌>>◌, refuse_if}
use baobab_iam.Migration.Errors.{Error, batch_id_required, invalid_strategy, invalid_class}
use baobab_iam.Migration.Types.{
  ProviderBinding, IdentityClass, CredentialStrategy, orphan_candidate, test_or_nonproduction,
  no_credential_required, class_valid, strategy_valid,
}
use baobab_iam.Migration.Texts.{class_text, class_of_text, strategy_text, strategy_of_text}

-- `BatchRegisterRequest`
pub record BatchRegisterRequest : Type 0 where
  pub batch_id : String
  pub default_strategy : CredentialStrategy
  pub default_class : IdentityClass
  pub orphan_class : IdentityClass

-- `BatchRegisterResult`. The counters are bounded by the number of bindings, so they do not wrap.
pub record BatchRegisterResult : Type 0 where
  pub batch_id : String
  pub registered : ℕ
  pub orphans : ℕ
  pub skipped_exists : ℕ
  pub migration_ids : List String

-- `BatchMigrationID`; `digest` is the hash of the encoded tuple.
unfoldable pub batch_migration_id : (List String → String) → String → ProviderBinding → String
batch_migration_id digest batch_id source =
    concat "migration-v1-"
      (digest (batch_id ∷ source.provider ∷ source.issuer ∷ source.subject ∷ []))

abbrev strategy_or_default : CredentialStrategy → CredentialStrategy
strategy_or_default s =
    if is_empty (strategy_text s)
    then no_credential_required
    else strategy_of_text (trim_space (strategy_text s))

abbrev class_or : IdentityClass → IdentityClass → IdentityClass
class_or c d = if is_empty (class_text c) then d else class_of_text (trim_space (class_text c))

-- The request with its defaults, or the refusal.
unfoldable pub prepared : BatchRegisterRequest → Result Error BatchRegisterRequest
prepared req = do
  let strategy = strategy_or_default req.default_strategy
  let class = class_or req.default_class test_or_nonproduction
  refuse_if (is_blank req.batch_id) batch_id_required
  refuse_if (not (strategy_valid strategy)) invalid_strategy
  refuse_if (not (class_valid class)) invalid_class
  ok (record {
    batch_id = trim_space req.batch_id;
    default_strategy = strategy;
    default_class = class;
    orphan_class = class_or req.orphan_class orphan_candidate;
  })
