-- ===== src/Migration/Batch.antt =====
-- internal/migration/batch.go: the registration of a batch of discovered bindings. `digest` stands for
-- the hash in a row's id.
pub mod Request
pub mod Steps
pub mod Laws
use baobab_iam.Base.{
  suc, pos, String, Bool, true, false, not, ◌||◌, Option, none, some, List, [], ◌∷◌, ◌++◌, str_eq,
  is_empty, trim_space, if◌then◌else◌,
}
use baobab_iam.Result.{Result, ok, err, refuse_if}
use baobab_iam.Action.{Action, pure, raise, lift, attempt, ◌>>=◌, ◌>>◌}
use baobab_iam.Migration.Errors.{
  Error, is_not_found, is_no_canonical, binding_incomplete, source_drift, canonical_drift, because,
}
use baobab_iam.Migration.Types.{
  Row, ProviderBinding, IdentityClass, orphan_candidate, discovered, is_class, is_binding,
}
use baobab_iam.Migration.Texts.{class_text}
use baobab_iam.Migration.Service.{Service, register, trimmed}
use baobab_iam.Migration.Discovery.{SourceBinding, DiscoveryPort, CanonicalResolver}
use baobab_iam.Migration.Batch.Request.{
  BatchRegisterRequest, BatchRegisterResult, batch_migration_id, prepared,
}

-- The answer of the resolver; `none` if there is no mapping.
unfoldable pub canonical_or_none : Result Error String → Result Error (Option String)
canonical_or_none (ok id) = ok (some id)
canonical_or_none (err e) = if is_no_canonical e then ok none else err (because e)

abbrev text_or_empty : Option String → String
text_or_empty none = ""
text_or_empty (some id) = id

abbrev same_bool : Bool → Bool → Bool
same_bool true b = b
same_bool false b = not b

-- The source of a binding, trimmed.
abbrev pub source_of : SourceBinding → ProviderBinding
source_of b = trimmed (record { provider = b.provider; issuer = b.issuer; subject = b.subject })

abbrev pub is_incomplete : ProviderBinding → Bool
is_incomplete s = is_empty s.provider || is_empty s.issuer || is_empty s.subject

-- The row is not what this batch would have registered.
abbrev pub has_drifted : BatchRegisterRequest → SourceBinding → Row → Bool
has_drifted req b existing =
    not (str_eq existing.migration_batch_id req.batch_id)
    || not (is_binding existing.source (source_of b))
    || not (str_eq existing.source_snapshot_reference b.snapshot_reference)

abbrev pub has_other_canonical : Row → String → Bool
has_other_canonical existing canonical =
    not (str_eq existing.canonical_identity_id canonical)
    || not (same_bool (is_class existing.identity_class orphan_candidate) (is_empty canonical))

abbrev pub class_for : BatchRegisterRequest → SourceBinding → Option String → IdentityClass
class_for req b none = req.orphan_class
class_for req b (some id) =
    if is_empty (class_text b.suggested_class) then req.default_class else b.suggested_class

-- The new row of a binding.
unfoldable pub batch_row : BatchRegisterRequest → String → SourceBinding → Option String → Row
batch_row req id b canonical = record {
  revision = pos 0;
  migration_id = id;
  migration_batch_id = req.batch_id;
  canonical_identity_id = text_or_empty canonical;
  source = source_of b;
  target = record { provider = ""; issuer = ""; subject = "" };
  identity_class = class_for req b canonical;
  credential_strategy = req.default_strategy;
  migration_state = discovered;
  verification_state = "";
  cutover_state = "";
  source_snapshot_reference = b.snapshot_reference;
  attempt_count = pos 0;
  last_error_code = "";
  created_at = 0;
  started_at = none;
  verified_at = none;
  cutover_at = none;
  retired_at = none;
}

-- The result with one more row.
abbrev counted : String → Option String → BatchRegisterResult → BatchRegisterResult
counted id none res = record res {
  registered = suc res.registered;
  orphans = suc res.orphans;
  migration_ids = res.migration_ids ++ (id ∷ []);
}
counted id (some _) res = record res {
  registered = suc res.registered;
  migration_ids = res.migration_ids ++ (id ∷ []);
}

module _ {S : Type 0} (svc : Service S) (resolve_canonical : CanonicalResolver S)
    (digest : List String → String) where
  -- A binding of which the row exists.
  abbrev pub confirm :
      BatchRegisterRequest
      → SourceBinding
      → Row
      → BatchRegisterResult
      → Action Error S BatchRegisterResult
  confirm req b existing res = do
    lift (refuse_if (has_drifted req b existing) source_drift)
    answer ← attempt (resolve_canonical (source_of b))
    canonical ← lift (canonical_or_none answer)
    lift (refuse_if (has_other_canonical existing (text_or_empty canonical)) canonical_drift)
    pure (record res { skipped_exists = suc res.skipped_exists })

  -- A failure of `Register` is wrapped.
  abbrev pub done_or_wrapped :
      Result Error Row → BatchRegisterResult → Action Error S BatchRegisterResult
  done_or_wrapped (ok _) res = pure res
  done_or_wrapped (err e) res = raise (because e)

  -- A binding of which there is no row.
  abbrev pub add_row :
      BatchRegisterRequest
      → SourceBinding
      → String
      → BatchRegisterResult
      → Action Error S BatchRegisterResult
  add_row req b id res = do
    answer ← attempt (resolve_canonical (source_of b))
    canonical ← lift (canonical_or_none answer)
    added ← attempt (register svc (batch_row req id b canonical))
    done_or_wrapped added (counted id canonical res)

  -- The switch on the answer of `Get`.
  abbrev pub by_answer :
      BatchRegisterRequest
      → SourceBinding
      → String
      → BatchRegisterResult
      → Result Error Row
      → Action Error S BatchRegisterResult
  by_answer req b id res (ok existing) = confirm req b existing res
  by_answer req b id res (err e) =
      if is_not_found e then add_row req b id res else raise (because e)

  -- One round of the loop.
  unfoldable pub register_binding :
      BatchRegisterRequest
      → SourceBinding
      → BatchRegisterResult
      → Action Error S BatchRegisterResult
  register_binding req b res = do
    let id = batch_migration_id digest req.batch_id (source_of b)
    lift (refuse_if (is_incomplete (source_of b)) binding_incomplete)
    found ← attempt (svc.store.get id)
    by_answer req b id res found

  -- The loop over the bindings.
  unfoldable pub register_bindings :
      BatchRegisterRequest
      → List SourceBinding
      → BatchRegisterResult
      → Action Error S BatchRegisterResult
  register_bindings req [] res = pure res
  register_bindings req (b ∷ rest) res = do
    res' ← register_binding req b res
    register_bindings req rest res'

  -- `Service.RegisterBatch`
  unfoldable pub register_batch :
      DiscoveryPort S → BatchRegisterRequest → Action Error S BatchRegisterResult
  register_batch list_source_bindings raw = do
    req ← lift (prepared raw)
    bindings ← list_source_bindings req.batch_id
    register_bindings req bindings (record {
      batch_id = req.batch_id;
      registered = 0;
      orphans = 0;
      skipped_exists = 0;
      migration_ids = [];
    })
