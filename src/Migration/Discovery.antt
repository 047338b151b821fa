-- ===== src/Migration/Discovery.antt =====
-- internal/migration/ports.go and discovery.go: the ports by which a batch is found and resolved, and
-- the two that are kept in memory.
use Prim.Native.Char.{nul}
use Prim.Native.String.{◌++◌ as concat}
use baobab_iam.Base.{
  String, List, [], ◌∷◌, ◌||◌, str_eq, is_blank, is_empty, trim_space, if◌then◌else◌,
}
use baobab_iam.Result.{Result, ok, err, refuse_if}
use baobab_iam.Action.{Action, pure, lift, ◌>>◌}
use baobab_iam.Migration.Errors.{Error, batch_id_required, source_required, no_canonical_mapping}
use baobab_iam.Migration.Types.{IdentityClass, ProviderBinding}

-- `SourceBinding`
pub record SourceBinding : Type 0 where
  pub provider : String
  pub issuer : String
  pub subject : String
  pub suggested_class : IdentityClass
  pub snapshot_reference : String

-- `DiscoveryPort`
abbrev pub DiscoveryPort : Type 0 → Type 0
DiscoveryPort S = String → Action Error S (List SourceBinding)

-- `CanonicalResolver`
abbrev pub CanonicalResolver : Type 0 → Type 0
CanonicalResolver S = ProviderBinding → Action Error S String

-- `FixtureDiscovery.ListSourceBindings`
unfoldable pub fixture_discovery : {S : Type 0} → List SourceBinding → DiscoveryPort S
fixture_discovery bindings batch_id = do
  lift (refuse_if (is_blank batch_id) batch_id_required)
  pure bindings

-- `MapCanonicalResolver.key`; a Go string may hold the character 0.
unfoldable pub canonical_key : ProviderBinding → String
canonical_key source =
    concat (trim_space source.issuer)
      (concat (String.◌∷◌ nul String.[]) (trim_space source.subject))

-- `m.Mapping[key]`; an empty id counts as none.
unfoldable pub mapped_id : String → List (String × String) → Result Error String
mapped_id k [] = err no_canonical_mapping
mapped_id k ((j, id) ∷ rest) =
    let other = mapped_id k rest in
    if str_eq k j then (if is_empty id then err no_canonical_mapping else ok id) else other

-- `MapCanonicalResolver.ResolveCanonical`
unfoldable pub map_canonical_resolver : {S : Type 0} → List (String × String) → CanonicalResolver S
map_canonical_resolver mapping source = do
  let issuer = trim_space source.issuer
  let subject = trim_space source.subject
  lift (refuse_if (is_empty issuer || is_empty subject) source_required)
  lift (
      mapped_id (canonical_key (record { provider = ""; issuer = issuer; subject = subject }))
        mapping)
