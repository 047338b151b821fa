-- ===== src/Migration/Tests/Batch.antt =====
-- internal/migration/batch.go: a batch of two bindings, one of them without a canonical identity.
use baobab_iam.Base.{
  String, List, [], ◌∷◌, refl, Bool-cases, inl, inr, is_blank, is_empty, trim_space, ◌||◌,
}
use baobab_iam.Migration.Types.{IdentityClass, CredentialStrategy, ProviderBinding}
use baobab_iam.Migration.Store.Memory.{Memory}
use baobab_iam.Migration.Ledger.Refines.{IsReached}
use baobab_iam.Migration.Discovery.{
  SourceBinding, DiscoveryPort, CanonicalResolver, fixture_discovery, map_canonical_resolver,
}
use baobab_iam.Migration.Batch.{register_batch}
use baobab_iam.Migration.Batch.Request.{BatchRegisterRequest}
use baobab_iam.Migration.Batch.Laws.{LeavesStore, IsExtended, batch_only_adds}
use baobab_iam.Migration.Tests.{svc, ledger, ledger-IsKeyed, memory_laws}

abbrev binding : String → SourceBinding
binding subject = record {
  provider = "keycloak";
  issuer = "https://old";
  subject = subject;
  suggested_class = IdentityClass.unlisted "";
  snapshot_reference = "";
}

abbrev discovery : DiscoveryPort Memory
discovery = fixture_discovery (binding "s-2" ∷ binding "s-3" ∷ [])

abbrev resolver : CanonicalResolver Memory
resolver = map_canonical_resolver []

-- A digest that keeps the subject only.
abbrev digest : List String → String
digest (a ∷ b ∷ c ∷ d ∷ []) = d
digest _ = ""

abbrev request : BatchRegisterRequest
request = record {
  batch_id = "batch-2";
  default_strategy = CredentialStrategy.unlisted "";
  default_class = IdentityClass.unlisted "";
  orphan_class = IdentityClass.unlisted "";
}

discovery-LeavesStore : (id : String) → LeavesStore svc memory_laws (discovery id)
unfolding fixture_discovery
discovery-LeavesStore id s h = elim (Bool-cases (is_blank id)) [
  | inl e ↦ rw e (h, refl)
  | inr e ↦ rw e (h, refl)
]

resolver-LeavesStore : (source : ProviderBinding) → LeavesStore svc memory_laws (resolver source)
unfolding map_canonical_resolver
resolver-LeavesStore source s h =
    elim (Bool-cases
      (is_empty (trim_space source.issuer) || is_empty (trim_space source.subject))) [
        | inl e ↦ rw e (h, refl)
        | inr e ↦ rw e (h, refl)
      ]

batch_only_adds_example :
    IsReached svc memory_laws ledger (register_batch svc resolver digest discovery request ledger).1
    × IsExtended
        (memory_laws.view ledger)
        (memory_laws.view (register_batch svc resolver digest discovery request ledger).1)
batch_only_adds_example =
    batch_only_adds svc memory_laws resolver digest discovery resolver-LeavesStore
      discovery-LeavesStore request ledger ledger-IsKeyed
