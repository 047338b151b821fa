-- ===== src/Federation/Tests.antt =====
-- A run of the trust ledger, to which its theorems apply: a trust is proposed by one and approved by
-- another. The state outside is the time.
mod Consume
use baobab_iam.Base.{
  ℕ, suc, ◌≤◌, ◌<◌, split, all_codes, contains, contains_any, has_code, trim_space, trim_left,
  trim_right, is_space, String, true, false, List, [], ◌∷◌, none, some, ◌≡◌, ◌≢◌, refl, find_key,
  str_eq, if◌then◌else◌,
}
use baobab_iam.Result.{ok, err}
use baobab_iam.Action.{Action}
use baobab_iam.Federation.Types.{FederationError, unverified, Trust}
use baobab_iam.Federation.Ports.{Scope, TrustSnapshot, ReferenceExpectation, ApprovedReference}
use baobab_iam.Federation.Ledger.{CommittedTrust, World, ApprovalActor, TrustLedger, find_revision}
use baobab_iam.Federation.Ledger.Transition.{max_uint64}
use baobab_iam.Federation.Grammar.{
  is_small, is_alnum, is_entity_code, is_hex, hex_pieces, is_uuid, after_prefix, valid_ref, exact,
  valid_provider, valid_instance, valid_binding, is_entity, is_estate, valid_scope,
}
use baobab_iam.Federation.Validate.{
  each_scope, unique_scope, identity_refused, lifecycle_refused, validate_trust,
}
use baobab_iam.Federation.Ledger.Tx.{
  authority_error, reported, update, is_cancelled, still_before, observe_clock, fence,
  put_trust_revision, actor,
}
use baobab_iam.Federation.Ledger.Propose.{
  valid_expectation, candidate_refused, pending, read, write_proposal, store_proposal, propose,
}
use baobab_iam.Federation.Ledger.Decide.{
  expected, committed, proposal, activation, decided, commit_proposal, write_decision,
  store_decision, decide,
}
use baobab_iam.Federation.Ledger.Sound.{number, IsSound, Follows, Follows-refl}
use baobab_iam.Federation.Ledger.Keeps.{PortsKeep}
use baobab_iam.Federation.Ledger.Calls.{
  LedgerCall, call_propose, call_decide, new_disk, run_calls, run_call, ledger_keeps,
  revision_bounds,
}

abbrev anna : String
anna = "aaaaaaaa-aaaa-aaaa-aaaa-aaaaaaaaaaaa"

abbrev ben : String
ben = "bbbbbbbb-bbbb-bbbb-bbbb-bbbbbbbbbbbb"

abbrev trust_id : String
trust_id = "00000000-0000-0000-0000-000000000001"

abbrev proposal_id : String
proposal_id = "00000000-0000-0000-0000-000000000002"

abbrev requested : Trust
requested = record {
  id = trust_id;
  protocol = "OIDC";
  upstream_issuer = "https://idp";
  organisation_ids = "acme" ∷ [];
  estate_ids = "shop" ∷ [];
  provider_binding = record {
    provider_id = "provider_one";
    engine_instance_id = "ei_one1";
    configuration_reference = "ref_conf1";
    trust_material_reference = "ref_keys1";
  };
  status = "REQUESTED";
  assurance_policy_reference = "ref_policy1";
  attribute_mapping_reference = "ref_mapping1";
  provisioning_policy_reference = "ref_provis1";
  revision = 1;
  created_at = 5;
  updated_at = 5;
  activation_evidence_reference = "";
  activated_at = none;
  revoked_at = none;
}

abbrev candidate : TrustSnapshot
candidate = record {
  trust = requested;
  approved_revision = 1;
  snapshot_id = "snapshot-1";
  valid_until = 1000;
}

abbrev scope : Scope
scope = record { organisation_id = "acme"; estate_id = "shop" }

abbrev want : ReferenceExpectation
want = record (expected candidate scope "ref_activation1" "federation_activation") {
  trust_revision = 1;
}

abbrev by_action : String → ReferenceExpectation → Action FederationError (World ℕ) ApprovalActor
by_action action w s = (
  ok record { principal_id = if str_eq action "PROPOSE" then anna else ben; valid_until = 1000 },
  s,
)

abbrev the_digest : ReferenceExpectation → Action FederationError (World ℕ) String
the_digest w s = (ok "digest", s)

abbrev no_reference : ReferenceExpectation → Action FederationError (World ℕ) ApprovedReference
no_reference w s = (err unverified, s)

abbrev ledger : TrustLedger ℕ
ledger = record {
  actors = by_action;
  targets = the_digest;
  references = no_reference;
  now = λ n. (n, suc n);
  random_uuid = λ n. (ok "00000000-0000-0000-0000-000000000003", n);
  cancelled = λ n. false;
  broken = λ n. false;
  digest = λ s. "digest";
  parse = λ s. some record {
    scheme = "https";
    hostname = "idp";
    has_user = false;
    raw_query = "";
    force_query = false;
    fragment = "";
  };
}

ports : PortsKeep ledger
ports = record {
  actors = λ d action w. record { at = λ s h f. (h, Follows-refl s.disk) };
  targets = λ d w. record { at = λ s h f. (h, Follows-refl s.disk) };
  references = λ d w. record { at = λ s h f. (h, Follows-refl s.disk) };
}

abbrev calls : List LedgerCall
calls = call_propose proposal_id candidate want ∷ call_decide proposal_id "digest" true ∷ []

abbrev start : World ℕ
start = record { disk = new_disk; outside = 10 }

start-IsSound : IsSound new_disk
unfolding find_key
start-IsSound = record { in_force = λ id v e. cc; proposals = λ id p e. cc }

ledger_keeps_example :
    IsSound (run_calls ledger calls start).disk
    × Follows new_disk (run_calls ledger calls start).disk
ledger_keeps_example = ledger_keeps ledger calls start ports start-IsSound

abbrev made : CommittedTrust
made = record {
  snapshot = candidate;
  scope = scope;
  proposal_id = proposal_id;
  maker = anna;
  checker = ben;
  decided_at = 22;
  containment_actor = "";
  contained_at = none;
}

in_force_run : find_key trust_id (run_calls ledger calls start).disk.trusts ≡ some made
unfolding run_calls run_call propose decide find_key actor fence observe_clock reported update
    still_before is_cancelled read store_proposal write_proposal pending candidate_refused
    validate_trust identity_refused lifecycle_refused unique_scope each_scope is_uuid hex_pieces
    is_hex valid_ref after_prefix is_small exact valid_provider valid_instance valid_binding
    is_alnum is_entity_code is_entity is_estate valid_scope valid_expectation split all_codes
    contains contains_any has_code trim_space trim_left trim_right is_space proposal activation
    decided store_decision write_decision commit_proposal put_trust_revision committed find_revision
    authority_error
in_force_run = refl

revision_bounds_example :
    (made.snapshot.trust.id ≡ trust_id)
    × (made.maker ≢ made.checker)
    × (0 < number made)
    × (number made ≤ max_uint64)
revision_bounds_example = revision_bounds ledger calls 10 trust_id made ports in_force_run
