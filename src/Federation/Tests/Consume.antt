-- ===== src/Federation/Tests/Consume.antt =====
-- A run of `Consume`, to which its theorem applies: a step-up of an OIDC authentication lets in Anna.
-- The state outside is the time.
use native.Mathlib.Decide.{ℕ_discrete}
use baobab_iam.Base.{
  ℕ, pos, split, all_codes, contains, contains_any, has_code, trim_space, trim_left, trim_right,
  is_space, String, true, false, [], ◌∷◌, none, some, ◌≡◌, refl, String-discrete,
}
use baobab_iam.Result.{ok}
use baobab_iam.Action.{Action}
use baobab_iam.Resource.Gate.{longer, sub_time}
use baobab_iam.Federation.Types.{
  FederationError, Trust, Trust-discrete, ExternalPrincipal, Assurance,
}
use baobab_iam.Federation.Ports.{
  Scope, Scope-discrete, TrustSnapshot, ReferenceExpectation, ReferenceExpectation-discrete,
  ApprovedReference, PlatformSnapshot, CanonicalIdentity,
}
use baobab_iam.Federation.Grammar.{
  is_small, is_alnum, is_entity_code, is_hex, is_small_hex, hex_pieces, is_uuid, after_prefix,
  valid_ref, exact, valid_provider, valid_instance, valid_binding, is_entity, is_estate,
  valid_scope, is_digest,
}
use baobab_iam.Federation.Validate.{
  each_scope, unique_scope, identity_refused, lifecycle_refused, validate_trust, fresh,
  principal_refused, assurance_refused, resolution_refused, mapping_refused, evidence_refused,
  validate_bundle,
}
use baobab_iam.Federation.Ledger.Tx.{authority_error}
use baobab_iam.Federation.Ledger.Decide.{receipt_refused}
use baobab_iam.Federation.Conditions.{
  add_time, earlier, authenticated_at, snapshot_refused, out_of_scope, platform_denied,
  platform_unverified, event_denied, canonical_refused, resolved_otherwise, has_changed, base,
  mapping_decision, identity_mapping,
}
use baobab_iam.Federation.Consume.{
  Consumer, Decision, asked, check, check_all, conclude, use_identity, use_event, consume_event,
  use_trust, consume,
}
use baobab_iam.Federation.Consume.Whole.{IsConsumed, consume_lem}

abbrev trust_id : String
trust_id = "00000000-0000-0000-0000-000000000001"

abbrev event_id : String
event_id = "00000000-0000-0000-0000-000000000002"

abbrev anna : String
anna = "aaaaaaaa-aaaa-aaaa-aaaa-aaaaaaaaaaaa"

abbrev annas_identity : String
annas_identity = "bbbbbbbb-bbbb-bbbb-bbbb-bbbbbbbbbbbb"

abbrev image : String
image = "sha256:0123456789abcdef0123456789abcdef0123456789abcdef0123456789abcdef"

abbrev in_force : Trust
in_force = record {
  id = trust_id;
  protocol = "OIDC";
  upstream_issuer = "https://idp";
  organisation_ids = "acme" ∷ [];
  estate_ids = "shop" ∷ [];
  provider_binding = record {
    provider_id = "provider_one";
    engine_instance_id = "ei_one1";
    configuration_reference = "ref_conf1";
    trust_material_reference = "ref_keys1";
  };
  status = "ACTIVE";
  assurance_policy_reference = "ref_policy1";
  attribute_mapping_reference = "ref_mapping1";
  provisioning_policy_reference = "ref_provis1";
  revision = 3;
  created_at = 5;
  updated_at = 7;
  activation_evidence_reference = "ref_activation1";
  activated_at = some 7;
  revoked_at = none;
}

abbrev the_scope : Scope
the_scope = record { organisation_id = "acme"; estate_id = "shop" }

abbrev the_trust : String → Action FederationError ℕ TrustSnapshot
the_trust id s = (
  ok record {
    trust = in_force;
    approved_revision = 3;
    snapshot_id = "snapshot-3";
    valid_until = 1000;
  },
  s,
)

abbrev approve_all : ReferenceExpectation → Action FederationError ℕ ApprovedReference
approve_all want s = (
  ok record {
    expectation = want;
    status = "APPROVED";
    non_secret = true;
    valid_from = 8;
    expires_at = 900;
  },
  s,
)

abbrev the_platform : PlatformSnapshot
the_platform = record {
  provider_id = "provider_one";
  engine_instance_id = "ei_one1";
  scope = the_scope;
  provider_status = "ACTIVE";
  instance_status = "ACTIVE";
  binding_status = "ACTIVE";
  runtime_capability = "OIDC_FEDERATION";
  support_status = "VERIFIED";
  artifact_digest = image;
  deployed_artifact_digest = image;
  profile_revision = 1;
  evidence_expires_at = 800;
}

abbrev observed : ExternalPrincipal
observed = record {
  authentication_event_id = event_id;
  trust_id = trust_id;
  provider_id = "provider_one";
  engine_instance_id = "ei_one1";
  protocol = "OIDC";
  issuer = "https://idp";
  subject = "anna";
  actor_type = "human";
  observed_at = 90;
  expires_at = 150;
  resolution = record {
    status = "UNRESOLVED";
    principal_id = "";
    external_identity_id = "";
    mapping_reference = "";
    mapping_basis = "";
    resolved_at = none;
  };
}

abbrev assured : Assurance
assured = record {
  authentication_event_id = event_id;
  trust_id = trust_id;
  provider_id = "provider_one";
  engine_instance_id = "ei_one1";
  protocol = "OIDC";
  issuer = "https://idp";
  subject = "anna";
  upstream_evidence = record {
    oidc = some record {
      actor_type = "human";
      acr = "urn:strong";
      amr = some ("pwd" ∷ "otp" ∷ []);
      authenticated_at = 60;
      step_up_at = some 85;
      issuer = "https://idp";
      client_id = "baobab";
    };
    saml = none;
  };
  mapping_status = "MAPPED";
  level = "BAOBAB-A2";
  assurance_policy_reference = "ref_policy1";
  mapping_evidence_reference = "ref_evidence1";
  evaluated_at = 95;
  expires_at = 140;
}

abbrev the_identity : String → String → Action FederationError ℕ CanonicalIdentity
the_identity issuer subject s = (
  ok record {
    issuer = issuer;
    subject = subject;
    principal_id = anna;
    external_identity_id = annas_identity;
    mapping_reference = "ref_identity1";
    principal_status = "ACTIVE";
    external_identity_status = "ACTIVE";
    actor_type = "human";
    mapping_basis = "ISSUER_SUBJECT";
    valid_until = 700;
  },
  s,
)

abbrev consumer : Consumer ℕ
consumer = record {
  authorities = record {
    trust = the_trust;
    reference = approve_all;
    federation_binding = λ binding scope facet s. (ok the_platform, s);
    verify = λ id snapshot s. (ok (observed, assured), s);
    resolve = the_identity;
  };
  policy = record {
    scope = the_scope;
    max_event_lifetime = pos 60;
    max_authentication_age = pos 50;
    max_decision_lifetime = pos 100;
  };
  now = λ s. s;
  cancelled = λ s. false;
  evidence_digest = λ e. image;
  parse = λ s. some record {
    scheme = "https";
    hostname = "idp";
    has_user = false;
    raw_query = "";
    force_query = false;
    fragment = "";
  };
}

-- The authentication is too old before anything else is over.
abbrev let_in : Decision
let_in = record {
  principal_id = anna;
  external_identity_id = annas_identity;
  authentication_event_id = event_id;
  assurance_level = "BAOBAB-A2";
  expires_at = 135;
}

let_in_run : consume consumer trust_id event_id 100 ≡ (ok let_in, 100)
unfolding consume use_trust consume_event use_event use_identity conclude check_all check asked
    identity_mapping mapping_decision base has_changed resolved_otherwise canonical_refused
    event_denied platform_unverified platform_denied out_of_scope snapshot_refused authenticated_at
    earlier add_time receipt_refused authority_error validate_bundle evidence_refused
    mapping_refused resolution_refused assurance_refused principal_refused fresh validate_trust
    lifecycle_refused identity_refused unique_scope each_scope is_digest valid_scope is_estate
    is_entity valid_binding valid_instance valid_provider exact valid_ref after_prefix is_uuid
    hex_pieces is_small_hex is_hex is_entity_code is_alnum is_small split all_codes contains
    contains_any has_code trim_space trim_left trim_right is_space String-discrete ℕ_discrete longer
    sub_time Scope-discrete ReferenceExpectation-discrete Trust-discrete
let_in_run = refl

consume_lem_example : IsConsumed consumer trust_id event_id 100 let_in 100
consume_lem_example = consume_lem consumer trust_id event_id let_in 100 100 let_in_run
