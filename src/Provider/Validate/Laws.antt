-- ===== src/Provider/Validate/Laws.antt =====
-- internal/provider/validate.go: what the checks on a federated trust and on an identity keep out.
use baobab_iam.Base.{
  ℕ, String, Bool, true, false, not, ◌||◌, List, [], ◌∷◌, ◌≡◌, refl, ◌<◌, arith, ltb, ◌==◌,
  is_blank,
}
use baobab_iam.Result.{ok, err, ◌>>◌, refuse_if}
use baobab_iam.Provider.Errors.{
  ProviderError, private_key_material, business_field, key_required, kid_required, trust_expired,
  scopes_required, audiences_required, traits_required,
}
use baobab_iam.Provider.Scopes.{normalize_allowed_scopes}
use baobab_iam.Provider.Specs.{Object, FederatedWorkloadTrustSpec, IdentityProvisioningSpec}
use baobab_iam.Provider.Validate.{
  Check, is_nil, has_key, forbid_keys, private_key_fields, business_fields, validate_federated_spec,
  text_or_empty, value_at, validate_identity_spec, require_non_empty_trimmed,
  validate_for_provision,
}

-- The object has none of the keys.
abbrev pub HasNone : List String → Object → Type 0
HasNone [] o = Unit
HasNone (k ∷ rest) o = (has_key k o ≡ false) × HasNone rest o

then_ok : (c d : Check) → c >> d ≡ ok tt → (c ≡ ok tt) × (d ≡ ok tt)
then_ok (ok u) d h = (refl, h)
then_ok (err e) d h = cc

refuse_ok : (wrong : Bool) (e : ProviderError) → refuse_if wrong e ≡ ok tt → wrong ≡ false
refuse_ok true e h = cc
refuse_ok false e h = refl

forbid_keys-HasNone :
    (message : String → ProviderError) (keys : List String) (o : Object)
    → forbid_keys message keys o ≡ ok tt
    → HasNone keys o
unfolding forbid_keys
forbid_keys-HasNone message [] o h = tt
forbid_keys-HasNone message (k ∷ rest) o h =
    let (first, others) =
      then_ok (refuse_if (has_key k o) (message k)) (forbid_keys message rest o) h in
    (refuse_ok (has_key k o) (message k) first, forbid_keys-HasNone message rest o others)

-- A trust without key material that must stay private, which has not run out.
pub record IsPublicTrust (now : ℕ) (s : FederatedWorkloadTrustSpec) : Type 0 where
  pub no_private_key : HasNone private_key_fields s.assertion_jwk
  pub not_expired : now < s.trust_expires_at
  pub has_scopes : is_nil (normalize_allowed_scopes s.allowed_scopes) ≡ false
  pub has_audiences : is_nil s.intended_audiences ≡ false

not_expired_lem : (now t : ℕ) → (t == 0 || not (ltb now t)) ≡ false → now < t
not_expired_lem now t h = ground arith

-- A federated trust that is accepted at a time has no private key material, ends after that time, and
-- has a scope that is left after normalisation and an audience.
pub validate_federated_spec_lem :
    (now : ℕ) (s : FederatedWorkloadTrustSpec)
    → validate_federated_spec now s ≡ ok tt
    → IsPublicTrust now s
unfolding validate_federated_spec
validate_federated_spec_lem now s h =
    let (_, a) = then_ok (require_non_empty_trimmed "LogicalClientID" s.logical_client_id) _ h in
    let (_, b) = then_ok (require_non_empty_trimmed "AssertionIssuer" s.assertion_issuer) _ a in
    let (_, c) = then_ok (require_non_empty_trimmed "AssertionSubject" s.assertion_subject) _ b in
    let (_, d) = then_ok (refuse_if (is_nil s.assertion_jwk) key_required) _ c in
    let (_, e) =
      then_ok (refuse_if (is_blank (text_or_empty (value_at "kid" s.assertion_jwk))) kid_required) _
        d in
    let (keys, f) =
      then_ok (forbid_keys private_key_material private_key_fields s.assertion_jwk) _ e in
    let (time, g) =
      then_ok
        (refuse_if (s.trust_expires_at == 0 || not (ltb now s.trust_expires_at)) trust_expired) _
        f in
    let (_, i) = then_ok (validate_for_provision s.lifecycle_status) _ g in
    let (scopes, audiences) =
      then_ok (refuse_if (is_nil (normalize_allowed_scopes s.allowed_scopes)) scopes_required) _
        i in
    record {
      no_private_key =
          forbid_keys-HasNone private_key_material private_key_fields s.assertion_jwk keys;
      not_expired = not_expired_lem now s.trust_expires_at (refuse_ok _ trust_expired time);
      has_scopes = refuse_ok _ scopes_required scopes;
      has_audiences = refuse_ok _ audiences_required audiences;
    }

-- An identity that is accepted has traits, and none of the business fields among them.
pub validate_identity_spec_lem :
    (s : IdentityProvisioningSpec)
    → validate_identity_spec s ≡ ok tt
    → (is_nil s.traits ≡ false) × HasNone business_fields s.traits
unfolding validate_identity_spec
validate_identity_spec_lem s h =
    let (traits, rest) = then_ok (refuse_if (is_nil s.traits) traits_required) _ h in
    (
      refuse_ok _ traits_required traits,
      forbid_keys-HasNone business_field business_fields s.traits rest,
    )
