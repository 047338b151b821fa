-- ===== src/Provider/Errors.antt =====
-- internal/provider/validate.go: a constructor for each message; the kind of each of these errors is
-- `ErrInvalidArgument`.
use baobab_iam.Base.{String}

pub data ProviderError : Type 0 where
  required : String → ProviderError
  not_canonical : String → ProviderError
  ttl_out_of_range use_federated_spec auth_method_required unknown_auth_method : ProviderError
  require_new_needs_secret unknown_lifecycle_status lifecycle_not_for_provision : ProviderError
  scopes_required key_required kid_required audiences_required : ProviderError
  private_key_material : String → ProviderError
  trust_expired traits_required : ProviderError
  business_field : String → ProviderError
