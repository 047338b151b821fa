-- ===== src/Resource/Types.antt =====
-- pkg/workloadresource/gate.go: the claims, the live status, the profile and the ports. A time is the
-- nanoseconds since Go's zero time, a duration a 64-bit integer of nanoseconds.
use baobab_iam.Base.{ℕ, ℤ, String, Bool, List}
use baobab_iam.Action.{Action}

-- `ErrDenied`, and the errors of the ports.
pub data GateError : Type 0 where
  denied : GateError
  failed : String → GateError

-- `Claims`
pub record SignedClaims : Type 0 where
  pub issuer : String
  pub subject : String
  pub client_id : String
  pub audience : List String
  pub scopes : List String
  pub actor_type : String
  pub issued_at : ℕ
  pub not_before : ℕ
  pub expires_at : ℕ

-- `LiveStatus`
pub record LiveStatus : Type 0 where
  pub active : Bool
  pub issuer : String
  pub subject : String
  pub client_id : String
  pub audience : List String
  pub scopes : List String
  pub expires_at : ℕ

-- `Operation`
pub record Operation : Type 0 where
  pub context_id : String
  pub tenant_id : String
  pub resource_operation : String

-- `Profile`
pub record GateProfile : Type 0 where
  pub issuer : String
  pub audience : String
  pub required_scopes : List String
  pub allowed_clients : List String
  pub max_token_age : ℤ

-- `SignedTokenVerifier`, `IssuerStatusReader` and `CurrentAuthority`, over the state of what is
-- outside.
abbrev pub SignedTokenVerifier : Type 0 → Type 0
SignedTokenVerifier S = String → Action GateError S SignedClaims

abbrev pub IssuerStatusReader : Type 0 → Type 0
IssuerStatusReader S = String → Action GateError S LiveStatus

abbrev pub CurrentAuthority : Type 0 → Type 0
CurrentAuthority S = String → SignedClaims → Operation → Action GateError S (Unit {0})

-- `Gate`, with the readings of the clock and of the context's error.
pub record Gate (S : Type 0) : Type 0 where
  pub p : GateProfile
  pub verified : SignedTokenVerifier S
  pub issuer : IssuerStatusReader S
  pub authority : CurrentAuthority S
  pub now : S → ℕ
  pub cancelled : S → Bool

-- What `url.Parse` returns of a text, as far as the program looks into it.
pub record Url : Type 0 where
  pub scheme : String
  pub hostname : String
  pub has_user : Bool
  pub raw_query : String
  pub force_query : Bool
  pub fragment : String
